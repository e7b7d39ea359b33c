-- ===== src/SellerVerification.antt =====
-- src/modules/seller-verification: how the documents of a seller's application are reviewed.
pub mod Types
pub mod Database
pub mod Documents
pub mod Status
pub mod Timeline
pub mod Reviews
pub mod Effects
pub mod Flagged
pub mod Agreement
mod Memory
mod Examples
