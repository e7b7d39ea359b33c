-- ===== src/Cart.antt =====
-- src/modules/cart: the cart, its totals and its shipping, and the order made of it.
pub mod Types
pub mod Database
pub mod Shipping
pub mod Totals
pub mod Cache
pub mod Merging
pub mod Checkout
mod Memory
mod Examples
pub mod Balance
pub mod Limits
