-- ===== src/WebSocket/Maps.antt =====
-- A user's set of sockets under the operations of connection-manager.service.ts on its maps.
use mash_backend.Prelude.{
  ℕ, zero, suc, ◌+◌, ◌<◌, ◌≡◌, ◌≢◌, refl, ap, sym, ◌∙◌, inl, inr, String, Bool, true, false, not,
  ◌&&◌, ◌||◌, Option, none, some, List, [], ◌∷◌, ◌++◌, arith, if◌then◌else◌, ◌==◌, ◌===◌, ===_iff,
  ===_refl, string_eq, ltb, length, keep, Map, get, put, get-put, get-remove, Bool-cases,
  Option-cases,
}
use mash_backend.Prelude
use mash_backend.WebSocket.{
  AuthenticatedSocket, ConnectionManager, member, add, drop, or_empty, without_socket,
}

-- Whether it is a socket of that user.
abbrev pub owns : String → Option AuthenticatedSocket → Bool
owns u none = false
owns u (some s) = s.user_id === u

-- A user's set holds the ids of exactly the user's open sockets, and is never empty.
pub record IsValid (m : ConnectionManager) : Type 0 where
  pub sets :
      (k u : String) → member k (or_empty (get u m.user_connections)) ≡ owns u (get k m.connections)
  pub full : (u : String) → get u m.user_connections ≢ some []

pub member-append :
    (k : String) (xs ys : List String) → member k (xs ++ ys) ≡ (member k xs || member k ys)
unfolding member
member-append k [] ys = refl
member-append k (x ∷ xs) ys = ground (arith, member-append k xs ys)

pub member-add : (k j : String) (ks : List String) → member k (add j ks) ≡ (j === k || member k ks)
unfolding add member
member-add k j ks = ground (arith, member-append k ks (j ∷ []), ===_iff j k)

pub member-drop :
    (k j : String) (ks : List String) → member k (drop j ks) ≡ (not (j === k) && member k ks)
unfolding drop member
member-drop k j [] = ground arith
member-drop k j (x ∷ ks) = ground (arith, member-drop k j ks, ===_iff x j, ===_iff x k, ===_iff j k)

pub add_full : (j : String) (ks : List String) → add j ks ≢ []
unfolding add member
add_full j [] h = cc
add_full j (k ∷ ks) h = ground (arith, h)

-- What the user's set holds after the change of one user's set.
pub member-put :
    (k u v : String) (ks : List String) (users : Map String (List String))
    → member k (or_empty (get u (put v ks users)))
      ≡ (if v === u then member k ks else member k (or_empty (get u users)))
member-put k u v ks users = ground (arith, get-put u v ks users)

pub member-remove :
    (k u v : String) (users : Map String (List String))
    → member k (or_empty (get u (Prelude.remove v users)))
      ≡ (if v === u then false else member k (or_empty (get u users)))
unfolding member
member-remove k u v users = ground (arith, get-remove u v users)

pub owns-put :
    (k u j : String) (s : AuthenticatedSocket) (m : Map String AuthenticatedSocket)
    → owns u (get k (put j s m)) ≡ (if j === k then s.user_id === u else owns u (get k m))
owns-put k u j s m = ground (arith, get-put k j s m)

pub owns-remove :
    (k u j : String) (m : Map String AuthenticatedSocket)
    → owns u (get k (Prelude.remove j m)) ≡ (if j === k then false else owns u (get k m))
owns-remove k u j m = ground (arith, get-remove k j m)

pub length_none-drop : (j : String) (ks : List String) → length ks ≡ 0 → ks ≡ []
length_none-drop j [] e = refl
length_none-drop j (k ∷ ks) e = absurd (omega (arith, e))

-- What the sets hold after a socket has left its user's set.
pub member-without_socket :
    (k u v j : String) (users : Map String (List String))
    → member k (or_empty (get u (without_socket v j users))) ≡ (
        if v === u
        then not (j === k) && member k (or_empty (get u users))
        else member k (or_empty (get u users)))
unfolding without_socket member
member-without_socket k u v j users = elim (Option-cases (get v users)) [
  | inl e ↦
      rw (e, without_socket) (ground (arith, ===_iff v u, e, ap (λ x. get x users) {x = v} {y = u}))
  | inr (ids, e) ↦ elim (Bool-cases (length (drop j ids) == 0)) [
    | inl z ↦
        rw (e, without_socket, z)
          (ground (
            arith,
            member-remove k u v users,
            member-drop k j ids,
            ===_iff v u,
            e,
            ap (λ x. get x users) {x = v} {y = u},
            length_none-drop j (drop j ids),
            z,
          ))
    | inr z ↦
        rw (e, without_socket, z)
          (ground (
            arith,
            member-put k u v (drop j ids) users,
            member-drop k j ids,
            ===_iff v u,
            e,
            ap (λ x. get x users) {x = v} {y = u},
          ))
  ]
]

pub without_socket_full :
    (u v j : String) (users : Map String (List String))
    → get u users ≢ some []
    → get u (without_socket v j users) ≢ some []
unfolding without_socket
without_socket_full u v j users full = elim (Option-cases (get v users)) [
  | inl e ↦ rw (e, without_socket) full
  | inr (ids, e) ↦ elim (Bool-cases (length (drop j ids) == 0)) [
    | inl z ↦ rw (e, without_socket, z) (λ h. ground (arith, get-remove u v users, full, h))
    | inr z ↦
        rw (e, without_socket, z) (λ h. ground (arith, get-put u v (drop j ids) users, full, h, z))
  ]
]
