-- ===== src/WebSocket/Agreement.antt =====
-- The maps of the connection manager over its calls (connection-manager.service.ts).
use mash_backend.Prelude.{
  ℕ, ◌≡◌, refl, ap, sym, ◌∙◌, inl, inr, String, Bool, true, false, Option, none, some, List, [],
  ◌∷◌, arith, if◌then◌else◌, ===_iff, ===_refl, string_eq, Map, get, get-put, Option-cases,
}
use mash_backend.WebSocket.{
  AuthenticatedSocket, ConnectionManager, member, add, or_empty, add_connection, remove_connection,
  assign, update_activity, add_room, remove_room, cleanup, is_user_connected, not_empty, is_idle,
  track_message, reset_stats, cleanup_inactive_connections,
}
use mash_backend.WebSocket.Maps.{
  owns, IsValid, member-add, add_full, member-put, owns-put, owns-remove, member-without_socket,
  without_socket_full,
}

pub add_connection-IsValid :
    (m : ConnectionManager) (s : AuthenticatedSocket) (now : ℕ)
    → get s.id m.connections ≡ none
    → IsValid m
    → IsValid (add_connection m s now)
unfolding add_connection
add_connection-IsValid m s now fresh v = record {
  sets = λ k u.
      let ids = or_empty (get s.user_id m.user_connections) in
      ground (
        arith,
        member-put k u s.user_id (add s.id ids) m.user_connections,
        member-add k s.id ids,
        owns-put k u s.id s m.connections,
        v.sets k u,
        v.sets k s.user_id,
        ===_iff s.user_id u,
        ===_iff s.id k,
        fresh,
      );
  full = λ u e.
      let ids = or_empty (get s.user_id m.user_connections) in
      ground (
        arith,
        get-put u s.user_id (add s.id ids) m.user_connections,
        add_full s.id ids,
        v.full u,
        e,
      );
}

pub remove_connection-IsValid :
    (m : ConnectionManager) (j : String) → IsValid m → IsValid (remove_connection m j)
unfolding remove_connection
remove_connection-IsValid m j v = elim (Option-cases (get j m.connections)) [
  | inl e ↦ rw (e, remove_connection) v
  | inr (s, e) ↦
      rw (e, remove_connection)
        (record {
          sets = λ k u. ground (
            arith,
            member-without_socket k u s.user_id j m.user_connections,
            owns-remove k u j m.connections,
            v.sets k u,
            v.sets j u,
            ===_iff s.user_id u,
            ===_iff j k,
            e,
          );
          full = λ u. without_socket_full u s.user_id j m.user_connections (v.full u);
        })
]

owns-assign :
    (k u j : String) (f : AuthenticatedSocket → AuthenticatedSocket)
    (m : Map String AuthenticatedSocket)
    → ((s : AuthenticatedSocket) → (f s).user_id ≡ s.user_id)
    → owns u (get k (assign j f m)) ≡ owns u (get k m)
unfolding assign
owns-assign k u j f m same = elim (Option-cases (get j m)) [
  | inl e ↦ rw (assign, e) refl
  | inr (s, e) ↦
      rw (assign, e)
        (owns-put k u j (f s) m
          ∙ ground (arith, same s, ===_iff j k, e, ap (λ x. get x m) {x = j} {y = k}))
]

update_activity-IsValid :
    (m : ConnectionManager) (j : String) (now : ℕ) → IsValid m → IsValid (update_activity m j now)
unfolding update_activity
update_activity-IsValid m j now v = record {
  sets = λ k u.
      v.sets k u
      ∙ sym (
          owns-assign k u j (λ s. record s { last_activity = some now }) m.connections (λ s. refl));
  full = v.full;
}

pub cleanup-IsValid :
    (timeout now : ℕ) (es : List (String × AuthenticatedSocket)) (m : ConnectionManager)
    → IsValid m
    → IsValid (cleanup timeout now m es).0
unfolding cleanup
cleanup-IsValid timeout now [] m v = v
cleanup-IsValid timeout now ((k, s) ∷ es) m v =
    cleanup-IsValid timeout now es (if idle then remove_connection m k else m) (either idle)
  where
    idle : Bool
    idle = is_idle timeout now s.last_activity

    either : (b : Bool) → IsValid (if b then remove_connection m k else m)
    either true = remove_connection-IsValid m k v
    either false = v

-- A call that changes the manager.
pub data Call : Type 0 where
  to_add : AuthenticatedSocket → ℕ → Call
  to_remove : String → Call
  to_touch : String → ℕ → Call
  to_join to_leave : String → String → Call
  to_track : Bool → ℕ → Call
  to_clean : ℕ → ℕ → Call
  to_reset : ℕ → Call

unfoldable pub handle : ConnectionManager → Call → ConnectionManager
unfolding add_connection remove_connection update_activity add_room remove_room track_message
    cleanup_inactive_connections reset_stats
handle m (to_add s now) = add_connection m s now
handle m (to_remove k) = remove_connection m k
handle m (to_touch k now) = update_activity m k now
handle m (to_join k room) = add_room m k room
handle m (to_leave k room) = remove_room m k room
handle m (to_track ok now) = track_message m ok now
handle m (to_clean timeout now) = (cleanup_inactive_connections m timeout now).0
handle m (to_reset now) = reset_stats m now

-- Only sockets with new ids are added, as socket.io makes them.
abbrev pub IsFresh : ConnectionManager → Call → Type 0
IsFresh m (to_add s now) = get s.id m.connections ≡ none
IsFresh m _ = Unit

-- Every call of the manager keeps the agreement of its maps, as long as an added socket has a new id:
-- the set of a user holds the ids of exactly the user's open sockets, and no set is empty.
pub handle-IsValid :
    (m : ConnectionManager) (c : Call) → IsFresh m c → IsValid m → IsValid (handle m c)
unfolding handle add_room remove_room track_message cleanup_inactive_connections reset_stats
handle-IsValid m (to_add s now) f v = add_connection-IsValid m s now f v
handle-IsValid m (to_remove k) f v = remove_connection-IsValid m k v
handle-IsValid m (to_touch k now) f v = update_activity-IsValid m k now v
handle-IsValid m (to_join k room) f v = record { sets = v.sets; full = v.full }
handle-IsValid m (to_leave k room) f v = record { sets = v.sets; full = v.full }
handle-IsValid m (to_track ok now) f v = record { sets = v.sets; full = v.full }
handle-IsValid m (to_clean timeout now) f v = cleanup-IsValid timeout now m.connections m v
handle-IsValid m (to_reset now) f v = record { sets = v.sets; full = v.full }

member_first : (x : String) (xs : List String) → member x (x ∷ xs) ≡ true
unfolding member
member_first x xs = ground (arith, ===_refl x)

owned :
    (u : String) (o : Option AuthenticatedSocket)
    → owns u o ≡ true
    → (s : AuthenticatedSocket) × (o ≡ some s) × (s.user_id ≡ u)
owned u none h = cc
owned u (some s) h = (s, refl, (===_iff s.user_id u).0 h)

-- Where the maps agree, a user counts as connected exactly when some open socket is the user's.
pub is_user_connected_iff :
    (m : ConnectionManager) (u : String)
    → IsValid m
    → (is_user_connected m u ≡ true
        → (k : String) × (s : AuthenticatedSocket) × (get k m.connections ≡ some s)
          × (s.user_id ≡ u))
      × ((k : String) (s : AuthenticatedSocket)
          → get k m.connections ≡ some s
          → s.user_id ≡ u
          → is_user_connected m u ≡ true)
unfolding is_user_connected member
is_user_connected_iff m u v = (there, back)
  where
    there :
        not_empty (get u m.user_connections) ≡ true
        → (k : String) × (s : AuthenticatedSocket) × (get k m.connections ≡ some s)
          × (s.user_id ≡ u)
    there h = elim (Option-cases (get u m.user_connections)) [
      | inl e ↦ absurd (ground (arith, h, e))
      | inr ([], e) ↦ absurd (v.full u e)
      | inr (k ∷ ks, e) ↦
          let (s, open_, own) =
            owned u (get k m.connections)
              (sym (v.sets k u) ∙ ap (λ o. member k (or_empty o)) e ∙ member_first k ks) in
          (k, s, open_, own)
    ]

    back :
        (k : String) (s : AuthenticatedSocket)
        → get k m.connections ≡ some s
        → s.user_id ≡ u
        → not_empty (get u m.user_connections) ≡ true
    back k s e same = elim (Option-cases (get u m.user_connections)) [
      | inl n ↦
          ground
            (arith, v.sets k u, ap (λ o. member k (or_empty o)) n, e, same, ===_iff s.user_id u)
      | inr ([], n) ↦ absurd (v.full u n)
      | inr (j ∷ js, n) ↦ rw n (ground arith)
    ]
