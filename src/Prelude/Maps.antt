-- ===== src/Prelude/Maps.antt =====
-- A JavaScript `Map`: its entries in the order of insertion. `put` keeps the place of a key that is
-- there, as `Map.set` does. `remove` drops every entry of its key, so no law needs unique keys.
use mathlib.Core.Path.{◌≡◌, refl}
use mathlib.Core.List.{List, [], ◌∷◌, map}
use mathlib.Core.Option.{Option, none, some}
use native.Mathlib.Omega.{arith}
use mash_backend.Prelude.Tests.{if◌then◌else◌, Eq, ◌===◌, ===_iff}

abbrev pub Map {ℓ κ} : Type ℓ → Type κ → Type (ℓ ⊔ κ)
Map K V = List (K × V)

module _ {ℓ κ} {K : Type ℓ} {V : Type κ} ⦃e : Eq K⦄ where
  unfoldable pub get : K → Map K V → Option V
  get k [] = none
  get k ((j, v) ∷ m) = if j === k then some v else get k m

  unfoldable pub put : K → V → Map K V → Map K V
  put k v [] = (k, v) ∷ []
  put k v ((j, w) ∷ m) = if j === k then (j, v) ∷ m else (j, w) ∷ put k v m

  unfoldable pub remove : K → Map K V → Map K V
  remove k [] = []
  remove k ((j, w) ∷ m) = if j === k then remove k m else (j, w) ∷ remove k m

  pub get-put :
      (j k : K) (v : V) (m : Map K V) → get j (put k v m) ≡ (if k === j then some v else get j m)
  unfolding get put
  get-put j k v [] = refl
  get-put j k v ((i, w) ∷ m) =
      ground (arith, ===_iff i k, ===_iff i j, ===_iff k j, get-put j k v m)

  pub get-remove :
      (j k : K) (m : Map K V) → get j (remove k m) ≡ (if k === j then none else get j m)
  unfolding get remove
  get-remove j k [] = ground arith
  get-remove j k ((i, w) ∷ m) =
      ground (arith, ===_iff i k, ===_iff i j, ===_iff k j, get-remove j k m)

  pub put-put : (k : K) (v w : V) (m : Map K V) → put k v (put k w m) ≡ put k v m
  unfolding put
  put-put k v w [] = ground (arith, ===_iff k k)
  put-put k v w ((i, u) ∷ m) = ground (arith, ===_iff i k, put-put k v w m)

  pub put-get : (k : K) (v : V) (m : Map K V) → get k m ≡ some v → put k v m ≡ m
  unfolding put get
  put-get k v [] h = cc
  put-get k v ((i, u) ∷ m) h = ground (arith, put-get k v m)

-- `new Map().values()`.
abbrev pub values {ℓ κ} : {K : Type ℓ} {V : Type κ} → Map K V → List V
values m = map (λ p. p.1) m
