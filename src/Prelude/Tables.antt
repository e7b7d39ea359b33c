-- ===== src/Prelude/Tables.antt =====
-- A table of a database by the ids of its rows, and what the client's calls make of it.
use Prim.Native.String.{String}
use mathlib.Core.Path.{◌≡◌}
use mathlib.Core.List.{[], ◌∷◌}
use mathlib.Core.Option.{Option, none, some}
use native.Mathlib.Omega.{arith}
use mash_backend.Prelude.Tests.{if◌then◌else◌, ◌===◌, ===_iff, string_eq}
use mash_backend.Prelude.Maps.{Map, get}

abbrev pub Table : Type 0 → Type 0
Table A = String → Option A

abbrev pub mapped : {A B : Type 0} → (A → B) → Option A → Option B
mapped f none = none
mapped f (some a) = some (f a)

module _ {A : Type 0} where
  abbrev pub added : String → A → Table A → Table A
  added id a t j = if id === j then some a else t j

  abbrev pub changed : String → (A → A) → Table A → Table A
  changed id f t j = if id === j then mapped f (t id) else t j

  abbrev pub dropped : String → Table A → Table A
  dropped id t j = if id === j then none else t j

-- A map with the values under one key changed.
unfoldable pub adjust : {V : Type 0} → String → (V → V) → Map String V → Map String V
adjust k f [] = []
adjust k f ((j, v) ∷ m) = if j === k then (j, f v) ∷ adjust k f m else (j, v) ∷ adjust k f m

pub get-adjust :
    {V : Type 0} (k j : String) (f : V → V) (m : Map String V)
    → get j (adjust k f m) ≡ (if k === j then mapped f (get k m) else get j m)
unfolding get adjust
get-adjust k j f [] = ground arith
get-adjust k j f ((i, v) ∷ m) =
    ground (arith, ===_iff i k, ===_iff i j, ===_iff k j, get-adjust k j f m)
