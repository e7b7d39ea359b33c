-- ===== src/Prelude/Texts.antt =====
-- Texts as lists of code points, and the parts of the JavaScript library that walk them.
use Prim.Native.String.{◌++◌ as text_append, len, slice}
use text.Mathlib.TextPositions.{len-append, slice-append_right}
use Prim.Native.Nat.{ℕ, ◌+◌, ◌-◌, ◌*◌}
use Prim.Native.Char.{code}
use Prim.Native.String.{String}
use mathlib.Core.Path.{◌≡◌, sym, ap, ◌∙◌}
use native.Mathlib.Omega.{arith}
use mathlib.Core.Bool.{Bool, true, false, ◌&&◌, ◌||◌}
use mathlib.Core.List.{List, [], ◌∷◌}
use mathlib.Core.Option.{Option, none, some}
use mash_backend.Prelude.Tests.{leb, ◌==◌, if◌then◌else◌}
use mash_backend.Prelude.Int.{ℤ, pos, ◌-ℤ◌}

abbrev pub codes : String → List ℕ
codes String.[] = []
codes (String.◌∷◌ c s) = code c ∷ codes s

-- `s.split(sep)` for a one-character separator. The first part is the one that grows.
abbrev pub onto_first : ℕ → List (List ℕ) → List (List ℕ)
onto_first c [] = (c ∷ []) ∷ []
onto_first c (p ∷ ps) = (c ∷ p) ∷ ps

unfoldable pub split : ℕ → List ℕ → List (List ℕ)
split sep [] = [] ∷ []
split sep (c ∷ cs) = if c == sep then [] ∷ split sep cs else onto_first c (split sep cs)

unfoldable pub is_digit : ℕ → Bool
is_digit c = leb b'0' c && leb c b'9'

-- The white space and line ends that `parseInt` skips.
unfoldable pub is_space : ℕ → Bool
is_space c =
    (leb 9 c && leb c 13)
    || (c == 32)
    || (c == 160)
    || (c == 5760)
    || (leb 8192 c && leb c 8202)
    || (c == 8232)
    || (c == 8233)
    || (c == 8239)
    || (c == 8287)
    || (c == 12288)
    || (c == 65279)

-- The value of the longest run of digits at the front, after `n`.
unfoldable pub digits_from : ℕ → List ℕ → ℕ
unfolding is_digit
digits_from n [] = n
digits_from n (c ∷ cs) = elim (is_digit c) [ true ↦ digits_from (n * 10 + (c - b'0')) cs | _ ↦ n ]

-- `none` is `NaN`: there is no digit.
unfoldable pub unsigned : List ℕ → Option ℕ
unfolding is_digit digits_from
unsigned [] = none
unsigned (c ∷ cs) = if is_digit c then some (digits_from 0 (c ∷ cs)) else none

abbrev pub negated : Option ℕ → Option ℤ
negated none = none
negated (some n) = some (pos 0 -ℤ pos n)

abbrev pub signed : Option ℕ → Option ℤ
signed none = none
signed (some n) = some (pos n)

-- `parseInt(s, 10)`.
unfoldable pub parse_int : List ℕ → Option ℤ
unfolding is_space unsigned ◌-ℤ◌
parse_int [] = none
parse_int (c ∷ cs) =
    let skipped = parse_int cs in
    if is_space c
    then skipped
    else if c == b'-'
    then negated (unsigned cs)
    else if c == b'+'
    then signed (unsigned cs)
    else signed (unsigned (c ∷ cs))

-- Texts with one prefix are equal only if the rest is.
pub append_cancel : (s t u : String) → text_append s t ≡ text_append s u → t ≡ u
append_cancel s t u h =
    let same : len t ≡ len u = omega (arith, sym (len-append s t) ∙ ap len h ∙ len-append s u) in
    sym (slice-append_right s t)
    ∙ ap (λ k. slice (text_append s t) (len s) (len s + k)) same
    ∙ ap (λ v. slice v (len s) (len s + len u)) h
    ∙ slice-append_right s u

-- `s.includes(t)`.
unfoldable pub starts_with : List ℕ → List ℕ → Bool
starts_with s [] = true
starts_with [] (d ∷ t) = false
starts_with (c ∷ s) (d ∷ t) = (c == d) && starts_with s t

unfoldable pub text_includes : List ℕ → List ℕ → Bool
unfolding starts_with
text_includes [] t = starts_with [] t
text_includes (c ∷ s) t = starts_with (c ∷ s) t || text_includes s t
