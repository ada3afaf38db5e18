-- ===== src/Common/Text.antt =====
-- The methods of JavaScript strings that the application uses, over Unicode code points.
use Prim.Native.Char.{Char, code}
use Prim.Native.String
use Prim.Native.String.{[], ◌∷◌}
use mathlib.Core.List
use nestjs_hexagonal_templat.Prelude.{
  ℕ, zero, suc, ◌+◌, ◌-◌, ◌*◌, String, ◌≡◌, refl, ◌≢◌, Bool, true, false, ◌&&◌, ◌||◌, Option, none,
  some, arith, ◌==◌, leb, eqb, if◌then◌else◌,
}
use nestjs_hexagonal_templat.Prelude.Int.{ℤ, pos, negsuc}
use text.Mathlib.TextLemmas.{nil-append, cons-append}

-- White space and line ends, as `trim` and `parseInt` skip them.
abbrev pub is_space : ℕ → Bool
is_space c =
    leb 9 c && leb c 13
    || eqb c 32
    || eqb c 160
    || eqb c 0x1680
    || leb 0x2000 c && leb c 0x200a
    || eqb c 0x2028
    || eqb c 0x2029
    || eqb c 0x202f
    || eqb c 0x205f
    || eqb c 0x3000
    || eqb c 0xfeff

unfoldable pub trim_start : String → String
trim_start [] = ""
trim_start (c ∷ s) = let rest = trim_start s in if is_space (code c) then rest else c ∷ s

unfoldable pub trim_end : String → String
trim_end [] = ""
trim_end (c ∷ s) = let rest = trim_end s in if is_space (code c) && rest == "" then "" else c ∷ rest

-- s.trim()
unfoldable pub trim : String → String
unfolding trim_start trim_end
trim s = trim_end (trim_start s)

abbrev prepend : Char → List.List String → List.List String
prepend c List.[] = List.◌∷◌ (c ∷ "") List.[]
prepend c (List.◌∷◌ p ps) = List.◌∷◌ (c ∷ p) ps

-- s.split(sep), for a separator of one character
unfoldable pub split : ℕ → String → List.List String
split sep [] = List.◌∷◌ "" List.[]
split sep (c ∷ s) =
    let rest = split sep s in if eqb (code c) sep then List.◌∷◌ "" rest else prepend c rest

-- No character of the text is `sep`.
abbrev pub IsFree : ℕ → String → Type 0
IsFree sep [] = Unit
IsFree sep (c ∷ s) = (code c ≢ sep) × IsFree sep s

abbrev pub is_digit : ℕ → Bool
is_digit c = leb 48 c && leb c 57

-- The digits at the front of a text, after the value of those read; `seen` tells that there was one.
unfoldable pub read_digits : Bool → ℕ → String → Option ℕ
read_digits seen acc [] = if seen then some acc else none
read_digits seen acc (c ∷ s) =
    let rest = read_digits true (acc * 10 + (code c - 48)) s in
    if is_digit (code c) then rest else if seen then some acc else none

abbrev negate : Option ℕ → Option ℤ
negate none = none
negate (some zero) = some (pos 0)
negate (some (suc n)) = some (negsuc n)

abbrev positive : Option ℕ → Option ℤ
positive none = none
positive (some n) = some (pos n)

abbrev signed : String → Option ℤ
signed [] = none
signed (c ∷ s) =
    if eqb (code c) b'-'
    then negate (read_digits false 0 s)
    else if eqb (code c) b'+'
    then positive (read_digits false 0 s)
    else positive (read_digits false 0 (c ∷ s))

-- parseInt(s, 10); none is NaN, and the value is exact where a double would round it.
unfoldable pub parse_int : String → Option ℤ
unfolding read_digits trim_start
parse_int s = signed (trim_start s)

-- A text with no separator in front of one is split off whole.
pub split-append :
    (sep : ℕ) (c : Char) (a b : String)
    → code c ≡ sep
    → IsFree sep a
    → split sep (String.◌++◌ a (c ∷ b)) ≡ List.◌∷◌ a (split sep b)
unfolding split
split-append sep c [] b e h = rw nil-append (ground arith)
split-append sep c (d ∷ a) b e (n, h) = rw cons-append (ground (arith, split-append sep c a b e h))

pub split_free : (sep : ℕ) (a : String) → IsFree sep a → split sep a ≡ List.◌∷◌ a List.[]
unfolding split
split_free sep [] h = refl
split_free sep (d ∷ a) (n, h) = ground (arith, split_free sep a h)
