-- ===== src/Common/Patterns.antt =====
-- The regular expressions of the application, as tests on a text. Letters are compared as the flag
-- `i` does without `u`: no letter outside ASCII equals one inside it.
use Prim.Native.Char.{code}
use Prim.Native.String.{String, [], ◌∷◌, ◌++◌}
use text.Mathlib.TextLemmas.{nil-append, cons-append}
use nestjs_hexagonal_templat.Prelude.{
  ℕ, zero, suc, ◌+◌, ◌≡◌, refl, inl, inr, Bool, true, false, ◌&&◌, ◌||◌, Option, none, some, arith,
  leb, eqb, if◌then◌else◌, Bool-cases,
}

abbrev pub fold_case : ℕ → ℕ
fold_case c = if leb 65 c && leb c 90 then c + 32 else c

-- Whether `s` starts with `word`, letters of either case.
unfoldable pub starts : String → String → Bool
starts [] s = true
starts (c ∷ word) [] = false
starts (c ∷ word) (d ∷ s) =
    let rest = starts word s in eqb (fold_case (code c)) (fold_case (code d)) && rest

-- What is left of `s` after `word`, none where it does not start so.
unfoldable pub after : String → String → Option String
after [] s = some s
after (c ∷ word) [] = none
after (c ∷ word) (d ∷ s) =
    let rest = after word s in if eqb (fold_case (code c)) (fold_case (code d)) then rest else none

-- [-_]?
abbrev pub skip_dash : String → String
skip_dash [] = ""
skip_dash (c ∷ s) = if eqb (code c) b'-' || eqb (code c) b'_' then s else c ∷ s

-- The pattern `p` at some place of the text.
unfoldable pub occurs : (String → Bool) → String → Bool
occurs p [] = p ""
occurs p (c ∷ s) = let rest = occurs p s in p (c ∷ s) || rest

abbrev pub is_hex : ℕ → Bool
is_hex c = leb 48 c && leb c 57 || (leb 65 c && leb c 70 || leb 97 c && leb c 102)

-- What is left after `n` hexadecimal digits.
unfoldable pub skip_hex : ℕ → String → Option String
skip_hex zero s = some s
skip_hex (suc n) [] = none
skip_hex (suc n) (c ∷ s) = let rest = skip_hex n s in if is_hex (code c) then rest else none

pub starts-append : (word s rest : String) → starts word s ≡ true → starts word (s ++ rest) ≡ true
unfolding starts
starts-append [] s rest h = refl
starts-append (c ∷ word) [] rest h = ground arith
starts-append (c ∷ word) (d ∷ s) rest h = rw cons-append (ground (arith, starts-append word s rest))

occurs_here : (p : String → Bool) (s : String) → p s ≡ true → occurs p s ≡ true
unfolding occurs
occurs_here p [] h = h
occurs_here p (c ∷ s) h = rw h refl

occurs_before :
    (p : String → Bool) (before s : String) → occurs p s ≡ true → occurs p (before ++ s) ≡ true
unfolding occurs
occurs_before p [] s h = rw nil-append h
occurs_before p (c ∷ before) s h = rw cons-append (ground (arith, occurs_before p before s h))

occurs_behind :
    (p : String → Bool) (s rest : String)
    → ((t : String) → p t ≡ true → p (t ++ rest) ≡ true)
    → occurs p s ≡ true
    → occurs p (s ++ rest) ≡ true
unfolding occurs
occurs_behind p [] rest k h = occurs_here p ("" ++ rest) (k "" h)
occurs_behind p (d ∷ s) rest k h = elim (Bool-cases (p (d ∷ s))) [
  | inl hit ↦ occurs_here p ((d ∷ s) ++ rest) (k (d ∷ s) hit)
  | inr miss ↦
      let there : occurs p s ≡ true = ground arith in
      rw cons-append (ground (arith, occurs_behind p s rest k there))
]

-- A pattern that more text behind it does not undo is found in a longer text too.
pub occurs-append :
    (p : String → Bool) (before s rest : String)
    → ((t : String) → p t ≡ true → p (t ++ rest) ≡ true)
    → occurs p s ≡ true
    → occurs p (before ++ (s ++ rest)) ≡ true
occurs-append p before s rest k h = occurs_before p before (s ++ rest) (occurs_behind p s rest k h)
