-- ===== src/Common/Password.antt =====
-- src/common/validation/password.schema.ts: the one policy of passwords, as zod checks it on the routes
-- and as SuperTokens calls it. The length of a text counts code units of UTF-16.
use Prim.Native.Char.{code}
use Prim.Native.String.{String, [], ◌∷◌, ◌++◌}
use mathlib.Core.List
use nestjs_hexagonal_templat.Prelude.{
  ℕ, ◌≡◌, ◌↔◌, refl, Bool, true, false, ◌&&◌, ◌||◌, Option, none, some, List, leb,
}
use nestjs_hexagonal_templat.Common.Json.{Json, null, bool, num, str, arr, obj}
use nestjs_hexagonal_templat.Common.Pipes.{Schema, text_length}

abbrev pub password_min_length : ℕ
password_min_length = 8

abbrev pub password_max_length : ℕ
password_max_length = 99

-- A character of the text is within a range.
unfoldable pub has_between : ℕ → ℕ → String → Bool
has_between lo hi [] = false
has_between lo hi (c ∷ s) =
    let rest = has_between lo hi s in leb lo (code c) && leb (code c) hi || rest

-- An issue where a check fails.
abbrev check : Bool → String → List.List String → List.List String
check true message issues = issues
check false message issues = List.◌∷◌ message issues

-- The issues of `passwordSchema.safeParse` for a text, in the order of the checks.
unfoldable pub password_issues : String → List.List String
unfolding text_length has_between
password_issues s = check (leb password_min_length (text_length s)) "Mínimo 8 caracteres" (
    check (leb (text_length s) password_max_length) "Máximo 99 caracteres" (
      check (has_between b'A' b'Z' s) "Deve conter pelo menos uma letra maiúscula" (
        check (has_between b'a' b'z' s) "Deve conter pelo menos uma letra minúscula"
          (check (has_between b'0' b'9' s) "Deve conter pelo menos um número" List.[]))))

abbrev accepted : String → List.List String → Option String
accepted s List.[] = some s
accepted s (List.◌∷◌ i is) = none

-- passwordSchema
unfoldable pub password_schema : Schema String
unfolding password_issues
password_schema (some (str s)) = accepted s (password_issues s)
password_schema _ = none

-- issues.map((issue) => issue.message).join('; ')
unfoldable pub join_issues : String → List.List String → String
join_issues i List.[] = i
join_issues i (List.◌∷◌ j is) = i ++ ("; " ++ join_issues j is)

abbrev joined : List.List String → Option String
joined List.[] = none
joined (List.◌∷◌ i is) = some (join_issues i is)

-- validatePasswordPolicy; none is `undefined`.
unfoldable pub validate_password_policy : Option Json → Option String
unfolding password_issues join_issues
validate_password_policy (some (str s)) = joined (password_issues s)
validate_password_policy _ = some "Senha inválida"

-- What a password has to have.
abbrev pub IsStrong : String → Type 0
IsStrong s =
    (leb 8 (text_length s) ≡ true)
    × (leb (text_length s) 99 ≡ true)
    × (has_between b'A' b'Z' s ≡ true)
    × (has_between b'a' b'z' s ≡ true)
    × (has_between b'0' b'9' s ≡ true)

all_checked :
    (a b c d e : Bool) (i j k l m : String)
    → (check a i (check b j (check c k (check d l (check e m List.[])))) ≡ List.[])
      ↔ ((a ≡ true) × (b ≡ true) × (c ≡ true) × (d ≡ true) × (e ≡ true))
all_checked true true true true true i j k l m = (λ h. (refl, refl, refl, refl, refl), λ h. refl)
all_checked true true true true false i j k l m = (λ h. absurd (cc (h)), λ h. absurd (cc (h.4)))
all_checked true true true false e i j k l m = (λ h. absurd (cc (h)), λ h. absurd (cc (h.3)))
all_checked true true false d e i j k l m = (λ h. absurd (cc (h)), λ h. absurd (cc (h.2)))
all_checked true false c d e i j k l m = (λ h. absurd (cc (h)), λ h. absurd (cc (h.1)))
all_checked false b c d e i j k l m = (λ h. absurd (cc (h)), λ h. absurd (cc (h.0)))

password_issues-IsStrong : (s : String) → (password_issues s ≡ List.[]) ↔ IsStrong s
unfolding password_issues
password_issues-IsStrong s =
    all_checked (leb password_min_length (text_length s)) (leb (text_length s) password_max_length)
      (has_between b'A' b'Z' s) (has_between b'a' b'z' s) (has_between b'0' b'9' s) _ _ _ _ _

-- A text that meets the policy.
abbrev pub IsPassword : Option Json → Type 0
IsPassword v = (s : String) × (v ≡ some (str s)) × IsStrong s

text_agrees :
    (s : String) (issues : List.List String)
    → (issues ≡ List.[]) ↔ IsStrong s
    → ((joined issues ≡ none) ↔ IsPassword (some (str s)))
      × (((t : String) × (accepted s issues ≡ some t)) ↔ IsPassword (some (str s)))
text_agrees s List.[] h =
    ((λ e. (s, refl, h.0 refl), λ p. refl), (λ p. (s, refl, h.0 refl), λ p. (s, refl)))
text_agrees s (List.◌∷◌ i is) h = (
  (λ e. absurd (cc (e)), λ p. absurd (cc (h.1 (strong p)))),
  (λ p. absurd (cc (p.1)), λ p. absurd (cc (h.1 (strong p)))),
)
  where
    strong : IsPassword (some (str s)) → IsStrong s
    strong (t, e, k) = let same : s ≡ t = cc in rw same k

-- The policy of passwords: SuperTokens' validator finds nothing wrong exactly with the texts of 8 to 99
-- code units of UTF-16 that have a letter from A to Z, a letter from a to z and a digit, and the schema
-- of the routes lets exactly those values pass.
pub password_schema-agrees :
    (v : Option Json)
    → ((validate_password_policy v ≡ none) ↔ IsPassword v)
      × (((t : String) × (password_schema v ≡ some t)) ↔ IsPassword v)
unfolding password_schema validate_password_policy
password_schema-agrees (some (str s)) =
    text_agrees s (password_issues s) (password_issues-IsStrong s)
password_schema-agrees none = (
  (λ e. absurd (cc (e)), λ p. absurd (cc (p.1))),
  (λ p. absurd (cc (p.1)), λ p. absurd (cc (p.1))),
)
password_schema-agrees (some null) = (
  (λ e. absurd (cc (e)), λ p. absurd (cc (p.1))),
  (λ p. absurd (cc (p.1)), λ p. absurd (cc (p.1))),
)
password_schema-agrees (some (bool b)) = (
  (λ e. absurd (cc (e)), λ p. absurd (cc (p.1))),
  (λ p. absurd (cc (p.1)), λ p. absurd (cc (p.1))),
)
password_schema-agrees (some (num n)) = (
  (λ e. absurd (cc (e)), λ p. absurd (cc (p.1))),
  (λ p. absurd (cc (p.1)), λ p. absurd (cc (p.1))),
)
password_schema-agrees (some (arr items)) = (
  (λ e. absurd (cc (e)), λ p. absurd (cc (p.1))),
  (λ p. absurd (cc (p.1)), λ p. absurd (cc (p.1))),
)
password_schema-agrees (some (obj fs)) = (
  (λ e. absurd (cc (e)), λ p. absurd (cc (p.1))),
  (λ p. absurd (cc (p.1)), λ p. absurd (cc (p.1))),
)

accepted_same : (t s : String) (issues : List.List String) → accepted t issues ≡ some s → t ≡ s
accepted_same t s List.[] h = cc (h)
accepted_same t s (List.◌∷◌ i is) h = absurd (cc (h))

password_schema-str : (t s : String) → password_schema (some (str t)) ≡ some s → t ≡ s
unfolding password_schema
password_schema-str t s h = accepted_same t s (password_issues t) h

pub password_schema-IsStrong :
    (v : Option Json) (s : String) → password_schema v ≡ some s → IsStrong s
password_schema-IsStrong v s h =
    let (t, e, strong) = (password_schema-agrees v).1.0 (s, h) in
    let same : t ≡ s = password_schema-str t s (rw e at h) in rw (← same) strong
