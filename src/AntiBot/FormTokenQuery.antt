-- ===== src/AntiBot/FormTokenQuery.antt =====
-- src/anti-bot/application/dtos/form-token.dto.ts: the label of a form that a request for a token may name.
use Prim.Native.Char.{code}
use Prim.Native.String.{[], ◌∷◌}
use nestjs_hexagonal_templat.Prelude.{
  String, ◌≡◌, refl, inl, inr, Bool, true, ◌&&◌, ◌||◌, Option, none, some, leb, eqb, arith,
  if◌then◌else◌, Bool-cases,
}
use nestjs_hexagonal_templat.Common.Json.{Json, get}
use nestjs_hexagonal_templat.Common.Pipes.{
  ◌>>=◌, Schema, fields_of, text_length, text_between, optional, bind_passed, optional_passed,
}
use nestjs_hexagonal_templat.Common.Pipes.Bounds.{HasLength, text_between-HasLength}

-- /^[a-z0-9-]+$/ of a text that is not empty
unfoldable pub is_label : String → Bool
is_label [] = true
is_label (c ∷ s) =
    let rest = is_label s in
    (leb b'a' (code c) && leb (code c) b'z'
      || leb b'0' (code c) && leb (code c) b'9'
      || eqb (code c) b'-')
    && rest

unfoldable pub label_text : Schema String
unfolding text_between is_label
label_text v = text_between 1 64 v >>= λ s. if is_label s then some s else none

-- The `context` of the query.
unfoldable pub form_token_query_schema : Schema (Option String)
unfolding get optional label_text
form_token_query_schema query = fields_of query >>= λ fs. optional label_text (get "context" fs)

abbrev pub context_or : Option String → String
context_or none = "default"
context_or (some context) = context

-- A label of a form.
abbrev pub IsLabel : String → Type 0
IsLabel context = HasLength 1 64 (some context) × (is_label context ≡ true)

label_text-IsLabel : (v : Option Json) (s : String) → label_text v ≡ some s → IsLabel s
unfolding label_text
label_text-IsLabel v s h =
    let (t, long, h1) = bind_passed (text_between 1 64 v) _ s h in
    let (same, fits) = checked t s h1 in
    let both : IsLabel t = (text_between-HasLength 1 64 v t long, fits) in rw (← same) both
  where
    checked :
        (t s : String)
        → (if is_label t then some t else none) ≡ some s
        → (t ≡ s) × (is_label t ≡ true)
    checked t s h = elim (Bool-cases (is_label t)) [
      | inl fits ↦ (cc (rw fits at h), fits)
      | inr other ↦ absurd (cc (rw other at h))
    ]

pub form_token_query_schema-IsLabel :
    (query : Option Json) (context : Option String)
    → form_token_query_schema query ≡ some context
    → IsLabel (context_or context)
unfolding form_token_query_schema text_length is_label
form_token_query_schema-IsLabel query context h =
    let (fs, f, h1) = bind_passed (fields_of query) _ context h in
    elim (optional_passed label_text (get "context" fs) context h1) [
      | inl absent ↦ rw absent ((omega arith, omega arith), refl)
      | inr (s, e, passed) ↦ rw e (label_text-IsLabel (get "context" fs) s passed)
    ]
