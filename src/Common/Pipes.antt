-- ===== src/Common/Pipes.antt =====
-- src/common/pipes: what a route's pipes pass on. A zod schema is a function from the value, none for
-- `undefined`, to the value it gives; the issues that zod lists for a refused value and the regular
-- expression of Nest's `ParseUUIDPipe` are arguments. The length of a text counts code units of
-- UTF-16, as JavaScript does.
pub mod Bounds
use Prim.Native.Char.{code}
use Prim.Native.String.{String}
use Prim.Native.String
use nestjs_hexagonal_templat.Prelude.{
  ℕ, ◌+◌, ◌≡◌, ◌⊎◌, inl, inr, refl, arith, Option-cases, Bool, List, [], ◌∷◌, All, ◌&&◌, Option,
  none, some, leb, if◌then◌else◌,
}
use nestjs_hexagonal_templat.Prelude.Int.{pos}
use nestjs_hexagonal_templat.Common.Exec.{Exec, pure, raise}
use nestjs_hexagonal_templat.Common.Errors.{Exception, http, object, bad_request}
use nestjs_hexagonal_templat.Common.Json.{
  Json, Items, null, bool, num, arr, obj, str, nil, cons, Fields, end, field,
}

abbrev pub Schema : Type 0 → Type 0
Schema A = Option Json → Option A

-- new BadRequestException({ code, message, details })
abbrev pub validation_failed : Json → Exception
validation_failed details = http (record {
  status = bad_request;
  response = object (some (str "VALIDATION_ERROR")) (some (str "Erro de validação")) (some details);
  message = "Bad Request Exception";
})

abbrev pub passed_or : {W A : Type 0} → Exception → Option A → Exec W A
passed_or e none = raise e
passed_or e (some a) = pure a

-- ZodValidationPipe.transform
unfoldable pub zod_validation_pipe :
    {W A : Type 0} → (Option Json → Json) → Schema A → Option Json → Exec W A
zod_validation_pipe issues schema value =
    passed_or (validation_failed (issues value)) (schema value)

-- UuidValidationPipe
unfoldable pub uuid_validation_pipe :
    {W : Type 0} → (String → Bool) → String → String → Exec W String
uuid_validation_pipe is_uuid_v4 name value =
    let refused = validation_failed (
      arr (
        cons
          (obj (
            field "field" (str name)
              (field "message" (str (String.◌++◌ name " deve ser um UUID v4")) end)))
          nil)) in
    if is_uuid_v4 value then pure value else raise refused

-- UuidParamPipe
unfoldable pub uuid_param_pipe : {W : Type 0} → (String → Bool) → String → Exec W String
uuid_param_pipe is_uuid_v4 value =
    let refused = validation_failed (
      arr (
        cons
          (obj (
            field "field" (str "id")
              (field "message" (str "Identificador deve ser um UUID v4") end)))
          nil)) in
    if is_uuid_v4 value then pure value else raise refused

-- `length` of a JavaScript string: a character beyond U+FFFF takes two code units.
unfoldable pub text_length : String → ℕ
text_length String.[] = 0
text_length (String.◌∷◌ c s) = (if leb 65536 (code c) then 2 else 1) + text_length s

-- z.string().min(lo).max(hi)
unfoldable pub text_between : ℕ → ℕ → Schema String
unfolding text_length
text_between lo hi (some (str s)) =
    if leb lo (text_length s) && leb (text_length s) hi then some s else none
text_between lo hi _ = none

-- z.string() with a test of the text, such as `email()`.
abbrev pub text_if : (String → Bool) → Schema String
text_if test (some (str s)) = if test s then some s else none
text_if test _ = none

-- z.number().int().min(0).max(hi); the numbers of a `Json` are integers.
unfoldable pub whole_to : ℕ → Schema ℕ
whole_to hi (some (num (pos n))) = if leb n hi then some n else none
whole_to hi _ = none

-- z.boolean()
unfoldable pub boolean : Schema Bool
boolean (some (bool b)) = some b
boolean _ = none

abbrev pub present {ℓ} : {A : Type ℓ} → Option A → Option (Option A)
present none = none
present (some a) = some (some a)

-- schema.optional()
unfoldable pub optional : {A : Type 0} → Schema A → Schema (Option A)
optional schema none = some none
optional schema (some v) = present (schema (some v))

-- schema.nullable()
unfoldable pub nullable : {A : Type 0} → Schema A → Schema (Option A)
nullable schema (some null) = some none
nullable schema v = present (schema v)

-- The fields of `z.object`, which are those of an object that is no array.
abbrev pub fields_of : Option Json → Option Fields
fields_of (some (obj fs)) = some fs
fields_of _ = none

-- Number.MAX_SAFE_INTEGER
abbrev pub max_safe_integer : ℕ
max_safe_integer = 9007199254740991

infixl 10 ◌>>=◌
-- One field of `z.object` after another; the object is refused if one field is.
abbrev pub ◌>>=◌ : {A B : Type 0} → Option A → (A → Option B) → Option B
◌>>=◌ none f = none
◌>>=◌ (some a) f = f a

-- z.array(schema) of the items of an array.
unfoldable pub each : {A : Type 0} → Schema A → Items → Option (List A)
each schema nil = some []
each schema (cons v vs) =
    let rest = each schema vs in schema (some v) >>= λ a. rest >>= λ xs. some (a ∷ xs)

unfoldable pub array : {A : Type 0} → Schema A → Schema (List A)
unfolding each
array schema (some (arr items)) = each schema items
array schema _ = none

-- A chain that passes has passed at each step.
pub bind_passed :
    {A B : Type 0} (o : Option A) (f : A → Option B) (b : B)
    → (o >>= f) ≡ some b
    → (a : A) × (o ≡ some a) × (f a ≡ some b)
bind_passed none f b h = absurd (cc)
bind_passed (some a) f b h = (a, refl, h)

-- What an optional field gives is absent, or what its schema gives.
pub optional_passed :
    {A : Type 0} (schema : Schema A) (v : Option Json) (o : Option A)
    → optional schema v ≡ some o
    → (o ≡ none) ⊎ ((a : A) × (o ≡ some a) × (schema v ≡ some a))
unfolding optional
optional_passed schema none o h = inl (ground arith)
optional_passed schema (some v) o h = elim (Option-cases (schema (some v))) [
  | inl refused ↦ absurd (cc (rw refused at h))
  | inr (a, passed) ↦ inr (a, ground (arith, rw passed at h), passed)
]

the_list : {A : Type 0} (xs bs : List A) → some xs ≡ some bs → xs ≡ bs
the_list xs bs h = cc

-- What holds of each value that a schema passes holds of each item of an array.
pub each-All :
    {A : Type 0} (schema : Schema A) (P : A → Type 0)
    → ((v : Option Json) (a : A) → schema v ≡ some a → P a)
    → (items : Items) (xs : List A) → each schema items ≡ some xs
    → All P xs
unfolding each
each-All schema P law nil xs h = rw (← the_list [] xs h) tt
each-All schema P law (cons v vs) xs h =
    let (a, passed, h1) = bind_passed (schema (some v)) _ xs h in
    let (rest, others, h2) = bind_passed (each schema vs) _ xs h1 in
    let made : All P (a ∷ rest) = (law (some v) a passed, each-All schema P law vs rest others) in
    rw (← the_list (a ∷ rest) xs h2) made
