-- ===== src/AntiBot/Sanitizer.antt =====
-- src/anti-bot/infrastructure/interceptors/body-sanitizer.interceptor.ts, with the names of the fields
-- of src/anti-bot/anti-bot.constants.ts: the control fields leave the body before the handler.
use nestjs_hexagonal_templat.Prelude.{
  String, ◌≡◌, refl, Bool, ◌||◌, Option, none, some, List, [], ◌∷◌, ◌==◌, eq_iff, arith, any,
  if◌then◌else◌,
}
use nestjs_hexagonal_templat.Common.Json.{
  Json, Fields, null, bool, num, str, arr, obj, get, delete, get-delete,
}
use nestjs_hexagonal_templat.AntiBot.Exchange.{Exchange, body_field}

abbrev pub anti_bot_body_fields : List String
anti_bot_body_fields = "website" ∷ "_t" ∷ "cf-turnstile-response" ∷ "_challenge_answer" ∷ []

-- The `for` over the names.
unfoldable pub delete_all : List String → Fields → Fields
unfolding delete
delete_all [] fs = fs
delete_all (name ∷ names) fs = delete_all names (delete name fs)

unfoldable pub sanitize : Option Json → Option Json
unfolding delete_all
sanitize (some (obj fs)) = some (obj (delete_all anti_bot_body_fields fs))
sanitize body = body

-- What the handler behind the interceptor gets.
unfoldable pub strip : Exchange → Exchange
unfolding sanitize
strip x = record x { request = record x.request { body = sanitize x.request.body } }

get-delete_all :
    (names : List String) (key : String) (fs : Fields)
    → get key (delete_all names fs) ≡ (if any (λ name. name == key) names then none else get key fs)
unfolding delete_all
get-delete_all [] key fs = refl
get-delete_all (name ∷ names) key fs =
    ground (arith, get-delete_all names key (delete name fs), get-delete name key fs)

-- The fields of a body that the guards read: the honeypot's, the form token, the captcha's token and the
-- answer to the challenge.
abbrev pub is_control_field : String → Bool
is_control_field key =
    (key == "website")
    || (key == "_t")
    || (key == "cf-turnstile-response")
    || (key == "_challenge_answer")

is_control_field-any :
    (key : String) → any (λ name. name == key) anti_bot_body_fields ≡ is_control_field key
is_control_field-any key = ground (
  arith,
  eq_iff "website" key,
  eq_iff key "website",
  eq_iff "_t" key,
  eq_iff key "_t",
  eq_iff "cf-turnstile-response" key,
  eq_iff key "cf-turnstile-response",
  eq_iff "_challenge_answer" key,
  eq_iff key "_challenge_answer",
)

-- Behind the interceptor the four fields of the body that the guards read, `website`, `_t`,
-- `cf-turnstile-response` and `_challenge_answer`, are absent, and every other field is as the client
-- sent it, whatever the body is.
pub body_field-strip :
    (key : String) (x : Exchange)
    → body_field key (strip x) ≡ (if is_control_field key then none else body_field key x)
unfolding strip sanitize
body_field-strip key x = by_body x.request.body
  where
    by_body :
        (body : Option Json)
        → body_field key (strip (record x { request = record x.request { body = body } })) ≡ (
            if is_control_field key
            then none
            else body_field key (record x { request = record x.request { body = body } }))
    by_body none = ground arith
    by_body (some null) = ground arith
    by_body (some (bool b)) = ground arith
    by_body (some (num n)) = ground arith
    by_body (some (str s)) = ground arith
    by_body (some (arr items)) = ground arith
    by_body (some (obj fs)) =
        rw (← is_control_field-any key) (get-delete_all anti_bot_body_fields key fs)
