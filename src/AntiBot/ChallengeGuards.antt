-- ===== src/AntiBot/ChallengeGuards.antt =====
-- turnstile.guard.ts and challenge.guard.ts of src/anti-bot/infrastructure/guards, with
-- services/turnstile-verify.service.ts and the port challenge-resource.port.ts.
use nestjs_hexagonal_templat.Prelude.{
  String, Bool, true, not, Option, none, some, ◌==◌, if◌then◌else◌,
}
use nestjs_hexagonal_templat.Common.Json.{Json, num, str}
use nestjs_hexagonal_templat.Common.Text.{trim}
use nestjs_hexagonal_templat.Common.Errors.{
  domain_error, bad_request, Exception, anti_bot_challenge_incorrect, anti_bot_captcha_failed,
}
use nestjs_hexagonal_templat.Common.Exec.{Result, ok, throw, raise}
use nestjs_hexagonal_templat.Common.JsMap.{lookup}
use nestjs_hexagonal_templat.AntiBot.FormToken.{verify}
use nestjs_hexagonal_templat.AntiBot.Exchange.{Request, Guard, Engine, body_field, text_of, or_null}

-- The answer of Cloudflare: no answer (network, timeout), an HTTP error, or a body with its
-- `success`, where that is a Boolean.
pub data VerifyReply : Type 0 where
  unreachable http_error : VerifyReply
  body : Option Bool → VerifyReply

-- turnstile-verify.service.ts; `reply` is what the fetch gives for the token and the address.
unfoldable pub turnstile_verify :
    Bool → (String → Option String → VerifyReply) → String → Option String → Bool
turnstile_verify fail_open reply token remote_ip = elim (reply token remote_ip) [
  | unreachable ↦ fail_open
  | http_error ↦ fail_open
  | body success ↦ elim success [ none ↦ fail_open | some b ↦ b ]
]

abbrev captcha_failed : String → Exception
captcha_failed message = domain_error anti_bot_captcha_failed message bad_request

unfoldable pub turnstile_guard : Bool → (String → Option String → Bool) → Guard
turnstile_guard enabled verify x =
    let token = text_of (body_field "cf-turnstile-response" x) in
    if not enabled
    then (ok true, x)
    else if token == ""
    then (throw (captcha_failed "Verificação de segurança ausente. Recarregue a página."), x)
    else if verify token x.request.ip
    then (ok true, x)
    else (throw (captcha_failed "Verificação de segurança falhou. Tente novamente."), x)

pub data ChallengeProtectionLevel : Type 0 where
  unprotected challenge : ChallengeProtectionLevel

pub record ChallengeProtectedResource : Type 0 where
  pub protection_level : ChallengeProtectionLevel
  pub expected_answer : Option String

-- The port challenge-resource.port.ts; a project supplies the implementation.
abbrev pub ChallengeResourceResolver : Type 0
ChallengeResourceResolver = String → Option String → Result (Option ChallengeProtectedResource)

abbrev pub wrong_answer : Exception
wrong_answer =
    domain_error anti_bot_challenge_incorrect "Resposta incorreta. Tente novamente." bad_request

-- The answer as `String(answer)`, where it is a text or a number.
abbrev pub answer_text : Engine → Option Json → Option String
answer_text engine (some (str s)) = some s
answer_text engine (some (num n)) = some (engine.number_text n)
answer_text engine _ = none

abbrev pub fold_answer : Engine → String → String
fold_answer engine s = engine.to_lower (trim s)

abbrev pub check_answer : Engine → String → Option String → Guard
check_answer engine expected none x = (
  throw
      (domain_error anti_bot_challenge_incorrect "Resposta de segurança obrigatória." bad_request),
  x,
)
check_answer engine expected (some answer) x =
    if fold_answer engine answer == expected then (ok true, x) else (throw wrong_answer, x)

abbrev pub challenge_resource : Engine → Option ChallengeProtectedResource → Guard
challenge_resource engine none x = (ok true, x)
challenge_resource engine (some r) x = elim r.protection_level [
  | unprotected ↦ (ok true, x)
  | challenge ↦
      let expected = fold_answer engine (elim r.expected_answer [ none ↦ "" | some s ↦ s ]) in
      if expected == ""
      then (throw wrong_answer, x)
      else check_answer engine expected (answer_text engine (body_field "_challenge_answer" x)) x
]

abbrev pub resolve_challenge : Engine → Result (Option ChallengeProtectedResource) → Guard
resolve_challenge engine (ok found) = challenge_resource engine found
resolve_challenge engine (throw e) = raise e

-- The route's parameter of the given name, where it is a text that is not empty.
abbrev pub identifier_of : Option String → Request → String
identifier_of none r = ""
identifier_of (some param) r =
    if param == "" then "" else elim (lookup param r.params) [ none ↦ "" | some s ↦ s ]

unfoldable pub challenge_guard : Engine → Option ChallengeResourceResolver → Option String → Guard
challenge_guard engine none param x = (ok true, x)
challenge_guard engine (some find_protection) param x =
    let identifier = identifier_of param x.request in
    if identifier == ""
    then (ok true, x)
    else resolve_challenge engine (find_protection identifier (or_null x.request.tenant_id)) x
