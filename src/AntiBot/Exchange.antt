-- ===== src/AntiBot/Exchange.antt =====
-- What the guards of src/anti-bot work on: the request, the response and the token store; with
-- src/anti-bot/infrastructure/fake-success.ts.
use nestjs_hexagonal_templat.Prelude.{
  ℕ, String, Bool, Option, none, some, List, ◌∷◌, ◌==◌, if◌then◌else◌,
}
use nestjs_hexagonal_templat.Prelude.Int.{ℤ}
use nestjs_hexagonal_templat.Common.Json.{Json, str, get_in}
use nestjs_hexagonal_templat.Common.Text.{trim}
use nestjs_hexagonal_templat.Common.Errors.{
  domain_error, bad_request, Exception, anti_bot_form_token_invalid, anti_bot_form_expired,
}
use nestjs_hexagonal_templat.Common.Exec.{Exec}
use nestjs_hexagonal_templat.AntiBot.TokenStore.{Store}
use nestjs_hexagonal_templat.AntiBot.FormToken.{FormTokenPayload}

pub data FakeSuccessReason : Type 0 where
  honeypot_field_filled timing_too_fast : FakeSuccessReason

pub record Request : Type 0 where
  -- The `x-form-token` header, where it is one text.
  pub form_token_header : Option String
  pub body : Option Json
  pub params : List (String × String)
  -- The tenant of `request.user`, empty where there is none.
  pub tenant_id : String
  pub ip : Option String
  -- What `setVerifiedFormToken` leaves.
  pub verified_form_token : Option FormTokenPayload

pub record Exchange : Type 0 where
  pub request : Request
  -- The status of the response, once one was sent.
  pub response : Option ℕ
  pub discarded : List FakeSuccessReason
  pub store : Store

abbrev pub Guard : Type 0
Guard = Exec Exchange Bool

-- `Number(value)` where it is finite, `toLowerCase` and `String` of a number, as the engine has them.
pub record Engine : Type 0 where
  pub to_number : Json → Option ℤ
  pub to_lower : String → String
  pub number_text : ℤ → String

-- `body?.[name]`
abbrev pub body_field : String → Exchange → Option Json
body_field name x = elim x.request.body [ none ↦ none | some b ↦ get_in name b ]

abbrev pub text_of : Option Json → String
text_of (some (str s)) = trim s
text_of _ = ""

abbrev pub or_empty : Option String → String
or_empty none = ""
or_empty (some s) = trim s

-- `x || null`
abbrev pub or_null : String → Option String
or_null s = if s == "" then none else some s

abbrev pub invalid_token : String → Exception
invalid_token message = domain_error anti_bot_form_token_invalid message bad_request

abbrev pub form_expired : Exception
form_expired =
    domain_error anti_bot_form_expired "Formulário expirado. Recarregue a página." bad_request

unfoldable pub respond_with_fake_success : FakeSuccessReason → Exchange → Exchange
respond_with_fake_success reason x = record x {
  response = some 200;
  discarded = reason ∷ x.discarded;
}
