-- ===== src/AntiBot/FormGuards.antt =====
-- honeypot.guard.ts, form-token.guard.ts, timing.guard.ts and form-token-consume.guard.ts of
-- src/anti-bot/infrastructure/guards, with form-token-context.ts. Each reading of the clock is an
-- argument of its own.
use nestjs_hexagonal_templat.Prelude.{
  ℕ, suc, ◌+◌, ◌-◌, ◌*◌, String, true, false, Option, none, some, ◌==◌, ltb, leb, eqb,
  if◌then◌else◌,
}
use nestjs_hexagonal_templat.Prelude.Int.{ℤ, pos, negsuc}
use nestjs_hexagonal_templat.Common.Json.{Json, null, str, is_truthy}
use nestjs_hexagonal_templat.Common.Errors.{Exception}
use nestjs_hexagonal_templat.Common.Exec.{ok, throw}
use nestjs_hexagonal_templat.AntiBot.TokenStore.{mark_used}
use nestjs_hexagonal_templat.AntiBot.FormToken.{FormTokenPayload, TokenCodec, verify}
use nestjs_hexagonal_templat.AntiBot.Exchange.{
  honeypot_field_filled, timing_too_fast, Exchange, Guard, Engine, body_field, or_empty,
  invalid_token, form_expired, respond_with_fake_success,
}

unfoldable pub honeypot_guard : Guard
unfolding respond_with_fake_success
honeypot_guard x =
    if is_truthy (body_field "website" x)
    then (ok false, respond_with_fake_success honeypot_field_filled x)
    else (ok true, x)

-- `exp * 1000 - now`, 0 where that is not positive.
unfoldable pub remaining_ms : FormTokenPayload → ℕ → ℕ
remaining_ms p now = elim p.exp [ pos s ↦ s * 1000 - now | negsuc _ ↦ 0 ]

unfoldable pub set_verified_form_token : FormTokenPayload → Exchange → Exchange
set_verified_form_token p x = record x {
  request = record x.request { verified_form_token = some p };
}

abbrev pub accept_verified : ℕ → Option FormTokenPayload → Guard
accept_verified now none x =
    (throw (invalid_token "Token de formulário inválido. Recarregue a página."), x)
accept_verified now (some p) x =
    if eqb (remaining_ms p now) 0
    then (throw form_expired, x)
    else (ok true, set_verified_form_token p x)

unfoldable pub form_token_guard : TokenCodec → String → ℕ → Guard
unfolding set_verified_form_token
form_token_guard codec secret now x =
    let token = or_empty x.request.form_token_header in
    if token == ""
    then (throw (invalid_token "Token de formulário ausente. Recarregue a página."), x)
    else accept_verified now (verify codec secret token) x

abbrev pub times_1000 : ℤ → ℤ
times_1000 (pos n) = pos (n * 1000)
times_1000 (negsuc n) = negsuc (n * 1000 + 999)

abbrev client_timestamp : Engine → Option Json → Option ℤ
client_timestamp engine none = none
client_timestamp engine (some null) = none
client_timestamp engine (some (str s)) = if s == "" then none else engine.to_number (str s)
client_timestamp engine (some v) = engine.to_number v

unfoldable pub resolve_rendered_at_ms : Engine → Exchange → Option ℤ
resolve_rendered_at_ms engine x = elim x.request.verified_form_token [
  | some p ↦ some (times_1000 p.iat)
  | none ↦ client_timestamp engine (body_field "_t" x)
]

-- `now - renderedAt` where that is not negative.
abbrev pub age_from : ℕ → ℤ → Option ℕ
age_from now (pos t) = if leb t now then some (now - t) else none
age_from now (negsuc t) = some (now + suc t)

abbrev pub age_of : ℕ → Option ℤ → Option ℕ
age_of now none = none
age_of now (some t) = age_from now t

unfoldable pub resolve_age_ms : Engine → ℕ → Exchange → Option ℕ
unfolding resolve_rendered_at_ms
resolve_age_ms engine now x = age_of now (resolve_rendered_at_ms engine x)

abbrev pub judge_age : ℕ → ℕ → Option ℕ → Guard
judge_age min_time_ms max_time_ms none x = (ok true, x)
judge_age min_time_ms max_time_ms (some age) x =
    if ltb age min_time_ms
    then (ok false, respond_with_fake_success timing_too_fast x)
    else if ltb max_time_ms age
    then (throw form_expired, x)
    else (ok true, x)

unfoldable pub timing_guard : Engine → ℕ → ℕ → ℕ → Guard
unfolding resolve_age_ms respond_with_fake_success
timing_guard engine min_time_ms max_time_ms now x =
    judge_age min_time_ms max_time_ms (resolve_age_ms engine now x) x

abbrev pub already_used : Exception
already_used = invalid_token "Token de formulário já utilizado. Recarregue a página."

abbrev pub spend : FormTokenPayload → ℕ → ℕ → Guard
spend p now mark_now x =
    if eqb (remaining_ms p now) 0
    then (throw form_expired, x)
    else (let (first, store') = mark_used p.jti (remaining_ms p now) mark_now x.store in
        (if first then ok true else throw already_used, record x { store = store' }))

-- `now` is the guard's reading of the clock, `mark_now` the one in `markUsed`.
unfoldable pub form_token_consume_guard : ℕ → ℕ → Guard
form_token_consume_guard now mark_now x = elim x.request.verified_form_token [
  | none ↦ (throw (invalid_token "Token de formulário ausente. Recarregue a página."), x)
  | some p ↦ spend p now mark_now x
]
