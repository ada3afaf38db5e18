-- ===== src/AntiBot/Stack/Accepts.antt =====
-- What a request has shown when the stack lets it through.
use nestjs_hexagonal_templat.Prelude.{
  ℕ, ◌≤◌, ◌<◌, String, ◌≡◌, refl, sym, ap, ◌∙◌, inl, inr, Bool, true, false, Option, none, some,
  List, ◌∷◌, arith, ◌==◌, eqb, if◌then◌else◌, Bool-cases, Option-cases, find,
}
use nestjs_hexagonal_templat.Common.Exec.{Result, ok, throw, pure, continue}
use nestjs_hexagonal_templat.Common.Json.{is_truthy}
use nestjs_hexagonal_templat.AntiBot.TokenStore.{mark_used}
use nestjs_hexagonal_templat.AntiBot.FormToken.{TokenCodec, FormTokenPayload, verify}
use nestjs_hexagonal_templat.AntiBot.Exchange.{
  Exchange, Guard, Engine, body_field, or_empty, text_of,
}
use nestjs_hexagonal_templat.AntiBot.FormGuards.{
  honeypot_guard, form_token_guard, timing_guard, form_token_consume_guard, remaining_ms,
  set_verified_form_token, resolve_age_ms, judge_age, spend, age_of, times_1000,
}
use nestjs_hexagonal_templat.AntiBot.ChallengeGuards.{
  turnstile_guard, challenge_guard, ChallengeResourceResolver,
}
use nestjs_hexagonal_templat.AntiBot.Stack.{GuardsConsumer, Layers, anti_bot}

after_guard :
    (nest : GuardsConsumer) (gs : List Guard) (r : Result Bool) (y x' : Exchange)
    → continue r (λ b. if b then nest.try_activate gs else pure false) y ≡ (ok true, x')
    → (r ≡ ok true) × (nest.try_activate gs y ≡ (ok true, x'))
after_guard nest gs (ok true) y x' e = (refl, e)
after_guard nest gs (ok false) y x' e = cc
after_guard nest gs (throw t) y x' e = cc

-- A row of guards lets a request through only if the first does and then the others.
pub activate-eq-true :
    (nest : GuardsConsumer) (g : Guard) (gs : List Guard) (x x' : Exchange)
    → nest.try_activate (g ∷ gs) x ≡ (ok true, x')
    → (y : Exchange) × (g x ≡ (ok true, y)) × (nest.try_activate gs y ≡ (ok true, x'))
activate-eq-true nest g gs x x' e =
    let (first, rest) =
      after_guard nest gs (g x).0 (g x).1 x' (sym (nest.try_activate_cons g gs x) ∙ e) in
    ((g x).1, ap (λ r. (r, (g x).1)) first, rest)

honeypot_passes :
    (x y : Exchange)
    → honeypot_guard x ≡ (ok true, y)
    → (y ≡ x) × (is_truthy (body_field "website" x) ≡ false)
unfolding honeypot_guard
honeypot_passes x y e = elim (Bool-cases (is_truthy (body_field "website" x))) [
  | inl t ↦ absurd (cc (rw t at e))
  | inr f ↦ ground arith
]

form_token_passes :
    (codec : TokenCodec) (secret : String) (now : ℕ) (x y : Exchange)
    → form_token_guard codec secret now x ≡ (ok true, y)
    → (p : FormTokenPayload) × (verify codec secret (or_empty x.request.form_token_header) ≡ some p)
      × (0 < remaining_ms p now)
      × (y ≡ set_verified_form_token p x)
unfolding form_token_guard
form_token_passes codec secret now x y e =
    let token = or_empty x.request.form_token_header in
    elim (Bool-cases (token == "")) [
      | inl missing ↦ absurd (cc (rw missing at e))
      | inr given ↦ elim (Option-cases (verify codec secret token)) [
        | inl bad ↦ absurd (cc (rw (given, bad) at e))
        | inr (p, good) ↦ elim (Bool-cases (eqb (remaining_ms p now) 0)) [
          | inl over ↦ absurd (cc (rw (given, good, over) at e))
          | inr left ↦ (
            p,
            good,
            ground arith,
            sym (ap (λ (r : Result Bool × Exchange). r.1) (rw (given, good, left) at e)),
          )
        ]
      ]
    ]

judge_age_passes :
    (min_time_ms max_time_ms : ℕ) (age : Option ℕ) (x y : Exchange)
    → judge_age min_time_ms max_time_ms age x ≡ (ok true, y)
    → (y ≡ x) × ((a : ℕ) → age ≡ some a → (min_time_ms ≤ a) × (a ≤ max_time_ms))
judge_age_passes min_time_ms max_time_ms none x y e = (ground arith, λ a s. absurd (cc))
judge_age_passes min_time_ms max_time_ms (some b) x y e =
    (ground arith, λ a s. (ground arith, ground arith))

timing_passes :
    (engine : Engine) (min_time_ms max_time_ms now : ℕ) (x y : Exchange)
    → timing_guard engine min_time_ms max_time_ms now x ≡ (ok true, y)
    → (y ≡ x)
      × ((age : ℕ)
          → resolve_age_ms engine now x ≡ some age
          → (min_time_ms ≤ age) × (age ≤ max_time_ms))
unfolding timing_guard
timing_passes engine min_time_ms max_time_ms now x y e =
    judge_age_passes min_time_ms max_time_ms (resolve_age_ms engine now x) x y e

turnstile_passes :
    (enabled : Bool) (check : String → Option String → Bool) (x y : Exchange)
    → turnstile_guard enabled check x ≡ (ok true, y)
    → (y ≡ x)
      × (enabled ≡ true
          → check (text_of (body_field "cf-turnstile-response" x)) x.request.ip ≡ true)
unfolding turnstile_guard
turnstile_passes enabled check x y e = ground arith

challenge_passes :
    (engine : Engine) (resolver : Option ChallengeResourceResolver) (param : Option String)
    (x y : Exchange)
    → challenge_guard engine resolver param x ≡ (ok true, y)
    → y ≡ x
unfolding challenge_guard
challenge_passes engine none param x y e = ground arith
challenge_passes engine (some find) param x y e = ground arith

consume_passes :
    (now mark_now : ℕ) (p : FormTokenPayload) (x y : Exchange)
    → x.request.verified_form_token ≡ some p
    → form_token_consume_guard now mark_now x ≡ (ok true, y)
    → (0 < remaining_ms p now)
      × ((mark_used p.jti (remaining_ms p now) mark_now x.store).0 ≡ true)
      × (y ≡ record x { store = (mark_used p.jti (remaining_ms p now) mark_now x.store).1 })
unfolding form_token_consume_guard
consume_passes now mark_now p x y has e =
    let spent : spend p now mark_now x ≡ (ok true, y) = rw (has, form_token_consume_guard) at e in
    elim (Bool-cases (eqb (remaining_ms p now) 0)) [
      | inl over ↦ absurd (cc (rw over at spent))
      | inr left ↦ (ground arith, ground arith, ground arith)
    ]

-- The exchange `x` went through the stack and became `x'`.
pub record Accepted (l : Layers) (x x' : Exchange) : Type 0 where
  pub payload : FormTokenPayload
  pub genuine : verify l.codec l.secret (or_empty x.request.form_token_header) ≡ some payload
  pub no_bait : is_truthy (body_field "website" x) ≡ false
  pub in_window :
      (age : ℕ)
      → age_of l.timing_now (some (times_1000 payload.iat)) ≡ some age
      → (l.min_time_ms ≤ age) × (age ≤ l.max_time_ms)
  pub captcha :
      l.turnstile_enabled ≡ true
      → l.turnstile (text_of (body_field "cf-turnstile-response" x)) x.request.ip ≡ true
  pub alive : 0 < remaining_ms payload l.consume_now
  pub first_use :
      (mark_used payload.jti (remaining_ms payload l.consume_now) l.mark_now x.store).0 ≡ true
  pub spent :
      x'.store ≡ (mark_used payload.jti (remaining_ms payload l.consume_now) l.mark_now x.store).1
  pub silent : x'.response ≡ x.response

-- The age of a request whose token was verified is that of the token.
age_of_verified :
    (engine : Engine) (now : ℕ) (p : FormTokenPayload) (x : Exchange)
    → resolve_age_ms engine now (set_verified_form_token p x) ≡ age_of now (some (times_1000 p.iat))
unfolding resolve_age_ms set_verified_form_token
age_of_verified engine now p x = refl

after_checks :
    (l : Layers) (p : FormTokenPayload) (x x' y : Exchange)
    → verify l.codec l.secret (or_empty x.request.form_token_header) ≡ some p
    → is_truthy (body_field "website" x) ≡ false
    → y ≡ set_verified_form_token p x
    → ((age : ℕ)
        → resolve_age_ms l.engine l.timing_now y ≡ some age
        → (l.min_time_ms ≤ age) × (age ≤ l.max_time_ms))
    → (l.turnstile_enabled ≡ true
        → l.turnstile (text_of (body_field "cf-turnstile-response" y)) y.request.ip ≡ true)
    → form_token_consume_guard l.consume_now l.mark_now y ≡ (ok true, x')
    → Accepted l x x'
unfolding set_verified_form_token
after_checks l p x x' y good bait same age captcha e =
    let z : Exchange = set_verified_form_token p x in
    let (alive, first, left) = consume_passes l.consume_now l.mark_now p z x' refl (rw same at e) in
    record {
      payload = p;
      genuine = good;
      no_bait = bait;
      in_window = λ a s. (rw same at age) a (age_of_verified l.engine l.timing_now p x ∙ s);
      captcha = rw same at captcha;
      alive = alive;
      first_use = first;
      spent = ap (λ (w : Exchange). w.store) left;
      silent = ap (λ (w : Exchange). w.response) left;
    }

-- A protected route runs its handler only for a request whose bait field is empty, whose token the
-- service signed, is alive when it is spent and had no mark, whose age, where it can be measured,
-- is in the window, and whose captcha passed if that is enabled; nothing has been sent as a response.
pub anti_bot-Accepted :
    (nest : GuardsConsumer) (l : Layers) (x x' : Exchange)
    → anti_bot nest l x ≡ (ok true, x')
    → Accepted l x x'
unfolding anti_bot
anti_bot-Accepted nest l x x' e =
    let (x1, e1, r1) = activate-eq-true nest _ _ x x' e in
    let (x2, e2, r2) = activate-eq-true nest _ _ x1 x' r1 in
    let (x3, e3, r3) = activate-eq-true nest _ _ x2 x' r2 in
    let (x4, e4, r4) = activate-eq-true nest _ _ x3 x' r3 in
    let (x5, e5, r5) = activate-eq-true nest _ _ x4 x' r4 in
    let (x6, e6, r6) = activate-eq-true nest _ _ x5 x' r5 in
    let (s1, bait) = honeypot_passes x x1 e1 in
    let (p, good, _, s2) = form_token_passes l.codec l.secret l.verify_now x1 x2 e2 in
    let (s3, age) = timing_passes l.engine l.min_time_ms l.max_time_ms l.timing_now x2 x3 e3 in
    let (s4, captcha) = turnstile_passes l.turnstile_enabled l.turnstile x3 x4 e4 in
    let s5 = challenge_passes l.engine l.resolver l.challenge_param x4 x5 e5 in
    let s6 : x6 ≡ x' = cc (nest.try_activate_nil x6) in
    after_checks l p x x' x2 (rw s1 at good) bait (rw s1 at s2) age (rw s3 at captcha) (cc)
