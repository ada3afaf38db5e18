-- ===== src/AntiBot/Stack/Retry.antt =====
-- A request that fails before its token is spent may be tried again with the same token.
use nestjs_hexagonal_templat.Prelude.{
  ℕ, String, ◌≡◌, refl, sym, ap, ◌∙◌, ◌≢◌, Bool, true, false, Option, none, some, List, [], ◌∷◌,
  ◌++◌, arith, if◌then◌else◌, find, All,
}
use nestjs_hexagonal_templat.Common.Exec.{Result, ok, throw, pure, continue, ◌>>=◌}
use nestjs_hexagonal_templat.AntiBot.FormToken.{TokenCodec}
use nestjs_hexagonal_templat.AntiBot.Exchange.{Exchange, Guard, Engine, respond_with_fake_success}
use nestjs_hexagonal_templat.AntiBot.FormGuards.{
  honeypot_guard, form_token_guard, timing_guard, form_token_consume_guard, resolve_age_ms,
  judge_age,
}
use nestjs_hexagonal_templat.AntiBot.ChallengeGuards.{
  turnstile_guard, challenge_guard, ChallengeResourceResolver,
}
use nestjs_hexagonal_templat.AntiBot.Stack.{GuardsConsumer, Layers, checks, anti_bot}

-- The guard leaves the token store alone, whatever it answers.
abbrev pub KeepsStore : Guard → Type 0
KeepsStore g = (x : Exchange) → (g x).1.store ≡ x.store

honeypot-KeepsStore : KeepsStore honeypot_guard
unfolding honeypot_guard
honeypot-KeepsStore x = ground arith

form_token-KeepsStore :
    (codec : TokenCodec) (secret : String) (now : ℕ)
    → KeepsStore (form_token_guard codec secret now)
unfolding form_token_guard
form_token-KeepsStore codec secret now x = ground arith

judge_age-KeepsStore :
    (min_time_ms max_time_ms : ℕ) (age : Option ℕ)
    → KeepsStore (judge_age min_time_ms max_time_ms age)
unfolding respond_with_fake_success
judge_age-KeepsStore min_time_ms max_time_ms none x = refl
judge_age-KeepsStore min_time_ms max_time_ms (some a) x = ground arith

timing-KeepsStore :
    (engine : Engine) (min_time_ms max_time_ms now : ℕ)
    → KeepsStore (timing_guard engine min_time_ms max_time_ms now)
unfolding timing_guard
timing-KeepsStore engine min_time_ms max_time_ms now x =
    judge_age-KeepsStore min_time_ms max_time_ms (resolve_age_ms engine now x) x

turnstile-KeepsStore :
    (enabled : Bool) (check : String → Option String → Bool)
    → KeepsStore (turnstile_guard enabled check)
unfolding turnstile_guard
turnstile-KeepsStore enabled check x = ground arith

challenge-KeepsStore :
    (engine : Engine) (resolver : Option ChallengeResourceResolver) (param : Option String)
    → KeepsStore (challenge_guard engine resolver param)
unfolding challenge_guard
challenge-KeepsStore engine none param x = refl
challenge-KeepsStore engine (some find) param x = ground arith

module _ (nest : GuardsConsumer) where
  -- What follows a guard that answered `b`.
  abbrev next : List Guard → Bool → Guard
  next gs b = if b then nest.try_activate gs else pure false

  next-KeepsStore :
      (gs : List Guard) (r : Result Bool) (y : Exchange)
      → KeepsStore (nest.try_activate gs)
      → (continue r (next gs) y).1.store ≡ y.store
  next-KeepsStore gs (ok true) y k = k y
  next-KeepsStore gs (ok false) y k = refl
  next-KeepsStore gs (throw e) y k = refl

  activate-KeepsStore : (gs : List Guard) → All KeepsStore gs → KeepsStore (nest.try_activate gs)
  activate-KeepsStore [] h x = rw (nest.try_activate_nil x)
  activate-KeepsStore (g ∷ gs) (k, h) x =
      ap (λ t. t.1.store) (nest.try_activate_cons g gs x)
      ∙ next-KeepsStore gs (g x).0 (g x).1 (activate-KeepsStore gs h)
      ∙ k x

  next-append :
      (gs hs : List Guard) (r : Result Bool) (y : Exchange)
      → ((z : Exchange) → nest.try_activate (gs ++ hs) z ≡ (nest.try_activate gs >>= next hs) z)
      → continue r (next (gs ++ hs)) y
        ≡ continue (continue r (next gs) y).0 (next hs) (continue r (next gs) y).1
  next-append gs hs (ok true) y ih = ih y
  next-append gs hs (ok false) y ih = refl
  next-append gs hs (throw e) y ih = refl

  activate-append :
      (gs hs : List Guard) (x : Exchange)
      → nest.try_activate (gs ++ hs) x ≡ (nest.try_activate gs >>= next hs) x
  activate-append [] hs x = rw (nest.try_activate_nil x)
  activate-append (g ∷ gs) hs x =
      nest.try_activate_cons g (gs ++ hs) x
      ∙ next-append gs hs (g x).0 (g x).1 (activate-append gs hs)
      ∙ ap (λ t. continue t.0 (next hs) t.1) (sym (nest.try_activate_cons g gs x))

  next_refused :
      (gs : List Guard) (r : Result Bool) (y : Exchange)
      → r ≢ ok true
      → continue r (next gs) y ≡ (r, y)
  next_refused gs (ok true) y h = absurd (h refl)
  next_refused gs (ok false) y h = refl
  next_refused gs (throw e) y h = refl

  checks-KeepsStore : (l : Layers) → KeepsStore (nest.try_activate (checks l []))
  checks-KeepsStore l = activate-KeepsStore (checks l []) (
    honeypot-KeepsStore,
    (
      form_token-KeepsStore l.codec l.secret l.verify_now,
      (
        timing-KeepsStore l.engine l.min_time_ms l.max_time_ms l.timing_now,
        (
          turnstile-KeepsStore l.turnstile_enabled l.turnstile,
          (challenge-KeepsStore l.engine l.resolver l.challenge_param, tt),
        ),
      ),
    ),
  )

  -- If the five guards before the last do not all let a request through, the answer of the whole
  -- stack is theirs and the token store is as it was: the token is not spent.
  pub anti_bot-retry :
      (l : Layers) (x : Exchange)
      → (nest.try_activate (checks l []) x).0 ≢ ok true
      → (anti_bot nest l x ≡ nest.try_activate (checks l []) x)
        × ((anti_bot nest l x).1.store ≡ x.store)
  unfolding anti_bot
  anti_bot-retry l x h =
      let last = form_token_consume_guard l.consume_now l.mark_now ∷ [] in
      let (r, y) = nest.try_activate (checks l []) x in
      let same = activate-append (checks l []) last x ∙ next_refused last r y h in
      (same, ap (λ t. t.1.store) same ∙ checks-KeepsStore l x)
