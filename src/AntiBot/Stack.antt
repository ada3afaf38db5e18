-- ===== src/AntiBot/Stack.antt =====
-- src/anti-bot/infrastructure/decorators/anti-bot.decorator.ts: the stack of guards of a protected
-- route, in its order. Nest runs the guards; that is the argument `nest`.
pub mod Accepts
pub mod Retry
pub mod Replay
use nestjs_hexagonal_templat.Prelude.{
  ℕ, zero, suc, ◌+◌, ◌-◌, ◌*◌, ◌/◌, ◌%◌, ◌^◌, ◌≤◌, ◌<◌, String, ◌≡◌, refl, sym, ap, ◌∙◌, ◌≢◌, ◌↔◌,
  ◌⊎◌, inl, inr, Bool, true, false, not, ◌&&◌, ◌||◌, Option, none, some, List, [], ◌∷◌, ◌++◌, map,
  arith, ◌==◌, eq_iff, eq_refl, ltb, leb, eqb, if◌then◌else◌, Bool-cases, Option-cases, str_cases,
  length, get_elem?, take, drop, any, all, keep, find, count_if, All, length-append, length-drop,
  length-keep-le, length-map, tests, ltb→lt, lt→ltb, leb→le, le→leb,
}
use nestjs_hexagonal_templat.Common.Exec.{Result, ok, throw, Exec, pure, raise, ◌>>=◌}
use nestjs_hexagonal_templat.AntiBot.FormToken.{TokenCodec}
use nestjs_hexagonal_templat.AntiBot.Exchange.{Exchange, Guard, Engine}
use nestjs_hexagonal_templat.AntiBot.FormGuards.{
  honeypot_guard, form_token_guard, timing_guard, form_token_consume_guard,
}
use nestjs_hexagonal_templat.AntiBot.ChallengeGuards.{
  turnstile_guard, challenge_guard, ChallengeResourceResolver,
}

-- Nest's `GuardsConsumer.tryActivate`: the guards in order, up to the first that denies or throws.
pub record GuardsConsumer : Type 0 where
  pub try_activate : List Guard → Guard
  pub try_activate_nil : (x : Exchange) → try_activate [] x ≡ (ok true, x)
  pub try_activate_cons :
      (g : Guard) (gs : List Guard) (x : Exchange)
      → try_activate (g ∷ gs) x ≡ (g >>= λ b. if b then try_activate gs else pure false) x

-- What the stack's guards are constructed with, and the readings of the clock in one request.
pub record Layers : Type 0 where
  pub codec : TokenCodec
  pub secret : String
  pub engine : Engine
  pub min_time_ms : ℕ
  pub max_time_ms : ℕ
  pub turnstile_enabled : Bool
  pub turnstile : String → Option String → Bool
  pub resolver : Option ChallengeResourceResolver
  pub challenge_param : Option String
  pub verify_now : ℕ
  pub timing_now : ℕ
  pub consume_now : ℕ
  pub mark_now : ℕ

-- The guards that come before the token is spent.
abbrev pub checks : Layers → List Guard → List Guard
checks l last =
    honeypot_guard
    ∷ form_token_guard l.codec l.secret l.verify_now
    ∷ timing_guard l.engine l.min_time_ms l.max_time_ms l.timing_now
    ∷ turnstile_guard l.turnstile_enabled l.turnstile
    ∷ challenge_guard l.engine l.resolver l.challenge_param
    ∷ last

unfoldable pub anti_bot_guards : Layers → List Guard
anti_bot_guards l = checks l (form_token_consume_guard l.consume_now l.mark_now ∷ [])

-- A route marked `@AntiBot(...)`: whether its guards let the request through.
unfoldable pub anti_bot : GuardsConsumer → Layers → Guard
unfolding anti_bot_guards
anti_bot nest l = nest.try_activate (anti_bot_guards l)
