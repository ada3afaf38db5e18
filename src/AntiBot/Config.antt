-- ===== src/AntiBot/Config.antt =====
-- src/config/anti-bot.config.ts: the settings that the guards take from the environment.
use Prim.Native.String.{[], ◌∷◌}
use Prim.Native.Char.{code}
use nestjs_hexagonal_templat.Prelude.{
  ℕ, zero, suc, ◌<◌, String, Bool, not, Option, none, some, ◌==◌, arith, eqb, ◌&&◌, if◌then◌else◌,
}
use nestjs_hexagonal_templat.Prelude.Int.{ℤ, pos}
use nestjs_hexagonal_templat.Common.Text.{parse_int, trim}

-- value ?? ''
abbrev or_blank : Option String → String
or_blank none = ""
or_blank (some s) = s

abbrev whole_or : Option ℤ → ℕ → ℕ
whole_or (some (pos (suc n))) fallback = suc n
whole_or _ fallback = fallback

unfoldable pub parse_positive_int : Option String → ℕ → ℕ
unfolding parse_int
parse_positive_int raw fallback = whole_or (parse_int (or_blank raw)) fallback

-- .replace(/\/+$/, '')
unfoldable pub trim_slashes : String → String
trim_slashes [] = ""
trim_slashes (c ∷ s) =
    let rest = trim_slashes s in if eqb (code c) b'/' && rest == "" then "" else c ∷ rest

pub record AntiBotConfig : Type 0 where
  pub token_secret : String
  pub min_time_ms : ℕ
  pub max_time_ms : ℕ
  pub turnstile_enabled : Bool
  pub turnstile_site_key : String
  pub turnstile_secret_key : String
  pub turnstile_fail_open : Bool
  pub redis_url : String

abbrev is_text : String → Option String → Bool
is_text t none = Bool.false
is_text t (some s) = s == t

-- The argument is `process.env`.
unfoldable pub anti_bot_config : (String → Option String) → AntiBotConfig
unfolding parse_positive_int trim trim_slashes
anti_bot_config env = record {
  token_secret = trim (or_blank (env "ANTI_BOT_TOKEN_SECRET"));
  min_time_ms = parse_positive_int (env "ANTI_BOT_MIN_TIME_MS") 2000;
  max_time_ms = parse_positive_int (env "ANTI_BOT_MAX_TIME_MS") 1800000;
  turnstile_enabled = is_text "true" (env "TURNSTILE_ENABLED");
  turnstile_site_key = trim (or_blank (env "TURNSTILE_SITE_KEY"));
  turnstile_secret_key = trim (or_blank (env "TURNSTILE_SECRET_KEY"));
  turnstile_fail_open = not (is_text "false" (env "TURNSTILE_FAIL_OPEN"));
  redis_url = trim_slashes (trim (or_blank (env "ANTI_BOT_REDIS_URL")));
}

whole_or_lem : (v : Option ℤ) (fallback : ℕ) → 0 < fallback → 0 < whole_or v fallback
whole_or_lem none fallback h = h
whole_or_lem (some (pos zero)) fallback h = h
whole_or_lem (some (pos (suc n))) fallback h = omega arith
whole_or_lem (some (ℤ.negsuc n)) fallback h = h

-- Whatever the environment says, the window of the form has a positive least and a positive greatest
-- age: a value that is no number, or none above 0, does not switch the check off.
pub anti_bot_config_lem :
    (env : String → Option String)
    → (0 < (anti_bot_config env).min_time_ms) × (0 < (anti_bot_config env).max_time_ms)
unfolding anti_bot_config parse_positive_int
anti_bot_config_lem env = (
  whole_or_lem (parse_int (or_blank (env "ANTI_BOT_MIN_TIME_MS"))) 2000 (omega arith),
  whole_or_lem (parse_int (or_blank (env "ANTI_BOT_MAX_TIME_MS"))) 1800000 (omega arith),
)
