-- ===== src/AntiBot/Controller.antt =====
-- src/anti-bot/infrastructure/http/anti-bot.controller.ts: the routes that give a form its token and its
-- settings.
use nestjs_hexagonal_templat.Prelude.{
  ℕ, String, ◌≡◌, ◌≢◌, refl, Bool, Option, none, some, if◌then◌else◌,
}
use nestjs_hexagonal_templat.Common.Exec.{Exec, pure, ◌>>=◌, Ensures}
use nestjs_hexagonal_templat.Common.Json.{Json}
use nestjs_hexagonal_templat.Common.Pipes.{zod_validation_pipe, passed_or, validation_failed}
use nestjs_hexagonal_templat.AntiBot.Config.{AntiBotConfig}
use nestjs_hexagonal_templat.AntiBot.FormToken.{
  TokenCodec, IssuedToken, issued_payload, issue, verify,
}
use nestjs_hexagonal_templat.AntiBot.FormToken.RoundTrip.{verify-issue}
use nestjs_hexagonal_templat.AntiBot.FormTokenQuery.{
  form_token_query_schema, context_or, IsLabel, form_token_query_schema-IsLabel,
}

module _ (codec : TokenCodec) (secret : String) (issues : Option Json → Json) where
  unfoldable pub get_form_token : {W : Type 0} → ℕ → ℕ → String → Option Json → Exec W IssuedToken
  unfolding zod_validation_pipe form_token_query_schema issue
  get_form_token ttl now jti query = do
    context ← zod_validation_pipe issues form_token_query_schema query
    pure (issue codec secret ttl now jti (context_or context))

pub record TurnstileConfig : Type 0 where
  pub enabled : Bool
  pub site_key : Option String

unfoldable pub get_config : AntiBotConfig → TurnstileConfig
get_config config = record {
  enabled = config.turnstile_enabled;
  site_key = if config.turnstile_enabled then some config.turnstile_site_key else none;
}

module _ (codec : TokenCodec) (secret : String) (issues : Option Json → Json) where
  -- Each token that the route gives is verified to the payload that it was issued with, whose context is
  -- the label of the query, or `default`: 1 to 64 small letters, digits and dashes, whatever the query
  -- holds. The identifier must not be empty.
  pub verify-get_form_token :
      {W : Type 0} (ttl now : ℕ) (jti : String) (query : Option Json) (w : W)
      → jti ≢ ""
      → Ensures
          (get_form_token codec secret issues ttl now jti query w)
          (λ issued w'.
            (w' ≡ w)
            × ((context : Option String) × (form_token_query_schema query ≡ some context)
                × IsLabel (context_or context)
                × (verify codec secret issued.token
                    ≡ some (issued_payload ttl now jti (context_or context)))))
          (λ w'. (w' ≡ w) × (form_token_query_schema query ≡ none))
  unfolding get_form_token zod_validation_pipe
  verify-get_form_token ttl now jti query w filled = given (form_token_query_schema query) refl
    where
      given :
          (o : Option (Option String))
          → form_token_query_schema query ≡ o
          → Ensures
              ((passed_or (validation_failed (issues query)) o >>= λ context.
                  pure (issue codec secret ttl now jti (context_or context)))
                w)
              (λ issued w'.
                (w' ≡ w)
                × ((context : Option String) × (form_token_query_schema query ≡ some context)
                    × IsLabel (context_or context)
                    × (verify codec secret issued.token
                        ≡ some (issued_payload ttl now jti (context_or context)))))
              (λ w'. (w' ≡ w) × (form_token_query_schema query ≡ none))
      given none e = (refl, e)
      given (some context) e = (
        refl,
        (
          context,
          e,
          form_token_query_schema-IsLabel query context e,
          verify-issue codec secret ttl now jti (context_or context) filled,
        ),
      )
