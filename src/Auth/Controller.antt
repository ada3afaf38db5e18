-- ===== src/Auth/Controller.antt =====
-- src/auth/infrastructure/http/auth.controller.ts: the two public routes behind the guard of the captcha. What
-- Nest throws where a guard answers false is an argument.
use Prim.Native.String.{String}
use nestjs_hexagonal_templat.Prelude.{
  ◌≡◌, refl, ◌⊎◌, inl, inr, Bool, true, false, Option, none, some, List, ◌==◌, Bool-cases,
}
use nestjs_hexagonal_templat.Common.Exec.{
  Result, ok, throw, Exec, pure, raise, ◌>>=◌, ◌>>◌, Ensures, Ensures-mono,
}
use nestjs_hexagonal_templat.Common.Errors.{Exception}
use nestjs_hexagonal_templat.Common.Json.{Json}
use nestjs_hexagonal_templat.Common.Pipes.{zod_validation_pipe, passed_or, validation_failed}
use nestjs_hexagonal_templat.AntiBot.Exchange.{Exchange, body_field, text_of}
use nestjs_hexagonal_templat.AntiBot.ChallengeGuards.{turnstile_guard}
use nestjs_hexagonal_templat.User.{User}
use nestjs_hexagonal_templat.User.Port.{AuthProviderPort}
use nestjs_hexagonal_templat.Auth.{ResetPasswordDto, forgot_password, reset_password}
use nestjs_hexagonal_templat.Auth.Schema.{
  forgot_password_schema, reset_password_schema, IsAgreed, reset_password_schema-IsAgreed,
}
use nestjs_hexagonal_templat.Auth.Reset.{
  Accounts, Kept, IsReset, IsHarmless, reset_password-IsReset,
}
use nestjs_hexagonal_templat.Auth.Adapter.{Supertokens}
use nestjs_hexagonal_templat.Auth.Provider.{
  SupertokensLaws, auth_provider, auth_provider-AccountLaws,
}

module _ {W : Type 0} (refused : Exception) where
  abbrev pub guarded : Result Bool → Exec W (Unit {0})
  guarded (ok true) = pure tt
  guarded (ok false) = raise refused
  guarded (throw e) = raise e

module _ {W : Type 0} {users : W → List User} (auth : AuthProviderPort W users)
    (refused : Exception) (enabled : Bool) (verify : String → Option String → Bool)
    (is_email : String → Bool) (issues : Option Json → Json) where
  -- The guard reads the body that the pipe then checks.
  unfoldable pub post_forgot_password : Exchange → Exec W String
  unfolding turnstile_guard zod_validation_pipe forgot_password_schema forgot_password
  post_forgot_password x = do
    guarded refused (turnstile_guard enabled verify x).0
    email ← zod_validation_pipe issues (forgot_password_schema is_email) x.request.body
    forgot_password auth email

  unfoldable pub post_reset_password : Exchange → Exec W String
  unfolding turnstile_guard zod_validation_pipe reset_password_schema reset_password
  post_reset_password x = do
    guarded refused (turnstile_guard enabled verify x).0
    dto ← zod_validation_pipe issues reset_password_schema x.request.body
    reset_password auth dto

-- The captcha of the request is right, where one is asked for.
abbrev pub IsHuman : Bool → (String → Option String → Bool) → Exchange → Type 0
IsHuman enabled verify x =
    (enabled ≡ false)
    ⊎ (((text_of (body_field "cf-turnstile-response" x) == "") ≡ false)
        × (verify (text_of (body_field "cf-turnstile-response" x)) x.request.ip ≡ true))

turnstile_guard-IsHuman :
    (enabled : Bool) (verify : String → Option String → Bool) (x : Exchange)
    → (turnstile_guard enabled verify x).0 ≡ ok true
    → IsHuman enabled verify x
unfolding turnstile_guard
turnstile_guard-IsHuman false verify x h = inl refl
turnstile_guard-IsHuman true verify x h =
    elim (Bool-cases (text_of (body_field "cf-turnstile-response" x) == "")) [
      | inl empty ↦ absurd (cc (rw empty at h))
      | inr filled ↦
          elim (Bool-cases (verify (text_of (body_field "cf-turnstile-response" x)) x.request.ip)) [
            | inl passed ↦ inr (filled, passed)
            | inr failed ↦ absurd (cc (rw (filled, failed) at h))
          ]
    ]

-- The request is human, and its body has a token and twice the same password, which meets the policy.
abbrev pub IsGuarded :
    Bool → (String → Option String → Bool) → Exchange → (ResetPasswordDto → Type 0) → Type 0
IsGuarded enabled verify x P =
    IsHuman enabled verify x
    × ((dto : ResetPasswordDto) × (reset_password_schema x.request.body ≡ some dto)
        × IsAgreed dto
        × P dto)

module _ {W : Type 0} (refused : Exception) where
  guarded-Ensures :
      (P : String → W → Type 0) (Q : W → Type 0) (r : Result Bool) (next : Exec W String) (w : W)
      → Q w
      → (r ≡ ok true → Ensures (next w) P Q)
      → Ensures ((guarded refused r >> next) w) P Q
  guarded-Ensures P Q (ok true) next w q h = h refl
  guarded-Ensures P Q (ok false) next w q h = q
  guarded-Ensures P Q (throw e) next w q h = q

  passed-Ensures :
      (P : String → W → Type 0) (Q : W → Type 0) (e : Exception) (o : Option ResetPasswordDto)
      (next : ResetPasswordDto → Exec W String) (w : W)
      → Q w
      → ((dto : ResetPasswordDto) → o ≡ some dto → Ensures (next dto w) P Q)
      → Ensures ((passed_or e o >>= next) w) P Q
  passed-Ensures P Q e none next w q h = q
  passed-Ensures P Q e (some dto) next w q h = h dto refl

module _ {W : Type 0} {users : W → List User} (accounts : Accounts W) (sdk : Supertokens W)
    (laws : SupertokensLaws users accounts sdk) (refused : Exception) (enabled : Bool)
    (verify : String → Option String → Bool) (issues : Option Json → Json) where
  -- With the adapter over a SuperTokens that keeps its promises of the accounts, this route, one of the
  -- ways to a new password, changes a password only for a request with a right captcha, where the
  -- captcha is enabled, and a body with a token and twice the same password, which meets the policy. If
  -- the route answers, the one account that the token was issued for has that password and no session,
  -- the token is used up, and every other account has the password that it had. If it throws, every
  -- password is as it was, or the request was such a one and only that account's password is the new one.
  pub post_reset_password-IsGuarded :
      (is_email : String → Bool) (x : Exchange) (w : W)
      → Ensures
          (post_reset_password
            (auth_provider accounts sdk laws)
            refused
            enabled
            verify
            is_email
            issues
            x
            w)
          (λ _ w'. IsGuarded enabled verify x (λ dto. IsReset accounts dto w w'))
          (λ w'.
            Kept accounts w w' ⊎ IsGuarded enabled verify x (λ dto. IsHarmless accounts dto w w'))
  unfolding post_reset_password zod_validation_pipe
  post_reset_password-IsGuarded is_email x w =
      guarded-Ensures refused P Q (turnstile_guard enabled verify x).0 _ w (inl (λ id. refl))
        (λ passed.
          passed-Ensures refused P Q (validation_failed (issues x.request.body))
            (reset_password_schema x.request.body) (reset_password auth) w (inl (λ id. refl))
            (λ dto accepted.
              Ensures-mono (reset_password auth dto w) _ _ P Q
                (reset_password-IsReset accounts auth (auth_provider-AccountLaws accounts sdk laws)
                  dto w)
                (λ _ w' reset. guards passed dto accepted reset)
                (λ w' harmless. inr (guards passed dto accepted harmless))))
    where
      auth : AuthProviderPort W users
      auth = auth_provider accounts sdk laws

      P : String → W → Type 0
      P _ w' = IsGuarded enabled verify x (λ dto. IsReset accounts dto w w')

      Q : W → Type 0
      Q w' = Kept accounts w w' ⊎ IsGuarded enabled verify x (λ dto. IsHarmless accounts dto w w')

      guards :
          {R : ResetPasswordDto → Type 0}
          → (turnstile_guard enabled verify x).0 ≡ ok true
          → (dto : ResetPasswordDto) → reset_password_schema x.request.body ≡ some dto
          → R dto
          → IsGuarded enabled verify x R
      guards passed dto accepted r = (
        turnstile_guard-IsHuman enabled verify x passed,
        (dto, accepted, reset_password_schema-IsAgreed x.request.body dto accepted, r),
      )
