-- ===== src/Auth/Reset.antt =====
-- src/auth/application/use-cases/reset-password.use-case.ts: whose password a token changes. What the
-- identity provider promises of its accounts stands in a record of laws.
use Prim.Native.String.{String}
use nestjs_hexagonal_templat.Prelude.{
  ◌≡◌, refl, ◌∙◌, ◌≢◌, ◌⊎◌, inl, inr, Bool, false, Option, none, some, List,
}
use nestjs_hexagonal_templat.Common.Exec.{Ensures, Ensures-bind}
use nestjs_hexagonal_templat.User.{User}
use nestjs_hexagonal_templat.User.Port.{
  AuthProviderPort, UpdatePasswordResult, password_ok, unknown_user_id, policy_violated, unexpected,
  ConsumeResetTokenResult, consumed, invalid_reset_token,
}
use nestjs_hexagonal_templat.Auth.{
  ResetPasswordDto, reset_password, require_consumed, require_updated,
}

-- What the provider keeps: the password of an account, whether it has a session, and the account that
-- a token may still be used for.
pub record Accounts (W : Type 0) : Type 0 where
  pub password_of : W → String → Option String
  pub has_session : W → String → Bool
  pub owner_of : W → String → Option String

module _ {W : Type 0} (accounts : Accounts W) where
  abbrev pub Kept : W → W → Type 0
  Kept w w' = (id : String) → accounts.password_of w' id ≡ accounts.password_of w id

  abbrev pub SameTokens : W → W → Type 0
  SameTokens w w' = (token : String) → accounts.owner_of w' token ≡ accounts.owner_of w token

  -- The account has the password, and no other account has another one than before.
  abbrev pub IsChanged : String → String → W → W → Type 0
  IsChanged id password w w' =
      (accounts.password_of w' id ≡ some password)
      × ((other : String)
          → other ≢ id
          → accounts.password_of w' other ≡ accounts.password_of w other)

  abbrev pub IsConsumed : String → ConsumeResetTokenResult → W → W → Type 0
  IsConsumed token (consumed id email) w w' =
      (accounts.owner_of w token ≡ some id) × (accounts.owner_of w' token ≡ none)
  IsConsumed token invalid_reset_token w w' = Unit {0}

  abbrev pub IsUpdate : String → String → UpdatePasswordResult → W → W → Type 0
  IsUpdate id password password_ok w w' = IsChanged id password w w'
  IsUpdate id password unknown_user_id w w' = Kept w w'
  IsUpdate id password (policy_violated reason) w w' = Kept w w'
  IsUpdate id password (unexpected detail) w w' = Kept w w'

  abbrev pub IsReset : ResetPasswordDto → W → W → Type 0
  IsReset dto w w' =
      (id : String) × (accounts.owner_of w dto.token ≡ some id)
      × IsChanged id dto.new_password w w'
      × (accounts.has_session w' id ≡ false)
      × (accounts.owner_of w' dto.token ≡ none)

  abbrev pub IsHarmless : ResetPasswordDto → W → W → Type 0
  IsHarmless dto w w' =
      Kept w w'
      ⊎ ((id : String) × (accounts.owner_of w dto.token ≡ some id)
          × IsChanged id dto.new_password w w')

module _ {W : Type 0} {users : W → List User} where
  -- A call that throws has done its work or nothing.
  pub record AccountLaws (accounts : Accounts W) (auth : AuthProviderPort W users) : Type 0 where
    pub consume_law :
        (token : String) (w : W)
        → Ensures
            (auth.consume_password_reset_token token w)
            (λ r w'. Kept accounts w w' × IsConsumed accounts token r w w')
            (λ w'. Kept accounts w w')
    pub update_law :
        (id password : String) (w : W)
        → Ensures
            (auth.update_password id password w)
            (λ r w'. IsUpdate accounts id password r w w' × SameTokens accounts w w')
            (λ w'. Kept accounts w w' ⊎ IsChanged accounts id password w w')
    pub revoke_law :
        (id : String) (w : W)
        → Ensures
            (auth.revoke_all_sessions id w)
            (λ _ w'.
              Kept accounts w w' × SameTokens accounts w w' × (accounts.has_session w' id ≡ false))
            (λ w'. Kept accounts w w')

module _ {W : Type 0} {users : W → List User} (accounts : Accounts W)
    (auth : AuthProviderPort W users) (laws : AccountLaws accounts auth) where
  -- The account that the token stood for, which is used up, with every password as it was.
  abbrev IsOwner : String → W → String → W → Type 0
  IsOwner token w id w' =
      Kept accounts w w'
      × (accounts.owner_of w token ≡ some id)
      × (accounts.owner_of w' token ≡ none)

  require_consumed-IsOwner :
      (token : String) (w : W) (r : ConsumeResetTokenResult) (w1 : W)
      → Kept accounts w w1 × IsConsumed accounts token r w w1
      → Ensures (require_consumed auth r w1) (IsOwner token w) (λ w'. Kept accounts w w')
  require_consumed-IsOwner token w (consumed id email) w1 h = (h.0, h.1.0, h.1.1)
  require_consumed-IsOwner token w invalid_reset_token w1 h = h.0

  -- A password set after the passwords were kept, and kept after it was set.
  IsChanged-around :
      (id password : String) (w w1 w2 w3 : W)
      → Kept accounts w w1
      → IsChanged accounts id password w1 w2
      → Kept accounts w2 w3
      → IsChanged accounts id password w w3
  IsChanged-around id password w w1 w2 w3 before during after =
      (after id ∙ during.0, λ other apart. after other ∙ (during.1 other apart ∙ before other))

  require_updated-IsChanged :
      (id password : String) (w1 : W) (r : UpdatePasswordResult) (w2 : W)
      → IsUpdate accounts id password r w1 w2 × SameTokens accounts w1 w2
      → Ensures
          (require_updated auth r w2)
          (λ _ w'. IsChanged accounts id password w1 w' × SameTokens accounts w1 w')
          (λ w'. Kept accounts w1 w')
  require_updated-IsChanged id password w1 password_ok w2 h = h
  require_updated-IsChanged id password w1 unknown_user_id w2 h = h.0
  require_updated-IsChanged id password w1 (policy_violated reason) w2 h = h.0
  require_updated-IsChanged id password w1 (unexpected detail) w2 h = h.0

  Kept-trans : (w w1 w2 : W) → Kept accounts w w1 → Kept accounts w1 w2 → Kept accounts w w2
  Kept-trans w w1 w2 h k = λ id. k id ∙ h id

  -- A token resets the password of the one account that it was issued for. If the call returns, that
  -- account has the new password and no session, the token is used up, and every other account has
  -- the password that it had. If it throws, every password is as it was, or only that account's is
  -- the new one.
  pub reset_password-IsReset :
      (dto : ResetPasswordDto) (w : W)
      → Ensures
          (reset_password auth dto w)
          (λ _ w'. IsReset accounts dto w w')
          (λ w'. IsHarmless accounts dto w w')
  unfolding reset_password
  reset_password-IsReset dto w =
      let P : String → W → Type 0 = λ _ w'. IsReset accounts dto w w' in
      let Q : W → Type 0 = λ w'. IsHarmless accounts dto w w' in
      Ensures-bind (auth.consume_password_reset_token dto.token w) _ _ _ P Q
        (laws.consume_law dto.token w)
        (λ r w0 consumption.
          Ensures-bind (require_consumed auth r w0) _ _ _ P Q
            (require_consumed-IsOwner dto.token w r w0 consumption)
            (λ id w1 owner.
              Ensures-bind (auth.update_password id dto.new_password w1) _ _ _ P Q
                (laws.update_law id dto.new_password w1)
                (λ s w2 update.
                  Ensures-bind (require_updated auth s w2) _ _ _ P Q
                    (require_updated-IsChanged id dto.new_password w1 s w2 update)
                    (λ _ w3 here.
                      Ensures-bind (auth.revoke_all_sessions id w3) _ _ _ P Q
                        (laws.revoke_law id w3)
                        (λ _ w4 revoked. (
                          id,
                          owner.1,
                          IsChanged-around id dto.new_password w w1 w3 w4 owner.0 here.0 revoked.0,
                          revoked.2,
                          revoked.1 dto.token ∙ (here.1 dto.token ∙ owner.2),
                        ))
                        (λ w4 kept. inr (
                          id,
                          owner.1,
                          IsChanged-around id dto.new_password w w1 w3 w4 owner.0 here.0 kept,
                        )))
                    (λ w3 kept. inl (Kept-trans w w1 w3 owner.0 kept)))
                (λ w2 h. after_update id w1 w2 owner h))
            (λ w1 kept. inl kept))
        (λ w0 kept. inl kept)
    where
      after_update :
          (id : String) (w1 w2 : W)
          → IsOwner dto.token w id w1
          → Kept accounts w1 w2 ⊎ IsChanged accounts id dto.new_password w1 w2
          → IsHarmless accounts dto w w2
      after_update id w1 w2 owner (inl kept) = inl (Kept-trans w w1 w2 owner.0 kept)
      after_update id w1 w2 owner (inr here) =
          inr
            (id, owner.1, IsChanged-around id dto.new_password w w1 w2 w2 owner.0 here (λ i. refl))
