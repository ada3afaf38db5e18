-- ===== src/Auth/Provider.antt =====
-- The adapter of src/auth/infrastructure/supertokens-auth-provider.adapter.ts as the port that the use
-- cases have, with what SuperTokens promises of the calls that a reset makes.
use Prim.Native.String.{String}
use nestjs_hexagonal_templat.Prelude.{◌≡◌, refl, ◌⊎◌, false, Option, none, some, List, ◌∙◌}
use nestjs_hexagonal_templat.Common.Exec.{Result, ok, throw, pure, continue, Ensures}
use nestjs_hexagonal_templat.User.{User}
use nestjs_hexagonal_templat.User.Port.{AuthProviderPort}
use nestjs_hexagonal_templat.Auth.Adapter.{
  Supertokens, UpdateStatus, updated, unknown_user, violated, other_status, as_consumed, as_result,
  find_email_password_user_id_by_email, send_password_reset_email, consume_password_reset_token,
  update_password, revoke_all_sessions, delete_user,
}
use nestjs_hexagonal_templat.Auth.Reset.{
  Accounts, Kept, SameTokens, IsChanged, IsConsumed, IsUpdate, AccountLaws,
}

module _ {W : Type 0} (accounts : Accounts W) where
  -- The token stood for the account of the answer, and stands for none any more.
  abbrev pub IsSpent : String → Option (String × String) → W → W → Type 0
  IsSpent token none w w' = Unit {0}
  IsSpent token (some p) w w' =
      (accounts.owner_of w token ≡ some p.0) × (accounts.owner_of w' token ≡ none)

  -- The password is changed where the status is 'OK', and only then.
  abbrev pub IsStored : String → String → UpdateStatus → W → W → Type 0
  IsStored id password updated w w' = IsChanged accounts id password w w'
  IsStored id password unknown_user w w' = Kept accounts w w'
  IsStored id password (violated reason) w w' = Kept accounts w w'
  IsStored id password (other_status status) w w' = Kept accounts w w'

-- What SuperTokens promises of its accounts; a call that throws has done its work or nothing. The
-- application's users are not in its database.
pub record SupertokensLaws {W : Type 0} (users : W → List User) (accounts : Accounts W)
    (sdk : Supertokens W) : Type 0 where
  pub consume_law :
      (token : String) (w : W)
      → Ensures
          (sdk.consume_password_reset_token token w)
          (λ o w'. Kept accounts w w' × IsSpent accounts token o w w')
          (λ w'. Kept accounts w w')
  pub update_law :
      (id password : String) (w : W)
      → Ensures
          (sdk.update_email_or_password id password w)
          (λ s w'. IsStored accounts id password s w w' × SameTokens accounts w w')
          (λ w'. Kept accounts w w' ⊎ IsChanged accounts id password w w')
  pub revoke_law :
      (id : String) (w : W)
      → Ensures
          (sdk.revoke_all_sessions_for_user id w)
          (λ _ w'.
            Kept accounts w w' × SameTokens accounts w w' × (accounts.has_session w' id ≡ false))
          (λ w'. Kept accounts w w')
  pub update_frame :
      (id password : String) (w : W)
      → users (sdk.update_email_or_password id password w).1 ≡ users w
  pub revoke_frame :
      (id : String) (w : W) → users (sdk.revoke_all_sessions_for_user id w).1 ≡ users w
  pub delete_frame : (id : String) (w : W) → users (sdk.delete_user id w).1 ≡ users w

pub after_pure :
    {W A B : Type 0} (users : W → List User) (r : Result A × W) (f : A → B)
    → users (continue r.0 (λ a. pure (f a)) r.1).1 ≡ users r.1
after_pure users (ok a, w) f = refl
after_pure users (throw e, w) f = refl

module _ {W : Type 0} {users : W → List User} (accounts : Accounts W) (sdk : Supertokens W)
    (laws : SupertokensLaws users accounts sdk) where
  unfoldable pub auth_provider : AuthProviderPort W users
  unfolding find_email_password_user_id_by_email send_password_reset_email
      consume_password_reset_token update_password revoke_all_sessions delete_user
  auth_provider = record {
    find_email_password_user_id_by_email = find_email_password_user_id_by_email sdk;
    send_password_reset_email = send_password_reset_email sdk;
    consume_password_reset_token = consume_password_reset_token sdk;
    update_password = update_password sdk;
    revoke_all_sessions = revoke_all_sessions sdk;
    delete_user = delete_user sdk;
    update_password_frame = λ id p w.
        after_pure users (sdk.update_email_or_password id p w) as_result ∙ laws.update_frame id p w;
    revoke_all_sessions_frame = λ id w. laws.revoke_frame id w;
    delete_user_frame = λ id w. laws.delete_frame id w;
  }

  as_consumed-IsConsumed :
      (token : String) (w : W) (r : Result (Option (String × String)) × W)
      → Ensures r
          (λ o w'. Kept accounts w w' × IsSpent accounts token o w w')
          (λ w'. Kept accounts w w')
      → Ensures
          (continue r.0 (λ o. pure (as_consumed o)) r.1)
          (λ a w'. Kept accounts w w' × IsConsumed accounts token a w w')
          (λ w'. Kept accounts w w')
  as_consumed-IsConsumed token w (ok none, v) h = h
  as_consumed-IsConsumed token w (ok (some p), v) h = h
  as_consumed-IsConsumed token w (throw e, v) h = h

  as_result-IsUpdate :
      (id password : String) (w : W) (r : Result UpdateStatus × W)
      → Ensures r
          (λ s w'. IsStored accounts id password s w w' × SameTokens accounts w w')
          (λ w'. Kept accounts w w' ⊎ IsChanged accounts id password w w')
      → Ensures
          (continue r.0 (λ s. pure (as_result s)) r.1)
          (λ a w'. IsUpdate accounts id password a w w' × SameTokens accounts w w')
          (λ w'. Kept accounts w w' ⊎ IsChanged accounts id password w w')
  as_result-IsUpdate id password w (ok updated, v) h = h
  as_result-IsUpdate id password w (ok unknown_user, v) h = h
  as_result-IsUpdate id password w (ok (violated reason), v) h = h
  as_result-IsUpdate id password w (ok (other_status status), v) h = h
  as_result-IsUpdate id password w (throw e, v) h = h

  -- Over SuperTokens, the adapter does what a reset relies on.
  pub auth_provider-AccountLaws : AccountLaws accounts auth_provider
  unfolding auth_provider consume_password_reset_token update_password revoke_all_sessions
  auth_provider-AccountLaws = record {
    consume_law = λ token w.
        as_consumed-IsConsumed token w (sdk.consume_password_reset_token token w)
          (laws.consume_law token w);
    update_law = λ id p w.
        as_result-IsUpdate id p w (sdk.update_email_or_password id p w) (laws.update_law id p w);
    revoke_law = λ id w. laws.revoke_law id w;
  }
