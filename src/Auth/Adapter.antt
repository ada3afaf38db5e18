-- ===== src/Auth/Adapter.antt =====
-- src/auth/infrastructure/supertokens-auth-provider.adapter.ts over the calls of supertokens-node,
-- which are arguments.
use Prim.Native.String.{String}
use nestjs_hexagonal_templat.Prelude.{Bool, Option, none, some, List, [], ◌∷◌, ◌++◌, ◌==◌, find}
use nestjs_hexagonal_templat.Common.Exec.{Exec, pure, ◌>>=◌}
use nestjs_hexagonal_templat.User.Port.{
  UpdatePasswordResult, password_ok, unknown_user_id, policy_violated, unexpected,
  ConsumeResetTokenResult, consumed, invalid_reset_token,
}

pub record LoginMethod : Type 0 where
  pub recipe_id : String
  pub recipe_user_id : String

-- The `status` of `updateEmailOrPassword`, with the reason of a violated policy.
pub data UpdateStatus : Type 0 where
  updated unknown_user : UpdateStatus
  violated : String → UpdateStatus
  other_status : String → UpdateStatus

pub record Supertokens (W : Type 0) : Type 0 where
  -- The login methods of each user that has the address.
  pub list_users_by_account_info : String → Exec W (List (List LoginMethod))
  -- Whether the status is 'OK'.
  pub send_reset_password_email : String → String → Exec W Bool
  -- The id and the address of the token, none for another status.
  pub consume_password_reset_token : String → Exec W (Option (String × String))
  pub update_email_or_password : String → String → Exec W UpdateStatus
  pub revoke_all_sessions_for_user : String → Exec W (Unit {0})
  pub delete_user : String → Exec W (Unit {0})

abbrev flat : List (List LoginMethod) → List LoginMethod
flat [] = []
flat (ms ∷ us) = ms ++ flat us

abbrev recipe_user : Option LoginMethod → Option String
recipe_user none = none
recipe_user (some m) = some m.recipe_user_id

abbrev pub as_consumed : Option (String × String) → ConsumeResetTokenResult
as_consumed none = invalid_reset_token
as_consumed (some p) = consumed p.0 p.1

abbrev pub as_result : UpdateStatus → UpdatePasswordResult
as_result updated = password_ok
as_result unknown_user = unknown_user_id
as_result (violated reason) = policy_violated reason
as_result (other_status status) = unexpected status

module _ {W : Type 0} (sdk : Supertokens W) where
  unfoldable pub find_email_password_user_id_by_email : String → Exec W (Option String)
  find_email_password_user_id_by_email email = do
    users ← sdk.list_users_by_account_info email
    pure (recipe_user (find (λ (m : LoginMethod). m.recipe_id == "emailpassword") (flat users)))

  unfoldable pub send_password_reset_email : String → String → Exec W Bool
  send_password_reset_email id email = sdk.send_reset_password_email id email

  unfoldable pub consume_password_reset_token : String → Exec W ConsumeResetTokenResult
  consume_password_reset_token token = do
    answer ← sdk.consume_password_reset_token token
    pure (as_consumed answer)

  unfoldable pub update_password : String → String → Exec W UpdatePasswordResult
  update_password id new_password = do
    status ← sdk.update_email_or_password id new_password
    pure (as_result status)

  unfoldable pub revoke_all_sessions : String → Exec W (Unit {0})
  revoke_all_sessions id = sdk.revoke_all_sessions_for_user id

  unfoldable pub delete_user : String → Exec W (Unit {0})
  delete_user id = sdk.delete_user id
