-- ===== src/Auth.antt =====
-- src/auth/application/use-cases: a forgotten password, over the port of the identity provider. Both
-- answers carry a message alone, so a text stands for them.
pub mod Schema
pub mod Adapter
pub mod Provider
pub mod Reset
pub mod Controller
mod Tests
use Prim.Native.String.{String}
use nestjs_hexagonal_templat.Prelude.{Bool, Option, none, some, List, ◌==◌, if◌then◌else◌}
use nestjs_hexagonal_templat.Common.Exec.{Exec, pure, raise, ◌>>=◌, ◌>>◌}
use nestjs_hexagonal_templat.Common.Errors.{
  Exception, domain_error, bad_request, auth_reset_token_invalid,
}
use nestjs_hexagonal_templat.User.{User}
use nestjs_hexagonal_templat.User.Port.{
  AuthProviderPort, UpdatePasswordResult, password_ok, unknown_user_id, policy_violated, unexpected,
  ConsumeResetTokenResult, consumed, invalid_reset_token,
}
use nestjs_hexagonal_templat.User.UseCases.{to_exception}

pub record ResetPasswordDto : Type 0 where
  pub token : String
  pub new_password : String
  pub confirm_password : String

-- GENERIC_MESSAGE
abbrev pub generic_message : String
generic_message = "Se o e-mail existir, enviaremos um link"

abbrev pub error_reset_token : Exception
error_reset_token = domain_error auth_reset_token_invalid "Link inválido ou expirado" bad_request

abbrev pub policy_message : String
policy_message =
    "A senha não atende aos requisitos mínimos de segurança. Solicite um novo link para tentar de novo"

module _ {W : Type 0} {users : W → List User} (auth : AuthProviderPort W users) where
  abbrev pub send_if : String → Option String → Exec W String
  send_if email none = pure generic_message
  send_if email (some id) =
      if id == ""
      then pure generic_message
      else auth.send_password_reset_email id email >> pure generic_message

  unfoldable pub forgot_password : String → Exec W String
  forgot_password email = do
    provider_user_id ← auth.find_email_password_user_id_by_email email
    send_if email provider_user_id

  -- The id that a token stood for.
  abbrev pub require_consumed : ConsumeResetTokenResult → Exec W String
  require_consumed (consumed id email) = pure id
  require_consumed invalid_reset_token = raise error_reset_token

  abbrev pub require_updated : UpdatePasswordResult → Exec W (Unit {0})
  require_updated password_ok = pure tt
  require_updated unknown_user_id = raise (to_exception unknown_user_id policy_message)
  require_updated (policy_violated reason) =
      raise (to_exception (policy_violated reason) policy_message)
  require_updated (unexpected detail) = raise (to_exception (unexpected detail) policy_message)

  unfoldable pub reset_password : ResetPasswordDto → Exec W String
  reset_password dto = do
    found ← auth.consume_password_reset_token dto.token
    id ← require_consumed found
    result ← auth.update_password id dto.new_password
    require_updated result
    auth.revoke_all_sessions id
    pure "Senha atualizada com sucesso"
