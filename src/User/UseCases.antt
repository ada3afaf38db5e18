-- ===== src/User/UseCases.antt =====
-- src/user/application/use-cases: the actions behind the routes of /v1/users.
use nestjs_hexagonal_templat.Prelude.{
  ℕ, String, Bool, true, false, not, ◌&&◌, Option, none, some, List, map, ◌==◌, leb, if◌then◌else◌,
}
use nestjs_hexagonal_templat.Common.Exec.{Exec, pure, raise, ◌>>=◌, ◌>>◌}
use nestjs_hexagonal_templat.Common.Json.{str, arr, obj, cons, nil, field, end}
use nestjs_hexagonal_templat.Common.Errors.{
  Exception, domain, domain_error, code_text, http_conflict, http_forbidden, not_found, bad_request,
  internal_server_error, user_email_already_exists, user_cannot_change_own_role, user_not_found,
  user_last_admin, user_cannot_delete_self, user_cannot_deactivate_self,
  user_password_policy_violated, user_password_update_failed,
}
use nestjs_hexagonal_templat.User.{
  Role, is_admin, User, CreateUserDto, UpdateUserDto, UserResponseDto, to_response,
}
use nestjs_hexagonal_templat.User.Port.{
  UserRepositoryPort, AuthProviderPort, UpdatePasswordResult, password_ok, unknown_user_id,
  policy_violated, unexpected,
}
use Prim.Native.String
use nestjs_hexagonal_templat.Common.Pagination.{
  PageQuery, PaginationMeta, parse_pagination_params, build_pagination_meta,
}

abbrev pub error_user_not_found : Exception
error_user_not_found = domain_error user_not_found "Usuário não encontrado" not_found

abbrev pub error_own_role : Exception
error_own_role =
    domain_error user_cannot_change_own_role "Não é possível alterar o próprio papel" http_forbidden

abbrev pub error_last_admin : String → Exception
error_last_admin message = domain_error user_last_admin message http_forbidden

-- new User({...}) before it is saved; `now` is `new Date()`.
abbrev pub new_user : ℕ → CreateUserDto → String → String → User
new_user now dto tenant supertokens_user_id = record {
  id = "";
  tenant_id = tenant;
  supertokens_user_id = supertokens_user_id;
  name = dto.name;
  email = dto.email;
  phone = dto.phone;
  role = dto.role;
  is_active = true;
  created_at = now;
  updated_at = now;
  deleted_at = none;
}

abbrev pub or_old {ℓ} : {A : Type ℓ} → Option A → A → A
or_old none old = old
or_old (some new) old = new

-- The assignments of `UpdateUserUseCase.execute`.
abbrev pub apply_update : UpdateUserDto → User → User
apply_update dto u = record u {
  name = or_old dto.name u.name;
  phone = or_old dto.phone u.phone;
  role = or_old dto.role u.role;
}

-- PasswordUpdateResultMapper.toException, for a result other than OK.
unfoldable pub to_exception : UpdatePasswordResult → String → Exception
to_exception unknown_user_id _ =
    domain_error user_not_found "Usuário não encontrado no provedor de autenticação" not_found
to_exception (policy_violated reason) policy_message = domain (record {
  code = code_text user_password_policy_violated;
  message = policy_message;
  http_status = bad_request;
  details =
      some (
        arr
          (cons (obj (field "field" (str "newPassword") (field "message" (str reason) end))) nil));
})
to_exception (unexpected detail) _ =
    domain_error user_password_update_failed (String.◌++◌ "Falha ao atualizar a senha: " detail)
      internal_server_error
to_exception password_ok _ =
    domain_error user_password_update_failed "Falha ao atualizar a senha: undefined"
      internal_server_error

abbrev pub policy_default : String
policy_default = "A senha não atende aos requisitos mínimos de segurança"

-- `if (!found) throw new DomainException(USER_NOT_FOUND, ...)`
abbrev pub require_user : {W : Type 0} → Option User → Exec W User
require_user none = raise error_user_not_found
require_user (some u) = pure u

abbrev pub throw_if : {W : Type 0} → Bool → Exception → Exec W (Unit {0})
throw_if true e = raise e
throw_if false e = pure tt

module _ {W : Type 0} (repo : UserRepositoryPort W) where
  unfoldable pub create_user : ℕ → CreateUserDto → String → String → Exec W UserResponseDto
  unfolding to_response
  create_user now dto tenant supertokens_user_id = do
    existing ← repo.find_by_email dto.email tenant
    throw_if (elim existing [ none ↦ false | some _ ↦ true ])
        (domain_error user_email_already_exists "E-mail já cadastrado neste tenant" http_conflict)
    saved ← repo.save (new_user now dto tenant supertokens_user_id)
    pure (to_response saved)

  -- The count of active administrators is read and judged.
  unfoldable pub require_other_admin : String → String → Exec W (Unit {0})
  require_other_admin tenant message = do
    active_admins ← repo.count_active_admins_by_tenant_id tenant
    throw_if (leb active_admins 1) (error_last_admin message)

  -- Whether the new role takes an active administrator's away.
  abbrev pub is_demotion : User → Option Role → Bool
  is_demotion u none = false
  is_demotion u (some role) = u.is_active && (is_admin u.role && not (is_admin role))

  unfoldable pub assert_not_last_admin : User → String → Option Role → Exec W (Unit {0})
  unfolding require_other_admin
  assert_not_last_admin u tenant role =
      if is_demotion u role
      then require_other_admin tenant "Não é possível rebaixar o último administrador ativo"
      else pure tt

  unfoldable pub update_user : String → String → String → UpdateUserDto → Exec W UserResponseDto
  unfolding assert_not_last_admin to_response
  update_user id tenant current_user dto = do
    throw_if (elim dto.role [ none ↦ false | some _ ↦ id == current_user ]) error_own_role
    found ← repo.find_by_id id tenant
    u ← require_user found
    assert_not_last_admin u tenant dto.role
    updated ← repo.update (apply_update dto u)
    pure (to_response updated)

  unfoldable pub get_current_user : String → String → Exec W UserResponseDto
  unfolding to_response
  get_current_user id tenant = do
    found ← repo.find_by_id id tenant
    u ← require_user found
    pure (to_response u)

  unfoldable pub list_users : String → PageQuery → Exec W (List UserResponseDto × PaginationMeta)
  unfolding to_response parse_pagination_params build_pagination_meta
  list_users tenant query = do
    let params = parse_pagination_params query
    found ← repo.find_all tenant params.page params.per_page
    pure (map to_response found.0, build_pagination_meta found.1 params.page params.per_page)

  module _ (auth : AuthProviderPort W repo.users) where
    unfoldable pub delete_user : String → String → String → Exec W (Unit {0})
    unfolding require_other_admin
    delete_user id tenant current_user = do
      throw_if (id == current_user) (
          domain_error user_cannot_delete_self "Não é possível excluir a própria conta"
            http_forbidden)
      found ← repo.find_by_id id tenant
      u ← require_user found
      if u.is_active && is_admin u.role
          then require_other_admin tenant "Não é possível excluir o último administrador ativo"
          else pure tt
      auth.revoke_all_sessions u.supertokens_user_id
      auth.delete_user u.supertokens_user_id
      repo.soft_delete id tenant

    unfoldable pub set_user_active : String → String → String → Bool → Exec W UserResponseDto
    unfolding require_other_admin to_response
    set_user_active id tenant current_user is_active = do
      throw_if (not is_active && id == current_user) (
          domain_error user_cannot_deactivate_self "Não é possível desativar a própria conta"
            http_forbidden)
      found ← repo.find_by_id id tenant
      u ← require_user found
      if not is_active && (u.is_active && is_admin u.role)
          then require_other_admin tenant "Não é possível desativar o último administrador ativo"
          else pure tt
      if is_active then pure tt else auth.revoke_all_sessions u.supertokens_user_id
      updated ← repo.update (record u { is_active = is_active })
      pure (to_response updated)

    -- The result of `updatePassword`, judged.
    abbrev pub require_password_ok : UpdatePasswordResult → Exec W (Unit {0})
    require_password_ok password_ok = pure tt
    require_password_ok other = raise (to_exception other policy_default)

    unfoldable pub update_user_password : String → String → String → Exec W (Unit {0})
    unfolding to_exception
    update_user_password id tenant new_password = do
      found ← repo.find_by_id id tenant
      u ← require_user found
      result ← auth.update_password u.supertokens_user_id new_password
      require_password_ok result
      auth.revoke_all_sessions u.supertokens_user_id
