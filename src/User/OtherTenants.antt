-- ===== src/User/OtherTenants.antt =====
-- The routes of src/user/infrastructure/http/user.controller.ts stay within the caller's tenant.
use nestjs_hexagonal_templat.Prelude.{
  ℕ, String, ◌≡◌, refl, Bool, true, false, not, ◌&&◌, none, some, ◌==◌, if◌then◌else◌,
}
use nestjs_hexagonal_templat.Common.Exec.{Exec, pure, ◌>>=◌}
use nestjs_hexagonal_templat.Common.Pagination.{PageQuery, parse_pagination_params}
use nestjs_hexagonal_templat.User.{CreateUserDto, UpdateUserDto, is_admin, to_response}
use nestjs_hexagonal_templat.User.Port.{
  UserRepositoryPort, AuthProviderPort, UpdatePasswordResult, password_ok, unknown_user_id,
  policy_violated, unexpected,
}
use nestjs_hexagonal_templat.User.UseCases.{
  throw_if, require_other_admin, require_password_ok, is_demotion, assert_not_last_admin,
  apply_update, new_user, list_users, create_user, get_current_user, update_user,
  update_user_password, set_user_active, delete_user,
}
use nestjs_hexagonal_templat.User.Isolation.{
  outside, Isolated, bind-Isolated, reads-Isolated, throw_if-Isolated, find_by_email-Isolated,
  find_all-Isolated, require_other_admin-Isolated, save-Isolated, update-Isolated,
  soft_delete-Isolated, found-Isolated,
}
use nestjs_hexagonal_templat.User.Controller.{
  RequestUser, Request, list, create, me, update, update_password, set_active, remove, one, handle,
}

module _ {W : Type 0} (repo : UserRepositoryPort W) (tenant : String) where
  pure-Isolated : {A : Type 0} (a : A) → Isolated repo tenant (pure a)
  pure-Isolated a w = refl

  guard-Isolated :
      (b : Bool) (text : String)
      → Isolated repo tenant (if b then require_other_admin repo tenant text else pure tt)
  guard-Isolated true text w = require_other_admin-Isolated repo tenant text w
  guard-Isolated false text w = refl

  respond-Isolated :
      {A B : Type 0} (m : Exec W A) (f : A → B)
      → Isolated repo tenant m
      → Isolated repo tenant (m >>= λ a. pure (f a))
  respond-Isolated m f h = bind-Isolated repo tenant m _ h (λ a. pure-Isolated (f a))

  list_users-Isolated : (query : PageQuery) → Isolated repo tenant (list_users repo tenant query)
  unfolding list_users
  list_users-Isolated query =
      let params = parse_pagination_params query in
      respond-Isolated (repo.find_all tenant params.page params.per_page) _
        (find_all-Isolated repo tenant tenant params.page params.per_page)

  create_user-Isolated :
      (now : ℕ) (dto : CreateUserDto) (supertokens_user_id : String)
      → Isolated repo tenant (create_user repo now dto tenant supertokens_user_id)
  unfolding create_user
  create_user-Isolated now dto supertokens_user_id =
      bind-Isolated repo tenant (repo.find_by_email dto.email tenant) _
        (find_by_email-Isolated repo tenant dto.email tenant)
        λ existing.
          bind-Isolated repo tenant (throw_if (elim existing [ none ↦ false | some _ ↦ true ]) _) _
            (throw_if-Isolated repo tenant (elim existing [ none ↦ false | some _ ↦ true ]) _)
            λ _.
              respond-Isolated (repo.save (new_user now dto tenant supertokens_user_id)) to_response
                (save-Isolated repo tenant (new_user now dto tenant supertokens_user_id) refl)

  get_current_user-Isolated : (id : String) → Isolated repo tenant (get_current_user repo id tenant)
  unfolding get_current_user
  get_current_user-Isolated id =
      found-Isolated repo tenant id _ (λ u mine. pure-Isolated (to_response u))

  update_user-Isolated :
      (id current_user : String) (dto : UpdateUserDto)
      → Isolated repo tenant (update_user repo id tenant current_user dto)
  unfolding update_user assert_not_last_admin
  update_user-Isolated id current_user dto =
      let own : Bool = elim dto.role [ none ↦ false | some _ ↦ id == current_user ] in
      bind-Isolated repo tenant (throw_if own _) _ (throw_if-Isolated repo tenant own _) λ _.
        found-Isolated repo tenant id _ λ u mine.
          bind-Isolated repo tenant
            (if is_demotion repo u dto.role then require_other_admin repo tenant _ else pure tt) _
            (guard-Isolated (is_demotion repo u dto.role) _)
            λ _.
              respond-Isolated (repo.update (apply_update dto u)) to_response
                (update-Isolated repo tenant (apply_update dto u) mine)

  module _ (auth : AuthProviderPort W repo.users) where
    revoke-Isolated : (id : String) → Isolated repo tenant (auth.revoke_all_sessions id)
    revoke-Isolated id =
        reads-Isolated repo tenant (auth.revoke_all_sessions id) (auth.revoke_all_sessions_frame id)

    delete_user-Isolated :
        (id current_user : String)
        → Isolated repo tenant (delete_user repo auth id tenant current_user)
    unfolding delete_user
    delete_user-Isolated id current_user =
        bind-Isolated repo tenant (throw_if (id == current_user) _) _
          (throw_if-Isolated repo tenant (id == current_user) _)
          λ _. found-Isolated repo tenant id _ λ u mine.
            bind-Isolated repo tenant
              (if u.is_active && is_admin u.role
                then require_other_admin repo tenant _
                else pure tt)
              _ (guard-Isolated (u.is_active && is_admin u.role) _)
              λ _.
                bind-Isolated repo tenant (auth.revoke_all_sessions u.supertokens_user_id) _
                  (revoke-Isolated u.supertokens_user_id)
                  λ _.
                    bind-Isolated repo tenant (auth.delete_user u.supertokens_user_id) _
                      (reads-Isolated repo tenant (auth.delete_user u.supertokens_user_id)
                        (auth.delete_user_frame u.supertokens_user_id))
                      λ _. soft_delete-Isolated repo tenant id

    set_user_active-Isolated :
        (id current_user : String) (is_active : Bool)
        → Isolated repo tenant (set_user_active repo auth id tenant current_user is_active)
    unfolding set_user_active
    set_user_active-Isolated id current_user is_active =
        bind-Isolated repo tenant (throw_if (not is_active && id == current_user) _) _
          (throw_if-Isolated repo tenant (not is_active && id == current_user) _)
          λ _. found-Isolated repo tenant id _ λ u mine.
            bind-Isolated repo tenant
              (if not is_active && (u.is_active && is_admin u.role)
                then require_other_admin repo tenant _
                else pure tt)
              _ (guard-Isolated (not is_active && (u.is_active && is_admin u.role)) _)
              λ _.
                bind-Isolated repo tenant
                  (if is_active then pure tt else auth.revoke_all_sessions u.supertokens_user_id) _
                  (revoke_unless is_active u.supertokens_user_id)
                  λ _.
                    respond-Isolated (repo.update (record u { is_active = is_active })) to_response
                      (update-Isolated repo tenant (record u { is_active = is_active }) mine)
      where
        revoke_unless :
            (b : Bool) (s : String)
            → Isolated repo tenant (if b then pure tt else auth.revoke_all_sessions s)
        revoke_unless true s w = refl
        revoke_unless false s w = revoke-Isolated s w

    update_user_password-Isolated :
        (id new_password : String)
        → Isolated repo tenant (update_user_password repo auth id tenant new_password)
    unfolding update_user_password
    update_user_password-Isolated id new_password = found-Isolated repo tenant id _ λ u mine.
        bind-Isolated repo tenant (auth.update_password u.supertokens_user_id new_password) _
          (reads-Isolated repo tenant (auth.update_password u.supertokens_user_id new_password)
            (auth.update_password_frame u.supertokens_user_id new_password))
          λ r.
            bind-Isolated repo tenant (require_password_ok repo auth r) _ (judged r)
              λ _. revoke-Isolated u.supertokens_user_id
      where
        judged : (r : UpdatePasswordResult) → Isolated repo tenant (require_password_ok repo auth r)
        judged password_ok w = refl
        judged unknown_user_id w = refl
        judged (policy_violated reason) w = refl
        judged (unexpected detail) w = refl

module _ {W : Type 0} (repo : UserRepositoryPort W) (auth : AuthProviderPort W repo.users) where
  -- Tenants are kept apart: whatever a caller asks of the routes of the users, and however the request
  -- ends, the users of every other tenant than the caller's are as they were, in the same order.
  pub handle-Isolated :
      (now : ℕ) (caller : RequestUser) (request : Request) (w : W)
      → outside caller.tenant_id (repo.users (handle repo auth now caller request w).1)
        ≡ outside caller.tenant_id (repo.users w)
  unfolding handle
  handle-Isolated now caller (list query) =
      respond-Isolated repo caller.tenant_id (list_users repo caller.tenant_id query) _
        (list_users-Isolated repo caller.tenant_id query)
  handle-Isolated now caller (create dto) =
      respond-Isolated repo caller.tenant_id
        (create_user repo now dto caller.tenant_id "pending-supertokens-id") one
        (create_user-Isolated repo caller.tenant_id now dto "pending-supertokens-id")
  handle-Isolated now caller me =
      respond-Isolated repo caller.tenant_id (get_current_user repo caller.user_id caller.tenant_id)
        one (get_current_user-Isolated repo caller.tenant_id caller.user_id)
  handle-Isolated now caller (update id dto) =
      respond-Isolated repo caller.tenant_id
        (update_user repo id caller.tenant_id caller.user_id dto) one
        (update_user-Isolated repo caller.tenant_id id caller.user_id dto)
  handle-Isolated now caller (update_password id new_password) =
      respond-Isolated repo caller.tenant_id
        (update_user_password repo auth id caller.tenant_id new_password) _
        (update_user_password-Isolated repo caller.tenant_id auth id new_password)
  handle-Isolated now caller (set_active id is_active) =
      respond-Isolated repo caller.tenant_id
        (set_user_active repo auth id caller.tenant_id caller.user_id is_active) one
        (set_user_active-Isolated repo caller.tenant_id auth id caller.user_id is_active)
  handle-Isolated now caller (remove id) =
      respond-Isolated repo caller.tenant_id
        (delete_user repo auth id caller.tenant_id caller.user_id) _
        (delete_user-Isolated repo caller.tenant_id auth id caller.user_id)
