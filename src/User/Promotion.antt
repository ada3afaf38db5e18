-- ===== src/User/Promotion.antt =====
-- The use cases of src/user/application/use-cases leave the superadmins as they were, where the request names
-- no superadmin.
use nestjs_hexagonal_templat.Prelude.{
  ℕ, String, Bool, true, false, not, ◌&&◌, Option, none, some, ◌==◌, if◌then◌else◌,
}
use nestjs_hexagonal_templat.Common.Exec.{pure, bind-Preserves}
use nestjs_hexagonal_templat.Common.Pagination.{PageQuery, parse_pagination_params}
use nestjs_hexagonal_templat.User.{User, Role, CreateUserDto, UpdateUserDto, is_admin, to_response}
use nestjs_hexagonal_templat.User.Port.{
  UserRepositoryPort, AuthProviderPort, UpdatePasswordResult, password_ok, unknown_user_id,
  policy_violated, unexpected,
}
use nestjs_hexagonal_templat.User.Schema.{IsAllowed, AllowsRole}
use nestjs_hexagonal_templat.User.UseCases.{
  throw_if, require_other_admin, require_password_ok, is_demotion, assert_not_last_admin,
  apply_update, new_user, list_users, create_user, get_current_user, update_user,
  update_user_password, set_user_active, delete_user,
}
use nestjs_hexagonal_templat.User.Superadmins.{
  IsElder, HasElders, Keeps, frame-Keeps, throw_if-Keeps, respond-Keeps, find_by_email-Keeps,
  find_all-Keeps, guard-Keeps, save-Keeps, update-Keeps, soft_delete-Keeps, found-Keeps,
}
use nestjs_hexagonal_templat.User.Controller.{
  RequestUser, Request, list, create, me, update, update_password, set_active, remove, one, handle,
}

-- A request that the pipes pass names no superadmin.
abbrev pub Allows : Request → Type 0
Allows (create dto) = IsAllowed dto.role
Allows (update id dto) = AllowsRole dto.role
Allows _ = Unit

module _ {W : Type 0} (repo : UserRepositoryPort W) (Elder : String → Type 0) where
  create_user-Keeps :
      (now : ℕ) (dto : CreateUserDto) (tenant supertokens_user_id : String)
      → IsAllowed dto.role
      → Keeps repo Elder (create_user repo now dto tenant supertokens_user_id)
  unfolding create_user
  create_user-Keeps now dto tenant supertokens_user_id allowed =
      bind-Preserves (HasElders repo Elder) (repo.find_by_email dto.email tenant) _
        (find_by_email-Keeps repo Elder dto.email tenant)
        λ existing.
          bind-Preserves (HasElders repo Elder) (throw_if _ _) _ (throw_if-Keeps repo Elder _ _)
            λ _.
              respond-Keeps repo Elder (repo.save (new_user now dto tenant supertokens_user_id))
                to_response
                (save-Keeps repo Elder (new_user now dto tenant supertokens_user_id) allowed)

  applied-IsElder :
      (dto : UpdateUserDto) (u : User)
      → AllowsRole dto.role
      → IsElder repo Elder u
      → IsElder repo Elder (apply_update dto u)
  applied-IsElder dto u allowed elder = of dto.role allowed
    where
      of :
          (role : Option Role)
          → AllowsRole role
          → IsElder repo Elder (apply_update (record dto { role = role }) u)
      of none _ = elder
      of (some role) named = λ s. absurd (cc (named, s))

  update_user-Keeps :
      (id tenant current_user : String) (dto : UpdateUserDto)
      → AllowsRole dto.role
      → Keeps repo Elder (update_user repo id tenant current_user dto)
  unfolding update_user assert_not_last_admin
  update_user-Keeps id tenant current_user dto allowed =
      bind-Preserves (HasElders repo Elder) (throw_if _ _) _ (throw_if-Keeps repo Elder _ _) λ _.
        found-Keeps repo Elder id tenant _ λ u elder.
          bind-Preserves (HasElders repo Elder)
            (if is_demotion repo u dto.role then require_other_admin repo tenant _ else pure tt) _
            (guard-Keeps repo Elder (is_demotion repo u dto.role) tenant _)
            λ _.
              respond-Keeps repo Elder (repo.update (apply_update dto u)) to_response
                (update-Keeps repo Elder (apply_update dto u) (applied-IsElder dto u allowed elder))

  list_users-Keeps :
      (tenant : String) (query : PageQuery) → Keeps repo Elder (list_users repo tenant query)
  unfolding list_users
  list_users-Keeps tenant query =
      let params = parse_pagination_params query in
      respond-Keeps repo Elder (repo.find_all tenant params.page params.per_page) _
        (find_all-Keeps repo Elder tenant params.page params.per_page)

  get_current_user-Keeps : (id tenant : String) → Keeps repo Elder (get_current_user repo id tenant)
  unfolding get_current_user
  get_current_user-Keeps id tenant =
      found-Keeps repo Elder id tenant (λ u. pure (to_response u)) λ u elder w h. h

  module _ (auth : AuthProviderPort W repo.users) where
    revoke-Keeps : (id : String) → Keeps repo Elder (auth.revoke_all_sessions id)
    revoke-Keeps id =
        frame-Keeps repo Elder (auth.revoke_all_sessions id) (auth.revoke_all_sessions_frame id)

    delete_user-Keeps :
        (id tenant current_user : String)
        → Keeps repo Elder (delete_user repo auth id tenant current_user)
    unfolding delete_user
    delete_user-Keeps id tenant current_user =
        bind-Preserves (HasElders repo Elder) (throw_if (id == current_user) _) _
          (throw_if-Keeps repo Elder (id == current_user) _)
          λ _. found-Keeps repo Elder id tenant _ λ u elder.
            bind-Preserves (HasElders repo Elder)
              (if u.is_active && is_admin u.role
                then require_other_admin repo tenant _
                else pure tt)
              _ (guard-Keeps repo Elder (u.is_active && is_admin u.role) tenant _)
              λ _.
                bind-Preserves (HasElders repo Elder)
                  (auth.revoke_all_sessions u.supertokens_user_id) _
                  (revoke-Keeps u.supertokens_user_id)
                  λ _.
                    bind-Preserves (HasElders repo Elder) (auth.delete_user u.supertokens_user_id) _
                      (frame-Keeps repo Elder (auth.delete_user u.supertokens_user_id)
                        (auth.delete_user_frame u.supertokens_user_id))
                      λ _. soft_delete-Keeps repo Elder id tenant

    set_user_active-Keeps :
        (id tenant current_user : String) (is_active : Bool)
        → Keeps repo Elder (set_user_active repo auth id tenant current_user is_active)
    unfolding set_user_active
    set_user_active-Keeps id tenant current_user is_active =
        bind-Preserves (HasElders repo Elder) (throw_if (not is_active && id == current_user) _) _
          (throw_if-Keeps repo Elder (not is_active && id == current_user) _)
          λ _. found-Keeps repo Elder id tenant _ λ u elder.
            bind-Preserves (HasElders repo Elder)
              (if not is_active && (u.is_active && is_admin u.role)
                then require_other_admin repo tenant _
                else pure tt)
              _
              (guard-Keeps repo Elder (not is_active && (u.is_active && is_admin u.role)) tenant _)
              λ _.
                bind-Preserves (HasElders repo Elder)
                  (if is_active then pure tt else auth.revoke_all_sessions u.supertokens_user_id) _
                  (revoke_unless is_active u.supertokens_user_id)
                  λ _.
                    respond-Keeps repo Elder (repo.update (record u { is_active = is_active }))
                      to_response
                      (update-Keeps repo Elder (record u { is_active = is_active }) elder)
      where
        revoke_unless :
            (b : Bool) (s : String)
            → Keeps repo Elder (if b then pure tt else auth.revoke_all_sessions s)
        revoke_unless true s = λ w h. h
        revoke_unless false s = revoke-Keeps s

    update_user_password-Keeps :
        (id tenant new_password : String)
        → Keeps repo Elder (update_user_password repo auth id tenant new_password)
    unfolding update_user_password
    update_user_password-Keeps id tenant new_password =
        found-Keeps repo Elder id tenant _ λ u elder.
          bind-Preserves (HasElders repo Elder)
            (auth.update_password u.supertokens_user_id new_password) _
            (frame-Keeps repo Elder (auth.update_password u.supertokens_user_id new_password)
              (auth.update_password_frame u.supertokens_user_id new_password))
            λ r.
              bind-Preserves (HasElders repo Elder) (require_password_ok repo auth r) _ (judged r)
                λ _. revoke-Keeps u.supertokens_user_id
      where
        judged : (r : UpdatePasswordResult) → Keeps repo Elder (require_password_ok repo auth r)
        judged password_ok w h = h
        judged unknown_user_id w h = h
        judged (policy_violated reason) w h = h
        judged (unexpected detail) w h = h

    pub handle-Keeps :
        (now : ℕ) (caller : RequestUser) (request : Request)
        → Allows request
        → Keeps repo Elder (handle repo auth now caller request)
    unfolding handle
    handle-Keeps now caller (list query) a =
        respond-Keeps repo Elder _ _ (list_users-Keeps caller.tenant_id query)
    handle-Keeps now caller (create dto) a =
        respond-Keeps repo Elder _ one
          (create_user-Keeps now dto caller.tenant_id "pending-supertokens-id" a)
    handle-Keeps now caller me a =
        respond-Keeps repo Elder _ one (get_current_user-Keeps caller.user_id caller.tenant_id)
    handle-Keeps now caller (update id dto) a =
        respond-Keeps repo Elder _ one (update_user-Keeps id caller.tenant_id caller.user_id dto a)
    handle-Keeps now caller (update_password id new_password) a =
        respond-Keeps repo Elder _ _ (update_user_password-Keeps id caller.tenant_id new_password)
    handle-Keeps now caller (set_active id is_active) a =
        respond-Keeps repo Elder _ one
          (set_user_active-Keeps id caller.tenant_id caller.user_id is_active)
    handle-Keeps now caller (remove id) a =
        respond-Keeps repo Elder _ _ (delete_user-Keeps id caller.tenant_id caller.user_id)
