-- ===== src/User/Session.antt =====
-- The routes of src/user/infrastructure/http/user.controller.ts, one request after the other: a
-- tenant that has an active administrator keeps one.
use nestjs_hexagonal_templat.Prelude.{ℕ, ◌<◌, String, ◌≡◌, List, [], ◌∷◌}
use nestjs_hexagonal_templat.Common.Exec.{Exec, pure, ◌>>=◌, Ensures-bind, Ensures-state}
use nestjs_hexagonal_templat.Common.Pagination.{PageQuery, parse_pagination_params}
use nestjs_hexagonal_templat.Database.{FoundIn}
use nestjs_hexagonal_templat.User.{has_id}
use nestjs_hexagonal_templat.User.Port.{UserRepositoryPort, AuthProviderPort}
use nestjs_hexagonal_templat.User.Admins.{admins}
use nestjs_hexagonal_templat.User.Reads.{
  HasAdmin, HasAdmin-same, reads-bind, IsUser, require_user-Reads,
}
use nestjs_hexagonal_templat.User.UseCases.{list_users, get_current_user, require_user}
use nestjs_hexagonal_templat.User.LastAdmin.{
  Safe, create_user-Safe, update_user-Safe, delete_user-Safe, set_user_active-Safe,
  update_user_password-Safe,
}
use nestjs_hexagonal_templat.User.Controller.{
  RequestUser, Request, list, create, me, update, update_password, set_active, remove, one, handle,
  serve,
}

module _ {W : Type 0} (repo : UserRepositoryPort W) (t : String) where
  list_users-Safe :
      (tenant : String) (query : PageQuery) → Safe repo t (list_users repo tenant query)
  unfolding list_users
  list_users-Safe tenant query w h =
      let params = parse_pagination_params query in
      Ensures-bind (repo.find_all tenant params.page params.per_page w) _ _
        (λ w'. repo.users w' ≡ repo.users w) (λ _. HasAdmin repo t) (HasAdmin repo t)
        (repo.find_all_law tenant params.page params.per_page w)
        (λ r w1 p. HasAdmin-same repo t w w1 p.0 h) (λ w1 e. HasAdmin-same repo t w w1 e h)

  get_current_user-Safe : (id tenant : String) → Safe repo t (get_current_user repo id tenant)
  unfolding get_current_user
  get_current_user-Safe id tenant w h =
      reads-bind repo t (repo.find_by_id id tenant) _ w (FoundIn (has_id id tenant) (repo.users w))
        h (repo.find_by_id_law id tenant w)
        λ o w1 e1 found.
          let h1 = HasAdmin-same repo t w w1 e1 h in
          reads-bind repo t (require_user o) _ w1 (IsUser repo t id tenant (repo.users w)) h1
            (require_user-Reads repo t id tenant (repo.users w) o w1 found)
            λ u w2 e2 _. HasAdmin-same repo t w1 w2 e2 h1

  -- The answer that a route makes of a value.
  respond-Safe :
      {A B : Type 0} (m : Exec W A) (f : A → B)
      → Safe repo t m
      → Safe repo t (m >>= λ a. pure (f a))
  respond-Safe m f safe w h =
      Ensures-bind (m w) (λ a. pure (f a)) (λ _. HasAdmin repo t) (HasAdmin repo t)
        (λ _. HasAdmin repo t) (HasAdmin repo t) (safe w h) (λ a w' p. p) (λ w' q. q)

  module _ (auth : AuthProviderPort W repo.users) where
    handle-Safe :
        (now : ℕ) (caller : RequestUser) (request : Request)
        → Safe repo t (handle repo auth now caller request)
    unfolding handle
    handle-Safe now caller (list query) = respond-Safe _ _ (list_users-Safe caller.tenant_id query)
    handle-Safe now caller (create dto) =
        respond-Safe _ one
          (create_user-Safe repo t now dto caller.tenant_id "pending-supertokens-id")
    handle-Safe now caller me =
        respond-Safe _ one (get_current_user-Safe caller.user_id caller.tenant_id)
    handle-Safe now caller (update id dto) =
        respond-Safe _ one (update_user-Safe repo t id caller.tenant_id caller.user_id dto)
    handle-Safe now caller (update_password id new_password) =
        respond-Safe _ _ (update_user_password-Safe repo t auth id caller.tenant_id new_password)
    handle-Safe now caller (set_active id is_active) =
        respond-Safe _ one
          (set_user_active-Safe repo t auth id caller.tenant_id caller.user_id is_active)
    handle-Safe now caller (remove id) =
        respond-Safe _ _ (delete_user-Safe repo t auth id caller.tenant_id caller.user_id)

    -- Whatever the routes of the users are asked, one request after the other and with requests that
    -- fail among them, a tenant with an active administrator still has one afterwards.
    pub serve-HasAdmin :
        (requests : List (ℕ × RequestUser × Request)) (w : W)
        → 0 < admins t (repo.users w)
        → 0 < admins t (repo.users (serve repo auth requests w))
    unfolding serve
    serve-HasAdmin [] w h = h
    serve-HasAdmin ((now, caller, request) ∷ rest) w h =
        serve-HasAdmin rest (handle repo auth now caller request w).1 (
          Ensures-state (handle repo auth now caller request w) (HasAdmin repo t)
            (handle-Safe now caller request w h))
