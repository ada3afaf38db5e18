-- ===== src/User/Controller.antt =====
-- src/user/infrastructure/http/user.controller.ts: the routes of /v1/users. `@Roles` and the pipes
-- of a route stand in front of it; the bodies here are those that the pipes passed.
use nestjs_hexagonal_templat.Prelude.{ℕ, String, Bool, List, [], ◌∷◌}
use nestjs_hexagonal_templat.Common.Exec.{Exec, pure, ◌>>=◌, ◌>>◌}
use nestjs_hexagonal_templat.Common.Pagination.{PageQuery, PaginationMeta}
use nestjs_hexagonal_templat.User.{Role, admin, CreateUserDto, UpdateUserDto, UserResponseDto}
use nestjs_hexagonal_templat.User.Port.{UserRepositoryPort, AuthProviderPort}
use nestjs_hexagonal_templat.User.UseCases.{
  list_users, create_user, get_current_user, update_user, update_user_password, set_user_active,
  delete_user,
}

-- src/common/interfaces/request-with-user.interface.ts
pub record RequestUser : Type 0 where
  pub user_id : String
  pub tenant_id : String
  pub role : Role
  pub supertokens_user_id : String

-- A request for a route: its parameters and its body.
pub data Request : Type 0 where
  list : PageQuery → Request
  create : CreateUserDto → Request
  me : Request
  update : String → UpdateUserDto → Request
  update_password : String → String → Request
  set_active : String → Bool → Request
  remove : String → Request

pub data Response : Type 0 where
  page : List UserResponseDto → PaginationMeta → Response
  one : UserResponseDto → Response
  message : String → Response
  no_content : Response

-- @Roles(Role.ADMIN) on the route
abbrev pub required_roles : Request → List Role
required_roles me = []
required_roles _ = admin ∷ []

module _ {W : Type 0} (repo : UserRepositoryPort W) (auth : AuthProviderPort W repo.users) where
  -- `now` is `new Date()`; `caller` is the `request.user` that @CurrentUser and @TenantId read.
  unfoldable pub handle : ℕ → RequestUser → Request → Exec W Response
  unfolding list_users create_user get_current_user update_user update_user_password set_user_active
      delete_user
  handle now caller (list query) = do
    found ← list_users repo caller.tenant_id query
    pure (page found.0 found.1)
  handle now caller (create dto) = do
    u ← create_user repo now dto caller.tenant_id "pending-supertokens-id"
    pure (one u)
  handle now caller me = do u ← get_current_user repo caller.user_id caller.tenant_id; pure (one u)
  handle now caller (update id dto) = do
    u ← update_user repo id caller.tenant_id caller.user_id dto
    pure (one u)
  handle now caller (update_password id new_password) = do
    update_user_password repo auth id caller.tenant_id new_password
    pure (message "Senha atualizada com sucesso")
  handle now caller (set_active id is_active) = do
    u ← set_user_active repo auth id caller.tenant_id caller.user_id is_active
    pure (one u)
  handle now caller (remove id) = do
    delete_user repo auth id caller.tenant_id caller.user_id
    pure no_content

  -- Requests handled one after the other, each to its end.
  unfoldable pub serve : List (ℕ × RequestUser × Request) → W → W
  unfolding handle
  serve [] w = w
  serve ((now, caller, request) ∷ rest) w = serve rest (handle now caller request w).1
