-- ===== src/User/Routes.antt =====
-- The routes of src/user/infrastructure/http/user.controller.ts as a request reaches them: the pipes of a
-- route's parameters, and then its handler.
use nestjs_hexagonal_templat.Prelude.{ℕ, String, Bool, Option, List, [], ◌∷◌}
use nestjs_hexagonal_templat.Common.Exec.{Exec, pure, ◌>>=◌}
use nestjs_hexagonal_templat.Common.Json.{Json}
use nestjs_hexagonal_templat.Common.Pagination.{PageQuery}
use nestjs_hexagonal_templat.Common.Pipes.{zod_validation_pipe, uuid_param_pipe}
use nestjs_hexagonal_templat.User.Port.{UserRepositoryPort, AuthProviderPort}
use nestjs_hexagonal_templat.User.Schema.{
  create_user_schema, update_user_schema, update_user_password_schema, set_user_active_schema,
}
use nestjs_hexagonal_templat.User.Controller.{
  RequestUser, Request, list, create, me, update, update_password, set_active, remove, Response,
  handle,
}

-- A call of a route: its path's `id`, and its body.
pub data Call : Type 0 where
  get_list : PageQuery → Call
  post : Option Json → Call
  get_me : Call
  patch : String → Option Json → Call
  patch_password : String → Option Json → Call
  patch_active : String → Option Json → Call
  delete : String → Call

module _ (is_uuid_v4 is_email : String → Bool) (issues : Option Json → Json) where
  -- What the pipes pass on.
  unfoldable pub received : {W : Type 0} → Call → Exec W Request
  unfolding zod_validation_pipe uuid_param_pipe create_user_schema update_user_schema
      update_user_password_schema set_user_active_schema
  received (get_list query) = pure (list query)
  received (post body) = do
    dto ← zod_validation_pipe issues (create_user_schema is_email) body
    pure (create dto)
  received get_me = pure me
  received (patch id body) = do
    checked ← uuid_param_pipe is_uuid_v4 id
    dto ← zod_validation_pipe issues update_user_schema body
    pure (update checked dto)
  received (patch_password id body) = do
    checked ← uuid_param_pipe is_uuid_v4 id
    new_password ← zod_validation_pipe issues update_user_password_schema body
    pure (update_password checked new_password)
  received (patch_active id body) = do
    checked ← uuid_param_pipe is_uuid_v4 id
    is_active ← zod_validation_pipe issues set_user_active_schema body
    pure (set_active checked is_active)
  received (delete id) = do checked ← uuid_param_pipe is_uuid_v4 id; pure (remove checked)

  module _ {W : Type 0} (repo : UserRepositoryPort W) (auth : AuthProviderPort W repo.users) where
    unfoldable pub answer : ℕ → RequestUser → Call → Exec W Response
    unfolding received handle
    answer now caller call = do request ← received call; handle repo auth now caller request

    -- Calls answered one after the other, each to its end.
    unfoldable pub answer_all : List (ℕ × RequestUser × Call) → W → W
    unfolding answer
    answer_all [] w = w
    answer_all ((now, caller, call) ∷ rest) w = answer_all rest (answer now caller call w).1
