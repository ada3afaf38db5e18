-- ===== src/User/Calls.antt =====
-- No call of the routes of src/user/infrastructure/http/user.controller.ts makes a superadmin.
use nestjs_hexagonal_templat.Prelude.{
  ℕ, String, ◌≡◌, refl, Bool, true, false, Option, none, some, List, [], ◌∷◌, if◌then◌else◌,
}
use nestjs_hexagonal_templat.Common.Exec.{
  Result, Exec, pure, raise, ◌>>=◌, Ensures, Ensures-bind, Ensures-frame, Ensures-state,
}
use nestjs_hexagonal_templat.Common.Errors.{Exception}
use nestjs_hexagonal_templat.Common.Json.{Json}
use nestjs_hexagonal_templat.Common.Pipes.{
  passed_or, zod_validation_pipe, uuid_param_pipe, validation_failed,
}
use nestjs_hexagonal_templat.Database.{In}
use nestjs_hexagonal_templat.User.{User, is_superadmin}
use nestjs_hexagonal_templat.User.Port.{UserRepositoryPort, AuthProviderPort}
use nestjs_hexagonal_templat.User.Schema.{
  create_user_schema, update_user_schema, update_user_password_schema, set_user_active_schema,
  create_user_schema-IsAllowed, update_user_schema-AllowsRole,
}
use nestjs_hexagonal_templat.User.Controller.{
  RequestUser, Request, create, update, update_password, set_active, remove, handle,
}
use nestjs_hexagonal_templat.User.Superadmins.{HasElders}
use nestjs_hexagonal_templat.User.Promotion.{Allows, handle-Keeps}
use nestjs_hexagonal_templat.User.Routes.{
  Call, get_list, post, get_me, patch, patch_password, patch_active, delete, received, answer,
  answer_all,
}

module _ {W : Type 0} (w : W) where
  -- The pipes leave the state alone, and what they pass names no superadmin.
  abbrev Passes : Result Request × W → Type 0
  Passes m = Ensures m (λ r w'. (w' ≡ w) × Allows r) (λ w'. w' ≡ w)

  passed_or-Passes :
      {A : Type 0} (e : Exception) (o : Option A) (f : A → Request)
      → ((a : A) → o ≡ some a → Allows (f a))
      → Passes ((passed_or e o >>= λ a. pure (f a)) w)
  passed_or-Passes e none f h = refl
  passed_or-Passes e (some a) f h = (refl, h a refl)

  uuid_param_pipe-Passes :
      (is_uuid_v4 : String → Bool) (id : String) (next : String → Exec W Request)
      → Passes (next id w)
      → Passes ((uuid_param_pipe is_uuid_v4 id >>= next) w)
  unfolding uuid_param_pipe
  uuid_param_pipe-Passes is_uuid_v4 id next h = judged (is_uuid_v4 id) _
    where
      judged : (b : Bool) (e : Exception) → Passes (((if b then pure id else raise e) >>= next) w)
      judged true e = h
      judged false e = refl

  module _ (is_uuid_v4 is_email : String → Bool) (issues : Option Json → Json) where
    received-Passes : (call : Call) → Passes (received is_uuid_v4 is_email issues call w)
    unfolding received zod_validation_pipe
    received-Passes (get_list query) = (refl, tt)
    received-Passes (post body) =
        passed_or-Passes (validation_failed (issues body)) (create_user_schema is_email body) create
          (create_user_schema-IsAllowed is_email body)
    received-Passes get_me = (refl, tt)
    received-Passes (patch id body) = uuid_param_pipe-Passes is_uuid_v4 id _ (
        passed_or-Passes (validation_failed (issues body)) (update_user_schema body) (update id)
          (update_user_schema-AllowsRole body))
    received-Passes (patch_password id body) = uuid_param_pipe-Passes is_uuid_v4 id _ (
        passed_or-Passes (validation_failed (issues body)) (update_user_password_schema body)
          (update_password id) (λ a e. tt))
    received-Passes (patch_active id body) = uuid_param_pipe-Passes is_uuid_v4 id _ (
        passed_or-Passes (validation_failed (issues body)) (set_user_active_schema body)
          (set_active id) (λ a e. tt))
    received-Passes (delete id) =
        uuid_param_pipe-Passes is_uuid_v4 id (λ checked. pure (remove checked)) (refl, tt)

module _ {W : Type 0} (is_uuid_v4 is_email : String → Bool) (issues : Option Json → Json)
    (repo : UserRepositoryPort W) (auth : AuthProviderPort W repo.users) where
  answer-HasElders :
      (Elder : String → Type 0) (now : ℕ) (caller : RequestUser) (call : Call) (w : W)
      → HasElders repo Elder w
      → HasElders repo Elder (answer is_uuid_v4 is_email issues repo auth now caller call w).1
  unfolding answer
  answer-HasElders Elder now caller call w h =
      Ensures-state (answer is_uuid_v4 is_email issues repo auth now caller call w)
        (HasElders repo Elder)
        (Ensures-bind (received is_uuid_v4 is_email issues call w)
          (λ request. handle repo auth now caller request) _ _ (λ _. HasElders repo Elder)
          (HasElders repo Elder) (received-Passes w is_uuid_v4 is_email issues call)
          (λ request w1 p.
            Ensures-frame (handle repo auth now caller request w1) (HasElders repo Elder)
              (handle-Keeps repo Elder auth now caller request p.1 w1 (rw p.0 h)))
          (λ w1 e. rw e h))

  answer_all-HasElders :
      (Elder : String → Type 0) (calls : List (ℕ × RequestUser × Call)) (w : W)
      → HasElders repo Elder w
      → HasElders repo Elder (answer_all is_uuid_v4 is_email issues repo auth calls w)
  unfolding answer_all
  answer_all-HasElders Elder [] w h = h
  answer_all-HasElders Elder ((now, caller, call) ∷ rest) w h =
      answer_all-HasElders Elder rest
        (answer is_uuid_v4 is_email issues repo auth now caller call w).1
        (answer-HasElders Elder now caller call w h)

  -- Nobody is promoted to superadmin: whatever calls of the routes of the users are answered, one after
  -- the other and whoever makes them, each user that is a superadmin afterwards has the id of one that
  -- was a superadmin before.
  pub is_superadmin-answer_all :
      (calls : List (ℕ × RequestUser × Call)) (w : W) (u : User)
      → In u (repo.users (answer_all is_uuid_v4 is_email issues repo auth calls w))
      → is_superadmin u.role ≡ true
      → (v : User) × In v (repo.users w) × (v.id ≡ u.id) × (is_superadmin v.role ≡ true)
  is_superadmin-answer_all calls w =
      answer_all-HasElders
        (λ id. (v : User) × In v (repo.users w) × (v.id ≡ id) × (is_superadmin v.role ≡ true)) calls
        w (λ u here s. (u, here, refl, s))
