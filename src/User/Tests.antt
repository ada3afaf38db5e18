-- ===== src/User/Tests.antt =====
-- The routes of the users on a table in memory, with two administrators and a user of one tenant.
use nestjs_hexagonal_templat.Prelude.{
  ℕ, ◌≡◌, refl, ◌<◌, String, List, [], ◌∷◌, none, some, true, false, arith, length, map, apart,
}
use nestjs_hexagonal_templat.Common.Exec.{ok, Ensures}
use nestjs_hexagonal_templat.Database.Memory.{Store, memory_table}
use nestjs_hexagonal_templat.User.{Role, admin, user, User}
use nestjs_hexagonal_templat.User.Port.{
  UserRepositoryPort, AuthProviderPort, user_key, password_ok, invalid_reset_token,
}
use nestjs_hexagonal_templat.User.Admins.{admins}
use nestjs_hexagonal_templat.User.Repository.{stamp, user_repository}
use nestjs_hexagonal_templat.User.Controller.{
  RequestUser, Request, update, set_active, remove, handle, serve,
}
use nestjs_hexagonal_templat.User.UseCases.{delete_user}
use nestjs_hexagonal_templat.User.Removal.{Removed, delete_user-Removed}
use nestjs_hexagonal_templat.User.Isolation.{outside}
use nestjs_hexagonal_templat.User.OtherTenants.{handle-Isolated}
use nestjs_hexagonal_templat.User.Session.{serve-HasAdmin}
use nestjs_hexagonal_templat.Prelude.{inl}
use nestjs_hexagonal_templat.Common.Json.{null, obj, field, end, str}
use nestjs_hexagonal_templat.Database.{In, rewrite_rows}
use nestjs_hexagonal_templat.User.{superadmin, is_superadmin}
use nestjs_hexagonal_templat.User.Routes.{Call, post, patch, answer_all}
use nestjs_hexagonal_templat.User.Calls.{is_superadmin-answer_all}

abbrev World : Type 0
World = Store user_key

abbrev repository : UserRepositoryPort World
unfolding user_repository
repository = user_repository (memory_table user_key stamp "u9" 1000)

-- A provider that accepts everything and keeps nothing.
abbrev provider : AuthProviderPort World repository.users
provider = record {
  find_email_password_user_id_by_email = λ e w. (ok none, w);
  send_password_reset_email = λ i e w. (ok true, w);
  consume_password_reset_token = λ t w. (ok invalid_reset_token, w);
  update_password = λ i p w. (ok password_ok, w);
  revoke_all_sessions = λ i w. (ok tt, w);
  delete_user = λ i w. (ok tt, w);
  update_password_frame = λ i p w. refl;
  revoke_all_sessions_frame = λ i w. refl;
  delete_user_frame = λ i w. refl;
}

abbrev person : String → Role → User
person id role = record {
  id = id;
  tenant_id = "t1";
  supertokens_user_id = id;
  name = id;
  email = id;
  phone = none;
  role = role;
  is_active = true;
  created_at = 0;
  updated_at = 0;
  deleted_at = none;
}

abbrev caller : RequestUser
caller = record { user_id = "u1"; tenant_id = "t1"; role = admin; supertokens_user_id = "s1" }

abbrev world : World
world = (
  person "u1" admin ∷ person "u2" admin ∷ record (person "u3" user) { tenant_id = "t2" } ∷ [],
  ((apart "u2" "u1" refl, (apart "u3" "u1" refl, tt)), ((apart "u3" "u2" refl, tt), (tt, tt))),
)

-- The second administrator is removed, and the attempt to demote the first fails.
abbrev requests : List (ℕ × RequestUser × Request)
requests =
    (5, caller, remove "u2")
    ∷ (
      6,
      record caller { user_id = "u7" },
      update "u1" (record { name = none; phone = none; role = some user }),
    )
    ∷ (7, record caller { user_id = "u7" }, set_active "u1" false)
    ∷ []

serve-HasAdmin_example :
    0 < admins "t1" (repository.users (serve repository provider requests world))
unfolding repository
serve-HasAdmin_example = serve-HasAdmin repository "t1" provider requests world (omega arith)

served_users : length (repository.users (serve repository provider requests world)) ≡ 2
unfolding serve repository
served_users = refl

delete_user-Removed_example :
    Ensures
      (delete_user repository provider "u2" "t1" "u1" world)
      (λ _ w'. Removed repository provider "u2" "t1" "u1" world w')
      (λ w'. repository.users w' ≡ repository.users world)
delete_user-Removed_example = delete_user-Removed repository provider "u2" "t1" "u1" world

handle-Isolated_example :
    outside "t1" (repository.users (handle repository provider 5 caller (remove "u2") world).1)
    ≡ outside "t1" (repository.users world)
handle-Isolated_example = handle-Isolated repository provider 5 caller (remove "u2") world

abbrev boss : User
boss = person "u0" superadmin

abbrev with_boss : World
with_boss = (boss ∷ person "u1" admin ∷ [], ((apart "u1" "u0" refl, tt), (tt, tt)))

-- A new user with the role, and the role for another administrator: both bodies are refused. A change
-- of a name is made.
abbrev calls : List (ℕ × RequestUser × Call)
calls =
    (
      5,
      caller,
      post (
          some (
            obj (
              field "name" (str "Eve")
                (field "email" (str "eve@x.com") (field "role" (str "SUPERADMIN") end))))),
    )
    ∷ (
      6,
      record caller { user_id = "u7" },
      patch "u1" (some (obj (field "role" (str "SUPERADMIN") end))),
    )
    ∷ (7, caller, patch "u1" (some (obj (field "name" (str "Bob") end))))
    ∷ []

abbrev answered : World
answered = answer_all (λ s. true) (λ s. true) (λ v. null) repository provider calls with_boss

renamed : map (λ (u : User). u.name) (repository.users answered) ≡ "u0" ∷ "Bob" ∷ []
unfolding answer_all repository rewrite_rows
renamed = refl

still_there : In boss (repository.users answered)
unfolding answer_all repository rewrite_rows
still_there = inl refl

is_superadmin-answer_all_example :
    (v : User) × In v (repository.users with_boss) × (v.id ≡ "u0") × (is_superadmin v.role ≡ true)
is_superadmin-answer_all_example =
    is_superadmin-answer_all (λ s. true) (λ s. true) (λ v. null) repository provider calls with_boss
      boss still_there refl
