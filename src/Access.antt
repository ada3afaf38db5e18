-- ===== src/Access.antt =====
-- Who a request comes from and what it may reach: src/common/middleware/tenant-context.middleware.ts
-- and the guards of src/common/guards, in the order of src/app.module.ts. The guards that the module
-- registers before and after them are not part of `access`.
pub mod Entitled
mod Tests
use nestjs_hexagonal_templat.Prelude.{
  ℕ, zero, suc, ◌+◌, ◌-◌, ◌*◌, ◌/◌, ◌%◌, ◌^◌, ◌≤◌, ◌<◌, String, ◌≡◌, refl, sym, ap, ◌∙◌, ◌≢◌, ◌↔◌,
  ◌⊎◌, inl, inr, Bool, true, false, not, ◌&&◌, ◌||◌, Option, none, some, List, [], ◌∷◌, ◌++◌, map,
  arith, ◌==◌, eq_iff, eq_refl, ltb, leb, eqb, if◌then◌else◌, Bool-cases, Option-cases, str_cases,
  length, get_elem?, take, drop, any, all, keep, find, count_if, All, length-append, length-drop,
  length-keep-le, length-map, tests, ltb→lt, lt→ltb, leb→le, le→leb,
}
use nestjs_hexagonal_templat.Common.Exec.{Result, ok, throw}
use nestjs_hexagonal_templat.Common.Text.{split, trim}
use nestjs_hexagonal_templat.User.{Role, superadmin, admin, user, is_superadmin, User}
use nestjs_hexagonal_templat.User.Controller.{RequestUser}

-- The set that the middleware's constructor makes of SUPERADMIN_SUPERTOKENS_IDS.
unfoldable pub superadmin_ids : String → List String
unfolding split trim
superadmin_ids ids = keep (λ id. not (id == "")) (map trim (split b',' ids))

abbrev pub from_user : User → String → RequestUser
from_user u supertokens_user_id = record {
  user_id = u.id;
  tenant_id = u.tenant_id;
  role = u.role;
  supertokens_user_id = supertokens_user_id;
}

abbrev pub from_superadmin : String → RequestUser
from_superadmin supertokens_user_id = record {
  user_id = "superadmin";
  tenant_id = "";
  role = superadmin;
  supertokens_user_id = supertokens_user_id;
}

-- The user of a session, of whom the database has a row or not; a call that throws leaves none.
abbrev pub session_user : List String → String → Result (Option User) → Option RequestUser
session_user superadmins id (ok (some u)) = some (from_user u id)
session_user superadmins id (ok none) =
    if any (λ s. s == id) superadmins then some (from_superadmin id) else none
session_user superadmins id (throw e) = none

-- `use`: `session` is what `Session.getSession` gives, with the user id of the session, and `find`
-- is `findActiveBySupertokensUserId`. The result is `req.user` when `next` is called.
unfoldable pub tenant_context :
    List String → Result (Option String) → (String → Result (Option User)) → Option RequestUser
tenant_context superadmins (ok none) find_active = none
tenant_context superadmins (ok (some id)) find_active = session_user superadmins id (find_active id)
tenant_context superadmins (throw e) find_active = none

-- What a guard says; `refused` is the `false` that Nest answers with 403, and `forbidden` the code
-- of a `ForbiddenException`.
pub data Verdict : Type 0 where
  passed refused : Verdict
  forbidden : String → Verdict

-- role === other
abbrev pub same_role : Role → Role → Bool
same_role superadmin superadmin = true
same_role admin admin = true
same_role user user = true
same_role _ _ = false

abbrev check_role : List Role → Role → Verdict
check_role [] role = passed
check_role roles role =
    if any (λ r. same_role role r) roles then passed else forbidden "AUTH_INSUFFICIENT_ROLE"

-- RolesGuard.canActivate; no `@Roles` is the empty list.
unfoldable pub roles_guard : Bool → List Role → Option RequestUser → Verdict
roles_guard true roles caller = passed
roles_guard false roles none = refused
roles_guard false roles (some u) = if is_superadmin u.role then passed else check_role roles u.role

-- TenantGuard.canActivate
unfoldable pub tenant_guard : Bool → Option RequestUser → Verdict
tenant_guard true caller = passed
tenant_guard false none = refused
tenant_guard false (some u) =
    if is_superadmin u.role
    then passed
    else if u.tenant_id == ""
    then forbidden "TENANT_CONTEXT_MISSING"
    else passed

-- The next guard is asked only when the first passes.
abbrev and_then : Verdict → Verdict → Verdict
and_then passed v = v
and_then v _ = v

-- RolesGuard and then TenantGuard, as the module provides them.
unfoldable pub access : Bool → List Role → Option RequestUser → Verdict
unfolding roles_guard tenant_guard
access is_public roles caller =
    let tenant = tenant_guard is_public caller in
    and_then (roles_guard is_public roles caller) tenant

-- A caller that the guards let into a route that is not public: a superadmin, or a user of a tenant
-- who has one of the route's roles.
abbrev pub IsEntitled : List Role → RequestUser → Type 0
IsEntitled roles u =
    (is_superadmin u.role ≡ true)
    ⊎ ((u.tenant_id ≢ "") × ((roles ≡ []) ⊎ (any (λ r. same_role u.role r) roles ≡ true)))
