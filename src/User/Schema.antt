-- ===== src/User/Schema.antt =====
-- src/user/application/dtos/user.dto.ts: the schemas of the bodies. What zod takes for an e-mail address
-- is an argument.
use nestjs_hexagonal_templat.Prelude.{
  String, ◌≡◌, refl, inl, inr, Bool, false, Option, none, some, List, [], ◌∷◌, ◌==◌, find,
  Bool-cases,
}
use nestjs_hexagonal_templat.Common.Json.{Json, null, bool, num, str, arr, obj, get}
use nestjs_hexagonal_templat.Common.Pipes.{
  ◌>>=◌, Schema, fields_of, text_between, text_if, boolean, optional, nullable, bind_passed,
  optional_passed,
}
use nestjs_hexagonal_templat.Common.Password.{password_schema}
use nestjs_hexagonal_templat.User.{
  Role, superadmin, admin, user, is_superadmin, CreateUserDto, UpdateUserDto,
}

-- The values of role.enum.ts
abbrev pub role_text : Role → String
role_text superadmin = "SUPERADMIN"
role_text admin = "ADMIN"
role_text user = "USER"

abbrev pub allowed_roles : List Role
allowed_roles = admin ∷ user ∷ []

-- z.enum(allowedRoles)
unfoldable pub role_schema : Schema Role
role_schema (some (str s)) = find (λ r. role_text r == s) allowed_roles
role_schema _ = none

module _ (is_email : String → Bool) where
  unfoldable pub create_user_schema : Schema CreateUserDto
  unfolding get text_between optional role_schema
  create_user_schema body = do
    fs ← fields_of body
    name ← text_between 2 255 (get "name" fs)
    email ← text_if is_email (get "email" fs)
    phone ← optional (text_between 10 20) (get "phone" fs)
    role ← role_schema (get "role" fs)
    some (record { name = name; email = email; phone = phone; role = role })

-- A phone number may be absent, or null.
unfoldable pub update_user_schema : Schema UpdateUserDto
unfolding get text_between optional nullable role_schema
update_user_schema body = do
  fs ← fields_of body
  name ← optional (text_between 2 255) (get "name" fs)
  phone ← optional (nullable (text_between 10 20)) (get "phone" fs)
  role ← optional role_schema (get "role" fs)
  some (record { name = name; phone = phone; role = role })

unfoldable pub update_user_password_schema : Schema String
unfolding get password_schema
update_user_password_schema body = do fs ← fields_of body; password_schema (get "newPassword" fs)

unfoldable pub set_user_active_schema : Schema Bool
unfolding get boolean
set_user_active_schema body = do fs ← fields_of body; boolean (get "isActive" fs)

-- No superadmin.
abbrev pub IsAllowed : Role → Type 0
IsAllowed role = is_superadmin role ≡ false

found_role :
    (s : String) (r : Role) → find (λ r. role_text r == s) allowed_roles ≡ some r → IsAllowed r
found_role s admin h = refl
found_role s user h = refl
found_role s superadmin h = elim (Bool-cases ("ADMIN" == s)) [
  | inl hit ↦ absurd (cc (rw hit at h))
  | inr miss ↦ elim (Bool-cases ("USER" == s)) [
    | inl hit ↦ absurd (cc (rw (miss, hit) at h))
    | inr other ↦ absurd (cc (rw (miss, other) at h))
  ]
]

role_schema-IsAllowed : (v : Option Json) (r : Role) → role_schema v ≡ some r → IsAllowed r
unfolding role_schema
role_schema-IsAllowed (some (str s)) r h = found_role s r h
role_schema-IsAllowed none r h = absurd (cc)
role_schema-IsAllowed (some null) r h = absurd (cc)
role_schema-IsAllowed (some (bool b)) r h = absurd (cc)
role_schema-IsAllowed (some (num n)) r h = absurd (cc)
role_schema-IsAllowed (some (arr vs)) r h = absurd (cc)
role_schema-IsAllowed (some (obj fs)) r h = absurd (cc)

abbrev pub AllowsRole : Option Role → Type 0
AllowsRole none = Unit
AllowsRole (some role) = IsAllowed role

pub create_user_schema-IsAllowed :
    (is_email : String → Bool) (body : Option Json) (dto : CreateUserDto)
    → create_user_schema is_email body ≡ some dto
    → IsAllowed dto.role
unfolding create_user_schema
create_user_schema-IsAllowed is_email body dto h =
    let (fs, f, h1) = bind_passed (fields_of body) _ dto h in
    let (name, n, h2) = bind_passed (text_between 2 255 (get "name" fs)) _ dto h1 in
    let (email, e, h3) = bind_passed (text_if is_email (get "email" fs)) _ dto h2 in
    let (phone, p, h4) = bind_passed (optional (text_between 10 20) (get "phone" fs)) _ dto h3 in
    let (role, r, h5) = bind_passed (role_schema (get "role" fs)) _ dto h4 in
    let same : role ≡ dto.role = cc in rw (← same) (role_schema-IsAllowed (get "role" fs) role r)

optional-AllowsRole :
    (v : Option Json) (o : Option Role) → optional role_schema v ≡ some o → AllowsRole o
optional-AllowsRole v o h = elim (optional_passed role_schema v o h) [
  | inl absent ↦ rw absent tt
  | inr (r, e, passed) ↦ rw e (role_schema-IsAllowed v r passed)
]

pub update_user_schema-AllowsRole :
    (body : Option Json) (dto : UpdateUserDto)
    → update_user_schema body ≡ some dto
    → AllowsRole dto.role
unfolding update_user_schema
update_user_schema-AllowsRole body dto h =
    let (fs, f, h1) = bind_passed (fields_of body) _ dto h in
    let (name, n, h2) = bind_passed (optional (text_between 2 255) (get "name" fs)) _ dto h1 in
    let (phone, p, h3) =
      bind_passed (optional (nullable (text_between 10 20)) (get "phone" fs)) _ dto h2 in
    let (role, r, h4) = bind_passed (optional role_schema (get "role" fs)) _ dto h3 in
    let same : role ≡ dto.role = cc in rw (← same) (optional-AllowsRole (get "role" fs) role r)
