-- ===== src/User.antt =====
-- src/user: the entity, the mapper, the DTOs, and the port of the repository. The use cases and the
-- TypeORM repository are the modules below.
pub mod Port
pub mod Repository
pub mod Active
pub mod UseCases
pub mod Schema
pub mod Admins
pub mod Reads
pub mod LastAdmin
pub mod Removal
pub mod Isolation
pub mod Controller
pub mod Routes
pub mod Superadmins
pub mod Promotion
pub mod Calls
pub mod Session
pub mod OtherTenants
mod Tests
use nestjs_hexagonal_templat.Prelude.{
  ℕ, zero, suc, ◌+◌, ◌-◌, ◌*◌, ◌/◌, ◌%◌, ◌^◌, ◌≤◌, ◌<◌, String, ◌≡◌, refl, sym, ap, ◌∙◌, ◌≢◌, ◌↔◌,
  ◌⊎◌, inl, inr, Bool, true, false, not, ◌&&◌, ◌||◌, Option, none, some, List, [], ◌∷◌, ◌++◌, map,
  arith, ◌==◌, eq_iff, eq_refl, ltb, leb, eqb, if◌then◌else◌, Bool-cases, Option-cases, str_cases,
  length, get_elem?, take, drop, any, all, keep, find, count_if, All, length-append, length-drop,
  length-keep-le, length-map, tests, ltb→lt, lt→ltb, leb→le, le→leb,
}

-- src/common/enums/role.enum.ts
pub data Role : Type 0 where
  superadmin admin user : Role

abbrev pub is_superadmin : Role → Bool
is_superadmin superadmin = true
is_superadmin _ = false

abbrev pub is_admin : Role → Bool
is_admin admin = true
is_admin _ = false

-- user.entity.ts, and user.typeorm-entity.ts, which has the same columns. Instants are in
-- milliseconds; `deletedAt` is null in every row that TypeORM finds.
pub record User : Type 0 where
  pub id : String
  pub tenant_id : String
  pub supertokens_user_id : String
  pub name : String
  pub email : String
  pub phone : Option String
  pub role : Role
  pub is_active : Bool
  pub created_at : ℕ
  pub updated_at : ℕ
  pub deleted_at : Option ℕ

pub record CreateUserDto : Type 0 where
  pub name : String
  pub email : String
  pub phone : Option String
  pub role : Role

-- A field of `UpdateUserDto` that may be absent, or null where `A` is an option.
pub record UpdateUserDto : Type 0 where
  pub name : Option String
  pub phone : Option (Option String)
  pub role : Option Role

pub record UserResponseDto : Type 0 where
  pub id : String
  pub tenant_id : String
  pub name : String
  pub email : String
  pub phone : Option String
  pub role : Role
  pub is_active : Bool
  -- The instants that `toISOString` prints.
  pub created_at : ℕ
  pub updated_at : ℕ

-- UserMapper.toResponse
unfoldable pub to_response : User → UserResponseDto
to_response u = record {
  id = u.id;
  tenant_id = u.tenant_id;
  name = u.name;
  email = u.email;
  phone = u.phone;
  role = u.role;
  is_active = u.is_active;
  created_at = u.created_at;
  updated_at = u.updated_at;
}

-- An active administrator of the tenant.
abbrev pub is_active_admin : String → User → Bool
is_active_admin tenant u = u.tenant_id == tenant && (is_admin u.role && u.is_active)

-- The row of a given id and tenant.
abbrev pub has_id : String → String → User → Bool
has_id id tenant u = u.id == id && u.tenant_id == tenant
