-- ===== src/Tenant.antt =====
-- src/tenant: the entity, its mapper and the types of the requests.
pub mod Schema
pub mod Port
pub mod Repository
pub mod Controller
pub mod Unique
mod Tests
use nestjs_hexagonal_templat.Prelude.{ℕ, String, Bool, true, Option, none, ◌==◌}

-- tenant.entity.ts, and tenant.typeorm-entity.ts, which has the same columns.
pub record Tenant : Type 0 where
  pub id : String
  pub name : String
  pub document : String
  pub email : String
  pub phone : String
  pub is_active : Bool
  pub created_at : ℕ
  pub updated_at : ℕ
  pub deleted_at : Option ℕ

pub record CreateTenantDto : Type 0 where
  pub name : String
  pub document : String
  pub email : String
  pub phone : String

pub record UpdateTenantDto : Type 0 where
  pub name : Option String
  pub email : Option String
  pub phone : Option String
  pub is_active : Option Bool

pub record TenantResponseDto : Type 0 where
  pub id : String
  pub name : String
  pub document : String
  pub email : String
  pub phone : String
  pub is_active : Bool
  -- The instants that `toISOString` prints.
  pub created_at : ℕ
  pub updated_at : ℕ

-- TenantMapper.toResponse
unfoldable pub to_response : Tenant → TenantResponseDto
to_response t = record {
  id = t.id;
  name = t.name;
  document = t.document;
  email = t.email;
  phone = t.phone;
  is_active = t.is_active;
  created_at = t.created_at;
  updated_at = t.updated_at;
}

-- TenantMapper.toDomain, with the defaults of the entity's constructor; `now` is `new Date()`.
unfoldable pub to_domain : ℕ → CreateTenantDto → Tenant
to_domain now dto = record {
  id = "";
  name = dto.name;
  document = dto.document;
  email = dto.email;
  phone = dto.phone;
  is_active = true;
  created_at = now;
  updated_at = now;
  deleted_at = none;
}

-- where: { id }
abbrev pub has_id : String → Tenant → Bool
has_id id t = t.id == id

-- where: { document }
abbrev pub has_document : String → Tenant → Bool
has_document document t = t.document == document
