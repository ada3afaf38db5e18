-- ===== src/Sample.antt =====
-- src/sample: the entity, the mapper, the domain service and the types of the requests. The module
-- that the repository's other modules are to be written after.
pub mod Schema
pub mod Port
pub mod Repository
pub mod UseCases
pub mod Queue
pub mod Processor
pub mod Delivery
pub mod Worker
pub mod Controller
pub mod OtherTenants
pub mod Position
mod Tests
use nestjs_hexagonal_templat.Prelude.{
  ℕ, String, Bool, true, ◌&&◌, Option, none, some, ◌==◌, leb, if◌then◌else◌,
}
use nestjs_hexagonal_templat.Prelude.Int.{ℤ, pos}
use nestjs_hexagonal_templat.Common.Pipes.{text_length}

-- sample.entity.ts, and sample.typeorm-entity.ts, which has the same columns.
pub record Sample : Type 0 where
  pub id : String
  pub tenant_id : String
  pub name : String
  pub description : Option String
  pub is_active : Bool
  pub sort_order : ℤ
  pub created_at : ℕ
  pub updated_at : ℕ
  pub deleted_at : Option ℕ

pub record CreateSampleDto : Type 0 where
  pub name : String
  pub description : Option String
  pub sort_order : Option ℕ

-- A field that is absent is none; a description may be null too.
pub record UpdateSampleDto : Type 0 where
  pub name : Option String
  pub description : Option (Option String)
  pub is_active : Option Bool
  pub sort_order : Option ℕ

pub record ScheduleSampleDeactivationDto : Type 0 where
  pub delay_ms : ℕ

pub record SampleResponseDto : Type 0 where
  pub id : String
  pub tenant_id : String
  pub name : String
  pub description : Option String
  pub is_active : Bool
  pub sort_order : ℤ
  -- The instants that `toISOString` prints.
  pub created_at : ℕ
  pub updated_at : ℕ

-- SampleMapper.toResponse
unfoldable pub to_response : Sample → SampleResponseDto
to_response s = record {
  id = s.id;
  tenant_id = s.tenant_id;
  name = s.name;
  description = s.description;
  is_active = s.is_active;
  sort_order = s.sort_order;
  created_at = s.created_at;
  updated_at = s.updated_at;
}

-- SampleMapper.toDomain, with the defaults of the entity's constructor; `now` is `new Date()`.
unfoldable pub to_domain : ℕ → CreateSampleDto → String → ℤ → Sample
to_domain now dto tenant sort_order = record {
  id = "";
  tenant_id = tenant;
  name = dto.name;
  description = dto.description;
  is_active = true;
  sort_order = sort_order;
  created_at = now;
  updated_at = now;
  deleted_at = none;
}

-- SampleDomainService.validateName
unfoldable pub validate_name : String → Bool
unfolding text_length
validate_name name = leb 2 (text_length name) && leb (text_length name) 255

-- SampleDomainService.canDeactivate
abbrev pub can_deactivate : Sample → Bool
can_deactivate s = s.is_active

-- The row of a given id and tenant.
abbrev pub has_id : String → String → Sample → Bool
has_id id tenant s = s.id == id && s.tenant_id == tenant
