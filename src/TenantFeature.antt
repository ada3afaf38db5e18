-- ===== src/TenantFeature.antt =====
-- src/tenant-feature: the features that are on or off for a tenant.
pub mod Cache
pub mod Port
pub mod Repository
pub mod UseCases
pub mod Schema
pub mod Controller
pub mod Accepted
pub mod Effective
pub mod Resolved
pub mod Written
pub mod Memory
pub mod Service
mod Tests
use nestjs_hexagonal_templat.Prelude.{ℕ, String, Option, Bool}
use nestjs_hexagonal_templat.Prelude.Int.{ℤ}

-- tenant-feature.entity.ts; instants are in milliseconds.
pub record TenantFeature : Type 0 where
  pub id : String
  pub tenant_id : String
  pub feature_key : String
  pub enabled : Bool
  pub numeric_value : Option ℤ
  pub created_at : ℕ
  pub updated_at : ℕ
  pub deleted_at : Option ℕ
