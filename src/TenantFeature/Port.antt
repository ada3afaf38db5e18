-- ===== src/TenantFeature/Port.antt =====
-- src/tenant-feature/domain/ports/tenant-feature.repository.port.ts: what the use cases ask of the
-- database, with what they rely on. `TenantFeature.Repository` is proved to provide it.
use nestjs_hexagonal_templat.Prelude.{
  ◌≡◌, ◌⊎◌, String, Bool, ◌&&◌, Option, none, some, List, ◌==◌, find, if◌then◌else◌,
}
use nestjs_hexagonal_templat.Prelude.Int.{ℤ}
use nestjs_hexagonal_templat.Common.Exec.{Exec, Ensures}
use nestjs_hexagonal_templat.Database.{In}
use nestjs_hexagonal_templat.Database.Selection.{IsSelection}
use nestjs_hexagonal_templat.TenantFeature.{TenantFeature}

abbrev pub of_tenant : String → TenantFeature → Bool
of_tenant tenant f = f.tenant_id == tenant

abbrev pub has_key : String → TenantFeature → Bool
has_key key f = f.feature_key == key

-- The row of a tenant and a key.
abbrev pub stored : String → String → List TenantFeature → Option TenantFeature
stored tenant key fs = find (λ f. of_tenant tenant f && has_key key f) fs

-- What a row says of its feature.
abbrev pub setting_of : Option TenantFeature → Option (Bool × Option ℤ)
setting_of none = none
setting_of (some f) = some (f.enabled, f.numeric_value)

abbrev pub written_or : Option TenantFeature → Option (Bool × Option ℤ) → Option (Bool × Option ℤ)
written_or none old = old
written_or (some f) old = setting_of (some f)

-- The settings after an upsert of a tenant's features: those written, and all others as they were.
abbrev pub IsUpserted :
    String → List TenantFeature → List TenantFeature → List TenantFeature → Type 0
IsUpserted tenant fs before after =
    (t k : String)
    → setting_of (stored t k after) ≡ (
        if t == tenant
        then written_or (find (has_key k) fs) (setting_of (stored t k before))
        else setting_of (stored t k before))

-- The unique index on the tenant and the key.
abbrev pub IsUnique : List TenantFeature → Type 0
IsUnique fs =
    (r s : TenantFeature)
    → In r fs
    → In s fs
    → r.tenant_id ≡ s.tenant_id
    → r.feature_key ≡ s.feature_key
    → r ≡ s

pub record TenantFeatureRepositoryPort (W : Type 0) : Type 0 where
  -- The rows that are not deleted.
  pub features : W → List TenantFeature
  pub find_by_tenant_id : String → Exec W (List TenantFeature)
  pub bulk_upsert : String → List TenantFeature → Exec W (List TenantFeature)
  pub features_unique : (w : W) → IsUnique (features w)
  pub find_by_tenant_id_law :
      (tenant : String) (w : W)
      → Ensures
          (find_by_tenant_id tenant w)
          (λ fs w'. (features w' ≡ features w) × IsSelection (of_tenant tenant) (features w) fs)
          (λ w'. features w' ≡ features w)
  -- The rows are read again after they are written, and that may fail.
  pub bulk_upsert_law :
      (tenant : String) (fs : List TenantFeature) (w : W)
      → Ensures
          (bulk_upsert tenant fs w)
          (λ _ w'. IsUpserted tenant fs (features w) (features w'))
          (λ w'. (features w' ≡ features w) ⊎ IsUpserted tenant fs (features w) (features w'))
