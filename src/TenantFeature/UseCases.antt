-- ===== src/TenantFeature/UseCases.antt =====
-- src/tenant-feature/application/use-cases and tenant.assertions.ts, beside the methods of
-- tenant-feature.service.ts that list and invalidate. The state is that of `Service`.
use Prim.Native.String.{compare}
use Prim.Native.Nat.{Ordering}
use nestjs_hexagonal_templat.Prelude.{
  ℕ, String, Bool, true, false, Option, none, some, List, [], ◌∷◌, map,
}
use nestjs_hexagonal_templat.Prelude.Int.{ℤ, pos}
use nestjs_hexagonal_templat.Common.Exec.{Result, Exec, pure, raise, ◌>>=◌, ◌>>◌}
use nestjs_hexagonal_templat.Common.Errors.{domain_error, not_found, tenant_not_found}
use nestjs_hexagonal_templat.Common.JsMap.{lookup, insert}
use nestjs_hexagonal_templat.TenantFeature.{TenantFeature}
use nestjs_hexagonal_templat.TenantFeature.Cache.{Entries, CacheConfig, invalidate}
use nestjs_hexagonal_templat.TenantFeature.Port.{TenantFeatureRepositoryPort}
use nestjs_hexagonal_templat.TenantFeature.Service.{
  Clock, assert_tenant_context, enabled_of, limit_of, load_features,
}

-- `numericValue` is absent, null, or a number of at least 0.
pub record UpdateTenantFeatureDto : Type 0 where
  pub feature_key : String
  pub enabled : Bool
  pub numeric_value : Option (Option ℕ)

pub record TenantFeatureResponseDto : Type 0 where
  pub feature_key : String
  pub enabled : Bool
  pub numeric_value : Option ℤ

-- TenantFeatureMapper.toResponse
abbrev pub to_response : TenantFeature → TenantFeatureResponseDto
to_response f = record {
  feature_key = f.feature_key;
  enabled = f.enabled;
  numeric_value = f.numeric_value;
}

abbrev pub as_number : Option ℕ → Option ℤ
as_number none = none
as_number (some n) = some (pos n)

-- resolveNumericValue
abbrev pub resolve_numeric_value : Option (Option ℕ) → Option TenantFeature → Option ℤ
resolve_numeric_value none current = limit_of current
resolve_numeric_value (some v) current = as_number v

-- new Map(features.map((f) => [f.featureKey, f])), after the entries that are there.
unfoldable pub index_by_key :
    List (String × TenantFeature) → List TenantFeature → List (String × TenantFeature)
unfolding insert
index_by_key m [] = m
index_by_key m (f ∷ fs) = index_by_key (insert f.feature_key f m) fs

-- The entity of one entry of the request; `now` is `new Date()`.
abbrev pub new_feature :
    ℕ → String → List (String × TenantFeature) → UpdateTenantFeatureDto → TenantFeature
unfolding lookup
new_feature now tenant current dto = record {
  id = "";
  tenant_id = tenant;
  feature_key = dto.feature_key;
  enabled = dto.enabled;
  numeric_value = resolve_numeric_value dto.numeric_value (lookup dto.feature_key current);
  created_at = now;
  updated_at = now;
  deleted_at = none;
}

-- A key among keys that are in order, once.
unfoldable pub sort_in : String → List String → List String
sort_in key [] = key ∷ []
sort_in key (k ∷ ks) =
    let rest = sort_in key ks in
    elim (compare key k) [
      | Ordering.lt ↦ key ∷ k ∷ ks
      | Ordering.eq ↦ k ∷ ks
      | Ordering.gt ↦ k ∷ rest
    ]

-- [...keys].sort(), for the keys of a map; `FeatureKey` declares none.
unfoldable pub sorted_keys : List (String × TenantFeature) → List String
unfolding sort_in
sorted_keys [] = []
sorted_keys ((key, f) ∷ m) = sort_in key (sorted_keys m)

abbrev pub effective : List (String × TenantFeature) → String → TenantFeatureResponseDto
unfolding lookup
effective m key = record {
  feature_key = key;
  enabled = enabled_of (lookup key m);
  numeric_value = limit_of (lookup key m);
}

module _ {W : Type 0} (c : CacheConfig) (repo : TenantFeatureRepositoryPort W)
    (find_tenant : String → Exec W Bool) where
  -- A call of the repository, which leaves the cache alone.
  abbrev pub asking : {A : Type 0} → Exec W A → Exec (Entries × W) A
  asking m (entries, w) = let (r, w') = m w in (r, (entries, w'))

  -- `findById` of the tenants found one, or not.
  abbrev pub require_tenant : Bool → Exec (Entries × W) (Unit {0})
  require_tenant true = pure tt
  require_tenant false = raise (domain_error tenant_not_found "Tenant não encontrado" not_found)

  unfoldable pub assert_tenant_exists : String → Exec (Entries × W) (Unit {0})
  assert_tenant_exists tenant = asking (find_tenant tenant) >>= require_tenant

  unfoldable pub invalidate_cache : String → Exec (Entries × W) (Unit {0})
  unfolding invalidate
  invalidate_cache tenant (entries, w) = (Result.ok tt, (invalidate tenant entries, w))

  unfoldable pub get_all_features :
      Clock → String → Exec (Entries × W) (List TenantFeatureResponseDto)
  unfolding load_features index_by_key sorted_keys
  get_all_features t tenant = do
    features ← load_features c repo.find_by_tenant_id t tenant
    let m = index_by_key [] features
    pure (map (effective m) (sorted_keys m))

  unfoldable pub get_tenant_features :
      Clock → String → Exec (Entries × W) (List TenantFeatureResponseDto)
  unfolding assert_tenant_context assert_tenant_exists get_all_features
  get_tenant_features t tenant = do
    assert_tenant_context tenant
    assert_tenant_exists tenant
    get_all_features t tenant

  unfoldable pub bulk_update :
      ℕ → String → List UpdateTenantFeatureDto → Exec (Entries × W) (List TenantFeatureResponseDto)
  unfolding assert_tenant_context assert_tenant_exists index_by_key invalidate_cache
  bulk_update now tenant dtos = do
    assert_tenant_context tenant
    assert_tenant_exists tenant
    current ← asking (repo.find_by_tenant_id tenant)
    updated ←
        asking
          (repo.bulk_upsert tenant (map (new_feature now tenant (index_by_key [] current)) dtos))
    invalidate_cache tenant
    pure (map to_response updated)
