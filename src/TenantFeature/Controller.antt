-- ===== src/TenantFeature/Controller.antt =====
-- src/tenant-feature/infrastructure/http/tenant-feature.controller.ts: the routes of the features.
use nestjs_hexagonal_templat.Prelude.{ℕ, String, Bool, Option, some, List, [], ◌∷◌}
use nestjs_hexagonal_templat.Common.Exec.{Exec, ◌>>=◌}
use nestjs_hexagonal_templat.Common.Json.{Json, str}
use nestjs_hexagonal_templat.Common.Pipes.{zod_validation_pipe}
use nestjs_hexagonal_templat.User.{Role, admin, superadmin}
use nestjs_hexagonal_templat.TenantFeature.Cache.{Entries, CacheConfig}
use nestjs_hexagonal_templat.TenantFeature.Port.{TenantFeatureRepositoryPort}
use nestjs_hexagonal_templat.TenantFeature.Service.{Clock}
use nestjs_hexagonal_templat.TenantFeature.UseCases.{
  TenantFeatureResponseDto, get_tenant_features, bulk_update,
}
use nestjs_hexagonal_templat.TenantFeature.Schema.{
  tenant_id_param_schema, bulk_update_tenant_features_schema,
}

-- The first route has the tenant of the caller, the others the `id` of the path.
pub data Request : Type 0 where
  get_my_features : String → Request
  get_features : String → Request
  bulk_update_features : String → Option Json → Request

-- @Roles of the routes
abbrev pub required_roles : Request → List Role
required_roles (get_my_features tenant) = admin ∷ []
required_roles (get_features id) = superadmin ∷ []
required_roles (bulk_update_features id body) = superadmin ∷ []

module _ {W : Type 0} (c : CacheConfig) (repo : TenantFeatureRepositoryPort W)
    (find_tenant : String → Exec W Bool) (is_uuid : String → Bool)
    (issues : Option Json → Json) where
  -- `now` is the `new Date()` of an update, and `t` what a load reads of the clock.
  unfoldable pub handle : ℕ → Clock → Request → Exec (Entries × W) (List TenantFeatureResponseDto)
  unfolding zod_validation_pipe tenant_id_param_schema bulk_update_tenant_features_schema
      get_tenant_features bulk_update
  handle now t (get_my_features tenant) = get_tenant_features c repo find_tenant t tenant
  handle now t (get_features id) = do
    tenant ← zod_validation_pipe issues (tenant_id_param_schema is_uuid) (some (str id))
    get_tenant_features c repo find_tenant t tenant
  handle now t (bulk_update_features id body) = do
    tenant ← zod_validation_pipe issues (tenant_id_param_schema is_uuid) (some (str id))
    dto ← zod_validation_pipe issues bulk_update_tenant_features_schema body
    bulk_update c repo find_tenant now tenant dto
