-- ===== src/TenantFeature/Tests.antt =====
-- The cache and the guard of src/tenant-feature at concrete calls.
use nestjs_hexagonal_templat.Prelude.{
  ◌≢◌, ◌⊎◌, apart, true, String, ◌≤◌, ◌<◌, ◌≡◌, refl, some, none, List, [], ◌∷◌, arith, length,
}
use nestjs_hexagonal_templat.Common.Exec.{Exec, ok}
use nestjs_hexagonal_templat.User.{admin}
use nestjs_hexagonal_templat.User.Controller.{RequestUser}
use nestjs_hexagonal_templat.TenantFeature.{TenantFeature}
use nestjs_hexagonal_templat.TenantFeature.Service.{
  Clock, find_key, enabled_of, feature_guard, is_superadmin_caller, tenant_of,
}
use nestjs_hexagonal_templat.TenantFeature.Service.Gate.{IsLoaded, feature_guard-IsLoaded}
use nestjs_hexagonal_templat.TenantFeature.Cache.{
  CacheEntry, CacheConfig, configure, fetch, store, invalidate,
}
use nestjs_hexagonal_templat.TenantFeature.Cache.Fresh.{
  CacheCall, fetched, stored, invalidated, after, current, fetch-current, length-after,
}
use nestjs_hexagonal_templat.Prelude.Int.{pos}
use nestjs_hexagonal_templat.Common.Exec.{Ensures, ◌>>◌}
use nestjs_hexagonal_templat.Prelude.{Bool, false}
use nestjs_hexagonal_templat.TenantFeature.Port.{TenantFeatureRepositoryPort, setting_of}
use nestjs_hexagonal_templat.TenantFeature.Port as Port
use nestjs_hexagonal_templat.TenantFeature.Repository.{tenant_feature_repository}
use nestjs_hexagonal_templat.TenantFeature.Memory.{Store, memory_table}
use nestjs_hexagonal_templat.TenantFeature.Service.{load_features}
use nestjs_hexagonal_templat.TenantFeature.UseCases.{UpdateTenantFeatureDto}
use nestjs_hexagonal_templat.TenantFeature.Resolved.{expected}
use nestjs_hexagonal_templat.TenantFeature.Written.{Settled}
use nestjs_hexagonal_templat.Prelude.{map, Option}
use nestjs_hexagonal_templat.Prelude.Int.{ℤ}
use nestjs_hexagonal_templat.Common.Exec.{Result, throw}
use nestjs_hexagonal_templat.Common.Json.{
  Json, Fields, null, bool, num, str, arr, obj, field, end, nil, cons,
}
use nestjs_hexagonal_templat.TenantFeature.Cache.{Entries}
use nestjs_hexagonal_templat.TenantFeature.Schema.{bulk_update_tenant_features_schema}
use nestjs_hexagonal_templat.TenantFeature.Controller.{bulk_update_features, handle}
use nestjs_hexagonal_templat.TenantFeature.Accepted.{IsAccepted}
use nestjs_hexagonal_templat.TenantFeature.Effective.{IsEffective, load-handle}

negative_is_refused : configure (some "-5") (some "7") ≡ record { ttl_ms = 30000; max_tenants = 7 }
unfolding configure
negative_is_refused = refl

abbrev config : CacheConfig
config = record { ttl_ms = 100; max_tenants = 2 }

-- Three tenants are stored, one of them twice; the last call comes first.
abbrev calls : List CacheCall
calls =
    fetched 60 "a"
    ∷ stored 50 50 "a" []
    ∷ stored 40 40 "c" []
    ∷ invalidated "b"
    ∷ stored 20 20 "b" []
    ∷ stored 10 10 "a" []
    ∷ []

a_hit : (fetch 140 "a" (after config calls)).0 ≡ some []
unfolding fetch store invalidate
a_hit = refl

fetch-current_example :
    (e : CacheEntry) × (current config "a" calls ≡ some e)
    × (e.features ≡ [])
    × (140 < e.expires_at)
fetch-current_example = fetch-current config calls 140 "a" [] a_hit

length-after_example : length (after config calls) ≤ 2
length-after_example = length-after config calls (omega arith)

abbrev row : TenantFeature
row = record {
  id = "r";
  tenant_id = "d";
  feature_key = "EXPORT";
  enabled = true;
  numeric_value = none;
  created_at = 0;
  updated_at = 0;
  deleted_at = none;
}

abbrev find_rows : String → Exec (Unit {0}) (List TenantFeature)
find_rows tenant w = (ok (row ∷ []), w)

abbrev caller : RequestUser
caller = record { user_id = "u"; tenant_id = "d"; role = admin; supertokens_user_id = "s" }

abbrev clock : Clock
clock = record { get_now = 140; prune_now = 140; set_now = 141 }

guard_passes :
    (feature_guard config find_rows clock (some "EXPORT") (some caller) (after config calls, tt)).0
    ≡ ok true
unfolding feature_guard fetch store invalidate
guard_passes = refl

feature_guard-IsLoaded_example :
    (is_superadmin_caller config find_rows (some caller) ≡ true)
    ⊎ ((tenant_of config find_rows (some caller) ≢ "")
        × ((fs : List TenantFeature) × IsLoaded config find_rows calls clock
              (tenant_of config find_rows (some caller))
              tt
              fs
            × (enabled_of (find_key "EXPORT" fs) ≡ true)))
feature_guard-IsLoaded_example =
    feature_guard-IsLoaded config find_rows calls clock "EXPORT" (some caller) tt
      (apart "EXPORT" "" refl) guard_passes

abbrev repository : TenantFeatureRepositoryPort Store
unfolding tenant_feature_repository
repository = tenant_feature_repository memory_table

abbrev limited : Store
limited = (record row { numeric_value = some (pos 7) } ∷ [], (tt, tt))

-- The key is switched off, and its number is left alone.
abbrev request : List UpdateTenantFeatureDto
request = record { feature_key = "EXPORT"; enabled = false; numeric_value = none } ∷ []

abbrev find_tenant : String → Exec Store Bool
find_tenant tenant w = (ok true, w)

number_kept :
    expected "EXPORT" request (setting_of (Port.stored "d" "EXPORT" limited.0))
    ≡ some (false, some (pos 7))
number_kept = refl

abbrev loaded : Result (List TenantFeature) → List TenantFeature
loaded (ok fs) = fs
loaded (throw e) = []

-- Two keys, one with spaces around it and no number, the other with one.
abbrev entry : String → Bool → Fields → Json
entry key enabled rest = obj (field "featureKey" (str key) (field "enabled" (bool enabled) rest))

abbrev asked : Json
asked = obj (
    field "features"
      (arr (
        cons (entry " EXPORT " false end)
          (cons (entry "REPORTS" true (field "numericValue" (num (pos 3)) end)) nil)))
      end)

abbrev put : String → Json → Exec (Entries × Store) (List TenantFeature)
unfolding handle
put id body =
    handle config repository find_tenant (λ s. true) (λ v. null) 9 clock
      (bulk_update_features id (some body))
    >> load_features config repository.find_by_tenant_id clock id

read_back :
    map {B = String × (Bool × Option ℤ)}
      (λ f. (f.feature_key, (f.enabled, f.numeric_value)))
      (loaded (put "d" asked ([], limited)).0)
    ≡ ("EXPORT", (false, some (pos 7))) ∷ ("REPORTS", (true, some (pos 3))) ∷ []
unfolding put repository
read_back = refl

load-handle_example :
    Ensures
      ((handle config repository find_tenant
            (λ s. true)
            (λ v. null)
            9
            clock
            (bulk_update_features "d" (some asked))
          >> load_features config repository.find_by_tenant_id clock "d")
        ([], limited))
      (λ fs s'.
        (ds : List UpdateTenantFeatureDto) × (bulk_update_tenant_features_schema (some asked)
          ≡ some ds)
        × IsAccepted ds
        × IsEffective config repository find_tenant
            (λ t w. refl)
            (λ s. true)
            (λ v. null)
            "d"
            ds
            limited.0
            fs)
      (λ s'.
        (s'.1.0 ≡ limited.0)
        ⊎ ((ds : List UpdateTenantFeatureDto) × (bulk_update_tenant_features_schema (some asked)
              ≡ some ds)
            × Settled config repository find_tenant (λ t w. refl) "d" ds limited.0 s'.1.0))
unfolding repository
load-handle_example =
    load-handle config repository find_tenant (λ t w. refl) (λ s. true) (λ v. null) 9 clock clock
      "d" (some asked) ([], limited) tt
