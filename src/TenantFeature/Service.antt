-- ===== src/TenantFeature/Service.antt =====
-- src/tenant-feature/application/services/tenant-feature.service.ts and
-- src/tenant-feature/infrastructure/http/feature.guard.ts, over the cache and the repository. The
-- state is the cache's entries beside what the repository acts on.
pub mod Gate
use nestjs_hexagonal_templat.Prelude.{
  ℕ, zero, suc, ◌+◌, ◌-◌, ◌*◌, ◌/◌, ◌%◌, ◌^◌, ◌≤◌, ◌<◌, String, ◌≡◌, refl, sym, ap, ◌∙◌, ◌≢◌, ◌↔◌,
  ◌⊎◌, inl, inr, Bool, true, false, not, ◌&&◌, ◌||◌, Option, none, some, List, [], ◌∷◌, ◌++◌, map,
  arith, ◌==◌, eq_iff, eq_refl, ltb, leb, eqb, if◌then◌else◌, Bool-cases, Option-cases, str_cases,
  length, get_elem?, take, drop, any, all, keep, find, count_if, All, length-append, length-drop,
  length-keep-le, length-map, tests, ltb→lt, lt→ltb, leb→le, le→leb,
}
use nestjs_hexagonal_templat.Prelude.Int.{ℤ}
use nestjs_hexagonal_templat.Common.Exec.{Result, ok, throw, Exec, pure, raise, ◌>>=◌, ◌>>◌}
use nestjs_hexagonal_templat.Common.Errors.{
  Exception, domain_error, http_forbidden, tenant_context_missing, feature_disabled,
}
use nestjs_hexagonal_templat.User.{is_superadmin}
use nestjs_hexagonal_templat.User.Controller.{RequestUser}
use nestjs_hexagonal_templat.TenantFeature.{TenantFeature}
use nestjs_hexagonal_templat.TenantFeature.Cache.{
  CacheEntry, Entries, CacheConfig, fetch, store, invalidate,
}

-- The readings of the clock of one load: in `get`, and twice in `set`.
pub record Clock : Type 0 where
  pub get_now : ℕ
  pub prune_now : ℕ
  pub set_now : ℕ

abbrev pub no_tenant : Exception
no_tenant = domain_error tenant_context_missing "Contexto de tenant não encontrado" http_forbidden

abbrev pub disabled : Exception
disabled =
    domain_error feature_disabled "Este recurso não está disponível no seu plano" http_forbidden

-- tenant.assertions.ts
unfoldable pub assert_tenant_context : {S : Type 0} → String → Exec S (Unit {0})
assert_tenant_context tenant = if tenant == "" then raise no_tenant else pure tt

abbrev pub find_key : String → List TenantFeature → Option TenantFeature
find_key key fs = find (λ (f : TenantFeature). f.feature_key == key) fs

-- A key with no row is enabled.
abbrev pub enabled_of : Option TenantFeature → Bool
enabled_of none = true
enabled_of (some f) = f.enabled

abbrev pub limit_of : Option TenantFeature → Option ℤ
limit_of none = none
limit_of (some f) = f.numeric_value

module _ {W : Type 0} (c : CacheConfig)
    (find_by_tenant_id : String → Exec W (List TenantFeature)) where
  -- What the repository answered, and what is kept of it.
  abbrev pub remember :
      Clock
      → String
      → Entries
      → Result (List TenantFeature) × W
      → Result (List TenantFeature) × (Entries × W)
  remember t tenant m (ok features, w) =
      (ok features, (store c t.prune_now t.set_now tenant features m, w))
  remember t tenant m (throw e, w) = (throw e, (m, w))

  abbrev pub load_after :
      Clock
      → String
      → Option (List TenantFeature) × Entries
      → W
      → Result (List TenantFeature) × (Entries × W)
  load_after t tenant (some features, m) w = (ok features, (m, w))
  load_after t tenant (none, m) w = remember t tenant m (find_by_tenant_id tenant w)

  -- The cache, and then the repository.
  unfoldable pub load_tenant : Clock → String → Exec (Entries × W) (List TenantFeature)
  unfolding fetch store
  load_tenant t tenant (m, w) = load_after t tenant (fetch t.get_now tenant m) w

  unfoldable pub load_features : Clock → String → Exec (Entries × W) (List TenantFeature)
  unfolding assert_tenant_context load_tenant
  load_features t tenant = assert_tenant_context tenant >> load_tenant t tenant

  unfoldable pub is_feature_enabled : Clock → String → String → Exec (Entries × W) Bool
  unfolding load_features
  is_feature_enabled t tenant key = do
    features ← load_features t tenant
    pure (enabled_of (find_key key features))

  unfoldable pub get_numeric_limit : Clock → String → String → Exec (Entries × W) (Option ℤ)
  unfolding load_features
  get_numeric_limit t tenant key = do
    features ← load_features t tenant
    pure (limit_of (find_key key features))

  abbrev pub tenant_of : Option RequestUser → String
  tenant_of none = ""
  tenant_of (some u) = u.tenant_id

  abbrev pub is_superadmin_caller : Option RequestUser → Bool
  is_superadmin_caller none = false
  is_superadmin_caller (some u) = is_superadmin u.role

  -- FeatureGuard.canActivate for a route with `@RequiresFeature(key)`.
  abbrev pub check_feature : Clock → String → Option RequestUser → Exec (Entries × W) Bool
  check_feature t key caller =
      let tenant = tenant_of caller in
      let asked = is_feature_enabled t tenant key >>= λ enabled.
      if enabled then pure true else raise disabled in
      if is_superadmin_caller caller
      then pure true
      else if tenant == ""
      then raise no_tenant
      else asked

  -- FeatureGuard.canActivate; none is a route without `@RequiresFeature()`.
  unfoldable pub feature_guard :
      Clock → Option String → Option RequestUser → Exec (Entries × W) Bool
  unfolding is_feature_enabled
  feature_guard t none caller = pure true
  feature_guard t (some key) caller =
      let checked = check_feature t key caller in if key == "" then pure true else checked
