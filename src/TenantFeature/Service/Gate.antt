-- ===== src/TenantFeature/Service/Gate.antt =====
-- Whom the guard of src/tenant-feature/infrastructure/http/feature.guard.ts lets through.
use nestjs_hexagonal_templat.Prelude.{
  ◌<◌, String, ◌≡◌, refl, sym, ap, ◌∙◌, ◌≢◌, ◌⊎◌, inl, inr, true, Option, none, some, List,
  if◌then◌else◌, Bool-cases, str_cases,
}
use nestjs_hexagonal_templat.Common.Exec.{Result, ok, throw, Exec, pure, raise, continue}
use nestjs_hexagonal_templat.User.Controller.{RequestUser}
use nestjs_hexagonal_templat.TenantFeature.{TenantFeature}
use nestjs_hexagonal_templat.TenantFeature.Cache.{CacheEntry, Entries, CacheConfig, fetch}
use nestjs_hexagonal_templat.TenantFeature.Cache.Fresh.{CacheCall, after, current, fetch-current}
use nestjs_hexagonal_templat.TenantFeature.Service.{
  Clock, disabled, assert_tenant_context, find_key, enabled_of, load_after, remember, load_tenant,
  load_features, is_feature_enabled, tenant_of, is_superadmin_caller, feature_guard,
}

module _ {W : Type 0} (c : CacheConfig)
    (find_by_tenant_id : String → Exec W (List TenantFeature)) where
  -- The features that a load answers with: an entry of the cache that is current and has not expired,
  -- or the answer of the repository.
  abbrev pub IsLoaded : List CacheCall → Clock → String → W → List TenantFeature → Type 0
  IsLoaded calls t tenant w features =
      ((e : CacheEntry) × (current c tenant calls ≡ some e)
        × (e.features ≡ features)
        × (t.get_now < e.expires_at))
      ⊎ ((find_by_tenant_id tenant w).0 ≡ ok features)

  remember-IsLoaded :
      (calls : List CacheCall) (t : Clock) (tenant : String) (w : W) (m : Entries)
      (r : Result (List TenantFeature) × W) (features : List TenantFeature)
      → r.0 ≡ (find_by_tenant_id tenant w).0
      → (remember c find_by_tenant_id t tenant m r).0 ≡ ok features
      → IsLoaded calls t tenant w features
  remember-IsLoaded calls t tenant w m (ok fs, w') features e h = inr (sym e ∙ h)
  remember-IsLoaded calls t tenant w m (throw x, w') features e h = absurd (cc)

  load_after-IsLoaded :
      (calls : List CacheCall) (t : Clock) (tenant : String) (w : W)
      (r : Option (List TenantFeature) × Entries) (features : List TenantFeature)
      → r.0 ≡ (fetch t.get_now tenant (after c calls)).0
      → (load_after c find_by_tenant_id t tenant r w).0 ≡ ok features
      → IsLoaded calls t tenant w features
  load_after-IsLoaded calls t tenant w (some fs, m) features e h =
      let same : fs ≡ features = cc in
      inl (fetch-current c calls t.get_now tenant features (sym e ∙ ap (λ x. some x) same))
  load_after-IsLoaded calls t tenant w (none, m) features e h =
      remember-IsLoaded calls t tenant w m (find_by_tenant_id tenant w) features refl h

  load_tenant-IsLoaded :
      (calls : List CacheCall) (t : Clock) (tenant : String) (w : W) (features : List TenantFeature)
      → (load_tenant c find_by_tenant_id t tenant (after c calls, w)).0 ≡ ok features
      → IsLoaded calls t tenant w features
  unfolding load_tenant
  load_tenant-IsLoaded calls t tenant w features h =
      load_after-IsLoaded calls t tenant w (fetch t.get_now tenant (after c calls)) features refl h

  -- What passes is a list in which the key is not off.
  enabled_passes :
      (key : String) (r : Result (List TenantFeature) × (Entries × W))
      → (continue
          (continue r.0 (λ fs. pure (enabled_of (find_key key fs))) r.1).0
          (λ enabled. if enabled then pure true else raise disabled)
          (continue r.0 (λ fs. pure (enabled_of (find_key key fs))) r.1).1).0
        ≡ ok true
      → (fs : List TenantFeature) × (r.0 ≡ ok fs) × (enabled_of (find_key key fs) ≡ true)
  enabled_passes key (throw x, s) h = absurd (cc)
  enabled_passes key (ok fs, s) h = elim (Bool-cases (enabled_of (find_key key fs))) [
    | inl on ↦ (fs, refl, on)
    | inr off ↦ absurd (cc (rw off at h))
  ]

  -- Through a route that requires a feature, by a key that is not empty, the guard lets a superadmin,
  -- or a caller with a tenant for whom the feature is not off, by the entry of the cache that is
  -- current and has not expired or by the answer of the repository.
  pub feature_guard-IsLoaded :
      (calls : List CacheCall) (t : Clock) (key : String) (caller : Option RequestUser) (w : W)
      → key ≢ ""
      → (feature_guard c find_by_tenant_id t (some key) caller (after c calls, w)).0 ≡ ok true
      → (is_superadmin_caller c find_by_tenant_id caller ≡ true)
        ⊎ ((tenant_of c find_by_tenant_id caller ≢ "")
            × ((fs : List TenantFeature) × IsLoaded calls t
                  (tenant_of c find_by_tenant_id caller)
                  w
                  fs
                × (enabled_of (find_key key fs) ≡ true)))
  unfolding feature_guard is_feature_enabled load_features assert_tenant_context
  feature_guard-IsLoaded calls t key caller w some_key h =
      let tenant : String = tenant_of c find_by_tenant_id caller in
      elim (str_cases key "") [
        | inl empty ↦ absurd (some_key empty.0)
        | inr given ↦ elim (Bool-cases (is_superadmin_caller c find_by_tenant_id caller)) [
          | inl super ↦ inl super
          | inr other ↦ elim (str_cases tenant "") [
            | inl nobody ↦ absurd (cc (rw (given.1, other, nobody.1) at h))
            | inr somebody ↦
                let (fs, loaded, on) =
                  enabled_passes key (load_tenant c find_by_tenant_id t tenant (after c calls, w))
                    (rw (given.1, other, somebody.1) at h) in
                inr (somebody.0, (fs, load_tenant-IsLoaded calls t tenant w fs loaded, on))
          ]
        ]
      ]
