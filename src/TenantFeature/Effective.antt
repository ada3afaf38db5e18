-- ===== src/TenantFeature/Effective.antt =====
-- A request to change features at src/tenant-feature/infrastructure/http/tenant-feature.controller.ts, and
-- the next reader of the service.
use nestjs_hexagonal_templat.Prelude.{
  ℕ, String, ◌≡◌, refl, ◌∙◌, ◌⊎◌, inl, inr, Bool, false, Option, none, some, List, ◌==◌, All,
  Bool-cases,
}
use nestjs_hexagonal_templat.Common.Exec.{
  Result, ok, throw, Exec, ◌>>=◌, ◌>>◌, Ensures, Ensures-mono,
}
use nestjs_hexagonal_templat.Common.Errors.{Exception}
use nestjs_hexagonal_templat.Common.Json.{Json}
use nestjs_hexagonal_templat.Common.JsMap.{IsDistinct}
use nestjs_hexagonal_templat.Common.Pipes.{passed_or, zod_validation_pipe, validation_failed}
use nestjs_hexagonal_templat.Database.{In}
use nestjs_hexagonal_templat.TenantFeature.{TenantFeature}
use nestjs_hexagonal_templat.TenantFeature.Cache.{Entries, CacheConfig}
use nestjs_hexagonal_templat.TenantFeature.Port.{stored, setting_of, TenantFeatureRepositoryPort}
use nestjs_hexagonal_templat.TenantFeature.Service.{Clock, find_key, load_features}
use nestjs_hexagonal_templat.TenantFeature.UseCases.{UpdateTenantFeatureDto, bulk_update}
use nestjs_hexagonal_templat.TenantFeature.Schema.{
  key_of, tenant_id_param_schema, bulk_update_tenant_features_schema,
}
use nestjs_hexagonal_templat.TenantFeature.Controller.{bulk_update_features, handle}
use nestjs_hexagonal_templat.TenantFeature.Resolved.{resolved, expected}
use nestjs_hexagonal_templat.TenantFeature.Written.{Settled, load-bulk_update}
use nestjs_hexagonal_templat.TenantFeature.Accepted.{
  IsAccepted, bulk_update_tenant_features_schema-IsAccepted, expected_each, expected_other,
}

-- A value that a schema checks, what follows it, and what follows that.
passed_or-Ensures :
    {S A B C : Type 0} (P : C → S → Type 0) (Q : S → Type 0) (e : Exception) (o : Option A)
    (next : A → Exec S B) (last : Exec S C) (s : S)
    → Q s
    → ((a : A) → o ≡ some a → Ensures ((next a >> last) s) P Q)
    → Ensures (((passed_or e o >>= next) >> last) s) P Q
passed_or-Ensures P Q e none next last s q h = q
passed_or-Ensures P Q e (some a) next last s q h = h a refl

Ensures-each :
    {S A : Type 0} {K : Type 0} (m : Result A × S) (P : K → A → S → Type 0) (Q : S → Type 0)
    → K
    → ((k : K) → Ensures m (P k) Q)
    → Ensures m (λ a s. (k : K) → P k a s) Q
Ensures-each (ok a, s) P Q k h = h
Ensures-each (throw e, s) P Q k h = h k

module _ {W : Type 0} (c : CacheConfig) (repo : TenantFeatureRepositoryPort W)
    (find_tenant : String → Exec W Bool)
    (find_tenant_frame : (t : String) (w : W) → repo.features (find_tenant t w).1 ≡ repo.features w)
    (is_uuid : String → Bool) (issues : Option Json → Json) where
  -- The settings that the entries ask for, and those of the other keys as they were.
  abbrev pub IsEffective :
      String → List UpdateTenantFeatureDto → List TenantFeature → List TenantFeature → Type 0
  IsEffective tenant ds before fs =
      ((d : UpdateTenantFeatureDto)
        → In d ds
        → setting_of (find_key d.feature_key fs)
          ≡ some (
            d.enabled,
            resolved d.numeric_value (setting_of (stored tenant d.feature_key before)),
          ))
      × ((k : String)
          → All (λ d. (key_of d == k) ≡ false) ds
          → setting_of (find_key k fs) ≡ setting_of (stored tenant k before))

  settled-IsEffective :
      (tenant : String) (ds : List UpdateTenantFeatureDto) (before fs : List TenantFeature)
      → IsAccepted ds
      → ((k : String)
          → setting_of (find_key k fs) ≡ expected k ds (setting_of (stored tenant k before)))
      → IsEffective tenant ds before fs
  settled-IsEffective tenant ds before fs accepted settled = (
    λ d here. settled d.feature_key ∙ expected_each ds d _ accepted.1 here,
    λ k others. settled k ∙ expected_other ds k _ others,
  )

  -- A request to change the features of a tenant, and the next load of them, for any readings of the
  -- clock. Where both answer, the body passed the schema as entries whose keys have 1 to 50 characters
  -- and stand once each, with numbers of at most 2147483647; in what is loaded, the key of each entry has
  -- the setting that the entry asks for, with the old number where it names none, and every other key its
  -- old setting. Where one throws, the features are unchanged, or settled as the body asks. The hypotheses
  -- are that the entries of the cache are of different tenants, and that the search for the tenant
  -- leaves the features alone.
  pub load-handle :
      (now : ℕ) (t u : Clock) (id : String) (body : Option Json) (s : Entries × W)
      → IsDistinct s.0
      → Ensures
          ((handle c repo find_tenant is_uuid issues now t (bulk_update_features id body)
              >> load_features c repo.find_by_tenant_id u id)
            s)
          (λ fs s'.
            (ds : List UpdateTenantFeatureDto) × (bulk_update_tenant_features_schema body ≡ some ds)
            × IsAccepted ds
            × IsEffective id ds (repo.features s.1) fs)
          (λ s'.
            (repo.features s'.1 ≡ repo.features s.1)
            ⊎ ((ds : List UpdateTenantFeatureDto) × (bulk_update_tenant_features_schema body
                  ≡ some ds)
                × Settled c repo find_tenant find_tenant_frame id ds
                    (repo.features s.1)
                    (repo.features s'.1)))
  unfolding handle zod_validation_pipe tenant_id_param_schema
  load-handle now t u id body s distinct = elim (Bool-cases (is_uuid id)) [
    | inl well_formed ↦ rw well_formed (
        passed_or-Ensures P Q (validation_failed (issues body))
          (bulk_update_tenant_features_schema body) (bulk_update c repo find_tenant now id) last s
          (inl refl) written)
    | inr malformed ↦ rw malformed (inl refl)
  ]
    where
      last : Exec (Entries × W) (List TenantFeature)
      last = load_features c repo.find_by_tenant_id u id

      P : List TenantFeature → Entries × W → Type 0
      P fs s' =
          (ds : List UpdateTenantFeatureDto) × (bulk_update_tenant_features_schema body ≡ some ds)
          × IsAccepted ds
          × IsEffective id ds (repo.features s.1) fs

      Q : Entries × W → Type 0
      Q s' =
          (repo.features s'.1 ≡ repo.features s.1)
          ⊎ ((ds : List UpdateTenantFeatureDto) × (bulk_update_tenant_features_schema body
                ≡ some ds)
              × Settled c repo find_tenant find_tenant_frame id ds (repo.features s.1)
                  (repo.features s'.1))

      written :
          (ds : List UpdateTenantFeatureDto)
          → bulk_update_tenant_features_schema body ≡ some ds
          → Ensures ((bulk_update c repo find_tenant now id ds >> last) s) P Q
      written ds passed =
          Ensures-mono ((bulk_update c repo find_tenant now id ds >> last) s) _ _ P Q
            (Ensures-each ((bulk_update c repo find_tenant now id ds >> last) s) _ _ ""
              (λ k. load-bulk_update c repo find_tenant find_tenant_frame now u id k ds s distinct))
            (λ fs s' h. (
              ds,
              passed,
              fits,
              settled-IsEffective id ds (repo.features s.1) fs fits (λ k. (h k).0),
            ))
            (λ s' h. elim h [ inl same ↦ inl same | inr settled ↦ inr (ds, passed, settled) ])
        where
          fits : IsAccepted ds
          fits = bulk_update_tenant_features_schema-IsAccepted body ds passed
