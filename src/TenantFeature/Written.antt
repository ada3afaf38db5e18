-- ===== src/TenantFeature/Written.antt =====
-- A write of src/tenant-feature/application/use-cases/bulk-update-tenant-features.use-case.ts is what
-- the next reader of the service sees.
use nestjs_hexagonal_templat.Prelude.{
  ℕ, String, ◌≡◌, refl, sym, ap, ◌∙◌, ◌⊎◌, inl, inr, Bool, true, false, none, List, [], map, ◌==◌,
  eq_iff, eq_refl, find, Bool-cases, if◌then◌else◌,
}
use nestjs_hexagonal_templat.Common.Exec.{
  Result, ok, throw, Exec, pure, ◌>>=◌, ◌>>◌, Ensures, Ensures-bind, Ensures-mono,
}
use nestjs_hexagonal_templat.Common.JsMap.{lookup, IsDistinct, lookup-erase_self}
use nestjs_hexagonal_templat.Database.Selection.{IsSelection, find-IsSelection}
use nestjs_hexagonal_templat.TenantFeature.{TenantFeature}
use nestjs_hexagonal_templat.TenantFeature.Cache.{Entries, CacheConfig, fetch, invalidate}
use nestjs_hexagonal_templat.TenantFeature.Port.{
  of_tenant, has_key, stored, setting_of, written_or, IsUpserted, IsUnique,
  TenantFeatureRepositoryPort,
}
use nestjs_hexagonal_templat.TenantFeature.Service.{
  Clock, assert_tenant_context, find_key, load_features, load_tenant, remember,
}
use nestjs_hexagonal_templat.TenantFeature.UseCases.{
  UpdateTenantFeatureDto, to_response, index_by_key, new_feature, asking, require_tenant,
  assert_tenant_exists, invalidate_cache, bulk_update,
}
use nestjs_hexagonal_templat.TenantFeature.Resolved.{
  only_stored, lookup-index_by_key, expected, written-new_feature,
}

module _ {W : Type 0} (c : CacheConfig) (repo : TenantFeatureRepositoryPort W)
    (find_tenant : String → Exec W Bool)
    (find_tenant_frame : (t : String) (w : W)
      → repo.features (find_tenant t w).1 ≡ repo.features w) where
  -- A call of the repository, seen with the cache.
  asking_lem :
      {A : Type 0} (m : Exec W A) (entries : Entries) (w : W) (P : A → W → Type 0) (Q : W → Type 0)
      → Ensures (m w) P Q
      → Ensures
          (asking c repo find_tenant m (entries, w))
          (λ a s. (s.0 ≡ entries) × P a s.1)
          (λ s. (s.0 ≡ entries) × Q s.1)
  asking_lem m entries w P Q h = seen (m w) h
    where
      seen :
          (r : Result _ × W)
          → Ensures r P Q
          → Ensures {S = Entries × W}
              (r.0, (entries, r.1))
              (λ a s. (s.0 ≡ entries) × P a s.1)
              (λ s. (s.0 ≡ entries) × Q s.1)
      seen (ok a, w') h = (refl, h)
      seen (throw e, w') h = (refl, h)

  -- The cache and the rows are as they were.
  abbrev Kept : Entries × W → Entries × W → Type 0
  Kept s s' = (s'.0 ≡ s.0) × (repo.features s'.1 ≡ repo.features s.1)

  assert_tenant_context-Kept :
      (tenant : String) (s : Entries × W)
      → Ensures (assert_tenant_context tenant s) (λ _ s'. Kept s s') (λ s'. Kept s s')
  unfolding assert_tenant_context
  assert_tenant_context-Kept tenant s = elim (Bool-cases (tenant == "")) [
    | inl empty ↦ rw empty (refl, refl)
    | inr named ↦ rw named (refl, refl)
  ]

  frame :
      {A : Type 0} (r : Result A × W) (w : W)
      → repo.features r.1 ≡ repo.features w
      → Ensures r
          (λ _ w'. repo.features w' ≡ repo.features w)
          (λ w'. repo.features w' ≡ repo.features w)
  frame (ok a, w') w e = e
  frame (throw x, w') w e = e

  assert_tenant_exists-Kept :
      (tenant : String) (s : Entries × W)
      → Ensures
          (assert_tenant_exists c repo find_tenant tenant s)
          (λ _ s'. Kept s s')
          (λ s'. Kept s s')
  unfolding assert_tenant_exists
  assert_tenant_exists-Kept tenant (m, w) =
      Ensures-bind (asking c repo find_tenant (find_tenant tenant) (m, w)) _ _ _ _ _
        (asking_lem (find_tenant tenant) m w (λ _ w'. repo.features w' ≡ repo.features w)
          (λ w'. repo.features w' ≡ repo.features w)
          (frame (find_tenant tenant w) w (find_tenant_frame tenant w)))
        (λ found s p. judged found s p) (λ s p. p)
    where
      judged :
          (found : Bool) (s : Entries × W)
          → Kept (m, w) s
          → Ensures
              (require_tenant c repo find_tenant found s)
              (λ _ s'. Kept (m, w) s')
              (λ s'. Kept (m, w) s')
      judged true s p = p
      judged false s p = p

  -- The settings after a request for a tenant.
  abbrev pub Settled :
      String → List UpdateTenantFeatureDto → List TenantFeature → List TenantFeature → Type 0
  Settled tenant ds before after =
      (t k : String)
      → setting_of (stored t k after) ≡ (
          if t == tenant
          then expected k ds (setting_of (stored t k before))
          else setting_of (stored t k before))

  -- What is written from the rows that were read.
  Upserted-Settled :
      (now : ℕ) (tenant : String) (ds : List UpdateTenantFeatureDto)
      (before current after : List TenantFeature)
      → IsUnique before
      → IsSelection (of_tenant tenant) before current
      → IsUpserted tenant (map (new_feature now tenant (index_by_key [] current)) ds) before after
      → Settled tenant ds before after
  unfolding lookup
  Upserted-Settled now tenant ds before current after unique sel up t k =
      elim (Bool-cases (t == tenant)) [
        | inl hit ↦
            let same : t ≡ tenant = (eq_iff t tenant).0 hit in
            let old : lookup k (index_by_key [] current) ≡ stored t k before =
              rw same (lookup-index_by_key tenant k before current unique sel) in
            let new = written-new_feature now tenant k (index_by_key [] current) ds in
            let settled : written_or
                  (find (has_key k) (map (new_feature now tenant (index_by_key [] current)) ds))
                  (setting_of (stored t k before))
                ≡ expected k ds (setting_of (stored t k before)) =
              rw old at new in
            let there = up t k in rw hit ((rw hit at there) ∙ settled)
        | inr miss ↦ let there = up t k in rw miss (rw miss at there)
      ]

  -- What a request leaves: the settings it asks for, and no entry of the cache for the tenant.
  abbrev pub Written : String → List UpdateTenantFeatureDto → Entries × W → Entries × W → Type 0
  Written tenant ds s s' =
      (s'.0 ≡ invalidate tenant s.0) × Settled tenant ds (repo.features s.1) (repo.features s'.1)

  -- What a request that fails leaves.
  abbrev pub Failed : String → List UpdateTenantFeatureDto → Entries × W → Entries × W → Type 0
  Failed tenant ds s s' =
      (s'.0 ≡ s.0)
      × ((repo.features s'.1 ≡ repo.features s.1)
          ⊎ Settled tenant ds (repo.features s.1) (repo.features s'.1))

  -- The write, after the rows were read.
  upsert-Written :
      (now : ℕ) (tenant : String) (ds : List UpdateTenantFeatureDto) (s0 s : Entries × W)
      (current : List TenantFeature)
      → Kept s0 s
      → IsSelection (of_tenant tenant) (repo.features s0.1) current
      → Ensures
          ((asking c repo find_tenant (
                repo.bulk_upsert tenant (map (new_feature now tenant (index_by_key [] current)) ds))
              >>= λ updated.
                  invalidate_cache c repo find_tenant tenant >> pure (map to_response updated))
            s)
          (λ _ s'. Written tenant ds s0 s')
          (λ s'. Failed tenant ds s0 s')
  unfolding invalidate_cache
  upsert-Written now tenant ds s0 (m, w) current (e, d) sel =
      Ensures-bind (asking c repo find_tenant (repo.bulk_upsert tenant _) (m, w)) _ _ _ _ _
        (asking_lem (repo.bulk_upsert tenant _) m w _ _ (repo.bulk_upsert_law tenant _ w))
        (λ fs s p. (ap (invalidate tenant) (p.0 ∙ e), settle s.1 p.1))
        (λ s p. (p.0 ∙ e, elim p.1 [ inl same ↦ inl (same ∙ d) | inr up ↦ inr (settle s.1 up) ]))
    where
      settle :
          (w' : W)
          → IsUpserted tenant
              (map (new_feature now tenant (index_by_key [] current)) ds)
              (repo.features w)
              (repo.features w')
          → Settled tenant ds (repo.features s0.1) (repo.features w')
      settle w' up =
          Upserted-Settled now tenant ds (repo.features s0.1) current (repo.features w')
            (repo.features_unique s0.1) sel (rw (← d) up)

  bulk_update-Written :
      (now : ℕ) (tenant : String) (ds : List UpdateTenantFeatureDto) (s : Entries × W)
      → Ensures
          (bulk_update c repo find_tenant now tenant ds s)
          (λ _ s'. Written tenant ds s s')
          (λ s'. Failed tenant ds s s')
  unfolding bulk_update
  bulk_update-Written now tenant ds s =
      Ensures-bind (assert_tenant_context tenant s) _ _ _ _ _ (assert_tenant_context-Kept tenant s)
        (λ _ s1 p.
          Ensures-bind (assert_tenant_exists c repo find_tenant tenant s1) _ _ _ _ _
            (assert_tenant_exists-Kept tenant s1)
            (λ _ s2 q.
              Ensures-bind (asking c repo find_tenant (repo.find_by_tenant_id tenant) s2) _ _ _ _ _
                (asking_lem (repo.find_by_tenant_id tenant) s2.0 s2.1 _ _
                  (repo.find_by_tenant_id_law tenant s2.1))
                (λ fs s3 r.
                  let e = r.0 ∙ (q.0 ∙ p.0) in
                  let d = r.1.0 ∙ (q.1 ∙ p.1) in
                  let back = sym (q.1 ∙ p.1) in
                  upsert-Written now tenant ds s s3 fs (e, d) (rw back r.1.1))
                (λ s3 r. (r.0 ∙ (q.0 ∙ p.0), inl (r.1 ∙ (q.1 ∙ p.1)))))
            (λ s2 q. (q.0 ∙ p.0, inl (q.1 ∙ p.1))))
        (λ s1 p. (p.0, inl p.1))

  -- What a load answers with: for each key, the row that is stored.
  abbrev Loads : String → String → W → Result (List TenantFeature) × (Entries × W) → Type 0
  Loads tenant k w r =
      Ensures r
        (λ fs s'.
          (repo.features s'.1 ≡ repo.features w)
          × (find_key k fs ≡ stored tenant k (repo.features w)))
        (λ s'. repo.features s'.1 ≡ repo.features w)

  remember-Loads :
      (t : Clock) (tenant k : String) (m : Entries) (w w1 : W) (r : Result (List TenantFeature) × W)
      → repo.features w1 ≡ repo.features w
      → Ensures r
          (λ fs w2.
            (repo.features w2 ≡ repo.features w1)
            × IsSelection (of_tenant tenant) (repo.features w1) fs)
          (λ w2. repo.features w2 ≡ repo.features w1)
      → Loads tenant k w (remember c repo.find_by_tenant_id t tenant m r)
  remember-Loads t tenant k m w w1 (throw e, w2) d h = h ∙ d
  remember-Loads t tenant k m w w1 (ok fs, w2) d (h, sel) = (
    h ∙ d,
    find-IsSelection (of_tenant tenant) (has_key k) (repo.features w1) fs sel
          (only_stored tenant k (repo.features w1) (repo.features_unique w1))
        ∙ ap (stored tenant k) d,
  )

  load_tenant-Loads :
      (t : Clock) (tenant k : String) (m : Entries) (w w1 : W)
      → lookup tenant m ≡ none
      → repo.features w1 ≡ repo.features w
      → Loads tenant k w (load_tenant c repo.find_by_tenant_id t tenant (m, w1))
  unfolding load_tenant fetch
  load_tenant-Loads t tenant k m w w1 miss d = rw miss (
      remember-Loads t tenant k m w w1 (repo.find_by_tenant_id tenant w1) d
        (repo.find_by_tenant_id_law tenant w1))

  load-Loads :
      (t : Clock) (tenant k : String) (s : Entries × W)
      → lookup tenant s.0 ≡ none
      → Loads tenant k s.1 (load_features c repo.find_by_tenant_id t tenant s)
  unfolding load_features
  load-Loads t tenant k s miss =
      Ensures-bind (assert_tenant_context tenant s)
        (λ _. load_tenant c repo.find_by_tenant_id t tenant) _ _ _ _
        (assert_tenant_context-Kept tenant s)
        (λ _ s1 p. load_tenant-Loads t tenant k s1.0 s.1 s1.1 (ap (lookup tenant) p.0 ∙ miss) p.1)
        (λ s1 p. p.1)

  -- A reader sees what was written: after the settings of a tenant are changed, the next load of its
  -- features gives each key the setting that the request asked for, with the old number where the
  -- request has none, and the old setting where it does not name the key; no row of another tenant
  -- changes. This holds though the cache had an entry for the tenant, for any readings of the clock.
  -- The hypotheses are that the entries of the cache are of different tenants, and that the search for
  -- the tenant leaves the features alone.
  pub load-bulk_update :
      (now : ℕ) (t : Clock) (tenant k : String) (ds : List UpdateTenantFeatureDto) (s : Entries × W)
      → IsDistinct s.0
      → Ensures
          ((bulk_update c repo find_tenant now tenant ds
              >> load_features c repo.find_by_tenant_id t tenant)
            s)
          (λ fs s'.
            (setting_of (find_key k fs)
              ≡ expected k ds (setting_of (stored tenant k (repo.features s.1))))
            × Settled tenant ds (repo.features s.1) (repo.features s'.1))
          (λ s'.
            (repo.features s'.1 ≡ repo.features s.1)
            ⊎ Settled tenant ds (repo.features s.1) (repo.features s'.1))
  unfolding invalidate
  load-bulk_update now t tenant k ds s distinct =
      Ensures-bind (bulk_update c repo find_tenant now tenant ds s)
        (λ _. load_features c repo.find_by_tenant_id t tenant) _ _ _ _
        (bulk_update-Written now tenant ds s)
        (λ _ s1 p.
          Ensures-mono (load_features c repo.find_by_tenant_id t tenant s1) _ _ _ _
            (load-Loads t tenant k s1 (gone s1 p.0))
            (λ fs s2 q. (
              ap setting_of q.1 ∙ asked s1 p.1,
              λ j i. ap (λ rs. setting_of (stored j i rs)) q.0 ∙ p.1 j i,
            ))
            (λ s2 q. inr (λ j i. ap (λ rs. setting_of (stored j i rs)) q ∙ p.1 j i)))
        (λ s1 p. p.1)
    where
      gone : (s1 : Entries × W) → s1.0 ≡ invalidate tenant s.0 → lookup tenant s1.0 ≡ none
      gone s1 e = ap (lookup tenant) e ∙ lookup-erase_self tenant s.0 distinct

      asked :
          (s1 : Entries × W)
          → Settled tenant ds (repo.features s.1) (repo.features s1.1)
          → setting_of (stored tenant k (repo.features s1.1))
            ≡ expected k ds (setting_of (stored tenant k (repo.features s.1)))
      asked s1 h = h tenant k ∙ rw (eq_refl tenant) refl
