-- ===== src/TenantFeature/Resolved.antt =====
-- What src/tenant-feature/application/use-cases/bulk-update-tenant-features.use-case.ts makes of the rows
-- that it reads.
use nestjs_hexagonal_templat.Prelude.{
  ℕ, String, ◌≡◌, refl, ap, ◌∙◌, ◌⊎◌, inl, inr, Bool, true, false, ◌&&◌, Option, none, some, List,
  [], ◌∷◌, map, ◌==◌, eq_iff, arith, All, find, Bool-cases, if◌then◌else◌,
}
use nestjs_hexagonal_templat.Prelude.Int.{ℤ}
use nestjs_hexagonal_templat.Common.JsMap.{lookup, insert, lookup-insert, lookup_absent}
use nestjs_hexagonal_templat.Database.{In, FoundIn}
use nestjs_hexagonal_templat.Database.Selection.{IsSelection, found_same, find-FoundIn}
use nestjs_hexagonal_templat.TenantFeature.{TenantFeature}
use nestjs_hexagonal_templat.TenantFeature.Port.{
  of_tenant, has_key, stored, setting_of, written_or, IsUnique,
}
use nestjs_hexagonal_templat.TenantFeature.UseCases.{
  UpdateTenantFeatureDto, as_number, resolve_numeric_value, index_by_key, new_feature,
}

-- The map by key gives a feature of the list, and none where the list has none.
indexed :
    (k : String) (m : List (String × TenantFeature)) (fs : List TenantFeature)
    → ((lookup k (index_by_key m fs) ≡ lookup k m) × All (λ f. has_key k f ≡ false) fs)
      ⊎ ((f : TenantFeature) × In f fs
          × (has_key k f ≡ true)
          × (lookup k (index_by_key m fs) ≡ some f))
unfolding index_by_key
indexed k m [] = inl (refl, tt)
indexed k m (f ∷ fs) = elim (indexed k (insert f.feature_key f m) fs) [
  | inr (g, here, hit, e) ↦ inr (g, inr here, hit, e)
  | inl (e, missed) ↦ elim (Bool-cases (has_key k f)) [
    | inl hit ↦
        let new : lookup k (insert f.feature_key f m) ≡ some f =
          lookup-insert f.feature_key k f m ∙ rw hit refl in
        inr (f, inl refl, hit, e ∙ new)
    | inr miss ↦
        let old : lookup k (insert f.feature_key f m) ≡ lookup k m =
          lookup-insert f.feature_key k f m ∙ rw miss refl in
        inl (e ∙ old, (miss, missed))
  ]
]

index_by_key-FoundIn :
    (k : String) (fs : List TenantFeature) → FoundIn (has_key k) fs (lookup k (index_by_key [] fs))
index_by_key-FoundIn k fs = elim (indexed k [] fs) [
  | inl (e, missed) ↦ rw (e ∙ lookup_absent k [] tt) missed
  | inr (f, here, hit, e) ↦ rw e (here, hit)
]

-- At most one row has a tenant and a key.
pub only_stored :
    (tenant k : String) (rows : List TenantFeature)
    → IsUnique rows
    → (r s : TenantFeature) → In r rows
    → In s rows
    → (of_tenant tenant r && has_key k r) ≡ true
    → (of_tenant tenant s && has_key k s) ≡ true
    → r ≡ s
only_stored tenant k rows unique r s here there hit hit' =
    let mine : r.tenant_id ≡ s.tenant_id =
      ground (arith, eq_iff r.tenant_id tenant, eq_iff s.tenant_id tenant) in
    let same : r.feature_key ≡ s.feature_key =
      ground (arith, eq_iff r.feature_key k, eq_iff s.feature_key k) in
    unique r s here there mine same

pub lookup-index_by_key :
    (tenant k : String) (rows fs : List TenantFeature)
    → IsUnique rows
    → IsSelection (of_tenant tenant) rows fs
    → lookup k (index_by_key [] fs) ≡ stored tenant k rows
lookup-index_by_key tenant k rows fs unique sel =
    found_same (of_tenant tenant) (has_key k) rows fs (lookup k (index_by_key [] fs))
      (stored tenant k rows) sel (only_stored tenant k rows unique) (index_by_key-FoundIn k fs)
      (find-FoundIn (λ f. of_tenant tenant f && has_key k f) rows)

-- The number of a feature: absent keeps the old one, null clears it, a number sets it.
abbrev pub resolved : Option (Option ℕ) → Option (Bool × Option ℤ) → Option ℤ
resolved (some v) old = as_number v
resolved none none = none
resolved none (some s) = s.1

-- What a request makes of the setting of a key.
abbrev pub expected :
    String → List UpdateTenantFeatureDto → Option (Bool × Option ℤ) → Option (Bool × Option ℤ)
expected k [] old = old
expected k (d ∷ ds) old =
    if d.feature_key == k then some (d.enabled, resolved d.numeric_value old) else expected k ds old

resolve_lem :
    (v : Option (Option ℕ)) (o : Option TenantFeature)
    → resolve_numeric_value v o ≡ resolved v (setting_of o)
resolve_lem none none = refl
resolve_lem none (some f) = refl
resolve_lem (some v) o = refl

pub written-new_feature :
    (now : ℕ) (tenant k : String) (m : List (String × TenantFeature))
    (ds : List UpdateTenantFeatureDto)
    → written_or (find (has_key k) (map (new_feature now tenant m) ds)) (setting_of (lookup k m))
      ≡ expected k ds (setting_of (lookup k m))
unfolding lookup
written-new_feature now tenant k m [] = refl
written-new_feature now tenant k m (d ∷ ds) = elim (Bool-cases (d.feature_key == k)) [
  | inl hit ↦
      let same : d.feature_key ≡ k = (eq_iff d.feature_key k).0 hit in
      let number : resolve_numeric_value d.numeric_value (lookup d.feature_key m)
          ≡ resolved d.numeric_value (setting_of (lookup k m)) =
        rw same (resolve_lem d.numeric_value (lookup k m)) in
      rw hit (ap (λ n. some (d.enabled, n)) number)
  | inr miss ↦ rw miss (written-new_feature now tenant k m ds)
]
