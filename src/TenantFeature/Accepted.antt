-- ===== src/TenantFeature/Accepted.antt =====
-- What the schema of src/tenant-feature/application/dtos/tenant-feature.dto.ts lets pass, and what a
-- request that passes settles.
use nestjs_hexagonal_templat.Prelude.{
  String, ◌≡◌, refl, inl, inr, Bool, true, false, ◌&&◌, Option, none, some, List, [], ◌∷◌, map,
  arith, ◌==◌, eq_iff, eq_refl, eqb, leb, All, length, length-map, Bool-cases,
}
use nestjs_hexagonal_templat.Prelude.Int.{ℤ}
use nestjs_hexagonal_templat.Common.Json.{Json, null, bool, num, str, arr, obj, get}
use nestjs_hexagonal_templat.Common.Text.{trim}
use nestjs_hexagonal_templat.Common.Pipes.{
  fields_of, whole_to, boolean, optional, nullable, array, each-All, bind_passed,
}
use nestjs_hexagonal_templat.Common.Pipes.Bounds.{
  HasLength, IsLimit, text_between-HasLength, optional-IsLimit,
}
use nestjs_hexagonal_templat.Database.{In}
use nestjs_hexagonal_templat.TenantFeature.UseCases.{UpdateTenantFeatureDto}
use nestjs_hexagonal_templat.TenantFeature.Schema.{
  feature_key_max_length, feature_numeric_value_max, trimmed, key_schema_of, feature_key_schema,
  update_tenant_feature_schema, key_set, key_of, unique_keys, bulk_update_tenant_features_schema,
  IsApart, key_set-IsApart,
}
use nestjs_hexagonal_templat.TenantFeature.Resolved.{resolved, expected}

-- A key and a number that fit the columns.
abbrev pub FitsColumns : UpdateTenantFeatureDto → Type 0
FitsColumns d =
    HasLength 1 feature_key_max_length (some d.feature_key)
    × IsLimit feature_numeric_value_max d.numeric_value

feature_key_schema-HasLength :
    (v : Option Json) (s : String)
    → feature_key_schema v ≡ some s
    → HasLength 1 feature_key_max_length (some s)
unfolding feature_key_schema key_schema_of trimmed
feature_key_schema-HasLength (some (str t)) s h =
    text_between-HasLength 1 50 (some (str (trim t))) s h
feature_key_schema-HasLength none s h = text_between-HasLength 1 50 none s h
feature_key_schema-HasLength (some null) s h = text_between-HasLength 1 50 (some null) s h
feature_key_schema-HasLength (some (bool b)) s h = text_between-HasLength 1 50 (some (bool b)) s h
feature_key_schema-HasLength (some (num n)) s h = text_between-HasLength 1 50 (some (num n)) s h
feature_key_schema-HasLength (some (arr vs)) s h = text_between-HasLength 1 50 (some (arr vs)) s h
feature_key_schema-HasLength (some (obj fs)) s h = text_between-HasLength 1 50 (some (obj fs)) s h

update_tenant_feature_schema-FitsColumns :
    (v : Option Json) (d : UpdateTenantFeatureDto)
    → update_tenant_feature_schema v ≡ some d
    → FitsColumns d
unfolding update_tenant_feature_schema
update_tenant_feature_schema-FitsColumns v d h =
    let (fs, f, h1) = bind_passed (fields_of v) _ d h in
    let (key, k, h2) = bind_passed (feature_key_schema (get "featureKey" fs)) _ d h1 in
    let (enabled, e, h3) = bind_passed (boolean (get "enabled" fs)) _ d h2 in
    let (number, n, h4) =
      bind_passed (optional (nullable (whole_to feature_numeric_value_max)) (get "numericValue" fs))
        _ d h3 in
    let made : FitsColumns
        (record { feature_key = key; enabled = enabled; numeric_value = number }) =
      (
        feature_key_schema-HasLength (get "featureKey" fs) key k,
        optional-IsLimit feature_numeric_value_max (get "numericValue" fs) number n,
      ) in
    let same : record { feature_key = key; enabled = enabled; numeric_value = number } ≡ d =
      ground (arith, h4) in
    rw (← same) made

-- Entries that fit, with no key twice.
abbrev pub IsAccepted : List UpdateTenantFeatureDto → Type 0
IsAccepted ds = All FitsColumns ds × IsApart (map key_of ds)

array-All :
    (v : Option Json) (ds : List UpdateTenantFeatureDto)
    → array update_tenant_feature_schema v ≡ some ds
    → All FitsColumns ds
unfolding array
array-All none ds h = absurd (cc)
array-All (some (arr vs)) ds h =
    each-All update_tenant_feature_schema FitsColumns update_tenant_feature_schema-FitsColumns vs ds
      h
array-All (some null) ds h = absurd (cc)
array-All (some (bool b)) ds h = absurd (cc)
array-All (some (num n)) ds h = absurd (cc)
array-All (some (str s)) ds h = absurd (cc)
array-All (some (obj fs)) ds h = absurd (cc)

same_length :
    (ds : List UpdateTenantFeatureDto)
    → (leb 1 (length ds) && eqb (length (key_set (map key_of ds))) (length ds)) ≡ true
    → length (key_set (map key_of ds)) ≡ length ds
same_length ds fine = ground (arith, fine)

unique_keys-IsApart :
    (made ds : List UpdateTenantFeatureDto)
    → unique_keys made ≡ some ds
    → (made ≡ ds) × IsApart (map key_of made)
unfolding unique_keys
unique_keys-IsApart made ds h =
    elim (Bool-cases
      (leb 1 (length made) && eqb (length (key_set (map key_of made))) (length made))) [
        | inl fine ↦ (
          cc (rw fine at h),
          key_set-IsApart (map key_of made) (rw (length-map made key_of) (same_length made fine)),
        )
        | inr refused ↦ absurd (cc (rw refused at h))
      ]

pub bulk_update_tenant_features_schema-IsAccepted :
    (body : Option Json) (ds : List UpdateTenantFeatureDto)
    → bulk_update_tenant_features_schema body ≡ some ds
    → IsAccepted ds
unfolding bulk_update_tenant_features_schema
bulk_update_tenant_features_schema-IsAccepted body ds h =
    let (fs, f, h1) = bind_passed (fields_of body) _ ds h in
    let (made, m, h2) =
      bind_passed (array update_tenant_feature_schema (get "features" fs)) unique_keys ds h1 in
    let (same, apart) = unique_keys-IsApart made ds h2 in
    let fits : IsAccepted made = (array-All (get "features" fs) made m, apart) in rw (← same) fits

eq_sym : (s t : String) → (s == t) ≡ false → (t == s) ≡ false
eq_sym s t h = ground (arith, h, eq_iff s t, eq_iff t s)

other_key :
    (ds : List UpdateTenantFeatureDto) (d : UpdateTenantFeatureDto) (k : String)
    → All (λ j. (j == k) ≡ false) (map key_of ds)
    → In d ds
    → (d.feature_key == k) ≡ false
other_key [] d k others here = elim here [ ]
other_key (e ∷ ds) d k (other, others) (inl same) = rw same other
other_key (e ∷ ds) d k (other, others) (inr here) = other_key ds d k others here

-- Where no key stands twice, each entry settles its key.
pub expected_each :
    (ds : List UpdateTenantFeatureDto) (d : UpdateTenantFeatureDto) (old : Option (Bool × Option ℤ))
    → IsApart (map key_of ds)
    → In d ds
    → expected d.feature_key ds old ≡ some (d.enabled, resolved d.numeric_value old)
expected_each [] d old apart here = elim here [ ]
expected_each (e ∷ ds) d old (others, rest) (inl same) =
    let hit : (e.feature_key == d.feature_key) ≡ true = rw same (eq_refl e.feature_key) in
    rw (hit, same) refl
expected_each (e ∷ ds) d old (others, rest) (inr here) =
    rw (eq_sym d.feature_key e.feature_key (other_key ds d e.feature_key others here))
      (expected_each ds d old rest here)

-- A key that no entry has keeps its setting.
pub expected_other :
    (ds : List UpdateTenantFeatureDto) (k : String) (old : Option (Bool × Option ℤ))
    → All (λ d. (key_of d == k) ≡ false) ds
    → expected k ds old ≡ old
expected_other [] k old others = refl
expected_other (d ∷ ds) k old (other, others) = rw other (expected_other ds k old others)
