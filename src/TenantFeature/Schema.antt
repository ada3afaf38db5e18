-- ===== src/TenantFeature/Schema.antt =====
-- src/tenant-feature/application/dtos/tenant-feature.dto.ts, with the bounds of
-- src/tenant-feature/domain/enums/feature-key.enum.ts: what a request for the features may ask. zod's
-- regular expression of a UUID is an argument.
use nestjs_hexagonal_templat.Prelude.{
  ℕ, ◌≤◌, String, ◌≡◌, inl, inr, Bool, false, ◌&&◌, Option, none, some, List, [], ◌∷◌, map, arith,
  ◌==◌, leb, eqb, any, All, length, if◌then◌else◌, Bool-cases,
}
use nestjs_hexagonal_templat.Common.Json.{str, get}
use nestjs_hexagonal_templat.Common.Text.{trim}
use nestjs_hexagonal_templat.Common.Pipes.{
  ◌>>=◌, Schema, fields_of, text_between, text_if, whole_to, boolean, optional, nullable, array,
}
use nestjs_hexagonal_templat.TenantFeature.UseCases.{UpdateTenantFeatureDto}

abbrev pub feature_key_max_length : ℕ
feature_key_max_length = 50

abbrev pub feature_numeric_value_max : ℕ
feature_numeric_value_max = 2147483647

-- Object.values(FeatureKey)
abbrev pub declared_feature_keys : List String
declared_feature_keys = []

-- z.string().trim() before the checks of a text.
unfoldable pub trimmed : Schema String → Schema String
unfolding trim
trimmed schema (some (str s)) = schema (some (str (trim s)))
trimmed schema v = schema v

-- z.enum of the keys, where there are some.
unfoldable pub key_schema_of : List String → Schema String
unfolding text_between trimmed
key_schema_of [] v = trimmed (text_between 1 feature_key_max_length) v
key_schema_of (k ∷ ks) v = text_if (λ s. any (λ j. j == s) (k ∷ ks)) v

unfoldable pub feature_key_schema : Schema String
unfolding key_schema_of
feature_key_schema v = key_schema_of declared_feature_keys v

unfoldable pub update_tenant_feature_schema : Schema UpdateTenantFeatureDto
unfolding get feature_key_schema boolean optional nullable whole_to
update_tenant_feature_schema value = do
  fs ← fields_of value
  feature_key ← feature_key_schema (get "featureKey" fs)
  enabled ← boolean (get "enabled" fs)
  numeric_value ← optional (nullable (whole_to feature_numeric_value_max)) (get "numericValue" fs)
  some (record { feature_key = feature_key; enabled = enabled; numeric_value = numeric_value })

-- new Set(keys)
unfoldable pub key_set : List String → List String
key_set [] = []
key_set (k ∷ ks) = let rest = key_set ks in if any (λ j. j == k) ks then rest else k ∷ rest

abbrev pub key_of : UpdateTenantFeatureDto → String
key_of d = d.feature_key

-- The `refine` of the keys, after `min(1)`.
unfoldable pub unique_keys : List UpdateTenantFeatureDto → Option (List UpdateTenantFeatureDto)
unfolding key_set
unique_keys ds =
    if leb 1 (length ds) && eqb (length (key_set (map key_of ds))) (length ds)
    then some ds
    else none

unfoldable pub bulk_update_tenant_features_schema : Schema (List UpdateTenantFeatureDto)
unfolding get update_tenant_feature_schema unique_keys array
bulk_update_tenant_features_schema body = do
  fs ← fields_of body
  features ← array update_tenant_feature_schema (get "features" fs)
  unique_keys features

module _ (is_uuid : String → Bool) where
  unfoldable pub tenant_id_param_schema : Schema String
  tenant_id_param_schema v = text_if is_uuid v

-- No two texts are the same.
abbrev pub IsApart : List String → Type 0
IsApart [] = Unit {0}
IsApart (k ∷ ks) = All (λ j. (j == k) ≡ false) ks × IsApart ks

length-key_set-le : (ks : List String) → length (key_set ks) ≤ length ks
unfolding key_set
length-key_set-le [] = omega arith
length-key_set-le (k ∷ ks) = ground (arith, length-key_set-le ks)

any-All :
    (k : String) (ks : List String) → any (λ j. j == k) ks ≡ false → All (λ j. (j == k) ≡ false) ks
any-All k [] h = tt
any-All k (j ∷ ks) h = (ground (arith, h), any-All k ks (ground (arith, h)))

pub key_set-IsApart : (ks : List String) → length (key_set ks) ≡ length ks → IsApart ks
unfolding key_set
key_set-IsApart [] h = tt
key_set-IsApart (k ∷ ks) h = elim (Bool-cases (any (λ j. j == k) ks)) [
  | inl there ↦ absurd (omega (arith, rw there at h, length-key_set-le ks))
  | inr fresh ↦ (any-All k ks fresh, key_set-IsApart ks (omega (arith, rw fresh at h)))
]
