-- ===== src/TenantFeature/Repository.antt =====
-- src/tenant-feature/infrastructure/persistence/tenant-feature.typeorm-repository.ts over its table,
-- which TypeORM keeps: an argument with its laws. `toDomain` copies the columns, so the entity stands
-- for both.
use nestjs_hexagonal_templat.Prelude.{
  String, ◌≡◌, ap, ◌∙◌, ◌⊎◌, inl, inr, Bool, ◌&&◌, Option, List, [], ◌∷◌, map, ◌==◌, arith, eq_iff,
  any, find, if◌then◌else◌,
}
use nestjs_hexagonal_templat.Prelude.Int.{ℤ}
use nestjs_hexagonal_templat.Common.Exec.{Exec, pure, ◌>>◌, Ensures, Ensures-bind, Ensures-mono}
use nestjs_hexagonal_templat.Database.Selection.{IsSelection}
use nestjs_hexagonal_templat.TenantFeature.{TenantFeature}
use nestjs_hexagonal_templat.TenantFeature.Port.{
  of_tenant, has_key, stored, setting_of, written_or, IsUpserted, IsUnique,
  TenantFeatureRepositoryPort,
}

-- TypeORM's repository of the table: `find` with the order of the keys, and `upsert` on the unique
-- index of the rows that are not deleted, which is one statement.
pub record FeatureTable (W : Type 0) : Type 0 where
  pub rows : W → List TenantFeature
  pub find_rows : (TenantFeature → Bool) → Exec W (List TenantFeature)
  pub upsert : List TenantFeature → Exec W (Unit {0})
  pub rows_unique : (w : W) → IsUnique (rows w)
  pub find_rows_law :
      (p : TenantFeature → Bool) (w : W)
      → Ensures
          (find_rows p w)
          (λ fs w'. (rows w' ≡ rows w) × IsSelection p (rows w) fs)
          (λ w'. rows w' ≡ rows w)
  pub upsert_law :
      (fs : List TenantFeature) (w : W)
      → Ensures
          (upsert fs w)
          (λ _ w'.
            (t k : String)
            → setting_of (stored t k (rows w'))
              ≡ written_or (stored t k fs) (setting_of (stored t k (rows w))))
          (λ w'. rows w' ≡ rows w)

-- The rows of `bulkUpsert`: the tenant is the argument's.
abbrev pub row_of : String → TenantFeature → TenantFeature
row_of tenant f = record f { tenant_id = tenant }

module _ {W : Type 0} (table : FeatureTable W) where
  unfoldable pub find_by_tenant_id : String → Exec W (List TenantFeature)
  find_by_tenant_id tenant = table.find_rows (of_tenant tenant)

  -- In(rows.map((r) => r.featureKey))
  abbrev pub is_written : String → List TenantFeature → TenantFeature → Bool
  is_written tenant fs row =
      of_tenant tenant row && any (λ (f : TenantFeature). has_key f.feature_key row) fs

  abbrev pub upsert_rows : String → List TenantFeature → Exec W (List TenantFeature)
  upsert_rows tenant fs = do
    table.upsert (map (row_of tenant) fs)
    table.find_rows (is_written tenant fs)

  unfoldable pub bulk_upsert : String → List TenantFeature → Exec W (List TenantFeature)
  bulk_upsert tenant [] = pure []
  bulk_upsert tenant (f ∷ fs) = upsert_rows tenant (f ∷ fs)

  -- What is written for a key is what the list says, and for the one tenant alone.
  stored-row_of :
      (tenant t k : String) (fs : List TenantFeature) (old : Option (Bool × Option ℤ))
      → written_or (stored t k (map (row_of tenant) fs)) old
        ≡ (if t == tenant then written_or (find (has_key k) fs) old else old)
  stored-row_of tenant t k [] old = ground arith
  stored-row_of tenant t k (f ∷ fs) old =
      ground (arith, eq_iff t tenant, eq_iff tenant t, stored-row_of tenant t k fs old)

  upsert_rows-IsUpserted :
      (tenant : String) (fs : List TenantFeature) (w : W)
      → Ensures
          (upsert_rows tenant fs w)
          (λ _ w'. IsUpserted tenant fs (table.rows w) (table.rows w'))
          (λ w'.
            (table.rows w' ≡ table.rows w) ⊎ IsUpserted tenant fs (table.rows w) (table.rows w'))
  upsert_rows-IsUpserted tenant fs w =
      Ensures-bind (table.upsert (map (row_of tenant) fs) w)
        (λ _. table.find_rows (is_written tenant fs)) _ _ _ _
        (table.upsert_law (map (row_of tenant) fs) w)
        (λ _ w1 h.
          Ensures-mono (table.find_rows (is_written tenant fs) w1) _ _ _ _
            (table.find_rows_law (is_written tenant fs) w1) (λ rs w2 p t k. read w1 w2 h p.0 t k)
            (λ w2 e. inr (λ t k. read w1 w2 h e t k)))
        (λ w1 e. inl e)
    where
      read :
          (w1 w2 : W)
          → ((t k : String)
              → setting_of (stored t k (table.rows w1))
                ≡ written_or
                    (stored t k (map (row_of tenant) fs))
                    (setting_of (stored t k (table.rows w))))
          → table.rows w2 ≡ table.rows w1
          → IsUpserted tenant fs (table.rows w) (table.rows w2)
      read w1 w2 h e t k =
          ap (λ rs. setting_of (stored t k rs)) e
          ∙ (h t k ∙ stored-row_of tenant t k fs (setting_of (stored t k (table.rows w))))

  pub bulk_upsert-IsUpserted :
      (tenant : String) (fs : List TenantFeature) (w : W)
      → Ensures
          (bulk_upsert tenant fs w)
          (λ _ w'. IsUpserted tenant fs (table.rows w) (table.rows w'))
          (λ w'.
            (table.rows w' ≡ table.rows w) ⊎ IsUpserted tenant fs (table.rows w) (table.rows w'))
  unfolding bulk_upsert
  bulk_upsert-IsUpserted tenant [] w = λ t k. ground arith
  bulk_upsert-IsUpserted tenant (f ∷ fs) w = upsert_rows-IsUpserted tenant (f ∷ fs) w

  -- Over a table, the repository is what the use cases ask for.
  unfoldable pub tenant_feature_repository : TenantFeatureRepositoryPort W
  unfolding find_by_tenant_id bulk_upsert
  tenant_feature_repository = record {
    features = table.rows;
    find_by_tenant_id = find_by_tenant_id;
    bulk_upsert = bulk_upsert;
    features_unique = table.rows_unique;
    find_by_tenant_id_law = λ tenant w. table.find_rows_law (of_tenant tenant) w;
    bulk_upsert_law = bulk_upsert-IsUpserted;
  }
