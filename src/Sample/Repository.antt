-- ===== src/Sample/Repository.antt =====
-- src/sample/infrastructure/persistence/sample.typeorm-repository.ts: the repository of samples over
-- its table, as TypeORM keeps it. `toDomain` copies the columns of an entity, which are those of a
-- `Sample`, so the entity stands for both.
use Prim.Native.String.{compare}
use Prim.Native.Nat.{Ordering}
use nestjs_hexagonal_templat.Prelude.{
  ℕ, ◌-◌, ◌*◌, String, ◌≡◌, ◌⊎◌, refl, Bool, true, false, not, ◌&&◌, ◌||◌, Option, some, List, ltb,
  eqb,
}
use nestjs_hexagonal_templat.Prelude.Int.{ℤ, leb_int}
use nestjs_hexagonal_templat.Common.Exec.{Exec, pure, ◌>>=◌, Ensures, Ensures-bind}
use nestjs_hexagonal_templat.Database.{FoundIn, IsMaxOf, Table}
use nestjs_hexagonal_templat.Database.ReadBack.{update_and_read, update_and_read_lem}
use nestjs_hexagonal_templat.Sample.{Sample, has_id}
use nestjs_hexagonal_templat.Sample.Port.{
  SampleRepositoryPort, sample_key, of_tenant, saved_as, Updated, or_minus_one,
}

-- `@UpdateDateColumn`
abbrev pub stamp : ℕ → Sample → Sample
stamp t s = record s { updated_at = t }

-- The order of the texts of two keys.
abbrev pub text_before : String → String → Bool
text_before a b = elim (compare a b) [ Ordering.lt ↦ true | _ ↦ false ]

-- order: { sortOrder: 'ASC', createdAt: 'DESC', id: 'ASC' }
abbrev pub in_order : Sample → Sample → Bool
in_order a b =
    not (leb_int b.sort_order a.sort_order)
    || leb_int b.sort_order a.sort_order
      && leb_int a.sort_order b.sort_order
      && (ltb b.created_at a.created_at || eqb a.created_at b.created_at && text_before a.id b.id)

module _ {W : Type 0} (table : Table W Sample sample_key stamp) where
  unfoldable pub save : Sample → Exec W Sample
  save s = table.insert (λ g. saved_as s g)

  unfoldable pub find_by_id : String → String → Exec W (Option Sample)
  find_by_id id tenant = table.find_one (has_id id tenant)

  unfoldable pub find_all : String → ℕ → ℕ → Exec W (List Sample × ℕ)
  find_all tenant page per_page =
      table.find_and_count (of_tenant tenant) in_order ((page - 1) * per_page) per_page

  unfoldable pub update : Sample → Exec W Sample
  update s = update_and_read table (has_id s.id s.tenant_id) (λ row. record row {
    name = s.name;
    description = s.description;
    is_active = s.is_active;
    sort_order = s.sort_order;
  })

  unfoldable pub soft_delete : String → String → Exec W (Unit {0})
  soft_delete id tenant = table.soft_delete (has_id id tenant)

  unfoldable pub get_max_sort_order : String → Exec W ℤ
  get_max_sort_order tenant = do
    max ← table.max_of (of_tenant tenant) (λ (s : Sample). s.sort_order)
    pure (or_minus_one max)

  pub get_max_sort_order_lem :
      (tenant : String) (w : W)
      → Ensures
          (get_max_sort_order tenant w)
          (λ m w'.
            (table.rows w' ≡ table.rows w)
            × ((o : Option ℤ) × (m ≡ or_minus_one o)
                × IsMaxOf (of_tenant tenant) (λ (s : Sample). s.sort_order) (table.rows w) o))
          (λ w'. table.rows w' ≡ table.rows w)
  unfolding get_max_sort_order
  get_max_sort_order_lem tenant w =
      let order : Sample → ℤ = λ s. s.sort_order in
      Ensures-bind (table.max_of (of_tenant tenant) order w) _
        (λ o w'. (table.rows w' ≡ table.rows w) × IsMaxOf (of_tenant tenant) order (table.rows w) o)
        (λ w'. table.rows w' ≡ table.rows w) _ _ (table.max_of_law (of_tenant tenant) order w)
        (λ o w' h. (h.0, (o, refl, h.1))) (λ w' e. e)

  pub update_lem :
      (s : Sample) (w : W)
      → Ensures
          (update s w)
          (λ r w'.
            Updated s (table.rows w) (table.rows w')
            × FoundIn (has_id s.id s.tenant_id) (table.rows w') (some r))
          (λ w'. (table.rows w' ≡ table.rows w) ⊎ Updated s (table.rows w) (table.rows w'))
  unfolding update
  update_lem s w = update_and_read_lem table (has_id s.id s.tenant_id) _ w

  -- Over a table, the repository is what the use cases ask for.
  unfoldable pub sample_repository : SampleRepositoryPort W
  unfolding save find_by_id find_all get_max_sort_order update soft_delete
  sample_repository = record {
    samples = table.rows;
    save = save;
    find_by_id = find_by_id;
    find_all = find_all;
    get_max_sort_order = get_max_sort_order;
    update = update;
    soft_delete = soft_delete;
    samples_keyed = table.rows_keyed;
    save_law = λ s w. table.insert_law (λ g. saved_as s g) w;
    find_by_id_law = λ id tenant w. table.find_one_law (has_id id tenant) w;
    find_all_law = λ tenant page per_page w.
        table.find_and_count_law (of_tenant tenant) in_order ((page - 1) * per_page) per_page w;
    get_max_sort_order_law = get_max_sort_order_lem;
    update_law = update_lem;
    soft_delete_law = λ id tenant w. table.soft_delete_law (has_id id tenant) w;
  }
