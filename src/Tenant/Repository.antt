-- ===== src/Tenant/Repository.antt =====
-- src/tenant/infrastructure/persistence/tenant.typeorm-repository.ts: the repository of tenants over its
-- table, as TypeORM keeps it. `toDomain` copies the columns of an entity, which are those of a
-- `Tenant`, so the entity stands for both.
use nestjs_hexagonal_templat.Prelude.{ℕ, String, ◌≡◌, ◌⊎◌, Bool, Option, some, List, ltb}
use nestjs_hexagonal_templat.Common.Exec.{Exec, Ensures}
use nestjs_hexagonal_templat.Database.{FoundIn, Table}
use nestjs_hexagonal_templat.Database.ReadBack.{update_and_read, update_and_read_lem}
use nestjs_hexagonal_templat.Tenant.{Tenant, has_id, has_document}
use nestjs_hexagonal_templat.Tenant.Port.{TenantRepositoryPort, saved_as, Updated}

abbrev pub tenant_key : Tenant → String
tenant_key t = t.id

-- `@UpdateDateColumn`
abbrev pub stamp : ℕ → Tenant → Tenant
stamp n t = record t { updated_at = n }

-- order: { createdAt: 'DESC' }
abbrev pub newest_first : Tenant → Tenant → Bool
newest_first a b = ltb b.created_at a.created_at

module _ {W : Type 0} (table : Table W Tenant tenant_key stamp) where
  unfoldable pub save : Tenant → Exec W Tenant
  save t = table.insert (λ g. saved_as t g)

  unfoldable pub find_by_id : String → Exec W (Option Tenant)
  find_by_id id = table.find_one (has_id id)

  unfoldable pub find_all : Exec W (List Tenant)
  find_all = table.find_sorted newest_first

  unfoldable pub update : Tenant → Exec W Tenant
  update t = update_and_read table (has_id t.id) (λ row. record row {
    name = t.name;
    email = t.email;
    phone = t.phone;
    is_active = t.is_active;
  })

  unfoldable pub soft_delete : String → Exec W (Unit {0})
  soft_delete id = table.soft_delete (has_id id)

  unfoldable pub find_by_document : String → Exec W (Option Tenant)
  find_by_document document = table.find_one (has_document document)

  pub update_lem :
      (t : Tenant) (w : W)
      → Ensures
          (update t w)
          (λ r w'.
            Updated t (table.rows w) (table.rows w')
            × FoundIn (has_id t.id) (table.rows w') (some r))
          (λ w'. (table.rows w' ≡ table.rows w) ⊎ Updated t (table.rows w) (table.rows w'))
  unfolding update
  update_lem t w = update_and_read_lem table (has_id t.id) _ w

  -- Over a table, the repository is what the routes ask for.
  unfoldable pub tenant_repository : TenantRepositoryPort W
  unfolding save find_by_id find_all update soft_delete find_by_document
  tenant_repository = record {
    tenants = table.rows;
    save = save;
    find_by_id = find_by_id;
    find_all = find_all;
    update = update;
    soft_delete = soft_delete;
    find_by_document = find_by_document;
    save_law = λ t w. table.insert_law (λ g. saved_as t g) w;
    find_by_id_law = λ id w. table.find_one_law (has_id id) w;
    find_all_law = λ w. table.find_sorted_law newest_first w;
    update_law = update_lem;
    soft_delete_law = λ id w. table.soft_delete_law (has_id id) w;
    find_by_document_law = λ document w. table.find_one_law (has_document document) w;
  }
