-- ===== src/User/Repository.antt =====
-- src/user/infrastructure/persistence/user.typeorm-repository.ts: the repository of users over its
-- table, as TypeORM keeps it. `toDomain` copies the columns of an entity, which are those of a
-- `User`, so the entity stands for both. `findActiveBySupertokensUserId`, which reads a join with the
-- tenants, is in User/Active.antt.
use nestjs_hexagonal_templat.Prelude.{
  ℕ, ◌-◌, ◌*◌, String, ◌≡◌, ◌⊎◌, Bool, ◌&&◌, Option, some, List, ◌==◌, ltb,
}
use nestjs_hexagonal_templat.Common.Exec.{Exec, Ensures}
use nestjs_hexagonal_templat.Database.{FoundIn, Table}
use nestjs_hexagonal_templat.Database.ReadBack.{update_and_read, update_and_read_lem}
use nestjs_hexagonal_templat.User.{User, has_id, is_active_admin}
use nestjs_hexagonal_templat.User.Port.{UserRepositoryPort, user_key, saved_as, Updated}

-- `@UpdateDateColumn`
abbrev pub stamp : ℕ → User → User
stamp t u = record u { updated_at = t }

-- order: { createdAt: 'DESC' }
abbrev newest_first : User → User → Bool
newest_first a b = ltb b.created_at a.created_at

-- where: { tenantId }
abbrev of_tenant : String → User → Bool
of_tenant tenant u = u.tenant_id == tenant

module _ {W : Type 0} (table : Table W User user_key stamp) where
  unfoldable pub save : User → Exec W User
  save u = table.insert (λ g. saved_as u g)

  unfoldable pub find_by_id : String → String → Exec W (Option User)
  find_by_id id tenant = table.find_one (has_id id tenant)

  unfoldable pub find_all : String → ℕ → ℕ → Exec W (List User × ℕ)
  find_all tenant page per_page =
      table.find_and_count (of_tenant tenant) newest_first ((page - 1) * per_page) per_page

  unfoldable pub update : User → Exec W User
  update u = update_and_read table (has_id u.id u.tenant_id) (λ row. record row {
    name = u.name;
    email = u.email;
    phone = u.phone;
    role = u.role;
    is_active = u.is_active;
  })

  unfoldable pub soft_delete : String → String → Exec W (Unit {0})
  soft_delete id tenant = table.soft_delete (has_id id tenant)

  unfoldable pub find_by_email : String → String → Exec W (Option User)
  find_by_email email tenant = table.find_one (λ u. u.email == email && u.tenant_id == tenant)

  unfoldable pub count_by_tenant_id : String → Exec W ℕ
  count_by_tenant_id tenant = table.count (of_tenant tenant)

  -- where: { tenantId, role: Role.ADMIN, isActive: true }
  unfoldable pub count_active_admins_by_tenant_id : String → Exec W ℕ
  count_active_admins_by_tenant_id tenant = table.count (is_active_admin tenant)

  -- The row that is written is read again.
  pub update_lem :
      (u : User) (w : W)
      → Ensures
          (update u w)
          (λ r w'.
            Updated u (table.rows w) (table.rows w')
            × FoundIn (has_id u.id u.tenant_id) (table.rows w') (some r))
          (λ w'. (table.rows w' ≡ table.rows w) ⊎ Updated u (table.rows w) (table.rows w'))
  unfolding update
  update_lem u w = update_and_read_lem table (has_id u.id u.tenant_id) _ w

  -- Over a table, the repository is what the use cases ask for.
  unfoldable pub user_repository : UserRepositoryPort W
  unfolding save find_by_id find_all update soft_delete find_by_email count_by_tenant_id
      count_active_admins_by_tenant_id
  user_repository = record {
    users = table.rows;
    save = save;
    find_by_id = find_by_id;
    find_all = find_all;
    update = update;
    soft_delete = soft_delete;
    find_by_email = find_by_email;
    count_by_tenant_id = count_by_tenant_id;
    count_active_admins_by_tenant_id = count_active_admins_by_tenant_id;
    users_keyed = table.rows_keyed;
    save_law = λ u w. table.insert_law (λ g. saved_as u g) w;
    find_by_id_law = λ id tenant w. table.find_one_law (has_id id tenant) w;
    update_law = update_lem;
    soft_delete_law = λ id tenant w. table.soft_delete_law (has_id id tenant) w;
    find_by_email_law =
        λ email tenant w. table.find_one_law (λ u. u.email == email && u.tenant_id == tenant) w;
    find_all_law = λ tenant page per_page w.
        table.find_and_count_law (of_tenant tenant) newest_first ((page - 1) * per_page) per_page w;
    count_active_admins_law = λ tenant w. table.count_law (is_active_admin tenant) w;
  }
