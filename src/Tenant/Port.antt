-- ===== src/Tenant/Port.antt =====
-- src/tenant/domain/ports/tenant.repository.port.ts: what the routes ask of the database, with what they
-- rely on. `Tenant.Repository` is proved to provide it.
use mathlib.Core.List.{Perm}
use nestjs_hexagonal_templat.Prelude.{ℕ, String, ◌≡◌, ◌⊎◌, not, Option, none, some, List, keep}
use nestjs_hexagonal_templat.Common.Exec.{Exec, Ensures}
use nestjs_hexagonal_templat.Database.{Generated, FoundIn, rewrite_rows, Inserted}
use nestjs_hexagonal_templat.Tenant.{Tenant, has_id, has_document}

-- The columns that `save` writes.
abbrev pub saved_as : Tenant → Generated → Tenant
saved_as t g = record t {
  id = g.id;
  created_at = g.created_at;
  updated_at = g.updated_at;
  deleted_at = none;
}

-- The columns that `update` writes, and `updatedAt`.
abbrev pub updated_to : Tenant → ℕ → Tenant → Tenant
updated_to t n row = record row {
  name = t.name;
  email = t.email;
  phone = t.phone;
  is_active = t.is_active;
  updated_at = n;
}

-- The tenants after `update(t)`.
abbrev pub Updated : Tenant → List Tenant → List Tenant → Type 0
Updated t before after = (n : ℕ) × (after ≡ rewrite_rows (has_id t.id) (updated_to t n) before)

pub record TenantRepositoryPort (W : Type 0) : Type 0 where
  -- The tenants that are not deleted.
  pub tenants : W → List Tenant
  pub save : Tenant → Exec W Tenant
  pub find_by_id : String → Exec W (Option Tenant)
  pub find_all : Exec W (List Tenant)
  pub update : Tenant → Exec W Tenant
  pub soft_delete : String → Exec W (Unit {0})
  pub find_by_document : String → Exec W (Option Tenant)
  pub save_law :
      (t : Tenant) (w : W)
      → Ensures
          (save t w)
          (λ r w'. ((g : Generated) × (r ≡ saved_as t g)) × Inserted r (tenants w) (tenants w'))
          (λ w'. tenants w' ≡ tenants w)
  pub find_by_id_law :
      (id : String) (w : W)
      → Ensures
          (find_by_id id w)
          (λ o w'. (tenants w' ≡ tenants w) × FoundIn (has_id id) (tenants w) o)
          (λ w'. tenants w' ≡ tenants w)
  pub find_all_law :
      (w : W)
      → Ensures
          (find_all w)
          (λ r w'. (tenants w' ≡ tenants w) × Perm r (tenants w))
          (λ w'. tenants w' ≡ tenants w)
  -- The row is read again after it is written, and that may fail.
  pub update_law :
      (t : Tenant) (w : W)
      → Ensures
          (update t w)
          (λ r w'. Updated t (tenants w) (tenants w') × FoundIn (has_id t.id) (tenants w') (some r))
          (λ w'. (tenants w' ≡ tenants w) ⊎ Updated t (tenants w) (tenants w'))
  pub soft_delete_law :
      (id : String) (w : W)
      → Ensures
          (soft_delete id w)
          (λ _ w'. tenants w' ≡ keep (λ t. not (has_id id t)) (tenants w))
          (λ w'. tenants w' ≡ tenants w)
  pub find_by_document_law :
      (document : String) (w : W)
      → Ensures
          (find_by_document document w)
          (λ o w'. (tenants w' ≡ tenants w) × FoundIn (has_document document) (tenants w) o)
          (λ w'. tenants w' ≡ tenants w)
