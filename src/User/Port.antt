-- ===== src/User/Port.antt =====
-- src/user/domain/ports/user.repository.port.ts and src/auth/domain/ports/auth-provider.port.ts:
-- what the use cases ask of the database and of the identity provider, with what they rely on.
-- user.typeorm-repository.ts is proved to provide the first in `User.Repository`.
use nestjs_hexagonal_templat.Prelude.{
  ℕ, ◌-◌, ◌*◌, String, ◌≡◌, ◌⊎◌, Bool, not, ◌&&◌, Option, none, some, List, ◌==◌, take, drop, keep,
  count_if,
}
use mathlib.Core.List.{Perm}
use nestjs_hexagonal_templat.Common.Exec.{Exec, Ensures}
use nestjs_hexagonal_templat.Database.{Generated, FoundIn, rewrite_rows, Inserted, IsKeyed}
use nestjs_hexagonal_templat.User.{User, has_id, is_active_admin}

abbrev pub user_key : User → String
user_key u = u.id

-- The columns that `save` writes.
abbrev pub saved_as : User → Generated → User
saved_as u g = record u {
  id = g.id;
  created_at = g.created_at;
  updated_at = g.updated_at;
  deleted_at = none;
}

-- The columns that `update` writes, and `updatedAt`.
abbrev pub updated_to : User → ℕ → User → User
updated_to u t row = record row {
  name = u.name;
  email = u.email;
  phone = u.phone;
  role = u.role;
  is_active = u.is_active;
  updated_at = t;
}

-- The users after `update(u)`.
abbrev pub Updated : User → List User → List User → Type 0
Updated u before after =
    (t : ℕ) × (after ≡ rewrite_rows (has_id u.id u.tenant_id) (updated_to u t) before)

pub record UserRepositoryPort (W : Type 0) : Type 0 where
  -- The users that are not deleted.
  pub users : W → List User
  pub save : User → Exec W User
  pub find_by_id : String → String → Exec W (Option User)
  pub find_all : String → ℕ → ℕ → Exec W (List User × ℕ)
  pub update : User → Exec W User
  pub soft_delete : String → String → Exec W (Unit {0})
  pub find_by_email : String → String → Exec W (Option User)
  pub count_by_tenant_id : String → Exec W ℕ
  pub count_active_admins_by_tenant_id : String → Exec W ℕ
  pub users_keyed : (w : W) → IsKeyed user_key (users w)
  pub save_law :
      (u : User) (w : W)
      → Ensures
          (save u w)
          (λ r w'. ((g : Generated) × (r ≡ saved_as u g)) × Inserted r (users w) (users w'))
          (λ w'. users w' ≡ users w)
  pub find_by_id_law :
      (id tenant : String) (w : W)
      → Ensures
          (find_by_id id tenant w)
          (λ o w'. (users w' ≡ users w) × FoundIn (has_id id tenant) (users w) o)
          (λ w'. users w' ≡ users w)
  -- The row is read again after it is written, and that may fail.
  pub update_law :
      (u : User) (w : W)
      → Ensures
          (update u w)
          (λ r w'.
            Updated u (users w) (users w') × FoundIn (has_id u.id u.tenant_id) (users w') (some r))
          (λ w'. (users w' ≡ users w) ⊎ Updated u (users w) (users w'))
  pub soft_delete_law :
      (id tenant : String) (w : W)
      → Ensures
          (soft_delete id tenant w)
          (λ _ w'. users w' ≡ keep (λ u. not (has_id id tenant u)) (users w))
          (λ w'. users w' ≡ users w)
  pub find_by_email_law :
      (email tenant : String) (w : W)
      → Ensures
          (find_by_email email tenant w)
          (λ o w'.
            (users w' ≡ users w)
            × FoundIn (λ u. u.email == email && u.tenant_id == tenant) (users w) o)
          (λ w'. users w' ≡ users w)
  pub find_all_law :
      (tenant : String) (page per_page : ℕ) (w : W)
      → Ensures
          (find_all tenant page per_page w)
          (λ r w'.
            (users w' ≡ users w)
            × ((s : List User) × Perm s (keep (λ u. u.tenant_id == tenant) (users w))
                × (r.0 ≡ take per_page (drop ((page - 1) * per_page) s)))
            × (r.1 ≡ count_if (λ u. u.tenant_id == tenant) (users w)))
          (λ w'. users w' ≡ users w)
  pub count_active_admins_law :
      (tenant : String) (w : W)
      → Ensures
          (count_active_admins_by_tenant_id tenant w)
          (λ n w'. (users w' ≡ users w) × (n ≡ count_if (is_active_admin tenant) (users w)))
          (λ w'. users w' ≡ users w)

pub data UpdatePasswordResult : Type 0 where
  password_ok unknown_user_id : UpdatePasswordResult
  policy_violated : String → UpdatePasswordResult
  unexpected : String → UpdatePasswordResult

pub data ConsumeResetTokenResult : Type 0 where
  consumed : String → String → ConsumeResetTokenResult
  invalid_reset_token : ConsumeResetTokenResult

-- The provider keeps its own data: its calls leave the users of the application alone.
pub record AuthProviderPort (W : Type 0) (users : W → List User) : Type 0 where
  pub find_email_password_user_id_by_email : String → Exec W (Option String)
  pub send_password_reset_email : String → String → Exec W Bool
  pub consume_password_reset_token : String → Exec W ConsumeResetTokenResult
  pub update_password : String → String → Exec W UpdatePasswordResult
  pub revoke_all_sessions : String → Exec W (Unit {0})
  pub delete_user : String → Exec W (Unit {0})
  pub update_password_frame :
      (id password : String) (w : W) → users (update_password id password w).1 ≡ users w
  pub revoke_all_sessions_frame :
      (id : String) (w : W) → users (revoke_all_sessions id w).1 ≡ users w
  pub delete_user_frame : (id : String) (w : W) → users (delete_user id w).1 ≡ users w
