-- ===== src/User/Isolation.antt =====
-- What a use case of src/user leaves of the users of other tenants than the caller's.
use nestjs_hexagonal_templat.Prelude.{
  ℕ, String, ◌≡◌, refl, sym, ap, ◌∙◌, inl, inr, Bool, true, false, Option, none, some, List, ◌==◌,
  eq_iff, leb,
}
use nestjs_hexagonal_templat.Common.Exec.{Result, ok, throw, Exec, continue, ◌>>=◌, Ensures}
use nestjs_hexagonal_templat.Common.Errors.{Exception}
use nestjs_hexagonal_templat.Database.Isolation as Rows
use nestjs_hexagonal_templat.Database.{FoundIn}
use nestjs_hexagonal_templat.User.{User, has_id}
use nestjs_hexagonal_templat.User.Port.{UserRepositoryPort, Updated, updated_to}
use nestjs_hexagonal_templat.User.Admins.{and_true}
use nestjs_hexagonal_templat.User.UseCases.{throw_if, require_user, require_other_admin}

-- The users of other tenants.
abbrev pub outside : String → List User → List User
outside tenant us = Rows.outside (λ u. u.tenant_id == tenant) us

has_id_tenant :
    (id tenant : String) (u : User) → has_id id tenant u ≡ true → (u.tenant_id == tenant) ≡ true
has_id_tenant id tenant u h = (and_true _ _ h).1

module _ {W : Type 0} (repo : UserRepositoryPort W) (tenant : String) where
  -- An action that leaves the users of other tenants alone, however it ends.
  abbrev pub Isolated : {A : Type 0} → Exec W A → Type 0
  Isolated m = Rows.Isolated repo.users (λ u. u.tenant_id == tenant) m

  pub bind-Isolated :
      {A B : Type 0} (m : Exec W A) (f : A → Exec W B)
      → Isolated m
      → ((a : A) → Isolated (f a))
      → Isolated (m >>= f)
  bind-Isolated m f h k = Rows.bind-Isolated repo.users (λ u. u.tenant_id == tenant) m f h k

  pub reads-Isolated :
      {A : Type 0} (m : Exec W A) → ((w : W) → repo.users (m w).1 ≡ repo.users w) → Isolated m
  reads-Isolated m h = Rows.reads-Isolated repo.users (λ u. u.tenant_id == tenant) m h

  law-Isolated :
      {A : Type 0} (m : Exec W A) (w : W) (P : A → W → Type 0) (Q : W → Type 0)
      → Ensures (m w) P Q
      → ((a : A) (w' : W) → P a w' → outside tenant (repo.users w') ≡ outside tenant (repo.users w))
      → ((w' : W) → Q w' → outside tenant (repo.users w') ≡ outside tenant (repo.users w))
      → outside tenant (repo.users (m w).1) ≡ outside tenant (repo.users w)
  law-Isolated m w P Q law p q =
      Rows.law-Isolated repo.users (λ u. u.tenant_id == tenant) m w P Q law p q

  pub throw_if-Isolated : (b : Bool) (e : Exception) → Isolated (throw_if b e)
  throw_if-Isolated true e w = refl
  throw_if-Isolated false e w = refl

  pub find_by_email-Isolated :
      (email tenant' : String) → Isolated (repo.find_by_email email tenant')
  find_by_email-Isolated email tenant' w =
      law-Isolated (repo.find_by_email email tenant') w _ _ (repo.find_by_email_law email tenant' w)
        (λ o w' p. ap (outside tenant) p.0) (λ w' e. ap (outside tenant) e)

  pub find_all-Isolated :
      (tenant' : String) (page per_page : ℕ) → Isolated (repo.find_all tenant' page per_page)
  find_all-Isolated tenant' page per_page w =
      law-Isolated (repo.find_all tenant' page per_page) w _ _
        (repo.find_all_law tenant' page per_page w) (λ o w' p. ap (outside tenant) p.0)
        (λ w' e. ap (outside tenant) e)

  pub require_other_admin-Isolated :
      (message : String) → Isolated (require_other_admin repo tenant message)
  unfolding require_other_admin
  require_other_admin-Isolated message =
      bind-Isolated (repo.count_active_admins_by_tenant_id tenant) _
        (λ w.
          law-Isolated (repo.count_active_admins_by_tenant_id tenant) w _ _
            (repo.count_active_admins_law tenant w) (λ o w' p. ap (outside tenant) p.0)
            (λ w' e. ap (outside tenant) e))
        (λ n. throw_if-Isolated (leb n 1) _)

  pub save-Isolated : (u : User) → u.tenant_id ≡ tenant → Isolated (repo.save u)
  save-Isolated u mine w =
      law-Isolated (repo.save u) w _ _ (repo.save_law u w)
        (λ r w' p.
          Rows.outside-Inserted (λ u. u.tenant_id == tenant) r (repo.users w) (repo.users w')
            ((eq_iff r.tenant_id tenant).1 (ap (λ (x : User). x.tenant_id) p.0.1 ∙ mine)) p.1)
        (λ w' e. ap (outside tenant) e)

  update-left :
      (u : User) (before after : List User)
      → u.tenant_id ≡ tenant
      → Updated u before after
      → outside tenant after ≡ outside tenant before
  update-left u before after mine (stamp, e) =
      ap (outside tenant) e
      ∙ rw (sym mine) (
          Rows.outside-rewrite (λ x. x.tenant_id == u.tenant_id) (has_id u.id u.tenant_id)
            (updated_to u stamp) before (has_id_tenant u.id u.tenant_id) (λ x. refl))

  pub update-Isolated : (u : User) → u.tenant_id ≡ tenant → Isolated (repo.update u)
  update-Isolated u mine w =
      law-Isolated (repo.update u) w _ _ (repo.update_law u w)
        (λ r w' p. update-left u (repo.users w) (repo.users w') mine p.0)
        (λ w' s. elim s [
          | inl same ↦ ap (outside tenant) same
          | inr d ↦ update-left u (repo.users w) (repo.users w') mine d
        ])

  pub soft_delete-Isolated : (id : String) → Isolated (repo.soft_delete id tenant)
  soft_delete-Isolated id w =
      law-Isolated (repo.soft_delete id tenant) w _ _ (repo.soft_delete_law id tenant w)
        (λ _ w' e.
          ap (outside tenant) e
          ∙ Rows.outside-removed (λ u. u.tenant_id == tenant) (has_id id tenant) (repo.users w)
              (has_id_tenant id tenant))
        (λ w' e. ap (outside tenant) e)

  -- What follows the search for a user of the tenant.
  pub found-Isolated :
      {A : Type 0} (id : String) (f : User → Exec W A)
      → ((u : User) → u.tenant_id ≡ tenant → Isolated (f u))
      → Isolated (repo.find_by_id id tenant >>= λ o. require_user o >>= f)
  found-Isolated id f k w = after (repo.find_by_id id tenant w) (repo.find_by_id_law id tenant w)
    where
      after :
          (r : Result (Option User) × W)
          → Ensures r
              (λ o w'. (repo.users w' ≡ repo.users w) × FoundIn (has_id id tenant) (repo.users w) o)
              (λ w'. repo.users w' ≡ repo.users w)
          → outside tenant (repo.users (continue r.0 (λ o. require_user o >>= f) r.1).1)
            ≡ outside tenant (repo.users w)
      after (throw x, w1) e = ap (outside tenant) e
      after (ok none, w1) p = ap (outside tenant) p.0
      after (ok (some u), w1) p =
          k u ((eq_iff u.tenant_id tenant).0 (has_id_tenant id tenant u p.1.1)) w1
          ∙ ap (outside tenant) p.0
