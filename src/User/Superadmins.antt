-- ===== src/User/Superadmins.antt =====
-- Which users the use cases of src/user may leave with the role of a superadmin: `Elder` is what is known of the
-- ids of such users.
use nestjs_hexagonal_templat.Prelude.{
  ℕ, String, ◌≡◌, sym, ap, ◌∙◌, inl, inr, Bool, true, false, not, Option, none, some, eq_iff, leb,
  if◌then◌else◌,
}
use nestjs_hexagonal_templat.Common.Exec.{
  Result, ok, throw, Exec, pure, continue, ◌>>=◌, Ensures, Ensures-mono, Ensures-state, Preserves,
  bind-Preserves,
}
use nestjs_hexagonal_templat.Common.Errors.{Exception}
use nestjs_hexagonal_templat.Database.{In, FoundIn}
use nestjs_hexagonal_templat.Database.Members.{In-rewrite, In-keep, In-Inserted}
use nestjs_hexagonal_templat.User.{User, is_superadmin, has_id}
use nestjs_hexagonal_templat.User.Port.{UserRepositoryPort, Updated, updated_to}
use nestjs_hexagonal_templat.User.Admins.{and_true}
use nestjs_hexagonal_templat.User.UseCases.{throw_if, require_user, require_other_admin}
use nestjs_hexagonal_templat.User.Schema.{IsAllowed}

module _ {W : Type 0} (repo : UserRepositoryPort W) (Elder : String → Type 0) where
  abbrev pub IsElder : User → Type 0
  IsElder u = is_superadmin u.role ≡ true → Elder u.id

  -- Each superadmin is an elder.
  abbrev pub HasElders : W → Type 0
  HasElders w = (u : User) → In u (repo.users w) → IsElder u

  HasElders-same : (w w' : W) → repo.users w' ≡ repo.users w → HasElders w → HasElders w'
  HasElders-same w w' e h u here = h u (rw e at here)

  -- An action that keeps the superadmins elders, however it ends.
  abbrev pub Keeps : {A : Type 0} → Exec W A → Type 0
  Keeps m = Preserves HasElders m

  pub law-Keeps :
      {A : Type 0} (m : Exec W A) (w : W) (P : A → W → Type 0) (Q : W → Type 0)
      → Ensures (m w) P Q
      → ((a : A) (w' : W) → P a w' → HasElders w')
      → ((w' : W) → Q w' → HasElders w')
      → HasElders (m w).1
  law-Keeps m w P Q law p q = Ensures-state (m w) HasElders (Ensures-mono (m w) P Q _ _ law p q)

  pub frame-Keeps :
      {A : Type 0} (m : Exec W A) → ((w : W) → repo.users (m w).1 ≡ repo.users w) → Keeps m
  frame-Keeps m h w = HasElders-same w (m w).1 (h w)

  pub throw_if-Keeps : (b : Bool) (e : Exception) → Keeps (throw_if b e)
  throw_if-Keeps true e w h = h
  throw_if-Keeps false e w h = h

  pub respond-Keeps :
      {A B : Type 0} (m : Exec W A) (f : A → B) → Keeps m → Keeps (m >>= λ a. pure (f a))
  respond-Keeps m f h = bind-Preserves HasElders m _ h (λ a w k. k)

  pub find_by_email-Keeps : (email tenant : String) → Keeps (repo.find_by_email email tenant)
  find_by_email-Keeps email tenant w h =
      law-Keeps (repo.find_by_email email tenant) w _ _ (repo.find_by_email_law email tenant w)
        (λ o w' p. HasElders-same w w' p.0 h) (λ w' e. HasElders-same w w' e h)

  pub find_all-Keeps :
      (tenant : String) (page per_page : ℕ) → Keeps (repo.find_all tenant page per_page)
  find_all-Keeps tenant page per_page w h =
      law-Keeps (repo.find_all tenant page per_page) w _ _
        (repo.find_all_law tenant page per_page w) (λ o w' p. HasElders-same w w' p.0 h)
        (λ w' e. HasElders-same w w' e h)

  pub guard-Keeps :
      (b : Bool) (tenant message : String)
      → Keeps (if b then require_other_admin repo tenant message else pure tt)
  unfolding require_other_admin
  guard-Keeps true tenant message =
      bind-Preserves HasElders (repo.count_active_admins_by_tenant_id tenant) _
        (λ w h.
          law-Keeps (repo.count_active_admins_by_tenant_id tenant) w _ _
            (repo.count_active_admins_law tenant w) (λ o w' p. HasElders-same w w' p.0 h)
            (λ w' e. HasElders-same w w' e h))
        (λ n. throw_if-Keeps (leb n 1) _)
  guard-Keeps false tenant message = λ w h. h

  pub save-Keeps : (u : User) → IsAllowed u.role → Keeps (repo.save u)
  save-Keeps u allowed w h =
      law-Keeps (repo.save u) w _ _ (repo.save_law u w)
        (λ r w' p v here s. elim (In-Inserted r v (repo.users w) (repo.users w') p.1 here) [
          | inl e ↦
              let same : v.role ≡ u.role = ap (λ (x : User). x.role) (e ∙ p.0.1) in
              absurd (cc (allowed, s, same))
          | inr old ↦ h v old s
        ])
        (λ w' e. HasElders-same w w' e h)

  Updated-HasElders :
      (u : User) (w w' : W)
      → IsElder u
      → Updated u (repo.users w) (repo.users w')
      → HasElders w
      → HasElders w'
  Updated-HasElders u w w' elder (n, e) h v here s =
      elim (In-rewrite (has_id u.id u.tenant_id) (updated_to u n) v (repo.users w) (rw e at here)) [
        | inl old ↦ h v old s
        | inr (y, there, hit, f) ↦
            let id : v.id ≡ u.id =
              ap (λ (x : User). x.id) f ∙ (eq_iff y.id u.id).0 (and_true _ _ hit).0 in
            rw id (elder (sym (ap (λ (x : User). is_superadmin x.role) f) ∙ s))
      ]

  pub update-Keeps : (u : User) → IsElder u → Keeps (repo.update u)
  update-Keeps u elder w h =
      law-Keeps (repo.update u) w _ _ (repo.update_law u w)
        (λ r w' p. Updated-HasElders u w w' elder p.0 h)
        (λ w' s. elim s [
          | inl same ↦ HasElders-same w w' same h
          | inr d ↦ Updated-HasElders u w w' elder d h
        ])

  pub soft_delete-Keeps : (id tenant : String) → Keeps (repo.soft_delete id tenant)
  soft_delete-Keeps id tenant w h =
      law-Keeps (repo.soft_delete id tenant) w _ _ (repo.soft_delete_law id tenant w)
        (λ _ w' e v here.
          h v (In-keep (λ u. not (has_id id tenant u)) v (repo.users w) (rw e at here)))
        (λ w' e. HasElders-same w w' e h)

  -- What follows the search for a user.
  pub found-Keeps :
      {A : Type 0} (id tenant : String) (f : User → Exec W A)
      → ((u : User) → IsElder u → Keeps (f u))
      → Keeps (repo.find_by_id id tenant >>= λ o. require_user o >>= f)
  found-Keeps id tenant f k w h =
      after (repo.find_by_id id tenant w) (repo.find_by_id_law id tenant w)
    where
      after :
          (r : Result (Option User) × W)
          → Ensures r
              (λ o w'. (repo.users w' ≡ repo.users w) × FoundIn (has_id id tenant) (repo.users w) o)
              (λ w'. repo.users w' ≡ repo.users w)
          → HasElders (continue r.0 (λ o. require_user o >>= f) r.1).1
      after (throw x, w1) e = HasElders-same w w1 e h
      after (ok none, w1) p = HasElders-same w w1 p.0 h
      after (ok (some u), w1) p = k u (h u p.1.0) w1 (HasElders-same w w1 p.0 h)
