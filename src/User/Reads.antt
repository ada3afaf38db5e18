-- ===== src/User/Reads.antt =====
-- The steps of the use cases: what they leave of the users, and of the count of administrators.

use nestjs_hexagonal_templat.Prelude.{
  ◌<◌, String, ◌≡◌, refl, ◌∙◌, ◌⊎◌, inl, inr, Bool, true, false, Option, none, some, List, arith,
  leb, if◌then◌else◌,
}
use nestjs_hexagonal_templat.Common.Exec.{
  Result, ok, throw, Exec, pure, ◌>>=◌, Ensures, Ensures-bind, Ensures-mono,
}
use nestjs_hexagonal_templat.Common.Errors.{Exception}
use nestjs_hexagonal_templat.Database.{In, FoundIn}
use nestjs_hexagonal_templat.User.{User, is_active_admin, has_id}
use nestjs_hexagonal_templat.User.Port.{UserRepositoryPort, Updated, updated_to}
use nestjs_hexagonal_templat.User.Admins.{admins, admins-Updated}
use nestjs_hexagonal_templat.User.UseCases.{
  throw_if, require_user, require_other_admin, error_last_admin,
}

module _ {W : Type 0} (repo : UserRepositoryPort W) (t : String) where
  abbrev pub HasAdmin : W → Type 0
  HasAdmin w = 0 < admins t (repo.users w)

  -- A step that reads: the users are as they were, and `R` holds of its value.
  abbrev pub Reads : {A : Type 0} → Result A × W → W → (A → Type 0) → Type 0
  Reads m w R =
      Ensures m (λ a w'. (repo.users w' ≡ repo.users w) × R a) (λ w'. repo.users w' ≡ repo.users w)

  pub HasAdmin-same : (w w' : W) → repo.users w' ≡ repo.users w → HasAdmin w → HasAdmin w'
  HasAdmin-same w w' e h = rw e h

  -- A step that reads, before what establishes `P`, or `Q` where it throws.
  pub reads-then :
      {A B : Type 0} (m : Exec W A) (f : A → Exec W B) (w : W) (R : A → Type 0) (P : B → W → Type 0)
      (Q : W → Type 0)
      → Reads (m w) w R
      → ((a : A) (w' : W) → repo.users w' ≡ repo.users w → R a → Ensures (f a w') P Q)
      → ((w' : W) → repo.users w' ≡ repo.users w → Q w')
      → Ensures ((m >>= f) w) P Q
  reads-then m f w R P Q r k q =
      Ensures-bind (m w) f (λ a w'. (repo.users w' ≡ repo.users w) × R a)
        (λ w'. repo.users w' ≡ repo.users w) P Q r (λ a w' p. k a w' p.0 p.1) q

  pub reads-bind :
      {A B : Type 0} (m : Exec W A) (f : A → Exec W B) (w : W) (R : A → Type 0)
      → HasAdmin w
      → Reads (m w) w R
      → ((a : A) (w' : W)
          → repo.users w' ≡ repo.users w
          → R a
          → Ensures (f a w') (λ _. HasAdmin) HasAdmin)
      → Ensures ((m >>= f) w) (λ _. HasAdmin) HasAdmin
  reads-bind m f w R h r k =
      reads-then m f w R (λ _. HasAdmin) HasAdmin r k (λ w' e. HasAdmin-same w w' e h)

  pub throw_if-Reads :
      (b : Bool) (e : Exception) (w : W) → Reads (throw_if b e w) w (λ _. b ≡ false)
  throw_if-Reads true e w = refl
  throw_if-Reads false e w = (refl, refl)

  -- A user that is required is the one found.
  abbrev pub IsUser : String → String → List User → User → Type 0
  IsUser id tenant us u = In u us × (has_id id tenant u ≡ true)

  pub require_user-Reads :
      (id tenant : String) (us : List User) (o : Option User) (w : W)
      → FoundIn (has_id id tenant) us o
      → Reads (require_user o w) w (IsUser id tenant us)
  require_user-Reads id tenant us none w h = refl
  require_user-Reads id tenant us (some u) w h = (refl, h)

  require_other_admin-Reads :
      (tenant message : String) (w : W)
      → Reads (require_other_admin repo tenant message w) w (λ _. 1 < admins tenant (repo.users w))
  unfolding require_other_admin
  require_other_admin-Reads tenant message w =
      Ensures-bind (repo.count_active_admins_by_tenant_id tenant w)
        (λ n. throw_if (leb n 1) (error_last_admin message))
        (λ n w'. (repo.users w' ≡ repo.users w) × (n ≡ admins tenant (repo.users w)))
        (λ w'. repo.users w' ≡ repo.users w)
        (λ _ w'. (repo.users w' ≡ repo.users w) × (1 < admins tenant (repo.users w)))
        (λ w'. repo.users w' ≡ repo.users w) (repo.count_active_admins_law tenant w)
        (λ n w' p.
          Ensures-mono (throw_if (leb n 1) (error_last_admin message) w')
            (λ _ w''. (repo.users w'' ≡ repo.users w') × (leb n 1 ≡ false))
            (λ w''. repo.users w'' ≡ repo.users w')
            (λ _ w''. (repo.users w'' ≡ repo.users w) × (1 < admins tenant (repo.users w)))
            (λ w''. repo.users w'' ≡ repo.users w)
            (throw_if-Reads (leb n 1) (error_last_admin message) w')
            (λ _ w'' q. (q.0 ∙ p.0, rw (← p.1) (ground arith))) (λ w'' q. q ∙ p.0))
        (λ w' e. e)

  -- The check stands before a change that may take an administrator away.
  pub guard-Reads :
      (b : Bool) (tenant message : String) (w : W)
      → Reads
          ((if b then require_other_admin repo tenant message else pure tt) w)
          w
          (λ _. b ≡ true → 1 < admins tenant (repo.users w))
  guard-Reads true tenant message w =
      Ensures-mono (require_other_admin repo tenant message w)
        (λ _ w'. (repo.users w' ≡ repo.users w) × (1 < admins tenant (repo.users w)))
        (λ w'. repo.users w' ≡ repo.users w)
        (λ _ w'. (repo.users w' ≡ repo.users w) × (true ≡ true → 1 < admins tenant (repo.users w)))
        (λ w'. repo.users w' ≡ repo.users w) (require_other_admin-Reads tenant message w)
        (λ _ w' p. (p.0, λ _. p.1)) (λ w' e. e)
  guard-Reads false tenant message w = (refl, λ h. absurd (cc))

  -- The write that ends `update` and `setActive`.
  pub write-HasAdmin :
      (u0 u : User) (w : W)
      → In u0 (repo.users w)
      → u.id ≡ u0.id
      → (is_active_admin t u0 ≡ true
          → (is_active_admin t (updated_to u 0 u0) ≡ true) ⊎ (1 < admins t (repo.users w)))
      → HasAdmin w
      → Ensures (repo.update u w) (λ _. HasAdmin) HasAdmin
  write-HasAdmin u0 u w here e safe h =
      let after = λ (w' : W) (d : Updated u (repo.users w) (repo.users w')).
        admins-Updated t u0 u (repo.users w) (repo.users w') (repo.users_keyed w) here e d safe h in
      Ensures-mono (repo.update u w)
        (λ r w'.
          Updated u (repo.users w) (repo.users w')
          × FoundIn (has_id u.id u.tenant_id) (repo.users w') (some r))
        (λ w'. (repo.users w' ≡ repo.users w) ⊎ Updated u (repo.users w) (repo.users w'))
        (λ _. HasAdmin) HasAdmin (repo.update_law u w) (λ r w' p. after w' p.0)
        (λ w' s. elim s [ inl same ↦ HasAdmin-same w w' same h | inr d ↦ after w' d ])

  -- An answer that the identity provider gives leaves the users as they were.
  pub frame-Reads :
      {A : Type 0} (m : Result A × W) (w : W)
      → repo.users m.1 ≡ repo.users w
      → Reads m w (λ _. Unit {0})
  frame-Reads (ok a, w') w e = (e, tt)
  frame-Reads (throw x, w') w e = e
