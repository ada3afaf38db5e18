-- ===== src/User/LastAdmin.antt =====
-- A tenant that has an active administrator keeps one, whatever requests are handled one after the
-- other.
use nestjs_hexagonal_templat.Prelude.{
  ℕ, ◌<◌, String, ◌≡◌, refl, sym, ap, ◌∙◌, ◌⊎◌, inl, inr, Bool, true, false, not, ◌&&◌, Option,
  none, some, List, arith, ◌==◌, eq_iff, if◌then◌else◌, Bool-cases, keep,
}
use nestjs_hexagonal_templat.Common.Exec.{
  Exec, pure, ◌>>=◌, Ensures, Ensures-bind, Ensures-mono, Ensures-frame,
}
use nestjs_hexagonal_templat.Database.{In, FoundIn, Inserted, Generated}
use nestjs_hexagonal_templat.Database.Rows.{count_if-Inserted}
use nestjs_hexagonal_templat.User.{
  Role, is_admin, User, CreateUserDto, UpdateUserDto, is_active_admin, has_id, to_response,
}
use nestjs_hexagonal_templat.User.Port.{
  UpdatePasswordResult, password_ok, unknown_user_id, policy_violated, unexpected,
  UserRepositoryPort, AuthProviderPort, saved_as, updated_to,
}
use nestjs_hexagonal_templat.User.Admins.{and_true, admins, admins-removed}
use nestjs_hexagonal_templat.User.Reads.{
  HasAdmin, HasAdmin-same, Reads, reads-bind, frame-Reads, throw_if-Reads, IsUser,
  require_user-Reads, guard-Reads, write-HasAdmin,
}
use nestjs_hexagonal_templat.User.UseCases.{
  throw_if, require_password_ok, require_user, require_other_admin, apply_update, is_demotion,
  create_user, update_user, delete_user, set_user_active, update_user_password, new_user,
  error_own_role, or_old, assert_not_last_admin,
}

active_admin_lem :
    (t : String) (u : User) → is_active_admin t u ≡ true → (u.is_active && is_admin u.role) ≡ true
active_admin_lem t u h = ground arith

module _ {W : Type 0} (repo : UserRepositoryPort W) (t : String) where
  abbrev pub Safe : {A : Type 0} → Exec W A → Type 0
  Safe m = (w : W) → HasAdmin repo t w → Ensures (m w) (λ _. HasAdmin repo t) (HasAdmin repo t)

  -- An update that is no demotion, or is guarded, leaves an administrator.
  update_safe :
      (id tenant : String) (dto : UpdateUserDto) (u0 : User) (us : List User)
      → has_id id tenant u0 ≡ true
      → (is_demotion repo u0 dto.role ≡ true → 1 < admins tenant us)
      → is_active_admin t u0 ≡ true
      → (is_active_admin t (updated_to (apply_update dto u0) 0 u0) ≡ true) ⊎ (1 < admins t us)
  update_safe id tenant dto u0 us hit guard was =
      let here : u0.tenant_id ≡ tenant = (eq_iff u0.tenant_id tenant).0 (and_true _ _ hit).1 in
      let there : u0.tenant_id ≡ t = (eq_iff u0.tenant_id t).0 (and_true _ _ was).0 in
      elim (Bool-cases (is_demotion repo u0 dto.role)) [
        | inl demoted ↦ inr (rw (sym there ∙ here) (guard demoted))
        | inr kept ↦ inl (stays dto.role (and_true _ _ was).0 (and_true _ _ was).1 kept)
      ]
    where
      stays :
          (role : Option Role)
          → (u0.tenant_id == t) ≡ true
          → (is_admin u0.role && u0.is_active) ≡ true
          → is_demotion repo u0 role ≡ false
          → (u0.tenant_id == t && (is_admin (or_old role u0.role) && u0.is_active)) ≡ true
      stays none same was kept = ground arith
      stays (some role) same was kept = ground arith

  -- The write that ends a request, and its answer.
  write-respond :
      (u u0 : User) (w : W)
      → In u0 (repo.users w)
      → u.id ≡ u0.id
      → (is_active_admin t u0 ≡ true
          → (is_active_admin t (updated_to u 0 u0) ≡ true) ⊎ (1 < admins t (repo.users w)))
      → HasAdmin repo t w
      → Ensures
          ((repo.update u >>= λ r. pure (to_response r)) w)
          (λ _. HasAdmin repo t)
          (HasAdmin repo t)
  write-respond u u0 w here e safe h =
      Ensures-bind (repo.update u w) (λ r. pure (to_response r)) (λ _. HasAdmin repo t)
        (HasAdmin repo t) (λ _. HasAdmin repo t) (HasAdmin repo t)
        (write-HasAdmin repo t u0 u w here e safe h) (λ r w' p. p) (λ w' q. q)

  pub update_user-Safe :
      (id tenant current_user : String) (dto : UpdateUserDto)
      → Safe (update_user repo id tenant current_user dto)
  unfolding update_user
  update_user-Safe id tenant current_user dto w h =
      let own : Bool = elim dto.role [ none ↦ false | some _ ↦ id == current_user ] in
      reads-bind repo t (throw_if own error_own_role) _ w (λ _. own ≡ false) h
        (throw_if-Reads repo t own error_own_role w)
        λ _ w1 e1 _.
          let h1 = HasAdmin-same repo t w w1 e1 h in
          reads-bind repo t (repo.find_by_id id tenant) _ w1
            (FoundIn (has_id id tenant) (repo.users w1)) h1 (repo.find_by_id_law id tenant w1)
            λ o w2 e2 found.
              let h2 = HasAdmin-same repo t w1 w2 e2 h1 in
              reads-bind repo t (require_user o) _ w2 (IsUser repo t id tenant (repo.users w1)) h2
                (require_user-Reads repo t id tenant (repo.users w1) o w2 found)
                λ u w3 e3 here.
                  let h3 = HasAdmin-same repo t w2 w3 e3 h2 in
                  reads-bind repo t (assert_not_last_admin repo u tenant dto.role) _ w3
                    (λ _. is_demotion repo u dto.role ≡ true → 1 < admins tenant (repo.users w3)) h3
                    (guard-Reads repo t (is_demotion repo u dto.role) tenant _ w3)
                    λ _ w4 e4 guarded.
                      write-respond (apply_update dto u) u w4 (rw (e4 ∙ (e3 ∙ e2)) here.0) refl
                        (λ was.
                          rw e4 (update_safe id tenant dto u (repo.users w3) here.1 guarded was))
                        (HasAdmin-same repo t w3 w4 e4 h3)

  pub create_user-Safe :
      (now : ℕ) (dto : CreateUserDto) (tenant supertokens_user_id : String)
      → Safe (create_user repo now dto tenant supertokens_user_id)
  unfolding create_user
  create_user-Safe now dto tenant supertokens_user_id w h =
      reads-bind repo t (repo.find_by_email dto.email tenant) _ w
        (FoundIn (λ u. u.email == dto.email && u.tenant_id == tenant) (repo.users w)) h
        (repo.find_by_email_law dto.email tenant w)
        λ o w1 e1 _.
          let taken : Bool = elim o [ none ↦ false | some _ ↦ true ] in
          reads-bind repo t (throw_if taken _) _ w1 (λ _. taken ≡ false)
            (HasAdmin-same repo t w w1 e1 h) (throw_if-Reads repo t taken _ w1)
            λ _ w2 e2 _.
              let h2 = HasAdmin-same repo t w w2 (e2 ∙ e1) h in
              let u = new_user now dto tenant supertokens_user_id in
              Ensures-bind (repo.save u w2) (λ r. pure (to_response r))
                (λ r w'.
                  ((g : Generated) × (r ≡ saved_as u g))
                  × Inserted r (repo.users w2) (repo.users w'))
                (λ w'. repo.users w' ≡ repo.users w2) (λ _. HasAdmin repo t) (HasAdmin repo t)
                (repo.save_law u w2)
                (λ r w' p. omega (
                  arith,
                  h2,
                  count_if-Inserted (is_active_admin t) r (repo.users w2) (repo.users w') p.1,
                ))
                (λ w' e. HasAdmin-same repo t w2 w' e h2)

  -- A user that is removed was no administrator, or is not the last.
  removed-HasAdmin :
      (id tenant : String) (u : User) (w w' : W)
      → In u (repo.users w)
      → has_id id tenant u ≡ true
      → ((u.is_active && is_admin u.role) ≡ true → 1 < admins tenant (repo.users w))
      → HasAdmin repo t w
      → repo.users w' ≡ keep (λ x. not (has_id id tenant x)) (repo.users w)
      → HasAdmin repo t w'
  removed-HasAdmin id tenant u w w' here hit guard h e =
      let same : u.id ≡ id = (eq_iff u.id id).0 (and_true _ _ hit).0 in
      let mine : u.tenant_id ≡ tenant = (eq_iff u.tenant_id tenant).0 (and_true _ _ hit).1 in
      let safe : is_active_admin t u ≡ true → 1 < admins t (repo.users w) = λ was.
        let theirs : u.tenant_id ≡ t = (eq_iff u.tenant_id t).0 (and_true _ _ was).0 in
        rw (sym theirs ∙ mine) (guard (active_admin_lem t u was)) in
      rw (e ∙ ap (λ i. keep (λ x. not (has_id i tenant x)) (repo.users w)) (sym same))
        (admins-removed t tenant u (repo.users w) (repo.users_keyed w) here mine safe h)

  -- Setting a user active, or inactive behind the guard, leaves an administrator.
  active_safe :
      (id tenant : String) (b : Bool) (u : User) (us : List User)
      → has_id id tenant u ≡ true
      → ((not b && (u.is_active && is_admin u.role)) ≡ true → 1 < admins tenant us)
      → is_active_admin t u ≡ true
      → (is_active_admin t (updated_to (record u { is_active = b }) 0 u) ≡ true) ⊎ (1 < admins t us)
  active_safe id tenant true u us hit guard was = inl (ground arith)
  active_safe id tenant false u us hit guard was =
      let here : u.tenant_id ≡ tenant = (eq_iff u.tenant_id tenant).0 (and_true _ _ hit).1 in
      let there : u.tenant_id ≡ t = (eq_iff u.tenant_id t).0 (and_true _ _ was).0 in
      inr (rw (sym there ∙ here) (guard (active_admin_lem t u was)))

  module _ (auth : AuthProviderPort W repo.users) where
    pub delete_user-Safe :
        (id tenant current_user : String) → Safe (delete_user repo auth id tenant current_user)
    unfolding delete_user
    delete_user-Safe id tenant current_user w h =
        reads-bind repo t (throw_if (id == current_user) _) _ w (λ _. (id == current_user) ≡ false)
          h (throw_if-Reads repo t (id == current_user) _ w)
          λ _ w1 e1 _.
            let h1 = HasAdmin-same repo t w w1 e1 h in
            reads-bind repo t (repo.find_by_id id tenant) _ w1
              (FoundIn (has_id id tenant) (repo.users w1)) h1 (repo.find_by_id_law id tenant w1)
              λ o w2 e2 found.
                let h2 = HasAdmin-same repo t w1 w2 e2 h1 in
                reads-bind repo t (require_user o) _ w2 (IsUser repo t id tenant (repo.users w1)) h2
                  (require_user-Reads repo t id tenant (repo.users w1) o w2 found)
                  λ u w3 e3 here.
                    let h3 = HasAdmin-same repo t w2 w3 e3 h2 in
                    reads-bind repo t
                      (if u.is_active && is_admin u.role
                        then require_other_admin repo tenant _
                        else pure tt)
                      _ w3
                      (λ _.
                        (u.is_active && is_admin u.role) ≡ true → 1 < admins tenant (repo.users w3))
                      h3 (guard-Reads repo t (u.is_active && is_admin u.role) tenant _ w3)
                      λ _ w4 e4 guarded.
                        let h4 = HasAdmin-same repo t w3 w4 e4 h3 in
                        reads-bind repo t (auth.revoke_all_sessions u.supertokens_user_id) _ w4
                          (λ _. Unit {0}) h4
                          (frame-Reads repo t (auth.revoke_all_sessions u.supertokens_user_id w4) w4
                            (auth.revoke_all_sessions_frame u.supertokens_user_id w4))
                          λ _ w5 e5 _.
                            let h5 = HasAdmin-same repo t w4 w5 e5 h4 in
                            reads-bind repo t (auth.delete_user u.supertokens_user_id) _ w5
                              (λ _. Unit {0}) h5
                              (frame-Reads repo t (auth.delete_user u.supertokens_user_id w5) w5
                                (auth.delete_user_frame u.supertokens_user_id w5))
                              λ _ w6 e6 _.
                                let h6 = HasAdmin-same repo t w5 w6 e6 h5 in
                                Ensures-mono (repo.soft_delete id tenant w6)
                                  (λ _ w'.
                                    repo.users w'
                                    ≡ keep (λ x. not (has_id id tenant x)) (repo.users w6))
                                  (λ w'. repo.users w' ≡ repo.users w6) (λ _. HasAdmin repo t)
                                  (HasAdmin repo t) (repo.soft_delete_law id tenant w6)
                                  (λ _ w' e.
                                    removed-HasAdmin id tenant u w6 w'
                                      (rw (e6 ∙ (e5 ∙ (e4 ∙ (e3 ∙ e2)))) here.0) here.1
                                      (λ b. rw (e6 ∙ (e5 ∙ e4)) (guarded b)) h6 e)
                                  (λ w' e. HasAdmin-same repo t w6 w' e h6)

    pub set_user_active-Safe :
        (id tenant current_user : String) (is_active : Bool)
        → Safe (set_user_active repo auth id tenant current_user is_active)
    unfolding set_user_active
    set_user_active-Safe id tenant current_user is_active w h =
        let own : Bool = not is_active && id == current_user in
        reads-bind repo t (throw_if own _) _ w (λ _. own ≡ false) h (throw_if-Reads repo t own _ w)
          λ _ w1 e1 _.
            let h1 = HasAdmin-same repo t w w1 e1 h in
            reads-bind repo t (repo.find_by_id id tenant) _ w1
              (FoundIn (has_id id tenant) (repo.users w1)) h1 (repo.find_by_id_law id tenant w1)
              λ o w2 e2 found.
                let h2 = HasAdmin-same repo t w1 w2 e2 h1 in
                reads-bind repo t (require_user o) _ w2 (IsUser repo t id tenant (repo.users w1)) h2
                  (require_user-Reads repo t id tenant (repo.users w1) o w2 found)
                  λ u w3 e3 here.
                    let h3 = HasAdmin-same repo t w2 w3 e3 h2 in
                    let off : Bool = not is_active && (u.is_active && is_admin u.role) in
                    reads-bind repo t (if off then require_other_admin repo tenant _ else pure tt) _
                      w3 (λ _. off ≡ true → 1 < admins tenant (repo.users w3)) h3
                      (guard-Reads repo t off tenant _ w3)
                      λ _ w4 e4 guarded.
                        let h4 = HasAdmin-same repo t w3 w4 e4 h3 in
                        reads-bind repo t
                          (if is_active
                            then pure tt
                            else auth.revoke_all_sessions u.supertokens_user_id)
                          _ w4 (λ _. Unit {0}) h4 (revoke-Reads is_active u.supertokens_user_id w4)
                          λ _ w5 e5 _.
                            write-respond (record u { is_active = is_active }) u w5
                              (rw (e5 ∙ (e4 ∙ (e3 ∙ e2))) here.0) refl
                              (λ was. rw (e5 ∙ e4) (
                                active_safe id tenant is_active u (repo.users w3) here.1 guarded
                                  was))
                              (HasAdmin-same repo t w4 w5 e5 h4)
      where
        revoke-Reads :
            (b : Bool) (id : String) (w : W)
            → Reads repo t
                ((if b then pure tt else auth.revoke_all_sessions id) w)
                w
                (λ _. Unit {0})
        revoke-Reads true id w = (refl, tt)
        revoke-Reads false id w =
            frame-Reads repo t (auth.revoke_all_sessions id w) w
              (auth.revoke_all_sessions_frame id w)

    pub update_user_password-Safe :
        (id tenant new_password : String)
        → Safe (update_user_password repo auth id tenant new_password)
    unfolding update_user_password
    update_user_password-Safe id tenant new_password w h =
        reads-bind repo t (repo.find_by_id id tenant) _ w
          (FoundIn (has_id id tenant) (repo.users w)) h (repo.find_by_id_law id tenant w)
          λ o w1 e1 found.
            let h1 = HasAdmin-same repo t w w1 e1 h in
            reads-bind repo t (require_user o) _ w1 (IsUser repo t id tenant (repo.users w)) h1
              (require_user-Reads repo t id tenant (repo.users w) o w1 found)
              λ u w2 e2 here.
                let h2 = HasAdmin-same repo t w1 w2 e2 h1 in
                reads-bind repo t (auth.update_password u.supertokens_user_id new_password) _ w2
                  (λ _. Unit {0}) h2
                  (frame-Reads repo t (auth.update_password u.supertokens_user_id new_password w2)
                    w2 (auth.update_password_frame u.supertokens_user_id new_password w2))
                  λ r w3 e3 _.
                    let h3 = HasAdmin-same repo t w2 w3 e3 h2 in
                    reads-bind repo t (require_password_ok repo auth r) _ w3 (λ _. Unit {0}) h3
                      (judged r w3)
                      λ _ w4 e4 _.
                        Ensures-frame (auth.revoke_all_sessions u.supertokens_user_id w4)
                          (HasAdmin repo t)
                          (HasAdmin-same repo t w3 _
                            (auth.revoke_all_sessions_frame u.supertokens_user_id w4 ∙ e4) h3)
      where
        judged :
            (r : UpdatePasswordResult) (w : W)
            → Reads repo t (require_password_ok repo auth r w) w (λ _. Unit {0})
        judged password_ok w = (refl, tt)
        judged unknown_user_id w = refl
        judged (policy_violated reason) w = refl
        judged (unexpected detail) w = refl
