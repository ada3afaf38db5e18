-- ===== src/User/Removal.antt =====
-- src/user/application/use-cases/delete-user.use-case.ts: the local row goes last.
use nestjs_hexagonal_templat.Prelude.{
  ◌<◌, String, ◌≡◌, sym, ap, ◌∙◌, ◌≢◌, true, false, not, ◌&&◌, ◌==◌, if◌then◌else◌, apart, keep,
}
use nestjs_hexagonal_templat.Common.Exec.{pure, Ensures, Ensures-mono}
use nestjs_hexagonal_templat.Database.{FoundIn}
use nestjs_hexagonal_templat.User.{User, has_id, is_admin}
use nestjs_hexagonal_templat.User.Port.{UserRepositoryPort, AuthProviderPort}
use nestjs_hexagonal_templat.User.Admins.{admins}
use nestjs_hexagonal_templat.User.Reads.{
  reads-then, frame-Reads, throw_if-Reads, IsUser, require_user-Reads, guard-Reads,
}
use nestjs_hexagonal_templat.User.UseCases.{
  throw_if, require_user, require_other_admin, delete_user,
}

module _ {W : Type 0} (repo : UserRepositoryPort W) (auth : AuthProviderPort W repo.users) where
  -- A user was removed: another than the caller, and one of the tenant's, who was no active
  -- administrator or not the last.
  pub record Removed (id tenant current_user : String) (w w' : W) : Type 0 where
    pub user : User
    pub existed : IsUser repo tenant id tenant (repo.users w) user
    pub other : id ≢ current_user
    pub spared : (user.is_active && is_admin user.role) ≡ true → 1 < admins tenant (repo.users w)
    pub gone : repo.users w' ≡ keep (λ x. not (has_id id tenant x)) (repo.users w)

  -- Deleting a user is all or nothing for the users: if it returns, exactly the rows of that id and
  -- tenant are gone; if it throws, whether for the caller, a missing user, the last administrator or
  -- a failure of the identity provider or the database, the users are as they were.
  pub delete_user-Removed :
      (id tenant current_user : String) (w : W)
      → Ensures
          (delete_user repo auth id tenant current_user w)
          (λ _ w'. Removed id tenant current_user w w')
          (λ w'. repo.users w' ≡ repo.users w)
  unfolding delete_user
  delete_user-Removed id tenant current_user w =
      let P : Unit {0} → W → Type 0 = λ _ w'. Removed id tenant current_user w w' in
      let Q : W → Type 0 = λ w'. repo.users w' ≡ repo.users w in
      reads-then repo tenant (throw_if (id == current_user) _) _ w
        (λ _. (id == current_user) ≡ false) P Q
        (throw_if-Reads repo tenant (id == current_user) _ w)
        (λ _ w1 e1 other.
          reads-then repo tenant (repo.find_by_id id tenant) _ w1
            (FoundIn (has_id id tenant) (repo.users w1)) P Q (repo.find_by_id_law id tenant w1)
            (λ o w2 e2 found.
              reads-then repo tenant (require_user o) _ w2
                (IsUser repo tenant id tenant (repo.users w1)) P Q
                (require_user-Reads repo tenant id tenant (repo.users w1) o w2 found)
                (λ u w3 e3 here.
                  reads-then repo tenant
                    (if u.is_active && is_admin u.role
                      then require_other_admin repo tenant _
                      else pure tt)
                    _ w3
                    (λ _.
                      (u.is_active && is_admin u.role) ≡ true → 1 < admins tenant (repo.users w3))
                    P Q (guard-Reads repo tenant (u.is_active && is_admin u.role) tenant _ w3)
                    (λ _ w4 e4 guarded.
                      reads-then repo tenant (auth.revoke_all_sessions u.supertokens_user_id) _ w4
                        (λ _. Unit {0}) P Q
                        (frame-Reads repo tenant (auth.revoke_all_sessions u.supertokens_user_id w4)
                          w4 (auth.revoke_all_sessions_frame u.supertokens_user_id w4))
                        (λ _ w5 e5 _.
                          reads-then repo tenant (auth.delete_user u.supertokens_user_id) _ w5
                            (λ _. Unit {0}) P Q
                            (frame-Reads repo tenant (auth.delete_user u.supertokens_user_id w5) w5
                              (auth.delete_user_frame u.supertokens_user_id w5))
                            (λ _ w6 e6 _.
                              let since : repo.users w6 ≡ repo.users w =
                                e6 ∙ (e5 ∙ (e4 ∙ (e3 ∙ (e2 ∙ e1)))) in
                              Ensures-mono (repo.soft_delete id tenant w6) _ _ P Q
                                (repo.soft_delete_law id tenant w6)
                                (λ _ w' e. record {
                                  user = u;
                                  existed = rw (sym e1) here;
                                  other = apart id current_user other;
                                  spared = λ b. rw (sym (e3 ∙ (e2 ∙ e1))) (guarded b);
                                  gone =
                                      e ∙ ap (λ us. keep (λ x. not (has_id id tenant x)) us) since;
                                })
                                (λ w' e. e ∙ since))
                            (λ w' e. e ∙ (e5 ∙ (e4 ∙ (e3 ∙ (e2 ∙ e1))))))
                        (λ w' e. e ∙ (e4 ∙ (e3 ∙ (e2 ∙ e1)))))
                    (λ w' e. e ∙ (e3 ∙ (e2 ∙ e1))))
                (λ w' e. e ∙ (e2 ∙ e1)))
            (λ w' e. e ∙ e1))
        (λ w' e. e)
