-- ===== src/User/Admins.antt =====
-- How the count of a tenant's active administrators changes when a user is written or removed.
use nestjs_hexagonal_templat.Prelude.{
  ℕ, ◌<◌, String, ◌≡◌, ◌∙◌, ◌⊎◌, inl, inr, Bool, true, false, not, ◌&&◌, List, [], ◌∷◌, arith,
  eq_iff, Bool-cases, keep, count_if, All,
}
use nestjs_hexagonal_templat.Database.{In, IsKeyed}
use nestjs_hexagonal_templat.Database.Rows.{
  Keeps, count_if-rewrite, Spares, count_if-keep, Selects, count_if-rewrite_one, count_if-keep_one,
  only_row,
}
use nestjs_hexagonal_templat.User.{User, is_active_admin, has_id}
use nestjs_hexagonal_templat.User.Port.{user_key, Updated, updated_to}

pub and_true : (a b : Bool) → (a && b) ≡ true → (a ≡ true) × (b ≡ true)
and_true a b h = ground arith

-- How many active administrators a tenant has among users.
abbrev pub admins : String → List User → ℕ
admins tenant us = count_if (is_active_admin tenant) us

pub has_id-Selects : (id tenant : String) → Selects user_key (has_id id tenant) id
has_id-Selects id tenant u h = (eq_iff u.id id).0 (and_true _ _ h).0

-- A test of the user that a write targets: it fails for that user, holds of what is written, or is
-- of another tenant.
Keeps-others :
    (t : String) (u0 u : User) (stamp : ℕ) (xs : List User)
    → All (λ x. x.id ≡ u0.id → x ≡ u0) xs
    → (is_active_admin t u0 ≡ true → is_active_admin t (updated_to u stamp u0) ≡ true)
    → u.id ≡ u0.id
    → All (Keeps (is_active_admin t) (has_id u.id u.tenant_id) (updated_to u stamp)) xs
Keeps-others t u0 u stamp [] only h e = tt
Keeps-others t u0 u stamp (x ∷ xs) (k, only) h e = (
  (λ hit was.
      let same : x ≡ u0 = k (has_id-Selects u.id u.tenant_id x hit ∙ e) in
      rw same (h (rw same at was))),
  Keeps-others t u0 u stamp xs only h e,
)

-- A write that leaves an active administrator, or that touches none, or that finds two, leaves one.
pub admins-Updated :
    (t : String) (u0 u : User) (xs ys : List User)
    → IsKeyed user_key xs
    → In u0 xs
    → u.id ≡ u0.id
    → Updated u xs ys
    → (is_active_admin t u0 ≡ true
        → (is_active_admin t (updated_to u 0 u0) ≡ true) ⊎ (1 < admins t xs))
    → 0 < admins t xs
    → 0 < admins t ys
admins-Updated t u0 u xs ys keyed here e (stamp, written) safe some_left =
    elim (Bool-cases (is_active_admin t u0)) [
      | inl was ↦ elim (safe was) [
        | inl stays ↦ keeps (λ _. stays)
        | inr two ↦ rw written (
            omega (
              arith,
              count_if-rewrite_one user_key (is_active_admin t) (has_id u.id u.tenant_id)
                  (updated_to u stamp) u.id xs (has_id-Selects u.id u.tenant_id) keyed,
            ))
      ]
      | inr was_not ↦ keeps (λ was. absurd (cc))
    ]
  where
    keeps :
        (is_active_admin t u0 ≡ true → is_active_admin t (updated_to u stamp u0) ≡ true)
        → 0 < admins t ys
    keeps h = rw written (
        omega (
          arith,
          count_if-rewrite (is_active_admin t) (has_id u.id u.tenant_id) (updated_to u stamp) xs
              (Keeps-others t u0 u stamp xs (only_row user_key u0 xs keyed here) h e),
        ))

-- Removing a user takes at most that user from the count.
pub admins-removed :
    (t tenant : String) (u0 : User) (xs : List User)
    → IsKeyed user_key xs
    → In u0 xs
    → u0.tenant_id ≡ tenant
    → (is_active_admin t u0 ≡ true → 1 < admins t xs)
    → 0 < admins t xs
    → 0 < admins t (keep (λ x. not (has_id u0.id tenant x)) xs)
admins-removed t tenant u0 xs keyed here e safe some_left =
    elim (Bool-cases (is_active_admin t u0)) [
      | inl was ↦ omega (
        arith,
        safe was,
        count_if-keep_one user_key (is_active_admin t) (has_id u0.id tenant) u0.id xs
            (has_id-Selects u0.id tenant) keyed,
      )
      | inr was_not ↦ omega (
        arith,
        count_if-keep (is_active_admin t) (has_id u0.id tenant) xs
            (spares xs (only_row user_key u0 xs keyed here) was_not),
      )
    ]
  where
    spares :
        (ys : List User)
        → All (λ x. x.id ≡ u0.id → x ≡ u0) ys
        → is_active_admin t u0 ≡ false
        → All (Spares (is_active_admin t) (has_id u0.id tenant)) ys
    spares [] only f = tt
    spares (y ∷ ys) (k, only) f =
        ((λ hit. rw (k (has_id-Selects u0.id tenant y hit)) f), spares ys only f)
