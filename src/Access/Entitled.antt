-- ===== src/Access/Entitled.antt =====
-- Who passes the guards of src/common/guards, after src/common/middleware/tenant-context.middleware.ts.
use nestjs_hexagonal_templat.Prelude.{
  String, ◌≡◌, refl, ◌≢◌, ◌↔◌, ◌⊎◌, inl, inr, true, false, Option, none, some, List, [], ◌∷◌, arith,
  ◌==◌, eq_iff, if◌then◌else◌, Bool-cases, any,
}
use nestjs_hexagonal_templat.Common.Exec.{Result, ok, throw}
use nestjs_hexagonal_templat.User.{Role, User}
use nestjs_hexagonal_templat.User.Controller.{RequestUser}
use nestjs_hexagonal_templat.User.Active.{
  JoinedUsers, find_active, IsActive, IsUnknown, find_active-IsAnswer,
}
use nestjs_hexagonal_templat.Access.{
  from_user, from_superadmin, session_user, tenant_context, passed, access, IsEntitled,
}

entitled :
    (roles : List Role) (u : RequestUser)
    → access false roles (some u) ≡ passed
    → IsEntitled roles u
unfolding access
entitled [] u h = ground (arith, eq_iff u.tenant_id "")
entitled (r ∷ roles) u h = ground (arith, eq_iff u.tenant_id "")

entitled_passes :
    (roles : List Role) (u : RequestUser)
    → IsEntitled roles u
    → access false roles (some u) ≡ passed
unfolding access
entitled_passes roles u (inl s) = ground (arith, eq_iff u.tenant_id "")
entitled_passes [] u (inr (t, h)) = ground (arith, eq_iff u.tenant_id "")
entitled_passes (r ∷ roles) u (inr (t, inl h)) = absurd (cc)
entitled_passes (r ∷ roles) u (inr (t, inr h)) = ground (arith, eq_iff u.tenant_id "")

anonymous : (roles : List Role) → access false roles none ≢ passed
unfolding access
anonymous roles h = absurd (cc)

-- RolesGuard and TenantGuard together let exactly the callers into a route that is not public that are
-- superadmins, or are of a tenant and have one of the route's roles, if it names any. The application's
-- other guards may still refuse them.
pub access-IsEntitled :
    (roles : List Role) (caller : Option RequestUser)
    → (access false roles caller ≡ passed)
      ↔ ((u : RequestUser) × (caller ≡ some u) × IsEntitled roles u)
access-IsEntitled roles none = (λ h. absurd (anonymous roles h), λ p. absurd (cc))
access-IsEntitled roles (some u) =
    (λ h. (u, refl, entitled roles u h), λ p. rw p.1 (entitled_passes roles p.0 p.2))

module _ {W : Type 0} (join : JoinedUsers W) where
  -- What stands behind a request that reaches a route that is not public: a session, and a row of an
  -- active user who is entitled, or no such row and a superadmin's id.
  abbrev pub IsBacked : W → List String → Result (Option String) → List Role → Type 0
  IsBacked w superadmins session roles =
      (id : String) × (session ≡ ok (some id))
      × (((u : User) × IsActive join w id u × IsEntitled roles (from_user u id))
          ⊎ (IsUnknown join w id × (any (λ s. s == id) superadmins ≡ true)))

  session_user-IsBacked :
      (w : W) (superadmins : List String) (id : String) (roles : List Role)
      (r : Result (Option User))
      → find_active join w id ≡ r
      → access false roles (session_user superadmins id r) ≡ passed
      → IsBacked w superadmins (ok (some id)) roles
  session_user-IsBacked w superadmins id roles (ok (some u)) e p = (
    id,
    refl,
    inl (u, find_active-IsAnswer join w id (some u) e, entitled roles (from_user u id) p),
  )
  session_user-IsBacked w superadmins id roles (throw x) e p = absurd (anonymous roles p)
  session_user-IsBacked w superadmins id roles (ok none) e p =
      let shown : access false roles
            (if any (λ s. s == id) superadmins then some (from_superadmin id) else none)
          ≡ passed =
        p in
      elim (Bool-cases (any (λ s. s == id) superadmins)) [
        | inl listed ↦ (id, refl, inr (find_active-IsAnswer join w id none e, listed))
        | inr other ↦ absurd (anonymous roles (rw other at shown))
      ]

  -- RolesGuard and TenantGuard let a request into a route that is not public only with a session, and
  -- then only as a user of the session's id who is entitled to the route, is neither deactivated nor
  -- deleted, and has a tenant that is neither, or, where there is no such user, with the id of a superadmin.
  pub access-tenant_context :
      (w : W) (superadmins : List String) (session : Result (Option String)) (roles : List Role)
      → access false roles (tenant_context superadmins session (find_active join w)) ≡ passed
      → IsBacked w superadmins session roles
  unfolding tenant_context
  access-tenant_context w superadmins (ok none) roles h = absurd (anonymous roles h)
  access-tenant_context w superadmins (throw e) roles h = absurd (anonymous roles h)
  access-tenant_context w superadmins (ok (some id)) roles h =
      session_user-IsBacked w superadmins id roles (find_active join w id) refl h
