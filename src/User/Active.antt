-- ===== src/User/Active.antt =====
-- findActiveBySupertokensUserId of src/user/infrastructure/persistence/user.typeorm-repository.ts: the
-- active user of a session. TypeORM's left join of the users with their tenants is an argument.
pub mod Memory
use nestjs_hexagonal_templat.Prelude.{
  String, ◌≡◌, refl, ◌&&◌, Bool, true, false, Option, none, some, List, All, ◌==◌, eq_iff, inl, inr,
  ◌∷◌, [], Bool-cases,
}
use nestjs_hexagonal_templat.Common.Exec.{Result, ok, throw, Exec, pure, continue, ◌>>=◌, Ensures}
use nestjs_hexagonal_templat.Database.{In, FoundIn}
use nestjs_hexagonal_templat.Tenant.{Tenant}
use nestjs_hexagonal_templat.User.{User}

-- A user with the tenant that the join finds for it, if any.
abbrev pub Entity : Type 0
Entity = User × Option Tenant

pub record JoinedUsers (W : Type 0) : Type 0 where
  -- The rows of the join, deleted users and tenants among them.
  pub entities : W → List Entity
  -- `getOne` with the conditions of the query.
  pub get_one : (Entity → Bool) → Exec W (Option Entity)
  pub tenant_law :
      (w : W) (u : User) (t : Tenant) → In (u, some t) (entities w) → t.id ≡ u.tenant_id
  -- A query that throws says nothing.
  pub get_one_law :
      (p : Entity → Bool) (w : W)
      → Ensures (get_one p w) (λ o w'. FoundIn p (entities w) o) (λ w'. Unit)

-- IS NULL
abbrev pub is_null {ℓ} : {A : Type ℓ} → Option A → Bool
is_null none = true
is_null (some a) = false

-- The conditions; a column of a tenant that the join does not find is NULL, which is not true.
unfoldable pub is_active_account : String → Entity → Bool
is_active_account id (u, none) = false
is_active_account id (u, some t) =
    u.supertokens_user_id == id
    && (u.is_active && (is_null u.deleted_at && (t.is_active && is_null t.deleted_at)))

abbrev pub user_of : Option Entity → Option User
user_of none = none
user_of (some e) = some e.0

module _ {W : Type 0} (join : JoinedUsers W) where
  unfoldable pub find_active_by_supertokens_user_id : String → Exec W (Option User)
  unfolding is_active_account
  find_active_by_supertokens_user_id id = do
    entity ← join.get_one (is_active_account id)
    pure (user_of entity)

  -- What the caller of the query gets, with the database in the state.
  abbrev pub find_active : W → String → Result (Option User)
  find_active w id = (find_active_by_supertokens_user_id id w).0

  -- A user who is not deactivated and not deleted, of a tenant that is neither.
  abbrev pub IsActive : W → String → User → Type 0
  IsActive w id u =
      (t : Tenant) × In (u, some t) (join.entities w)
      × (t.id ≡ u.tenant_id)
      × (u.supertokens_user_id ≡ id)
      × (u.is_active ≡ true)
      × (u.deleted_at ≡ none)
      × (t.is_active ≡ true)
      × (t.deleted_at ≡ none)

  abbrev pub IsUnknown : W → String → Type 0
  IsUnknown w id = (u : User) → IsActive w id u → ⊥

  null_none {ℓ} : {A : Type ℓ} (o : Option A) → is_null o ≡ true → o ≡ none
  null_none none h = refl
  null_none (some a) h = absurd (cc (h))

  both_true : (a b : Bool) → (a && b) ≡ true → (a ≡ true) × (b ≡ true)
  both_true true b h = (refl, h)
  both_true false b h = absurd (cc (h))

  not_both : (b : Bool) → b ≡ false → b ≡ true → ⊥
  not_both b h k = absurd (cc (h, k))

  found-IsActive :
      (w : W) (id : String) (e : Entity)
      → In e (join.entities w)
      → is_active_account id e ≡ true
      → IsActive w id e.0
  unfolding is_active_account
  found-IsActive w id (u, none) i h = absurd (cc (h))
  found-IsActive w id (u, some t) i h =
      let (named, h1) = both_true (u.supertokens_user_id == id) _ h in
      let (active, h2) = both_true u.is_active _ h1 in
      let (kept, h3) = both_true (is_null u.deleted_at) _ h2 in
      let (running, h4) = both_true t.is_active _ h3 in
      (
        t,
        i,
        join.tenant_law w u t i,
        (eq_iff u.supertokens_user_id id).0 named,
        active,
        null_none u.deleted_at kept,
        running,
        null_none t.deleted_at h4,
      )

  missed :
      (p : Entity → Bool) (e : Entity) (es : List Entity)
      → All (λ x. p x ≡ false) es
      → In e es
      → p e ≡ false
  missed p e [] a i = absurd i
  missed p e (x ∷ xs) a (inl same) = rw same a.0
  missed p e (x ∷ xs) a (inr i) = missed p e xs a.1 i

  active_passes :
      (w : W) (id : String) (u : User) (a : IsActive w id u)
      → is_active_account id (u, some a.0) ≡ true
  unfolding is_active_account
  active_passes w id u (t, i, own, named, active, kept, running, there) =
      rw ((eq_iff u.supertokens_user_id id).1 named, active, kept, running, there) refl

  -- What an answer of the query says of the caller.
  abbrev pub IsAnswer : W → String → Option User → Type 0
  IsAnswer w id none = IsUnknown w id
  IsAnswer w id (some u) = IsActive w id u

  entity-IsAnswer :
      (w : W) (id : String) (r : Result (Option Entity) × W) (o : Option User)
      → Ensures r (λ e w'. FoundIn (is_active_account id) (join.entities w) e) (λ w'. Unit)
      → (continue r.0 (λ e. pure (user_of e)) r.1).0 ≡ ok o
      → IsAnswer w id o
  entity-IsAnswer w id (throw x, v) o law h = absurd (cc (h))
  entity-IsAnswer w id (ok (some e), v) o law h =
      let same : some e.0 ≡ o = cc (h) in rw (← same) (found-IsActive w id e law.0 law.1)
  entity-IsAnswer w id (ok none, v) o law h =
      let same : none ≡ o = cc (h) in
      rw (← same) (λ u a.
        not_both _ (missed (is_active_account id) (u, some a.0) (join.entities w) law a.1)
          (active_passes w id u a))

  -- The query gives an active user with the id, or none where there is no such user.
  pub find_active-IsAnswer :
      (w : W) (id : String) (o : Option User) → find_active w id ≡ ok o → IsAnswer w id o
  unfolding find_active_by_supertokens_user_id
  find_active-IsAnswer w id o h =
      entity-IsAnswer w id (join.get_one (is_active_account id) w) o
        (join.get_one_law (is_active_account id) w) h
