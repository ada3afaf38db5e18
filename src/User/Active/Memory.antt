-- ===== src/User/Active/Memory.antt =====
-- The left join of src/user/infrastructure/persistence/user.typeorm-repository.ts over users and tenants
-- in memory: an instance of what `User.Active` says of TypeORM.
use nestjs_hexagonal_templat.Prelude.{
  String, ◌≡◌, some, List, [], ◌∷◌, ◌==◌, eq_iff, inl, inr, find, map, Bool-cases, ap, sym,
}
use nestjs_hexagonal_templat.Common.Exec.{ok}
use nestjs_hexagonal_templat.Database.{In}
use nestjs_hexagonal_templat.Database.Selection.{find-FoundIn}
use nestjs_hexagonal_templat.Tenant.{Tenant}
use nestjs_hexagonal_templat.User.{User}
use nestjs_hexagonal_templat.User.Active.{Entity, JoinedUsers}

pub record Rows : Type 0 where
  pub users : List User
  pub tenants : List Tenant

abbrev with_tenant : List Tenant → User → Entity
with_tenant ts u = (u, find (λ (t : Tenant). t.id == u.tenant_id) ts)

abbrev joined : List Tenant → List User → List Entity
joined ts us = map (with_tenant ts) us

find-tenant :
    (id : String) (ts : List Tenant) (t : Tenant)
    → find (λ (x : Tenant). x.id == id) ts ≡ some t
    → t.id ≡ id
find-tenant id [] t h = absurd (cc (h))
find-tenant id (x ∷ xs) t h = elim (Bool-cases (x.id == id)) [
  | inl same ↦
      let found : some x ≡ some t = rw same at h in
      let here : x ≡ t = cc (found) in rw (← here) ((eq_iff x.id id).0 same)
  | inr other ↦ find-tenant id xs t (rw other at h)
]

pub joined-tenant :
    (ts : List Tenant) (us : List User) (u : User) (t : Tenant)
    → In (u, some t) (joined ts us)
    → t.id ≡ u.tenant_id
joined-tenant ts [] u t i = absurd i
joined-tenant ts (x ∷ xs) u t (inr i) = joined-tenant ts xs u t i
joined-tenant ts (x ∷ xs) u t (inl e) =
    let same : u ≡ x = ap (λ (p : Entity). p.0) e in
    let found : some t ≡ find (λ (y : Tenant). y.id == x.tenant_id) ts =
      ap (λ (p : Entity). p.1) e in
    rw same (find-tenant x.tenant_id ts t (sym found))

abbrev pub memory_join : JoinedUsers Rows
memory_join = record {
  entities = λ w. joined w.tenants w.users;
  get_one = λ p w. (ok (find p (joined w.tenants w.users)), w);
  tenant_law = λ w u t i. joined-tenant w.tenants w.users u t i;
  get_one_law = λ p w. find-FoundIn p (joined w.tenants w.users);
}
