-- ===== src/Tenant/Unique.antt =====
-- No two tenants of src/tenant have one document: the routes keep it so by the order of their calls, with
-- no help of the unique index.
use nestjs_hexagonal_templat.Prelude.{
  ℕ, String, ◌≡◌, refl, ◌⊎◌, inl, inr, Bool-cases, map, Bool, not, Option, none, some, List,
}
use nestjs_hexagonal_templat.Common.Exec.{
  Exec, pure, ◌>>=◌, ◌>>◌, Ensures, Ensures-bind, Ensures-mono, Ensures-state, Preserves,
  bind-Preserves,
}
use nestjs_hexagonal_templat.Common.Errors.{Exception}
use nestjs_hexagonal_templat.Common.Json.{Json}
use nestjs_hexagonal_templat.Common.Pipes.{
  Schema, passed_or, zod_validation_pipe, uuid_validation_pipe,
}
use nestjs_hexagonal_templat.Database.{Generated, FoundIn, Inserted, IsFresh, IsKeyed}
use nestjs_hexagonal_templat.Database.Keyed.{
  IsKeyed-rewrite, IsKeyed-keep, IsKeyed-Inserted, missed-IsFresh,
}
use nestjs_hexagonal_templat.Tenant.{
  Tenant, CreateTenantDto, has_id, has_document, to_domain, to_response,
}
use nestjs_hexagonal_templat.Tenant.Schema.{create_tenant_schema, update_tenant_schema}
use nestjs_hexagonal_templat.Tenant.Port.{TenantRepositoryPort, saved_as, updated_to, Updated}
use nestjs_hexagonal_templat.Tenant.Controller.{
  Request, create, list, find_one, update, remove, require_new, require_tenant, create_tenant,
  apply_update, id_pipe, handle, created, one, all_tenants,
}

abbrev pub document_of : Tenant → String
document_of t = t.document

-- The document of each tenant is its own.
abbrev pub IsUnique : List Tenant → Type 0
IsUnique ts = IsKeyed document_of ts

module _ {W : Type 0} (repo : TenantRepositoryPort W) where
  abbrev pub HasUnique : W → Type 0
  HasUnique w = IsUnique (repo.tenants w)

  HasUnique-same : (w w' : W) → repo.tenants w' ≡ repo.tenants w → HasUnique w → HasUnique w'
  HasUnique-same w w' e h = rw e h

  Updated-HasUnique :
      (t : Tenant) (w w' : W)
      → Updated t (repo.tenants w) (repo.tenants w')
      → HasUnique w
      → HasUnique w'
  Updated-HasUnique t w w' (n, e) h =
      rw e
        (IsKeyed-rewrite document_of (has_id t.id) (updated_to t n) (repo.tenants w) (λ x. refl) h)

  -- What follows once the document is known to be new.
  save-HasUnique :
      (t : Tenant) (w : W)
      → IsFresh document_of t.document (repo.tenants w)
      → HasUnique w
      → Ensures (repo.save t w) (λ _ w'. HasUnique w') HasUnique
  save-HasUnique t w fresh h =
      Ensures-mono (repo.save t w) _ _ _ _ (repo.save_law t w)
        (λ r w' p. inserted r w' p.0.0 p.0.1 p.1) (λ w' e. HasUnique-same w w' e h)
    where
      inserted :
          (r : Tenant) (w' : W) (g : Generated)
          → r ≡ saved_as t g
          → Inserted r (repo.tenants w) (repo.tenants w')
          → HasUnique w'
      inserted r w' g e i =
          IsKeyed-Inserted document_of r (repo.tenants w) (repo.tenants w') (rw e fresh) i h

  -- The search says whether the document is new; nothing is saved where it is not.
  searched-HasUnique :
      (now : ℕ) (dto : CreateTenantDto) (o : Option Tenant) (w : W)
      → FoundIn (has_document dto.document) (repo.tenants w) o
      → HasUnique w
      → Ensures
          ((require_new repo o
              >> (repo.save (to_domain now dto) >>= λ saved. pure (to_response saved)))
            w)
          (λ _ w'. HasUnique w')
          HasUnique
  unfolding to_domain
  searched-HasUnique now dto none w miss h =
      Ensures-bind (repo.save (to_domain now dto) w) (λ saved. pure (to_response saved)) _ _ _ _
        (save-HasUnique (to_domain now dto) w
          (missed-IsFresh document_of dto.document (repo.tenants w) miss) h)
        (λ r w1 k. k) (λ w1 k. k)
  searched-HasUnique now dto (some t) w found h = h

  create_tenant-HasUnique :
      (now : ℕ) (dto : CreateTenantDto) → Preserves HasUnique (create_tenant repo now dto)
  unfolding create_tenant
  create_tenant-HasUnique now dto w h = Ensures-state (create_tenant repo now dto w) HasUnique (
      Ensures-bind (repo.find_by_document dto.document w) _ _ _ _ _
        (repo.find_by_document_law dto.document w)
        (λ o w1 p. searched-HasUnique now dto o w1 (rw p.0 p.1) (HasUnique-same w w1 p.0 h))
        (λ w1 e. HasUnique-same w w1 e h))

  -- A call that leaves the tenants alone.
  reads-HasUnique :
      {A : Type 0} (m : Exec W A) (w : W) (P : A → W → Type 0)
      → Ensures
          (m w)
          (λ a w'. (repo.tenants w' ≡ repo.tenants w) × P a w')
          (λ w'. repo.tenants w' ≡ repo.tenants w)
      → HasUnique w
      → HasUnique (m w).1
  reads-HasUnique m w P law h = Ensures-state (m w) HasUnique (
      Ensures-mono (m w) _ _ _ _ law (λ a w' p. HasUnique-same w w' p.0 h)
        (λ w' e. HasUnique-same w w' e h))

  update-HasUnique : (t : Tenant) → Preserves HasUnique (repo.update t)
  update-HasUnique t w h = Ensures-state (repo.update t w) HasUnique (
      Ensures-mono (repo.update t w) _ _ _ _ (repo.update_law t w)
        (λ r w' p. Updated-HasUnique t w w' p.0 h) either)
    where
      either :
          (w' : W)
          → (repo.tenants w' ≡ repo.tenants w) ⊎ Updated t (repo.tenants w) (repo.tenants w')
          → HasUnique w'
      either w' (inl e) = HasUnique-same w w' e h
      either w' (inr u) = Updated-HasUnique t w w' u h

  soft_delete-HasUnique : (id : String) → Preserves HasUnique (repo.soft_delete id)
  soft_delete-HasUnique id w h = Ensures-state (repo.soft_delete id w) HasUnique (
      Ensures-mono (repo.soft_delete id w) _ _ _ _ (repo.soft_delete_law id w)
        (λ _ w' e. rw e (IsKeyed-keep document_of (λ t. not (has_id id t)) (repo.tenants w) h))
        (λ w' e. HasUnique-same w w' e h))

  find_by_id-HasUnique : (id : String) → Preserves HasUnique (repo.find_by_id id)
  find_by_id-HasUnique id w h =
      reads-HasUnique (repo.find_by_id id) w _ (repo.find_by_id_law id w) h

  require_tenant-HasUnique : (o : Option Tenant) → Preserves HasUnique (require_tenant repo o)
  require_tenant-HasUnique none w h = h
  require_tenant-HasUnique (some t) w h = h

  passed_or-HasUnique :
      {A : Type 0} (e : Exception) (o : Option A) → Preserves HasUnique (passed_or e o)
  passed_or-HasUnique e none w h = h
  passed_or-HasUnique e (some a) w h = h

  HasUnique-then :
      {A B : Type 0} (m : Exec W A) (f : A → Exec W B)
      → Preserves HasUnique m
      → ((a : A) → Preserves HasUnique (f a))
      → Preserves HasUnique (m >>= f)
  HasUnique-then m f h k = bind-Preserves HasUnique m f h k

  HasUnique-respond :
      {A B : Type 0} (m : Exec W A) (f : A → B)
      → Preserves HasUnique m
      → Preserves HasUnique (m >>= λ a. pure (f a))
  HasUnique-respond m f h = HasUnique-then m (λ a. pure (f a)) h (λ a w k. k)

  -- What follows the search for a tenant.
  found-HasUnique :
      {A : Type 0} (id : String) (f : Tenant → Exec W A)
      → ((t : Tenant) → Preserves HasUnique (f t))
      → Preserves HasUnique (repo.find_by_id id >>= λ o. require_tenant repo o >>= f)
  found-HasUnique id f k =
      HasUnique-then (repo.find_by_id id) _ (find_by_id-HasUnique id)
        (λ o. HasUnique-then (require_tenant repo o) f (require_tenant-HasUnique o) k)

  module _ (is_uuid_v4 is_email : String → Bool) (issues : Option Json → Json) where
    id_pipe-HasUnique :
        (id : String) → Preserves HasUnique (id_pipe repo is_uuid_v4 is_email issues id)
    unfolding uuid_validation_pipe
    id_pipe-HasUnique id w h = elim (Bool-cases (is_uuid_v4 id)) [
      | inl good ↦ rw good h
      | inr bad ↦ rw bad h
    ]

    zod-HasUnique :
        {A : Type 0} (schema : Schema A) (body : Option Json)
        → Preserves HasUnique (zod_validation_pipe issues schema body)
    unfolding zod_validation_pipe
    zod-HasUnique schema body = passed_or-HasUnique _ (schema body)

    -- No request, whether it is answered or refused, and whatever the database throws, leads to two
    -- tenants of one document, where there were none.
    pub handle-HasUnique :
        (now : ℕ) (request : Request)
        → Preserves HasUnique (handle repo is_uuid_v4 is_email issues now request)
    unfolding handle
    handle-HasUnique now (create body) =
        HasUnique-then (zod_validation_pipe issues (create_tenant_schema is_email) body) _
          (zod-HasUnique (create_tenant_schema is_email) body)
          (λ dto.
            HasUnique-respond (create_tenant repo now dto) created
              (create_tenant-HasUnique now dto))
    handle-HasUnique now list =
        HasUnique-respond repo.find_all (λ found. all_tenants (map to_response found))
          (λ w h. reads-HasUnique repo.find_all w _ (repo.find_all_law w) h)
    handle-HasUnique now (find_one id) =
        HasUnique-then (id_pipe repo is_uuid_v4 is_email issues id) _ (id_pipe-HasUnique id)
          (λ checked. found-HasUnique checked _ (λ t w h. h))
    handle-HasUnique now (update id body) =
        HasUnique-then (id_pipe repo is_uuid_v4 is_email issues id) _ (id_pipe-HasUnique id)
          (λ checked.
            HasUnique-then (zod_validation_pipe issues (update_tenant_schema is_email) body) _
              (zod-HasUnique (update_tenant_schema is_email) body)
              (λ dto. found-HasUnique checked _ (λ t.
                HasUnique-respond (repo.update (apply_update dto t))
                  (λ updated. one (to_response updated)) (update-HasUnique (apply_update dto t)))))
    handle-HasUnique now (remove id) =
        HasUnique-then (id_pipe repo is_uuid_v4 is_email issues id) _ (id_pipe-HasUnique id)
          (λ checked.
            HasUnique-then (repo.soft_delete checked) _ (soft_delete-HasUnique checked)
              (λ _ w h. h))
