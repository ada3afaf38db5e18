-- ===== src/Tenant/Controller.antt =====
-- src/tenant/infrastructure/http/tenant.controller.ts, with
-- src/tenant/application/use-cases/create-tenant.use-case.ts: the routes of /v1/tenants.
use nestjs_hexagonal_templat.Prelude.{ℕ, String, Bool, Option, none, some, List, [], ◌∷◌, map}
use nestjs_hexagonal_templat.Common.Exec.{Exec, pure, raise, ◌>>=◌, ◌>>◌}
use nestjs_hexagonal_templat.Common.Errors.{
  Exception, domain_error, http_conflict, not_found, tenant_not_found,
  tenant_document_already_exists,
}
use nestjs_hexagonal_templat.Common.Json.{Json}
use nestjs_hexagonal_templat.Common.Pipes.{zod_validation_pipe, uuid_validation_pipe}
use nestjs_hexagonal_templat.User.{Role, superadmin}
use nestjs_hexagonal_templat.Tenant.{
  Tenant, CreateTenantDto, UpdateTenantDto, TenantResponseDto, to_response, to_domain,
}
use nestjs_hexagonal_templat.Tenant.Schema.{create_tenant_schema, update_tenant_schema}
use nestjs_hexagonal_templat.Tenant.Port.{TenantRepositoryPort}

abbrev pub error_document_exists : Exception
error_document_exists =
    domain_error tenant_document_already_exists "CNPJ já cadastrado" http_conflict

abbrev pub error_tenant_not_found : Exception
error_tenant_not_found = domain_error tenant_not_found "Tenant não encontrado" not_found

pub data Request : Type 0 where
  create : Option Json → Request
  list : Request
  find_one : String → Request
  update : String → Option Json → Request
  remove : String → Request

pub data Response : Type 0 where
  created one : TenantResponseDto → Response
  all_tenants : List TenantResponseDto → Response
  no_content : Response

-- @Roles of the routes
abbrev pub required_roles : List Role
required_roles = superadmin ∷ []

abbrev pub field_or {ℓ} : {A : Type ℓ} → Option A → A → A
field_or none old = old
field_or (some new) old = new

-- The assignments of `update`.
abbrev pub apply_update : UpdateTenantDto → Tenant → Tenant
apply_update dto t = record t {
  name = field_or dto.name t.name;
  email = field_or dto.email t.email;
  phone = field_or dto.phone t.phone;
  is_active = field_or dto.is_active t.is_active;
}

module _ {W : Type 0} (repo : TenantRepositoryPort W) where
  abbrev pub require_new : Option Tenant → Exec W (Unit {0})
  require_new none = pure tt
  require_new (some t) = raise error_document_exists

  unfoldable pub create_tenant : ℕ → CreateTenantDto → Exec W TenantResponseDto
  unfolding to_domain to_response
  create_tenant now dto = do
    existing ← repo.find_by_document dto.document
    require_new existing
    saved ← repo.save (to_domain now dto)
    pure (to_response saved)

  abbrev pub require_tenant : Option Tenant → Exec W Tenant
  require_tenant none = raise error_tenant_not_found
  require_tenant (some t) = pure t

  module _ (is_uuid_v4 is_email : String → Bool) (issues : Option Json → Json) where
    -- new UuidValidationPipe()
    abbrev pub id_pipe : String → Exec W String
    unfolding uuid_validation_pipe
    id_pipe id = uuid_validation_pipe is_uuid_v4 "id" id

    -- `now` is `new Date()`.
    unfoldable pub handle : ℕ → Request → Exec W Response
    unfolding zod_validation_pipe create_tenant_schema update_tenant_schema create_tenant
        to_response
    handle now (create body) = do
      dto ← zod_validation_pipe issues (create_tenant_schema is_email) body
      t ← create_tenant now dto
      pure (created t)
    handle now list = do found ← repo.find_all; pure (all_tenants (map to_response found))
    handle now (find_one id) = do
      checked ← id_pipe id
      found ← repo.find_by_id checked
      t ← require_tenant found
      pure (one (to_response t))
    handle now (update id body) = do
      checked ← id_pipe id
      dto ← zod_validation_pipe issues (update_tenant_schema is_email) body
      found ← repo.find_by_id checked
      t ← require_tenant found
      updated ← repo.update (apply_update dto t)
      pure (one (to_response updated))
    handle now (remove id) = do checked ← id_pipe id; repo.soft_delete checked; pure no_content
