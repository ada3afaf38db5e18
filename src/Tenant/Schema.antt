-- ===== src/Tenant/Schema.antt =====
-- src/tenant/application/dtos/tenant.dto.ts: the schemas of the bodies. What zod takes for an e-mail
-- address is an argument.
use nestjs_hexagonal_templat.Prelude.{String, Bool, none, some, if◌then◌else◌}
use nestjs_hexagonal_templat.Common.Json.{get}
use nestjs_hexagonal_templat.Common.Documents.{validate_cnpj}
use nestjs_hexagonal_templat.Common.Pipes.{
  ◌>>=◌, Schema, fields_of, text_between, boolean, optional, text_if,
}
use nestjs_hexagonal_templat.Tenant.{CreateTenantDto, UpdateTenantDto}

-- z.string().min(14).max(18).refine(validateCnpj)
unfoldable pub document : Schema String
unfolding text_between validate_cnpj
document v = text_between 14 18 v >>= λ s. if validate_cnpj s then some s else none

module _ (is_email : String → Bool) where
  unfoldable pub create_tenant_schema : Schema CreateTenantDto
  unfolding get text_between document
  create_tenant_schema body = do
    fs ← fields_of body
    name ← text_between 2 255 (get "name" fs)
    number ← document (get "document" fs)
    email ← text_if is_email (get "email" fs)
    phone ← text_between 10 20 (get "phone" fs)
    some (record { name = name; document = number; email = email; phone = phone })

  unfoldable pub update_tenant_schema : Schema UpdateTenantDto
  unfolding get text_between boolean optional
  update_tenant_schema body = do
    fs ← fields_of body
    name ← optional (text_between 2 255) (get "name" fs)
    email ← optional (text_if is_email) (get "email" fs)
    phone ← optional (text_between 10 20) (get "phone" fs)
    is_active ← optional boolean (get "isActive" fs)
    some (record { name = name; email = email; phone = phone; is_active = is_active })
