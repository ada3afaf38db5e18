-- ===== src/Tenant/Tests.antt =====
-- The routes of the tenants on a table in memory with one tenant.
use nestjs_hexagonal_templat.Prelude.{String, ◌≡◌, refl, true, none, some, [], ◌∷◌, map}
use nestjs_hexagonal_templat.Common.Exec.{Result, throw}
use nestjs_hexagonal_templat.Common.Documents.{digits}
use nestjs_hexagonal_templat.Common.Json.{Json, null, obj, field, end, str}
use nestjs_hexagonal_templat.Database.Memory.{Store, memory_table}
use nestjs_hexagonal_templat.Tenant.{Tenant}
use nestjs_hexagonal_templat.Tenant.Port.{TenantRepositoryPort}
use nestjs_hexagonal_templat.Tenant.Repository.{tenant_key, stamp, tenant_repository}
use nestjs_hexagonal_templat.Tenant.Controller.{
  Request, create, Response, handle, error_document_exists,
}
use nestjs_hexagonal_templat.Tenant.Unique.{HasUnique, handle-HasUnique}

abbrev World : Type 0
World = Store tenant_key

abbrev repository : TenantRepositoryPort World
unfolding tenant_repository
repository = tenant_repository (memory_table tenant_key stamp "t2" 1000)

abbrev acme : Tenant
acme = record {
  id = "t1";
  name = "Acme";
  document = "11.222.333/0001-81";
  email = "a@acme.com";
  phone = "11999990000";
  is_active = true;
  created_at = 0;
  updated_at = 0;
  deleted_at = none;
}

abbrev world : World
world = (acme ∷ [], (tt, tt))

abbrev body : String → Json
body document = obj (
    field "name" (str "Beta") (
      field "document" (str document)
        (field "email" (str "b@beta.com") (field "phone" (str "11988880000") end))))

abbrev request : String → Request
request document = create (some (body document))

abbrev run : String → Result Response × World
unfolding handle
run document = handle repository (λ s. true) (λ s. true) (λ v. null) 7 (request document) world

handle-HasUnique_example :
    HasUnique repository
      (handle repository
        (λ s. true)
        (λ s. true)
        (λ v. null)
        7
        (request "11.222.333/0001-81")
        world).1
unfolding repository
handle-HasUnique_example =
    handle-HasUnique repository (λ s. true) (λ s. true) (λ v. null) 7 (request "11.222.333/0001-81")
      world (tt, tt)

-- The same text is refused.
same_text_refused : (run "11.222.333/0001-81").0 ≡ throw error_document_exists
unfolding run repository
same_text_refused = refl

-- The same number with other punctuation is not.
same_number_saved :
    map (λ (t : Tenant). digits t.document) (run "11222333000181").1.0
    ≡ digits "11222333000181" ∷ digits "11222333000181" ∷ []
unfolding run digits repository
same_number_saved = refl
