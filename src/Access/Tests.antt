-- ===== src/Access/Tests.antt =====
-- The guards of src/common/guards at concrete callers.
use nestjs_hexagonal_templat.Prelude.{◌≡◌, refl, ◌↔◌, true, false, none, some, [], ◌∷◌}
use nestjs_hexagonal_templat.Common.Exec.{ok}
use nestjs_hexagonal_templat.Tenant.{Tenant}
use nestjs_hexagonal_templat.User.{admin, User}
use nestjs_hexagonal_templat.User.Active.{find_active, find_active_by_supertokens_user_id}
use nestjs_hexagonal_templat.User.Active.Memory.{Rows, memory_join}
use nestjs_hexagonal_templat.User.Controller.{RequestUser}
use nestjs_hexagonal_templat.Access.{superadmin_ids, tenant_context, passed, access, IsEntitled}
use nestjs_hexagonal_templat.Access.Entitled.{access-IsEntitled, IsBacked, access-tenant_context}

ids_are_trimmed : superadmin_ids " a, ,b " ≡ "a" ∷ "b" ∷ []
unfolding superadmin_ids
ids_are_trimmed = refl

abbrev caller : RequestUser
caller = record { user_id = "u"; tenant_id = "t"; role = admin; supertokens_user_id = "s" }

access-IsEntitled_example :
    (access false (admin ∷ []) (some caller) ≡ passed)
    ↔ ((u : RequestUser) × (some caller ≡ some u) × IsEntitled (admin ∷ []) u)
access-IsEntitled_example = access-IsEntitled (admin ∷ []) (some caller)

abbrev ana : User
ana = record {
  id = "u1";
  tenant_id = "t1";
  supertokens_user_id = "s1";
  name = "Ana";
  email = "ana@example.com";
  phone = none;
  role = admin;
  is_active = true;
  created_at = 0;
  updated_at = 0;
  deleted_at = none;
}

abbrev open_tenant : Tenant
open_tenant = record {
  id = "t1";
  name = "Loja";
  document = "1";
  email = "loja@example.com";
  phone = "1";
  is_active = true;
  created_at = 0;
  updated_at = 0;
  deleted_at = none;
}

abbrev rows : Rows
rows = record { users = ana ∷ []; tenants = open_tenant ∷ [] }

admin_passes :
    access false
      (admin ∷ [])
      (tenant_context ("a" ∷ []) (ok (some "s1")) (find_active memory_join rows))
    ≡ passed
unfolding access tenant_context find_active_by_supertokens_user_id
admin_passes = refl

superadmin_passes :
    access false
      (admin ∷ [])
      (tenant_context ("a" ∷ []) (ok (some "a")) (find_active memory_join rows))
    ≡ passed
unfolding access tenant_context find_active_by_supertokens_user_id
superadmin_passes = refl

-- A user of a tenant that is deactivated.
closed_tenant_refused :
    find_active memory_join
      (record rows { tenants = record open_tenant { is_active = false } ∷ [] })
      "s1"
    ≡ ok none
unfolding find_active_by_supertokens_user_id
closed_tenant_refused = refl

access-tenant_context_example : IsBacked memory_join rows ("a" ∷ []) (ok (some "s1")) (admin ∷ [])
access-tenant_context_example =
    access-tenant_context memory_join rows ("a" ∷ []) (ok (some "s1")) (admin ∷ []) admin_passes
