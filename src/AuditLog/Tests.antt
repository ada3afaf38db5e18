-- ===== src/AuditLog/Tests.antt =====
-- The audit log of a request that changes a password.
use nestjs_hexagonal_templat.Prelude.{◌≡◌, refl, false, Option, none, some, [], apart}
use nestjs_hexagonal_templat.Common.Exec.{ok, Exec}
use nestjs_hexagonal_templat.Common.Json.{Json, arr, obj, str, nil, cons, Fields, end, field, get}
use nestjs_hexagonal_templat.Common.Text.{split}
use nestjs_hexagonal_templat.User.{admin}
use nestjs_hexagonal_templat.Prelude.{length}
use nestjs_hexagonal_templat.Database.{Table}
use nestjs_hexagonal_templat.Database.Memory.{Store, memory_table}
use nestjs_hexagonal_templat.AuditLog.Repository.{
  AuditLogRow, row_key, stamp, save, save_log, Stored, intercept-Stored,
}
use nestjs_hexagonal_templat.AuditLog.{is_sensitive, redacted_value, put, redact}
use nestjs_hexagonal_templat.AuditLog.Redaction.{IsFlat, kept_value, get-redact}
use nestjs_hexagonal_templat.AuditLog.Interceptor.{Request, is_uuid, extract_entity_type, intercept}

abbrev secrets : Fields
secrets = field "name" (str "Ana") (
    field "newPassword" (str "hunter2")
      (field "devices" (arr (cons (obj (field "api_key" (str "k1") end)) nil)) end))

abbrev hidden : Fields
hidden = field "name" (str "Ana") (
    field "newPassword" redacted_value
      (field "devices" (arr (cons (obj (field "api_key" redacted_value end)) nil)) end))

redact-secrets : redact secrets 0 ≡ hidden
unfolding redact is_sensitive put
redact-secrets = refl

-- An array inside an array is kept as it came.
abbrev nested : Fields
nested = field "rows" (arr (cons (arr (cons (obj (field "password" (str "x") end)) nil)) nil)) end

nested_kept : redact nested 0 ≡ nested
unfolding redact is_sensitive put
nested_kept = refl

abbrev change : Request
change = record {
  method = "PATCH";
  path = "/api/v1/users/3f1c9f4a-1111-4222-8333-444455556666/password";
  user =
      some (record { user_id = "u1"; tenant_id = "t1"; role = admin; supertokens_user_id = "s1" });
  params_id = some (str "3f1c9f4a-1111-4222-8333-444455556666");
  body = some (obj secrets);
  ip = some "10.0.0.1";
  remote_address = none;
  user_agent = none;
}

change_type : extract_entity_type change ≡ "password"
unfolding extract_entity_type split is_uuid
change_type = refl

abbrev World : Type 0
World = Store row_key

abbrev table : Table World AuditLogRow row_key stamp
table = memory_table row_key stamp "a1" 1000

abbrev empty : World
empty = ([], tt)

abbrev next : Exec World (Option Json)
next w = (ok none, w)

intercept-Stored_example :
    ((intercept (save_log table) change false next empty).0 ≡ ok none)
    × Stored table false
        (table.rows empty)
        (table.rows (intercept (save_log table) change false next empty).1)
unfolding IsFlat
intercept-Stored_example =
    intercept-Stored table change false next empty (tt, (tt, (((tt, tt), tt), tt)))

one_row : length (table.rows (intercept (save_log table) change false next empty).1) ≡ 1
unfolding intercept save
one_row = refl

get-redact_example : get "name" (redact secrets 0) ≡ some (kept_value "name" 0 (str "Ana"))
unfolding get
get-redact_example = get-redact "name" secrets 0 (apart "name" "__proto__" refl)
