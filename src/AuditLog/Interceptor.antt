-- ===== src/AuditLog/Interceptor.antt =====
-- src/common/interceptors/audit-log.interceptor.ts: the interceptor around the handler of a route.
use Prim.Native.Char.{code}
use Prim.Native.String.{String, [], ◌∷◌}
use mathlib.Core.List
use nestjs_hexagonal_templat.Prelude.{
  ℕ, zero, suc, Bool, false, not, ◌&&◌, ◌||◌, Option, none, some, ◌==◌, eqb, if◌then◌else◌,
}
use nestjs_hexagonal_templat.Common.Exec.{ok, Exec, ◌>>=◌}
use nestjs_hexagonal_templat.Common.Json.{Json, arr, str, nil, cons, get_in, is_truthy}
use nestjs_hexagonal_templat.Common.Text.{split}
use nestjs_hexagonal_templat.Common.Patterns.{skip_hex}
use nestjs_hexagonal_templat.User.Controller.{RequestUser}
use nestjs_hexagonal_templat.AuditLog.{sanitize_body}

-- What of the request the interceptor reads; `params_id` is `request.params?.id`, a text or a list of
-- texts.
pub record Request : Type 0 where
  pub method : String
  pub path : String
  pub user : Option RequestUser
  pub params_id : Option Json
  pub body : Option Json
  pub ip : Option String
  pub remote_address : Option String
  pub user_agent : Option String

-- src/audit-log/domain/entities/audit-log.entity.ts, before it is saved. `after` is `changes.after`.
pub record AuditLog : Type 0 where
  pub tenant_id : Option String
  pub user_id : String
  pub action : String
  pub entity_type : String
  pub entity_id : Json
  pub after : Option Json
  pub ip_address : String
  pub user_agent : String

abbrev pub is_write : String → Bool
is_write method = method == "POST" || method == "PUT" || method == "PATCH" || method == "DELETE"

abbrev pub map_method_to_action : String → String
map_method_to_action method =
    if method == "POST"
    then "CREATE"
    else if method == "PUT" || method == "PATCH"
    then "UPDATE"
    else if method == "DELETE"
    then "DELETE"
    else method

abbrev pub first_item : Json → Option Json
first_item (arr nil) = none
first_item (arr (cons v rest)) = some v
first_item v = some v

-- `value.id` of a `data` that is there.
abbrev pub id_of : Option Json → Option Json
id_of none = none
id_of (some data_value) = get_in "id" data_value

abbrev pub data_of : Option Json → Option Json
data_of none = none
data_of (some body) = get_in "data" body

unfoldable pub extract_entity_id : Request → Option Json → Option Json
extract_entity_id request response =
    if is_truthy request.params_id
    then elim request.params_id [ none ↦ none | some id ↦ first_item id ]
    else id_of (data_of response)

-- What follows `n` hexadecimal digits and, but for the last group, a dash.
abbrev pub skip_char : ℕ → Option String → Option String
skip_char c none = none
skip_char c (some []) = none
skip_char c (some (d ∷ s)) = if eqb (code d) c then some s else none

abbrev pub skip_group : ℕ → Option String → Option String
skip_group n none = none
skip_group n (some s) = skip_char b'-' (skip_hex n s)

abbrev pub is_last_group : ℕ → Option String → Bool
is_last_group n none = false
is_last_group n (some s) = elim (skip_hex n s) [ none ↦ false | some left ↦ left == "" ]

unfoldable pub is_uuid : String → Bool
unfolding skip_hex
is_uuid value =
    is_last_group 12 (skip_group 4 (skip_group 4 (skip_group 4 (skip_group 8 (some value)))))

-- The loop over the segments, the last of them first: `found` is what the segments behind gave.
unfoldable pub last_name : List.List String → Option String
last_name List.[] = none
last_name (List.◌∷◌ part rest) = elim (last_name rest) [
  | some found ↦ some found
  | none ↦ if part == "" || is_uuid part || part == "api" || part == "v1" then none else some part
]

unfoldable pub extract_entity_type : Request → String
unfolding last_name
extract_entity_type request = elim (last_name (split b'/' request.path)) [
  | none ↦ "unknown"
  | some part ↦ part
]

-- s.substring(0, n)
unfoldable pub front : ℕ → String → String
front zero s = ""
front (suc n) [] = ""
front (suc n) (c ∷ s) = c ∷ front n s

-- a || b, for texts that may be absent
abbrev pub or_else : Option String → Option String → Option String
or_else none other = other
or_else (some s) other = if s == "" then other else some s

abbrev pub text_or : Option String → String → String
text_or none other = other
text_or (some s) other = if s == "" then other else s

-- request.user, where `request.user?.userId` is there.
abbrev pub caller_of : Option RequestUser → Option RequestUser
caller_of none = none
caller_of (some caller) = if caller.user_id == "" then none else some caller

unfoldable pub audit_log : Request → RequestUser → Bool → Option Json → AuditLog
unfolding extract_entity_id extract_entity_type front
audit_log request caller skip_body response = record {
  tenant_id = if caller.tenant_id == "" then none else some caller.tenant_id;
  user_id = caller.user_id;
  action = map_method_to_action request.method;
  entity_type = extract_entity_type request;
  entity_id =
      let id = extract_entity_id request response in
      if is_truthy id then elim id [ none ↦ str "unknown" | some v ↦ v ] else str "unknown";
  after =
      if not (request.method == "DELETE") && not skip_body
      then sanitize_body request.body
      else none;
  ip_address = front 50 (text_or (or_else request.ip request.remote_address) "");
  user_agent = front 500 (text_or request.user_agent "");
}

module _ {W : Type 0} (save : AuditLog → Exec W (Unit {0})) where
  -- `tap`: the log is saved after the handler answered. The promise of `save` is not awaited and its
  -- failure is caught, so only what it does to the world is left.
  abbrev pub record_for : Request → Bool → Option Json → Option RequestUser → W → W
  record_for request skip_body response none w = w
  record_for request skip_body response (some caller) w =
      (save (audit_log request caller skip_body response) w).1

  unfoldable pub record_log : Request → Bool → Option Json → W → W
  unfolding audit_log
  record_log request skip_body response w =
      record_for request skip_body response (caller_of request.user) w

  -- `skip_body` is the metadata of @SkipAuditBody on the handler or its class.
  unfoldable pub intercept : Request → Bool → Exec W (Option Json) → Exec W (Option Json)
  unfolding record_log
  intercept request skip_body next =
      if is_write request.method
      then next >>= (λ response w. (ok response, record_log request skip_body response w))
      else next
