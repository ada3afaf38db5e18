-- ===== src/AuditLog.antt =====
-- src/common/interceptors/audit-log.interceptor.ts: what of a request's body goes into the audit log.
-- Bodies are what `JSON.parse` makes, so no object is a `Date` or a `Buffer`.
pub mod Redaction
pub mod Keys
pub mod Interceptor
pub mod Safe
pub mod Repository
mod Tests
use Prim.Native.String.{String}
use nestjs_hexagonal_templat.Prelude.{
  ℕ, suc, ◌+◌, ◌≡◌, Bool, true, false, ◌&&◌, ◌||◌, Option, none, some, ◌==◌, leb, if◌then◌else◌,
}
use nestjs_hexagonal_templat.Common.Json.{Json, arr, obj, str, Items, nil, cons, Fields, end, field}
use nestjs_hexagonal_templat.Common.Patterns.{starts, after, skip_dash, occurs}

abbrev pub key_after : Option String → Bool
key_after none = false
key_after (some s) = starts "key" (skip_dash s)

-- One of the alternatives of SENSITIVE_KEY_PATTERN at the start of the text.
abbrev pub secret_here : String → Bool
secret_here s =
    starts "pass" s
    || starts "pwd" s
    || starts "senha" s
    || starts "secret" s
    || starts "token" s
    || starts "credential" s
    || starts "authorization" s
    || key_after (after "api" s)

-- SENSITIVE_KEY_PATTERN.test(key)
unfoldable pub is_sensitive : String → Bool
unfolding occurs starts after
is_sensitive key = occurs secret_here key

abbrev pub redacted_value : Json
redacted_value = str "[REDACTED]"

abbrev pub max_redaction_depth : ℕ
max_redaction_depth = 5

-- `result[key] = value` before the keys that follow. An assignment to `__proto__` makes no key of
-- the object's own.
unfoldable pub put : String → Json → Fields → Fields
put key v rest = if key == "__proto__" then rest else field key v rest

unfoldable mutual
  pub redact : Fields → ℕ → Fields
  redact end depth = end
  redact (field key v fs) depth =
      let below = redact_value v depth in
      let rest = redact fs depth in
      put key
        (if is_sensitive key
          then redacted_value
          else if leb max_redaction_depth depth
          then redacted_value
          else below)
        rest

  -- The value of a key that is not sensitive.
  pub redact_value : Json → ℕ → Json
  redact_value (arr items) depth = arr (redact_items items depth)
  redact_value (obj fs) depth = obj (redact fs (suc depth))
  redact_value v depth = v

  pub redact_items : Items → ℕ → Items
  redact_items nil depth = nil
  redact_items (cons (obj fs) rest) depth =
      cons (obj (redact fs (suc depth))) (redact_items rest depth)
  redact_items (cons item rest) depth = cons item (redact_items rest depth)

-- sanitizeBody
unfoldable pub sanitize_body : Option Json → Option Json
unfolding redact
sanitize_body (some (obj fs)) = some (obj (redact fs 0))
sanitize_body _ = none
