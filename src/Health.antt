-- ===== src/Health.antt =====
-- src/health: what the indicators of s3.health-indicator.ts and redis.health-indicator.ts say. The answers of S3 and of
-- Redis are arguments; an exception of theirs is its text.
mod Tests
use nestjs_hexagonal_templat.Prelude.{
  String, ◌≡◌, ◌≢◌, refl, sym, ap, ◌∙◌, inl, inr, Bool, true, false, not, Option, none, some, ◌==◌,
  eq_iff, arith, if◌then◌else◌, Bool-cases,
}
use nestjs_hexagonal_templat.Common.Json.{Fields, field, end, bool, str}

-- this.getStatus(key, isHealthy, data)
pub record Status : Type 0 where
  pub key : String
  pub is_healthy : Bool
  pub details : Fields

-- A status that is returned, or the one that a HealthCheckError carries under its message.
pub data HealthAnswer : Type 0 where
  returned : Status → HealthAnswer
  health_check_error : String → Status → HealthAnswer

-- What a call of a service gives: a value, or the text of the error.
pub data Reply (A : Type 0) : Type 0 where
  answered : A → Reply A
  failed : String → Reply A

abbrev up : String → Fields → HealthAnswer
up key details = returned (record { key = key; is_healthy = true; details = details })

abbrev down : String → String → String → HealthAnswer
down key text message =
    health_check_error text
      (record { key = key; is_healthy = false; details = field "message" (str message) end })

abbrev pub judged_bucket : String → Reply (Unit {0}) → HealthAnswer
judged_bucket key (answered u) = up key end
judged_bucket key (failed e) = down key "S3 health check failed" "Storage indisponível"

-- S3HealthIndicator.isHealthy; `head` is what HeadBucketCommand gives for the bucket.
unfoldable pub s3_is_healthy : Option String → (String → Reply (Unit {0})) → String → HealthAnswer
s3_is_healthy none head key = up key (field "configured" (bool false) end)
s3_is_healthy (some bucket) head key =
    let judged = judged_bucket key (head bucket) in
    if bucket == "" then up key (field "configured" (bool false) end) else judged

-- RedisHealthIndicator.isHealthy; the argument is what the PING gives.
unfoldable pub redis_is_healthy : Reply String → String → HealthAnswer
redis_is_healthy (answered result) key =
    if not (result == "PONG")
    then down key "Redis health check failed" "Redis indisponível"
    else up key end
redis_is_healthy (failed e) key = down key "Redis health check failed" "Redis indisponível"

-- A PING that is answered by PONG.
abbrev pub IsPong : Reply String → Type 0
IsPong r = r ≡ answered "PONG"

redis_down :
    (r : Reply String) (key : String)
    → (IsPong r → ⊥)
    → redis_is_healthy r key ≡ down key "Redis health check failed" "Redis indisponível"
unfolding redis_is_healthy
redis_down (failed e) key h = refl
redis_down (answered t) key h = elim (Bool-cases (t == "PONG")) [
  | inl pong ↦ absurd (h (ap answered ((eq_iff t "PONG").0 pong)))
  | inr other ↦ rw other refl
]

-- What Redis says when it is not well is nowhere in the answer.
redis_is_healthy_lem :
    (r s : Reply String) (key : String)
    → (IsPong r → ⊥)
    → (IsPong s → ⊥)
    → redis_is_healthy r key ≡ redis_is_healthy s key
redis_is_healthy_lem r s key h k = redis_down r key h ∙ sym (redis_down s key k)
