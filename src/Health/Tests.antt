-- ===== src/Health/Tests.antt =====
-- The indicators of src/health on some answers.
use nestjs_hexagonal_templat.Prelude.{◌≡◌, refl, none, true, false}
use nestjs_hexagonal_templat.Common.Json.{end, field, bool, str}
use nestjs_hexagonal_templat.Health.{
  answered, failed, returned, health_check_error, s3_is_healthy, redis_is_healthy,
}

no_bucket_is_well :
    s3_is_healthy none (λ b. failed "ECONNREFUSED") "storage"
    ≡ returned (record {
      key = "storage";
      is_healthy = true;
      details = field "configured" (bool false) end;
    })
unfolding s3_is_healthy
no_bucket_is_well = refl

other_server_is_down :
    redis_is_healthy (answered "HTTP/1.1 400") "redis"
    ≡ health_check_error "Redis health check failed" (record {
      key = "redis";
      is_healthy = false;
      details = field "message" (str "Redis indisponível") end;
    })
unfolding redis_is_healthy
other_server_is_down = refl
