-- ===== src/Sample/Controller.antt =====
-- src/sample/infrastructure/http/sample.controller.ts: the routes of /v1/samples, with their pipes.
-- Where the id and the body are both refused, the answer here is the one for the id.
use nestjs_hexagonal_templat.Prelude.{ℕ, String, Bool, Option, List, [], ◌∷◌}
use nestjs_hexagonal_templat.Common.Exec.{Exec, pure, ◌>>=◌, ◌>>◌}
use nestjs_hexagonal_templat.Common.Json.{Json}
use nestjs_hexagonal_templat.Common.Pagination.{PageQuery, PaginationMeta}
use nestjs_hexagonal_templat.Common.Pipes.{zod_validation_pipe, uuid_validation_pipe}
use nestjs_hexagonal_templat.User.{Role, admin, user}
use nestjs_hexagonal_templat.Sample.{SampleResponseDto}
use nestjs_hexagonal_templat.Sample.Schema.{
  create_sample_schema, update_sample_schema, schedule_sample_deactivation_schema,
}
use nestjs_hexagonal_templat.Sample.Port.{SampleRepositoryPort, SampleQueuePort}
use nestjs_hexagonal_templat.Sample.UseCases.{
  create_sample, get_sample, list_samples, update_sample, delete_sample,
  schedule_sample_deactivation,
}

-- A request for a route: its parameters and its body.
pub data Request : Type 0 where
  create : Option Json → Request
  list : PageQuery → Request
  find_one : String → Request
  update : String → Option Json → Request
  remove : String → Request
  schedule_deactivation : String → Option Json → Request

pub data Response : Type 0 where
  created one : SampleResponseDto → Response
  page : List SampleResponseDto → PaginationMeta → Response
  no_content accepted : Response

-- @Roles of the route
abbrev pub required_roles : Request → List Role
required_roles (list query) = admin ∷ user ∷ []
required_roles (find_one id) = admin ∷ user ∷ []
required_roles _ = admin ∷ []

module _ {W : Type 0} (repo : SampleRepositoryPort W) (queue : SampleQueuePort W repo.samples)
    (is_uuid_v4 : String → Bool) (issues : Option Json → Json) where
  -- new UuidValidationPipe()
  abbrev pub id_pipe : String → Exec W String
  unfolding uuid_validation_pipe
  id_pipe id = uuid_validation_pipe is_uuid_v4 "id" id

  -- `now` is `new Date()`; `tenant` is what @TenantId reads.
  unfoldable pub handle : ℕ → String → Request → Exec W Response
  unfolding zod_validation_pipe create_sample_schema update_sample_schema
      schedule_sample_deactivation_schema create_sample list_samples get_sample update_sample
      delete_sample schedule_sample_deactivation
  handle now tenant (create body) = do
    dto ← zod_validation_pipe issues create_sample_schema body
    s ← create_sample repo now dto tenant
    pure (created s)
  handle now tenant (list query) = do
    found ← list_samples repo tenant query
    pure (page found.0 found.1)
  handle now tenant (find_one id) = do
    checked ← id_pipe id
    s ← get_sample repo checked tenant
    pure (one s)
  handle now tenant (update id body) = do
    checked ← id_pipe id
    dto ← zod_validation_pipe issues update_sample_schema body
    s ← update_sample repo checked tenant dto
    pure (one s)
  handle now tenant (remove id) = do
    checked ← id_pipe id
    delete_sample repo checked tenant
    pure no_content
  handle now tenant (schedule_deactivation id body) = do
    checked ← id_pipe id
    dto ← zod_validation_pipe issues schedule_sample_deactivation_schema body
    schedule_sample_deactivation repo queue checked tenant dto.delay_ms
    pure accepted
