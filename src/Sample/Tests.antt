-- ===== src/Sample/Tests.antt =====
-- The routes and the jobs of the samples on a table in memory, with two samples of two tenants.
use nestjs_hexagonal_templat.Prelude.{
  ◌≡◌, ◌≤◌, ◌⊎◌, refl, String, [], ◌∷◌, none, some, Bool, true, apart, arith,
}
use nestjs_hexagonal_templat.Prelude.Int.{pos}
use nestjs_hexagonal_templat.Common.Exec.{ok, throw, Ensures}
use nestjs_hexagonal_templat.Common.Json.{null, obj, field, end, str, get}
use nestjs_hexagonal_templat.Common.Pipes.{text_length, text_between}
use nestjs_hexagonal_templat.Database.{rewrite_rows}
use nestjs_hexagonal_templat.Database.Memory.{Store, memory_table}
use nestjs_hexagonal_templat.Sample.{Sample, CreateSampleDto}
use nestjs_hexagonal_templat.Sample.Schema.{
  IsBounded, create_sample_schema, create_sample_schema-IsBounded, body_of,
  create_sample_schema-body_of,
}
use nestjs_hexagonal_templat.Sample.Port.{
  SampleRepositoryPort, SampleQueuePort, DeactivateSampleJobData, sample_key,
}
use nestjs_hexagonal_templat.Sample.Repository.{stamp, sample_repository}
use nestjs_hexagonal_templat.Sample.UseCases.{create_sample}
use nestjs_hexagonal_templat.Sample.Queue.{
  JobOptions, Settling, hangs, enqueue_timed, enqueue_timeout_ms, error_queue_unavailable,
  sample_queue, enqueue_timed-Answered,
}
use nestjs_hexagonal_templat.Sample.Processor.{process}
use nestjs_hexagonal_templat.Sample.Delivery.{Inactive, process_idle}
use nestjs_hexagonal_templat.Sample.Controller.{remove, handle}
use nestjs_hexagonal_templat.Sample.OtherTenants.{outside, outside-handle}
use nestjs_hexagonal_templat.Sample.Position.{IsAppended, create_sample-IsAppended}

abbrev World : Type 0
World = Store sample_key

abbrev repository : SampleRepositoryPort World
unfolding sample_repository
repository = sample_repository (memory_table sample_key stamp "s9" 1000)

abbrev sample : String → String → Bool → Sample
sample id tenant active = record {
  id = id;
  tenant_id = tenant;
  name = id;
  description = none;
  is_active = active;
  sort_order = pos 4;
  created_at = 0;
  updated_at = 0;
  deleted_at = none;
}

abbrev world : World
world = (sample "s1" "t1" true ∷ sample "s2" "t2" true ∷ [], ((apart "s2" "s1" refl, tt), (tt, tt)))

abbrev dto : CreateSampleDto
dto = record { name = "Primeiro"; description = some "livre"; sort_order = none }

dto-IsBounded : IsBounded dto
unfolding text_length
dto-IsBounded = ((omega arith, omega arith), (omega arith, omega arith), tt)

create_sample_schema-body_of_example : create_sample_schema (some (body_of dto)) ≡ some dto
create_sample_schema-body_of_example = create_sample_schema-body_of dto dto-IsBounded

create_sample_schema-IsBounded_example : IsBounded dto
create_sample_schema-IsBounded_example =
    create_sample_schema-IsBounded (some (body_of dto)) dto create_sample_schema-body_of_example

empty_name_refused : create_sample_schema (some (obj (field "name" (str "a") end))) ≡ none
unfolding create_sample_schema get text_between text_length
empty_name_refused = refl

create_sample-IsAppended_example :
    Ensures
      (create_sample repository 7 dto "t1" world)
      (λ r w'. IsAppended repository "t1" world r w')
      (λ w'. repository.samples w' ≡ repository.samples world)
create_sample-IsAppended_example = create_sample-IsAppended repository 7 dto "t1" world refl

-- A broker that is down.
abbrev dead_broker : String → DeactivateSampleJobData → JobOptions → World → Settling × World
dead_broker name job options w = (hangs, w)

abbrev job : DeactivateSampleJobData
job = record { sample_id = "s1"; tenant_id = "t1" }

enqueue_timed-Answered_example :
    ((enqueue_timed dead_broker job 0 world).0.1 ≤ enqueue_timeout_ms)
    × (((enqueue_timed dead_broker job 0 world).0.0 ≡ ok tt)
        ⊎ ((enqueue_timed dead_broker job 0 world).0.0 ≡ throw error_queue_unavailable))
enqueue_timed-Answered_example = enqueue_timed-Answered dead_broker job 0 world

abbrev queue : SampleQueuePort World repository.samples
unfolding sample_queue
queue = sample_queue dead_broker repository.samples (λ n j o w. refl)

outside-handle_example :
    outside "t1" (
      repository.samples
        (handle repository queue (λ s. true) (λ v. null) 7 "t1" (remove "s1") world).1)
    ≡ outside "t1" (repository.samples world)
outside-handle_example =
    outside-handle repository "t1" queue (λ s. true) (λ v. null) 7 (remove "s1") world

abbrev after_job : World
after_job = (process repository job world).1

after_job-Inactive : Inactive repository job after_job
unfolding process repository rewrite_rows
after_job-Inactive = (refl, (refl, tt))

process_idle_example :
    repository.samples (process repository job after_job).1 ≡ repository.samples after_job
process_idle_example = process_idle repository job after_job after_job-Inactive
