-- ===== src/Sample/Queue.antt =====
-- src/sample/infrastructure/queue/sample-queue.adapter.ts: a job is added within a time limit. BullMQ's
-- `add` is an argument: when its promise settles, and how, beside what it does to the world.
use nestjs_hexagonal_templat.Prelude.{
  ℕ, ◌≤◌, String, ◌≡◌, ◌⊎◌, inl, inr, refl, arith, ltb, if◌then◌else◌, Bool-cases, List,
}
use nestjs_hexagonal_templat.Common.Exec.{Result, ok, throw, Exec}
use nestjs_hexagonal_templat.Common.Errors.{
  Exception, unknown, domain_error, queue_unavailable, service_unavailable,
}
use nestjs_hexagonal_templat.Sample.{Sample}
use nestjs_hexagonal_templat.Sample.Port.{DeactivateSampleJobData, SampleQueuePort}

-- sample-queue.constants.ts
abbrev pub sample_queue_name : String
sample_queue_name = "sample"

abbrev pub sample_deactivate_job : String
sample_deactivate_job = "deactivate-sample"

-- BullMQ's `JobsOptions`, as far as they are given; the backoff is exponential.
pub record JobOptions : Type 0 where
  pub attempts : ℕ
  pub backoff_delay : ℕ
  pub remove_on_complete : ℕ
  pub remove_on_fail : ℕ
  pub delay : ℕ

-- { ...SAMPLE_JOB_OPTIONS, delay: delayMs }
abbrev pub sample_job_options : ℕ → JobOptions
sample_job_options delay_ms = record {
  attempts = 3;
  backoff_delay = 30000;
  remove_on_complete = 100;
  remove_on_fail = 1000;
  delay = delay_ms;
}

abbrev pub enqueue_timeout_ms : ℕ
enqueue_timeout_ms = 3000

-- How the promise of `add` goes, in milliseconds from the call.
pub data Settling : Type 0 where
  resolves : ℕ → Settling
  rejects : ℕ → Exception → Settling
  hangs : Settling

-- Promise.race([operation, expiry]): what it settles with, and when.
abbrev pub expired : Result (Unit {0}) × ℕ
expired = (throw (unknown "Enqueue timed out after 3000ms"), enqueue_timeout_ms)

unfoldable pub with_timeout : Settling → Result (Unit {0}) × ℕ
with_timeout (resolves t) = if ltb t enqueue_timeout_ms then (ok tt, t) else expired
with_timeout (rejects t e) = if ltb t enqueue_timeout_ms then (throw e, t) else expired
with_timeout hangs = expired

abbrev pub error_queue_unavailable : Exception
error_queue_unavailable =
    domain_error queue_unavailable "Nao foi possivel agendar a operacao. Tente novamente."
      service_unavailable

-- The `catch` of `enqueueDeactivation`.
abbrev pub translate : Result (Unit {0}) → Result (Unit {0})
translate (ok _) = ok tt
translate (throw e) = throw error_queue_unavailable

module _ {W : Type 0} (add : String → DeactivateSampleJobData → JobOptions → W → Settling × W) where
  -- The answer with the time it takes. A job that settles late is still added.
  unfoldable pub enqueue_timed : DeactivateSampleJobData → ℕ → W → (Result (Unit {0}) × ℕ) × W
  unfolding with_timeout
  enqueue_timed job delay_ms w =
      let (settling, w') = add sample_deactivate_job job (sample_job_options delay_ms) w in
      let (answer, elapsed) = with_timeout settling in ((translate answer, elapsed), w')

  unfoldable pub enqueue_deactivation : DeactivateSampleJobData → ℕ → Exec W (Unit {0})
  unfolding enqueue_timed
  enqueue_deactivation job delay_ms w =
      let (answer, w') = enqueue_timed job delay_ms w in (answer.0, w')

  -- Whatever the broker does, and though it never answer, a request to schedule a job is answered
  -- within three seconds: it succeeds, or it fails with the one error that tells nothing of the broker.
  pub enqueue_timed-Answered :
      (job : DeactivateSampleJobData) (delay_ms : ℕ) (w : W)
      → ((enqueue_timed job delay_ms w).0.1 ≤ enqueue_timeout_ms)
        × (((enqueue_timed job delay_ms w).0.0 ≡ ok tt)
            ⊎ ((enqueue_timed job delay_ms w).0.0 ≡ throw error_queue_unavailable))
  unfolding enqueue_timed
  enqueue_timed-Answered job delay_ms w =
      answered (add sample_deactivate_job job (sample_job_options delay_ms) w).0
    where
      answered :
          (settling : Settling)
          → ((with_timeout settling).1 ≤ enqueue_timeout_ms)
            × ((translate (with_timeout settling).0 ≡ ok tt)
                ⊎ (translate (with_timeout settling).0 ≡ throw error_queue_unavailable))
      answered hangs = (omega arith, inr refl)
      answered (resolves t) = elim (Bool-cases (ltb t enqueue_timeout_ms)) [
        | inl early ↦ rw early (ground arith, inl refl)
        | inr late ↦ rw late (omega arith, inr refl)
      ]
      answered (rejects t e) = elim (Bool-cases (ltb t enqueue_timeout_ms)) [
        | inl early ↦ rw early (ground arith, inr refl)
        | inr late ↦ rw late (omega arith, inr refl)
      ]

  -- Over an `add` that leaves the samples alone, the adapter is what the use cases ask for.
  unfoldable pub sample_queue :
      (samples : W → List Sample)
      → ((name : String) (job : DeactivateSampleJobData) (options : JobOptions) (w : W)
          → samples (add name job options w).1 ≡ samples w)
      → SampleQueuePort W samples
  unfolding enqueue_deactivation
  sample_queue samples frame = record {
    enqueue_deactivation = enqueue_deactivation;
    enqueue_deactivation_frame =
        λ job delay_ms w. frame sample_deactivate_job job (sample_job_options delay_ms) w;
  }
