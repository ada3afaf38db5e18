-- ===== src/Sample/Worker.antt =====
-- The jobs of src/sample/infrastructure/queue from their first run to their end, under any deliveries
-- that BullMQ may make.
use nestjs_hexagonal_templat.Prelude.{
  ℕ, suc, ◌+◌, ◌≤◌, ◌<◌, ◌≡◌, ◌⊎◌, Bool, true, false, none, some,
}
use nestjs_hexagonal_templat.Common.Exec.{Result, ok, throw}
use nestjs_hexagonal_templat.Sample.Port.{SampleRepositoryPort, DeactivateSampleJobData}
use nestjs_hexagonal_templat.Sample.Queue.{sample_job_options}
use nestjs_hexagonal_templat.Sample.Processor.{is_exhausted, process}
use nestjs_hexagonal_templat.Sample.Delivery.{Inactive}

-- src/sample/infrastructure/queue/sample-queue.adapter.ts: `attempts` of SAMPLE_JOB_OPTIONS.
abbrev pub max_attempts : ℕ
max_attempts = (sample_job_options 0).attempts

-- Where a job stands: waiting with its failed runs, or at an end; `stalled` is the end of a job that BullMQ
-- fails because its workers were lost too often.
pub data JobState : Type 0 where
  waiting : ℕ → JobState
  completed : JobState
  failed : JobState
  stalled : JobState

abbrev pub IsOk : Result (Unit {0}) → Type 0
IsOk (ok a) = Unit
IsOk (throw e) = ⊥

abbrev pub IsThrow : Result (Unit {0}) → Type 0
IsThrow (ok a) = ⊥
IsThrow (throw e) = Unit

module _ {W : Type 0} (repo : SampleRepositoryPort W) (job : DeactivateSampleJobData) where
  -- What a worker that is lost in a run leaves: nothing, or the work of the run.
  abbrev pub IsCut : W → W → Type 0
  IsCut w v = (v ≡ w) ⊎ (v ≡ (process repo job w).1)

  -- A delivery of the job to a worker, as BullMQ makes it, with the runs that count: a run that throws
  -- uses up one of the attempts, and a run whose worker is lost does not. After that one the job waits
  -- again, or BullMQ fails it at its limit of stalls.
  pub data Delivery : ℕ → JobState → W → JobState → W → Type 0 where
    succeeds :
        (n : ℕ) (w : W)
        → IsOk (process repo job w).0
        → Delivery 1 (waiting n) w completed (process repo job w).1
    fails :
        (n : ℕ) (w : W)
        → IsThrow (process repo job w).0
        → suc n < max_attempts
        → Delivery 1 (waiting n) w (waiting (suc n)) (process repo job w).1
    gives_up :
        (n : ℕ) (w : W)
        → IsThrow (process repo job w).0
        → max_attempts ≤ suc n
        → Delivery 1 (waiting n) w failed (process repo job w).1
    stalls : (n : ℕ) (w v : W) → IsCut w v → Delivery 0 (waiting n) w (waiting n) v
    stalls_out : (n : ℕ) (w v : W) → IsCut w v → Delivery 0 (waiting n) w stalled v

  -- Deliveries one after the other, with the number of the runs that count.
  pub data Deliveries (w : W) : ℕ → JobState → W → Type 0 where
    none_yet : Deliveries w 0 (waiting 0) w
    next :
        {k c : ℕ} {s t : JobState} {v u : W}
        → Deliveries w k s v
        → Delivery c s v t u
        → Deliveries w (c + k) t u

  -- Whether `onFailed` tells that no run is left, after so many.
  abbrev pub reported : ℕ → Bool
  unfolding is_exhausted
  reported k = is_exhausted (some (record { attempts_made = some k; attempts = some max_attempts }))

  -- What is known of a job where it stands.
  abbrev pub Stands : ℕ → JobState → W → Type 0
  unfolding is_exhausted
  Stands k (waiting n) w = (k ≡ n) × (k < 3) × (reported k ≡ false)
  Stands k completed w = (k ≤ 3) × Inactive repo job w
  Stands k failed w = (k ≡ 3) × (reported k ≡ true)
  Stands k stalled w = (k < 3) × (reported k ≡ false) × (is_exhausted none ≡ true)
