-- ===== src/Sample/Processor.antt =====
-- src/sample/infrastructure/queue/sample.processor.ts: what the worker does with a job.
use nestjs_hexagonal_templat.Prelude.{ℕ, Bool, false, Option, none, some, leb, if◌then◌else◌}
use nestjs_hexagonal_templat.Common.Exec.{Exec, pure, ◌>>=◌, ◌>>◌}
use nestjs_hexagonal_templat.Sample.{Sample, can_deactivate}
use nestjs_hexagonal_templat.Sample.Port.{SampleRepositoryPort, DeactivateSampleJobData}

-- What `onFailed` reads of a job: `attemptsMade` and `opts.attempts`.
pub record FailedJob : Type 0 where
  pub attempts_made : Option ℕ
  pub attempts : Option ℕ

abbrev pub or_none : Option ℕ → ℕ
or_none none = 0
or_none (some n) = n

-- `exhausted` of `onFailed`, which its message tells; the job may be gone.
unfoldable pub is_exhausted : Option FailedJob → Bool
is_exhausted none = leb 0 0
is_exhausted (some job) = leb (or_none job.attempts) (or_none job.attempts_made)

module _ {W : Type 0} (repo : SampleRepositoryPort W) where
  abbrev pub deactivate : Option Sample → Exec W (Unit {0})
  deactivate none = pure tt
  deactivate (some s) =
      if can_deactivate s then repo.update (record s { is_active = false }) >> pure tt else pure tt

  unfoldable pub process : DeactivateSampleJobData → Exec W (Unit {0})
  process job = do sample ← repo.find_by_id job.sample_id job.tenant_id; deactivate sample
