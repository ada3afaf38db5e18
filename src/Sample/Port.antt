-- ===== src/Sample/Port.antt =====
-- src/sample/domain/ports: what the use cases ask of the database and of the queue, with what they
-- rely on. `Sample.Repository` is proved to provide the first.
use mathlib.Core.List.{Perm}
use nestjs_hexagonal_templat.Prelude.{
  ℕ, ◌-◌, ◌*◌, String, ◌≡◌, ◌⊎◌, Bool, not, Option, none, some, List, ◌==◌, take, drop, keep,
  count_if,
}
use nestjs_hexagonal_templat.Prelude.Int.{ℤ, negsuc}
use nestjs_hexagonal_templat.Common.Exec.{Exec, Ensures}
use nestjs_hexagonal_templat.Database.{Generated, FoundIn, rewrite_rows, Inserted, IsKeyed, IsMaxOf}
use nestjs_hexagonal_templat.Sample.{Sample, has_id}

abbrev pub sample_key : Sample → String
sample_key s = s.id

-- where: { tenantId }
abbrev pub of_tenant : String → Sample → Bool
of_tenant tenant s = s.tenant_id == tenant

-- The columns that `save` writes.
abbrev pub saved_as : Sample → Generated → Sample
saved_as s g = record s {
  id = g.id;
  created_at = g.created_at;
  updated_at = g.updated_at;
  deleted_at = none;
}

-- The columns that `update` writes, and `updatedAt`.
abbrev pub updated_to : Sample → ℕ → Sample → Sample
updated_to s t row = record row {
  name = s.name;
  description = s.description;
  is_active = s.is_active;
  sort_order = s.sort_order;
  updated_at = t;
}

-- The samples after `update(s)`.
abbrev pub Updated : Sample → List Sample → List Sample → Type 0
Updated s before after =
    (t : ℕ) × (after ≡ rewrite_rows (has_id s.id s.tenant_id) (updated_to s t) before)

-- result?.max ?? -1
abbrev pub or_minus_one : Option ℤ → ℤ
or_minus_one none = negsuc 0
or_minus_one (some m) = m

pub record SampleRepositoryPort (W : Type 0) : Type 0 where
  -- The samples that are not deleted.
  pub samples : W → List Sample
  pub save : Sample → Exec W Sample
  pub find_by_id : String → String → Exec W (Option Sample)
  pub find_all : String → ℕ → ℕ → Exec W (List Sample × ℕ)
  pub get_max_sort_order : String → Exec W ℤ
  pub update : Sample → Exec W Sample
  pub soft_delete : String → String → Exec W (Unit {0})
  pub samples_keyed : (w : W) → IsKeyed sample_key (samples w)
  pub save_law :
      (s : Sample) (w : W)
      → Ensures
          (save s w)
          (λ r w'. ((g : Generated) × (r ≡ saved_as s g)) × Inserted r (samples w) (samples w'))
          (λ w'. samples w' ≡ samples w)
  pub find_by_id_law :
      (id tenant : String) (w : W)
      → Ensures
          (find_by_id id tenant w)
          (λ o w'. (samples w' ≡ samples w) × FoundIn (has_id id tenant) (samples w) o)
          (λ w'. samples w' ≡ samples w)
  pub find_all_law :
      (tenant : String) (page per_page : ℕ) (w : W)
      → Ensures
          (find_all tenant page per_page w)
          (λ r w'.
            (samples w' ≡ samples w)
            × ((s : List Sample) × Perm s (keep (of_tenant tenant) (samples w))
                × (r.0 ≡ take per_page (drop ((page - 1) * per_page) s)))
            × (r.1 ≡ count_if (of_tenant tenant) (samples w)))
          (λ w'. samples w' ≡ samples w)
  pub get_max_sort_order_law :
      (tenant : String) (w : W)
      → Ensures
          (get_max_sort_order tenant w)
          (λ m w'.
            (samples w' ≡ samples w)
            × ((o : Option ℤ) × (m ≡ or_minus_one o)
                × IsMaxOf (of_tenant tenant) (λ (s : Sample). s.sort_order) (samples w) o))
          (λ w'. samples w' ≡ samples w)
  -- The row is read again after it is written, and that may fail.
  pub update_law :
      (s : Sample) (w : W)
      → Ensures
          (update s w)
          (λ r w'.
            Updated s (samples w) (samples w')
            × FoundIn (has_id s.id s.tenant_id) (samples w') (some r))
          (λ w'. (samples w' ≡ samples w) ⊎ Updated s (samples w) (samples w'))
  pub soft_delete_law :
      (id tenant : String) (w : W)
      → Ensures
          (soft_delete id tenant w)
          (λ _ w'. samples w' ≡ keep (λ s. not (has_id id tenant s)) (samples w))
          (λ w'. samples w' ≡ samples w)

-- sample-queue.port.ts
pub record DeactivateSampleJobData : Type 0 where
  pub sample_id : String
  pub tenant_id : String

-- Jobs are kept in Redis: to add one leaves the samples alone.
pub record SampleQueuePort (W : Type 0) (samples : W → List Sample) : Type 0 where
  pub enqueue_deactivation : DeactivateSampleJobData → ℕ → Exec W (Unit {0})
  pub enqueue_deactivation_frame :
      (data_value : DeactivateSampleJobData) (delay_ms : ℕ) (w : W)
      → samples (enqueue_deactivation data_value delay_ms w).1 ≡ samples w
