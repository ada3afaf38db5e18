-- ===== src/Sample/UseCases.antt =====
-- src/sample/application/use-cases: the actions behind the routes of /v1/samples.
use nestjs_hexagonal_templat.Prelude.{ℕ, String, Option, none, some, List, map}
use nestjs_hexagonal_templat.Prelude.Int.{ℤ, pos, succ_int}
use nestjs_hexagonal_templat.Common.Exec.{Exec, pure, raise, ◌>>=◌}
use nestjs_hexagonal_templat.Common.Errors.{Exception, domain_error, not_found, sample_not_found}
use nestjs_hexagonal_templat.Common.Pagination.{
  PageQuery, PaginationMeta, parse_pagination_params, build_pagination_meta,
}
use nestjs_hexagonal_templat.Sample.{
  Sample, CreateSampleDto, UpdateSampleDto, SampleResponseDto, to_response, to_domain,
}
use nestjs_hexagonal_templat.Sample.Port.{SampleRepositoryPort, SampleQueuePort}

abbrev pub error_sample_not_found : Exception
error_sample_not_found = domain_error sample_not_found "Sample não encontrado" not_found

-- `if (!sample) throw new DomainException(SAMPLE_NOT_FOUND, ...)`
abbrev pub require_sample : {W : Type 0} → Option Sample → Exec W Sample
require_sample none = raise error_sample_not_found
require_sample (some s) = pure s

abbrev pub or_kept {ℓ} : {A : Type ℓ} → Option A → A → A
or_kept none old = old
or_kept (some new) old = new

abbrev pub order_or : Option ℕ → ℤ → ℤ
order_or none old = old
order_or (some n) old = pos n

-- The assignments of `UpdateSampleUseCase.execute`.
abbrev pub apply_update : UpdateSampleDto → Sample → Sample
apply_update dto s = record s {
  name = or_kept dto.name s.name;
  description = or_kept dto.description s.description;
  is_active = or_kept dto.is_active s.is_active;
  sort_order = order_or dto.sort_order s.sort_order;
}

module _ {W : Type 0} (repo : SampleRepositoryPort W) where
  -- dto.sortOrder ?? (await getMaxSortOrder(tenantId)) + 1
  abbrev pub order_for : Option ℕ → String → Exec W ℤ
  order_for (some n) tenant = pure (pos n)
  order_for none tenant = do max ← repo.get_max_sort_order tenant; pure (succ_int max)

  unfoldable pub create_sample : ℕ → CreateSampleDto → String → Exec W SampleResponseDto
  unfolding to_domain to_response
  create_sample now dto tenant = do
    sort_order ← order_for dto.sort_order tenant
    saved ← repo.save (to_domain now dto tenant sort_order)
    pure (to_response saved)

  unfoldable pub get_sample : String → String → Exec W SampleResponseDto
  unfolding to_response
  get_sample id tenant = do
    found ← repo.find_by_id id tenant
    s ← require_sample found
    pure (to_response s)

  unfoldable pub list_samples :
      String → PageQuery → Exec W (List SampleResponseDto × PaginationMeta)
  unfolding to_response parse_pagination_params build_pagination_meta
  list_samples tenant query = do
    let params = parse_pagination_params query
    found ← repo.find_all tenant params.page params.per_page
    pure (map to_response found.0, build_pagination_meta found.1 params.page params.per_page)

  unfoldable pub update_sample : String → String → UpdateSampleDto → Exec W SampleResponseDto
  unfolding to_response
  update_sample id tenant dto = do
    found ← repo.find_by_id id tenant
    s ← require_sample found
    updated ← repo.update (apply_update dto s)
    pure (to_response updated)

  unfoldable pub delete_sample : String → String → Exec W (Unit {0})
  delete_sample id tenant = do
    found ← repo.find_by_id id tenant
    s ← require_sample found
    repo.soft_delete id tenant

  module _ (queue : SampleQueuePort W repo.samples) where
    unfoldable pub schedule_sample_deactivation : String → String → ℕ → Exec W (Unit {0})
    schedule_sample_deactivation id tenant delay_ms = do
      found ← repo.find_by_id id tenant
      s ← require_sample found
      queue.enqueue_deactivation (record { sample_id = s.id; tenant_id = tenant }) delay_ms
