-- ===== src/Sample/OtherTenants.antt =====
-- The routes of src/sample/infrastructure/http/sample.controller.ts stay within the caller's tenant.
use nestjs_hexagonal_templat.Prelude.{
  ℕ, String, ◌≡◌, refl, sym, ap, ◌∙◌, inl, inr, Bool, true, Option, none, some, List, eq_iff, arith,
  Bool-cases,
}
use nestjs_hexagonal_templat.Common.Exec.{Result, ok, throw, Exec, pure, continue, ◌>>=◌, Ensures}
use nestjs_hexagonal_templat.Common.Errors.{Exception}
use nestjs_hexagonal_templat.Common.Json.{Json}
use nestjs_hexagonal_templat.Common.Pagination.{PageQuery, parse_pagination_params}
use nestjs_hexagonal_templat.Common.Pipes.{
  Schema, passed_or, zod_validation_pipe, uuid_validation_pipe,
}
use nestjs_hexagonal_templat.Database.Isolation as Rows
use nestjs_hexagonal_templat.Database.{FoundIn}
use nestjs_hexagonal_templat.Sample.{
  Sample, CreateSampleDto, UpdateSampleDto, has_id, to_domain, to_response,
}
use nestjs_hexagonal_templat.Sample.Schema.{
  create_sample_schema, update_sample_schema, schedule_sample_deactivation_schema,
}
use nestjs_hexagonal_templat.Sample.Port.{
  SampleRepositoryPort, SampleQueuePort, of_tenant, updated_to, Updated,
}
use nestjs_hexagonal_templat.Sample.UseCases.{
  require_sample, apply_update, order_for, create_sample, get_sample, list_samples, update_sample,
  delete_sample, schedule_sample_deactivation,
}
use nestjs_hexagonal_templat.Sample.Controller.{
  Request, create, list, find_one, update, remove, schedule_deactivation, created, one, no_content,
  accepted, id_pipe, handle,
}

-- The samples of other tenants.
abbrev pub outside : String → List Sample → List Sample
outside tenant xs = Rows.outside (of_tenant tenant) xs

has_id-of_tenant :
    (id tenant : String) (s : Sample) → has_id id tenant s ≡ true → of_tenant tenant s ≡ true
has_id-of_tenant id tenant s h = ground arith

module _ {W : Type 0} (repo : SampleRepositoryPort W) (tenant : String) where
  abbrev Isolated : {A : Type 0} → Exec W A → Type 0
  Isolated m = Rows.Isolated repo.samples (of_tenant tenant) m

  then_Isolated :
      {A B : Type 0} (m : Exec W A) (f : A → Exec W B)
      → Isolated m
      → ((a : A) → Isolated (f a))
      → Isolated (m >>= f)
  then_Isolated m f h k = Rows.bind-Isolated repo.samples (of_tenant tenant) m f h k

  respond_Isolated :
      {A B : Type 0} (m : Exec W A) (f : A → B) → Isolated m → Isolated (m >>= λ a. pure (f a))
  respond_Isolated m f h = Rows.respond-Isolated repo.samples (of_tenant tenant) m f h

  passed_or-Isolated : {A : Type 0} (e : Exception) (o : Option A) → Isolated (passed_or e o)
  passed_or-Isolated e none w = refl
  passed_or-Isolated e (some a) w = refl

  zod-Isolated :
      {A : Type 0} (issues : Option Json → Json) (schema : Schema A) (body : Option Json)
      → Isolated (zod_validation_pipe issues schema body)
  unfolding zod_validation_pipe
  zod-Isolated issues schema body = passed_or-Isolated _ (schema body)

  -- What follows a body that its schema lets pass.
  piped-Isolated :
      {A B : Type 0} (issues : Option Json → Json) (schema : Schema A) (body : Option Json)
      (f : A → Exec W B)
      → ((a : A) → Isolated (f a))
      → Isolated (zod_validation_pipe issues schema body >>= f)
  piped-Isolated issues schema body f k =
      then_Isolated (zod_validation_pipe issues schema body) f (zod-Isolated issues schema body) k

  -- What follows the search for a sample of the tenant.
  found-Isolated :
      {A : Type 0} (id : String) (f : Sample → Exec W A)
      → ((s : Sample) → of_tenant tenant s ≡ true → Isolated (f s))
      → Isolated (repo.find_by_id id tenant >>= λ o. require_sample o >>= f)
  found-Isolated id f k w = after (repo.find_by_id id tenant w) (repo.find_by_id_law id tenant w)
    where
      after :
          (r : Result (Option Sample) × W)
          → Ensures r
              (λ o w'.
                (repo.samples w' ≡ repo.samples w) × FoundIn (has_id id tenant) (repo.samples w) o)
              (λ w'. repo.samples w' ≡ repo.samples w)
          → outside tenant (repo.samples (continue r.0 (λ o. require_sample o >>= f) r.1).1)
            ≡ outside tenant (repo.samples w)
      after (throw x, w1) e = ap (outside tenant) e
      after (ok none, w1) p = ap (outside tenant) p.0
      after (ok (some s), w1) p =
          k s (has_id-of_tenant id tenant s p.1.1) w1 ∙ ap (outside tenant) p.0

  save-Isolated : (s : Sample) → s.tenant_id ≡ tenant → Isolated (repo.save s)
  save-Isolated s mine w =
      Rows.law-Isolated repo.samples (of_tenant tenant) (repo.save s) w _ _ (repo.save_law s w)
        (λ r w' p.
          Rows.outside-Inserted (of_tenant tenant) r (repo.samples w) (repo.samples w')
            ((eq_iff r.tenant_id tenant).1 (ap (λ (x : Sample). x.tenant_id) p.0.1 ∙ mine)) p.1)
        (λ w' e. ap (outside tenant) e)

  Updated-outside :
      (s : Sample) (before after : List Sample)
      → s.tenant_id ≡ tenant
      → Updated s before after
      → outside tenant after ≡ outside tenant before
  Updated-outside s before after mine (t, e) =
      ap (outside tenant) e
      ∙ rw (sym mine) (
          Rows.outside-rewrite (of_tenant s.tenant_id) (has_id s.id s.tenant_id) (updated_to s t)
            before (has_id-of_tenant s.id s.tenant_id) (λ x. refl))

  update-Isolated : (s : Sample) → s.tenant_id ≡ tenant → Isolated (repo.update s)
  update-Isolated s mine w =
      Rows.law-Isolated repo.samples (of_tenant tenant) (repo.update s) w _ _ (repo.update_law s w)
        (λ r w' p. Updated-outside s (repo.samples w) (repo.samples w') mine p.0)
        (λ w' p. elim p [
          | inl same ↦ ap (outside tenant) same
          | inr d ↦ Updated-outside s (repo.samples w) (repo.samples w') mine d
        ])

  soft_delete-Isolated : (id : String) → Isolated (repo.soft_delete id tenant)
  soft_delete-Isolated id w =
      Rows.law-Isolated repo.samples (of_tenant tenant) (repo.soft_delete id tenant) w _ _
        (repo.soft_delete_law id tenant w)
        (λ _ w' e.
          ap (outside tenant) e
          ∙ Rows.outside-removed (of_tenant tenant) (has_id id tenant) (repo.samples w)
              (has_id-of_tenant id tenant))
        (λ w' e. ap (outside tenant) e)

  order_for-Isolated : (o : Option ℕ) → Isolated (order_for repo o tenant)
  order_for-Isolated (some n) w = refl
  order_for-Isolated none w =
      respond_Isolated (repo.get_max_sort_order tenant) _
        (λ w.
          Rows.law-Isolated repo.samples (of_tenant tenant) (repo.get_max_sort_order tenant) w _ _
            (repo.get_max_sort_order_law tenant w) (λ m w' p. ap (outside tenant) p.0)
            (λ w' e. ap (outside tenant) e))
        w

  create-Isolated : (now : ℕ) (dto : CreateSampleDto) → Isolated (create_sample repo now dto tenant)
  unfolding create_sample to_domain
  create-Isolated now dto =
      then_Isolated (order_for repo dto.sort_order tenant) _ (order_for-Isolated dto.sort_order)
        λ sort_order.
          respond_Isolated (repo.save (to_domain now dto tenant sort_order)) to_response
            (save-Isolated (to_domain now dto tenant sort_order) refl)

  list-Isolated : (query : PageQuery) → Isolated (list_samples repo tenant query)
  unfolding list_samples
  list-Isolated query =
      let params = parse_pagination_params query in
      respond_Isolated (repo.find_all tenant params.page params.per_page) _ (λ w.
        Rows.law-Isolated repo.samples (of_tenant tenant)
          (repo.find_all tenant params.page params.per_page) w _ _
          (repo.find_all_law tenant params.page params.per_page w)
          (λ r w' p. ap (outside tenant) p.0) (λ w' e. ap (outside tenant) e))

  get-Isolated : (id : String) → Isolated (get_sample repo id tenant)
  unfolding get_sample
  get-Isolated id = found-Isolated id _ (λ s mine w. refl)

  update_sample-Isolated :
      (id : String) (dto : UpdateSampleDto) → Isolated (update_sample repo id tenant dto)
  unfolding update_sample
  update_sample-Isolated id dto = found-Isolated id _ λ s mine.
      respond_Isolated (repo.update (apply_update dto s)) to_response
        (update-Isolated (apply_update dto s) ((eq_iff s.tenant_id tenant).0 mine))

  delete-Isolated : (id : String) → Isolated (delete_sample repo id tenant)
  unfolding delete_sample
  delete-Isolated id = found-Isolated id _ (λ s mine. soft_delete-Isolated id)

  module _ (queue : SampleQueuePort W repo.samples) where
    schedule-Isolated :
        (id : String) (delay_ms : ℕ)
        → Isolated (schedule_sample_deactivation repo queue id tenant delay_ms)
    unfolding schedule_sample_deactivation
    schedule-Isolated id delay_ms =
        found-Isolated id _
          (λ s mine w. ap (outside tenant) (queue.enqueue_deactivation_frame _ delay_ms w))

    id_pipe-Isolated :
        (is_uuid_v4 : String → Bool) (issues : Option Json → Json) (id : String)
        → Isolated (id_pipe repo queue is_uuid_v4 issues id)
    unfolding uuid_validation_pipe
    id_pipe-Isolated is_uuid_v4 issues id w = elim (Bool-cases (is_uuid_v4 id)) [
      | inl good ↦ rw good refl
      | inr refused ↦ rw refused refl
    ]

    -- Tenants are kept apart: whatever is asked of the routes of the samples, and however the request
    -- ends, the samples of every other tenant than the caller's are as they were, in the same order.
    pub outside-handle :
        (is_uuid_v4 : String → Bool) (issues : Option Json → Json) (now : ℕ) (request : Request)
        (w : W)
        → outside tenant (repo.samples (handle repo queue is_uuid_v4 issues now tenant request w).1)
          ≡ outside tenant (repo.samples w)
    unfolding handle
    outside-handle is_uuid_v4 issues now (create body) =
        piped-Isolated issues create_sample_schema body _ λ dto.
          respond_Isolated (create_sample repo now dto tenant) created (create-Isolated now dto)
    outside-handle is_uuid_v4 issues now (list query) =
        respond_Isolated (list_samples repo tenant query) _ (list-Isolated query)
    outside-handle is_uuid_v4 issues now (find_one id) =
        then_Isolated (id_pipe repo queue is_uuid_v4 issues id) _
          (id_pipe-Isolated is_uuid_v4 issues id)
          λ checked. respond_Isolated (get_sample repo checked tenant) one (get-Isolated checked)
    outside-handle is_uuid_v4 issues now (update id body) =
        then_Isolated (id_pipe repo queue is_uuid_v4 issues id) _
          (id_pipe-Isolated is_uuid_v4 issues id)
          λ checked. piped-Isolated issues update_sample_schema body _ λ dto.
            respond_Isolated (update_sample repo checked tenant dto) one
              (update_sample-Isolated checked dto)
    outside-handle is_uuid_v4 issues now (remove id) =
        then_Isolated (id_pipe repo queue is_uuid_v4 issues id) _
          (id_pipe-Isolated is_uuid_v4 issues id)
          λ checked.
            respond_Isolated (delete_sample repo checked tenant) (λ _. no_content)
              (delete-Isolated checked)
    outside-handle is_uuid_v4 issues now (schedule_deactivation id body) =
        then_Isolated (id_pipe repo queue is_uuid_v4 issues id) _
          (id_pipe-Isolated is_uuid_v4 issues id)
          λ checked. piped-Isolated issues schedule_sample_deactivation_schema body _ λ dto.
            respond_Isolated (schedule_sample_deactivation repo queue checked tenant dto.delay_ms)
              (λ _. accepted) (schedule-Isolated checked dto.delay_ms)
