-- ===== src/Sample/Delivery.antt =====
-- A job of src/sample/infrastructure/queue/sample.processor.ts from its first run to its end: what it
-- leaves of the samples, however often the queue delivers it.
use nestjs_hexagonal_templat.Prelude.{
  ℕ, String, ◌≡◌, refl, sym, ap, ◌∙◌, ◌⊎◌, inl, inr, Bool, true, false, ◌&&◌, Option, none, some,
  List, [], ◌∷◌, arith, eq_iff, if◌then◌else◌, Bool-cases, All,
}
use nestjs_hexagonal_templat.Common.Exec.{
  Result, ok, throw, pure, continue, ◌>>◌, Ensures, Ensures-bind,
}
use nestjs_hexagonal_templat.Database.{In, FoundIn, rewrite_rows}
use nestjs_hexagonal_templat.Database.Rows.{only_row}
use nestjs_hexagonal_templat.Sample.{Sample, has_id, can_deactivate}
use nestjs_hexagonal_templat.Sample.Port.{
  SampleRepositoryPort, DeactivateSampleJobData, sample_key, updated_to, Updated,
}
use nestjs_hexagonal_templat.Sample.Processor.{deactivate, process}

module _ (id tenant : String) where
  -- The sample is not active, or not there.
  abbrev pub IsInactive : List Sample → Type 0
  IsInactive xs = All (λ (s : Sample). (has_id id tenant s && s.is_active) ≡ false) xs

  -- The same samples, but that the one may be inactive, and its `updatedAt` new.
  abbrev pub IsTouched : List Sample → List Sample → Type 0
  IsTouched [] [] = Unit
  IsTouched [] (y ∷ ys) = ⊥
  IsTouched (x ∷ xs) [] = ⊥
  IsTouched (x ∷ xs) (y ∷ ys) =
      ((y ≡ x)
        ⊎ ((has_id id tenant x ≡ true)
            × ((t : ℕ) × (y ≡ record x { is_active = false; updated_at = t }))))
      × IsTouched xs ys

  IsTouched_refl : (xs : List Sample) → IsTouched xs xs
  IsTouched_refl [] = tt
  IsTouched_refl (x ∷ xs) = (inl refl, IsTouched_refl xs)

  pub IsTouched_trans :
      (xs ys zs : List Sample) → IsTouched xs ys → IsTouched ys zs → IsTouched xs zs
  IsTouched_trans [] [] [] h k = tt
  IsTouched_trans [] [] (z ∷ zs) h k = absurd k
  IsTouched_trans [] (y ∷ ys) zs h k = absurd h
  IsTouched_trans (x ∷ xs) [] zs h k = absurd h
  IsTouched_trans (x ∷ xs) (y ∷ ys) [] h k = absurd k
  IsTouched_trans (x ∷ xs) (y ∷ ys) (z ∷ zs) (h, hs) (k, ks) =
      (step x y z h k, IsTouched_trans xs ys zs hs ks)
    where
      step :
          (x y z : Sample)
          → (y ≡ x)
            ⊎ ((has_id id tenant x ≡ true)
                × ((t : ℕ) × (y ≡ record x { is_active = false; updated_at = t })))
          → (z ≡ y)
            ⊎ ((has_id id tenant y ≡ true)
                × ((t : ℕ) × (z ≡ record y { is_active = false; updated_at = t })))
          → (z ≡ x)
            ⊎ ((has_id id tenant x ≡ true)
                × ((t : ℕ) × (z ≡ record x { is_active = false; updated_at = t })))
      step x y z (inl e) k = rw e at k
      step x y z (inr (hit, (t, e))) (inl d) = inr (hit, (t, d ∙ e))
      step x y z (inr (hit, (t, e))) (inr (again, (u, d))) =
          inr (hit, (u, d ∙ ap (λ (s : Sample). record s { is_active = false; updated_at = u }) e))

  absent-IsInactive : (xs : List Sample) → All (λ s. has_id id tenant s ≡ false) xs → IsInactive xs
  absent-IsInactive [] h = tt
  absent-IsInactive (x ∷ xs) (n, h) = (ground arith, absent-IsInactive xs h)

  has_id-named : (x : Sample) → has_id id tenant x ≡ true → (x.id ≡ id) × (x.tenant_id ≡ tenant)
  has_id-named x hit = ground (arith, eq_iff x.id id, eq_iff x.tenant_id tenant)

  -- Every sample of the id is `s`, which is not active.
  idle-IsInactive :
      (s : Sample) (xs : List Sample)
      → s.id ≡ id
      → s.is_active ≡ false
      → All (λ x. sample_key x ≡ sample_key s → x ≡ s) xs
      → IsInactive xs
  idle-IsInactive s [] e off h = tt
  idle-IsInactive s (x ∷ xs) e off (only, h) = (one, idle-IsInactive s xs e off h)
    where
      off_if : has_id id tenant x ≡ true → x.is_active ≡ false
      off_if hit = ap (λ (s : Sample). s.is_active) (only ((has_id-named x hit).0 ∙ sym e)) ∙ off

      one : (has_id id tenant x && x.is_active) ≡ false
      one = ground (arith, off_if)

  -- Every sample of the id is `s`, and is written as `s` but inactive.
  written :
      (s : Sample) (t : ℕ) (xs : List Sample)
      → s.id ≡ id
      → All (λ x. sample_key x ≡ sample_key s → x ≡ s) xs
      → let ys =
          rewrite_rows (has_id id tenant) (updated_to (record s { is_active = false }) t) xs in
        IsInactive ys × IsTouched xs ys
  unfolding rewrite_rows
  written s t [] e h = (tt, tt)
  written s t (x ∷ xs) e (only, h) =
      let rest = written s t xs e h in
      elim (Bool-cases (has_id id tenant x)) [
        | inl hit ↦
            let same : x ≡ s = only ((has_id-named x hit).0 ∙ sym e) in
            let change : updated_to (record s { is_active = false }) t x
                ≡ record x { is_active = false; updated_at = t } =
              rw same refl in
            rw hit ((ground arith, rest.0), (inr (refl, (t, change)), rest.1))
        | inr miss ↦ rw miss ((rw miss refl, rest.0), (inl refl, rest.1))
      ]

module _ {W : Type 0} (repo : SampleRepositoryPort W) (job : DeactivateSampleJobData) where
  abbrev pub Inactive : W → Type 0
  Inactive w = IsInactive job.sample_id job.tenant_id (repo.samples w)

  abbrev pub Touched : W → W → Type 0
  Touched w w' = IsTouched job.sample_id job.tenant_id (repo.samples w) (repo.samples w')

  pub Touched-same : (w w' : W) → repo.samples w' ≡ repo.samples w → Touched w w'
  Touched-same w w' e = rw e (IsTouched_refl job.sample_id job.tenant_id (repo.samples w))

  Updated-Inactive :
      (s : Sample) (w w' : W)
      → s.id ≡ job.sample_id
      → s.tenant_id ≡ job.tenant_id
      → All (λ x. sample_key x ≡ sample_key s → x ≡ s) (repo.samples w)
      → Updated (record s { is_active = false }) (repo.samples w) (repo.samples w')
      → Inactive w' × Touched w w'
  Updated-Inactive s w w' e d only (t, u) =
      rw (u, sym e, sym d) (written s.id s.tenant_id s t (repo.samples w) refl only)

  -- The write of a job that finds its sample active.
  write-Inactive :
      (s : Sample) (w : W)
      → In s (repo.samples w)
      → has_id job.sample_id job.tenant_id s ≡ true
      → Ensures
          ((repo.update (record s { is_active = false }) >> pure tt) w)
          (λ _ w'. Inactive w' × Touched w w')
          (λ w'. Touched w w')
  write-Inactive s w here hit =
      let (e, d) = has_id-named job.sample_id job.tenant_id s hit in
      let only = only_row sample_key s (repo.samples w) (repo.samples_keyed w) here in
      Ensures-bind (repo.update (record s { is_active = false }) w) _ _ _ _ _
        (repo.update_law (record s { is_active = false }) w)
        (λ r w' p. Updated-Inactive s w w' e d only p.0)
        (λ w' p. elim p [
          | inl same ↦ Touched-same w w' same
          | inr u ↦ (Updated-Inactive s w w' e d only u).1
        ])

  -- What the search of a job finds.
  abbrev Searched : W → Result (Option Sample) × W → Type 0
  Searched w r =
      Ensures r
        (λ o w'.
          (repo.samples w' ≡ repo.samples w)
          × FoundIn (has_id job.sample_id job.tenant_id) (repo.samples w) o)
        (λ w'. repo.samples w' ≡ repo.samples w)

  inactive_one :
      (s : Sample) (xs : List Sample)
      → has_id job.sample_id job.tenant_id s ≡ true
      → IsInactive job.sample_id job.tenant_id xs
      → In s xs
      → can_deactivate s ≡ false
  inactive_one s [] hit h i = absurd i
  inactive_one s (x ∷ xs) hit (n, h) (inl e) =
      let m : (has_id job.sample_id job.tenant_id s && s.is_active) ≡ false = rw e n in ground arith
  inactive_one s (x ∷ xs) hit (n, h) (inr i) = inactive_one s xs hit h i

  -- A run of a job that returns leaves its sample inactive or finds none, and a run changes nothing
  -- else, whichever way it ends.
  pub process-Inactive :
      (w : W)
      → Ensures (process repo job w) (λ _ w'. Inactive w' × Touched w w') (λ w'. Touched w w')
  unfolding process
  process-Inactive w =
      run (repo.find_by_id job.sample_id job.tenant_id w)
        (repo.find_by_id_law job.sample_id job.tenant_id w)
    where
      found :
          (s : Sample) (w1 : W) (b : Bool)
          → s.is_active ≡ b
          → repo.samples w1 ≡ repo.samples w
          → In s (repo.samples w)
          → has_id job.sample_id job.tenant_id s ≡ true
          → Ensures
              ((if b then repo.update (record s { is_active = false }) >> pure tt else pure tt) w1)
              (λ _ w'. Inactive w' × Touched w w')
              (λ w'. Touched w w')
      found s w1 true on e here hit = rw (sym e) (write-Inactive s w1 (rw (sym e) at here) hit)
      found s w1 false off e here hit =
          let (i, _) = has_id-named job.sample_id job.tenant_id s hit in
          let only = only_row sample_key s (repo.samples w) (repo.samples_keyed w) here in
          (
            rw e (idle-IsInactive job.sample_id job.tenant_id s (repo.samples w) i off only),
            Touched-same w w1 e,
          )

      run :
          (r : Result (Option Sample) × W)
          → Searched w r
          → Ensures
              (continue r.0 (deactivate repo) r.1)
              (λ _ w'. Inactive w' × Touched w w')
              (λ w'. Touched w w')
      run (throw x, w1) e = Touched-same w w1 e
      run (ok none, w1) (e, missing) = (
        rw e (absent-IsInactive job.sample_id job.tenant_id (repo.samples w) missing),
        Touched-same w w1 e,
      )
      run (ok (some s), w1) (e, here) = found s w1 s.is_active refl e here.0 here.1

  -- A job whose sample is inactive writes nothing.
  pub process_idle : (w : W) → Inactive w → repo.samples (process repo job w).1 ≡ repo.samples w
  unfolding process
  process_idle w h =
      run (repo.find_by_id job.sample_id job.tenant_id w)
        (repo.find_by_id_law job.sample_id job.tenant_id w)
    where
      run :
          (r : Result (Option Sample) × W)
          → Searched w r
          → repo.samples (continue r.0 (deactivate repo) r.1).1 ≡ repo.samples w
      run (throw x, w1) e = e
      run (ok none, w1) (e, missing) = e
      run (ok (some s), w1) (e, here) =
          let off : s.is_active ≡ false = inactive_one s (repo.samples w) here.1 h here.0 in
          rw off e
