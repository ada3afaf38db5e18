-- ===== src/Sample/Position.antt =====
-- src/sample/application/use-cases/create-sample.use-case.ts: where a sample without a position goes.
use nestjs_hexagonal_templat.Prelude.{
  ℕ, zero, suc, String, ◌≡◌, refl, ap, ◌∙◌, ◌⊎◌, inl, inr, true, false, Option, none, some, List,
  [], ◌∷◌, arith, All,
}
use nestjs_hexagonal_templat.Prelude.Int.{ℤ, pos, negsuc, leb_int, succ_int}
use nestjs_hexagonal_templat.Common.Exec.{pure, Ensures, Ensures-bind}
use nestjs_hexagonal_templat.Database.{Inserted, IsMaxOf}
use nestjs_hexagonal_templat.Sample.{
  Sample, CreateSampleDto, SampleResponseDto, to_domain, to_response,
}
use nestjs_hexagonal_templat.Sample.Port.{SampleRepositoryPort, of_tenant, or_minus_one}
use nestjs_hexagonal_templat.Sample.UseCases.{order_for, create_sample}

-- Every sample of the tenant is in front of a position.
abbrev pub IsBehind : String → List Sample → ℤ → Type 0
IsBehind tenant xs position =
    All
      (λ (s : Sample).
        (of_tenant tenant s ≡ false) ⊎ (leb_int (succ_int s.sort_order) position ≡ true))
      xs

leb_int-succ : (a b : ℤ) → leb_int a b ≡ true → leb_int (succ_int a) (succ_int b) ≡ true
leb_int-succ (pos a) (pos b) h = ground arith
leb_int-succ (pos a) (negsuc b) h = absurd (cc)
leb_int-succ (negsuc zero) (pos b) h = ground arith
leb_int-succ (negsuc (suc a)) (pos b) h = refl
leb_int-succ (negsuc zero) (negsuc zero) h = refl
leb_int-succ (negsuc zero) (negsuc (suc b)) h = absurd (ground arith)
leb_int-succ (negsuc (suc a)) (negsuc zero) h = refl
leb_int-succ (negsuc (suc a)) (negsuc (suc b)) h = ground arith

no_rows-IsBehind :
    (tenant : String) (position : ℤ) (xs : List Sample)
    → All (λ s. of_tenant tenant s ≡ false) xs
    → IsBehind tenant xs position
no_rows-IsBehind tenant position [] h = tt
no_rows-IsBehind tenant position (x ∷ xs) (n, h) = (inl n, no_rows-IsBehind tenant position xs h)

below-IsBehind :
    (tenant : String) (m : ℤ) (xs : List Sample)
    → All (λ (s : Sample). (of_tenant tenant s ≡ false) ⊎ (leb_int s.sort_order m ≡ true)) xs
    → IsBehind tenant xs (succ_int m)
below-IsBehind tenant m [] h = tt
below-IsBehind tenant m (x ∷ xs) (inl other, h) = (inl other, below-IsBehind tenant m xs h)
below-IsBehind tenant m (x ∷ xs) (inr less, h) =
    (inr (leb_int-succ x.sort_order m less), below-IsBehind tenant m xs h)

max-IsBehind :
    (tenant : String) (xs : List Sample) (o : Option ℤ)
    → IsMaxOf (of_tenant tenant) (λ (s : Sample). s.sort_order) xs o
    → IsBehind tenant xs (succ_int (or_minus_one o))
max-IsBehind tenant xs none h = no_rows-IsBehind tenant (pos 0) xs h
max-IsBehind tenant xs (some m) h = below-IsBehind tenant m xs h.1

module _ {W : Type 0} (repo : SampleRepositoryPort W) where
  -- The position of a sample that asks for none.
  order_for-IsBehind :
      (tenant : String) (w : W)
      → Ensures
          (order_for repo none tenant w)
          (λ n w'. (repo.samples w' ≡ repo.samples w) × IsBehind tenant (repo.samples w) n)
          (λ w'. repo.samples w' ≡ repo.samples w)
  order_for-IsBehind tenant w =
      Ensures-bind (repo.get_max_sort_order tenant w) (λ m. pure (succ_int m)) _ _ _ _
        (repo.get_max_sort_order_law tenant w)
        (λ m w' p. (p.0, rw p.1.1 (max-IsBehind tenant (repo.samples w) p.1.0 p.1.2))) (λ w' e. e)

  -- What a creation without a position leaves: a sample of the tenant behind each that was there.
  abbrev pub IsAppended : String → W → SampleResponseDto → W → Type 0
  IsAppended tenant w r w' =
      ((s : Sample) × (r ≡ to_response s)
        × (s.tenant_id ≡ tenant)
        × Inserted s (repo.samples w) (repo.samples w'))
      × IsBehind tenant (repo.samples w) r.sort_order

  -- A sample that is created without a position is inserted, once, in its tenant, and its position is
  -- behind that of every sample that the tenant had; a creation that fails leaves the samples as they
  -- were.
  pub create_sample-IsAppended :
      (now : ℕ) (dto : CreateSampleDto) (tenant : String) (w : W)
      → dto.sort_order ≡ none
      → Ensures
          (create_sample repo now dto tenant w)
          (λ r w'. IsAppended tenant w r w')
          (λ w'. repo.samples w' ≡ repo.samples w)
  unfolding create_sample to_domain to_response
  create_sample-IsAppended now dto tenant w h = rw h (
      Ensures-bind (order_for repo none tenant w) _ _ _ _ _ (order_for-IsBehind tenant w)
        (λ n w1 p.
          Ensures-bind (repo.save (to_domain now dto tenant n) w1) (λ s. pure (to_response s)) _ _ _
            _ (repo.save_law (to_domain now dto tenant n) w1)
            (λ s w2 q.
              let mine : s.tenant_id ≡ tenant = ap (λ (s : Sample). s.tenant_id) q.0.1 in
              let placed : s.sort_order ≡ n = ap (λ (s : Sample). s.sort_order) q.0.1 in
              ((s, refl, mine, rw (← p.0) q.1), rw placed p.1))
            (λ w2 e. e ∙ p.0))
        (λ w' e. e))
