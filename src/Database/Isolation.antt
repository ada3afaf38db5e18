-- ===== src/Database/Isolation.antt =====
-- What a repository leaves of the rows outside a set of rows, such as those of other tenants.
use nestjs_hexagonal_templat.Prelude.{
  ◌≡◌, refl, sym, ap, ◌∙◌, Bool, true, not, List, [], ◌∷◌, ◌++◌, arith, keep,
}
use nestjs_hexagonal_templat.Common.Exec.{
  Result, ok, throw, Exec, continue, pure, ◌>>=◌, Ensures, Ensures-mono, Ensures-state,
}
use nestjs_hexagonal_templat.Database.{Inserted, rewrite_rows}

module _ {Row : Type 0} (belongs : Row → Bool) where
  abbrev pub outside : List Row → List Row
  outside xs = keep (λ x. not (belongs x)) xs

  outside-append : (xs ys : List Row) → outside (xs ++ ys) ≡ outside xs ++ outside ys
  outside-append [] ys = refl
  outside-append (x ∷ xs) ys = ground (arith, outside-append xs ys)

  pub outside-Inserted :
      (r : Row) (before after : List Row)
      → belongs r ≡ true
      → Inserted r before after
      → outside after ≡ outside before
  outside-Inserted r before after mine (xs, ys, e, d) =
      let here : outside (r ∷ ys) ≡ outside ys = rw mine refl in
      ap outside d
      ∙ (outside-append xs (r ∷ ys)
          ∙ (ap (λ us. outside xs ++ us) here ∙ (sym (outside-append xs ys) ∙ sym (ap outside e))))

  pub outside-rewrite :
      (p : Row → Bool) (f : Row → Row) (xs : List Row)
      → ((x : Row) → p x ≡ true → belongs x ≡ true)
      → ((x : Row) → belongs (f x) ≡ belongs x)
      → outside (rewrite_rows p f xs) ≡ outside xs
  unfolding rewrite_rows
  outside-rewrite p f [] m h = refl
  outside-rewrite p f (x ∷ xs) m h = ground (arith, outside-rewrite p f xs m h, m x, h x)

  pub outside-removed :
      (p : Row → Bool) (xs : List Row)
      → ((x : Row) → p x ≡ true → belongs x ≡ true)
      → outside (keep (λ x. not (p x)) xs) ≡ outside xs
  outside-removed p [] m = refl
  outside-removed p (x ∷ xs) m = ground (arith, outside-removed p xs m, m x)

module _ {W Row : Type 0} (rows : W → List Row) (belongs : Row → Bool) where
  -- An action that leaves the rows outside alone, however it ends.
  abbrev pub Isolated : {A : Type 0} → Exec W A → Type 0
  Isolated m = (w : W) → outside belongs (rows (m w).1) ≡ outside belongs (rows w)

  pub bind-Isolated :
      {A B : Type 0} (m : Exec W A) (f : A → Exec W B)
      → Isolated m
      → ((a : A) → Isolated (f a))
      → Isolated (m >>= f)
  bind-Isolated m f h k w = after (m w) (h w)
    where
      after :
          (r : Result _ × W)
          → outside belongs (rows r.1) ≡ outside belongs (rows w)
          → outside belongs (rows (continue r.0 f r.1).1) ≡ outside belongs (rows w)
      after (ok a, w1) e = k a w1 ∙ e
      after (throw x, w1) e = e

  pub pure-Isolated : {A : Type 0} (a : A) → Isolated (pure a)
  pure-Isolated a w = refl

  pub respond-Isolated :
      {A B : Type 0} (m : Exec W A) (f : A → B) → Isolated m → Isolated (m >>= λ a. pure (f a))
  respond-Isolated m f h = bind-Isolated m _ h (λ a. pure-Isolated (f a))

  -- An action that leaves all rows alone.
  pub reads-Isolated : {A : Type 0} (m : Exec W A) → ((w : W) → rows (m w).1 ≡ rows w) → Isolated m
  reads-Isolated m h w = ap (outside belongs) (h w)

  -- An action whose law says what it leaves, where it returns and where it throws.
  pub law-Isolated :
      {A : Type 0} (m : Exec W A) (w : W) (P : A → W → Type 0) (Q : W → Type 0)
      → Ensures (m w) P Q
      → ((a : A) (w' : W) → P a w' → outside belongs (rows w') ≡ outside belongs (rows w))
      → ((w' : W) → Q w' → outside belongs (rows w') ≡ outside belongs (rows w))
      → outside belongs (rows (m w).1) ≡ outside belongs (rows w)
  law-Isolated m w P Q law p q =
      let I : W → Type 0 = λ w'. outside belongs (rows w') ≡ outside belongs (rows w) in
      Ensures-state (m w) I (Ensures-mono (m w) P Q (λ _. I) I law p q)
