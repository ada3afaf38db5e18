-- ===== src/Database/Rows.antt =====
-- How counts of rows change when rows are rewritten, removed or inserted.
use nestjs_hexagonal_templat.Prelude.{
  ◌+◌, ◌≤◌, String, ◌≡◌, refl, sym, ap, inl, inr, Bool, true, false, not, List, [], ◌∷◌, ◌++◌,
  arith, Bool-cases, keep, count_if, All,
}
use nestjs_hexagonal_templat.Database.{In, rewrite_rows, Inserted, IsFresh, IsKeyed}

module _ {Row : Type 0} (q : Row → Bool) where
  pub count_if-append : (xs ys : List Row) → count_if q (xs ++ ys) ≡ count_if q xs + count_if q ys
  count_if-append [] ys = omega arith
  count_if-append (x ∷ xs) ys = omega (arith, count_if-append xs ys)

  pub count_if-Inserted :
      (r : Row) (before after : List Row)
      → Inserted r before after
      → count_if q before ≤ count_if q after
  count_if-Inserted r before after (xs, ys, b, a) =
      rw (b, a, count_if-append xs ys, count_if-append xs (r ∷ ys)) (omega arith)

  module _ (p : Row → Bool) (f : Row → Row) where
    -- Rows that pass the test and are rewritten still pass it.
    abbrev pub Keeps : Row → Type 0
    Keeps x = p x ≡ true → q x ≡ true → q (f x) ≡ true

    pub count_if-rewrite :
        (xs : List Row) → All Keeps xs → count_if q xs ≤ count_if q (rewrite_rows p f xs)
    unfolding rewrite_rows
    count_if-rewrite [] h = omega arith
    count_if-rewrite (x ∷ xs) (k, h) = ground (arith, count_if-rewrite xs h, k)

  abbrev pub Spares : (Row → Bool) → Row → Type 0
  Spares p x = p x ≡ true → q x ≡ false

  pub count_if-keep :
      (p : Row → Bool) (xs : List Row)
      → All (Spares p) xs
      → count_if q xs ≤ count_if q (keep (λ r. not (p r)) xs)
  count_if-keep p [] h = omega arith
  count_if-keep p (x ∷ xs) (k, h) = ground (arith, count_if-keep p xs h, k)

-- With a primary key at most one row has a given key.
module _ {Row : Type 0} (key : Row → String) where
  -- The test passes for rows of one key alone.
  abbrev pub Selects : (Row → Bool) → String → Type 0
  Selects p k = (x : Row) → p x ≡ true → key x ≡ k

  fresh-Keeps :
      (q p : Row → Bool) (f : Row → Row) (k : String) (xs : List Row)
      → Selects p k
      → IsFresh key k xs
      → All (Keeps q p f) xs
  fresh-Keeps q p f k [] s h = tt
  fresh-Keeps q p f k (x ∷ xs) s (n, h) = ((λ m _. absurd (n (s x m))), fresh-Keeps q p f k xs s h)

  fresh-Spares :
      (q p : Row → Bool) (k : String) (xs : List Row)
      → Selects p k
      → IsFresh key k xs
      → All (Spares q p) xs
  fresh-Spares q p k [] s h = tt
  fresh-Spares q p k (x ∷ xs) s (n, h) = ((λ m. absurd (n (s x m))), fresh-Spares q p k xs s h)

  -- Rewriting the row of one key loses at most one row of a count.
  pub count_if-rewrite_one :
      (q p : Row → Bool) (f : Row → Row) (k : String) (xs : List Row)
      → Selects p k
      → IsKeyed key xs
      → count_if q xs ≤ count_if q (rewrite_rows p f xs) + 1
  unfolding rewrite_rows
  count_if-rewrite_one q p f k [] s h = omega arith
  count_if-rewrite_one q p f k (x ∷ xs) s (n, h) = elim (Bool-cases (p x)) [
    | inl hit ↦
        ground (arith, count_if-rewrite q p f xs (fresh-Keeps q p f k xs s (rw (s x hit) at n)))
    | inr miss ↦ ground (arith, count_if-rewrite_one q p f k xs s h)
  ]

  pub count_if-keep_one :
      (q p : Row → Bool) (k : String) (xs : List Row)
      → Selects p k
      → IsKeyed key xs
      → count_if q xs ≤ count_if q (keep (λ r. not (p r)) xs) + 1
  count_if-keep_one q p k [] s h = omega arith
  count_if-keep_one q p k (x ∷ xs) s (n, h) = elim (Bool-cases (p x)) [
    | inl hit ↦ ground (arith, count_if-keep q p xs (fresh-Spares q p k xs s (rw (s x hit) at n)))
    | inr miss ↦ ground (arith, count_if-keep_one q p k xs s h)
  ]

  -- The row of a key is the only one.
  fresh_only :
      (r : Row) (k : String) (xs : List Row)
      → key r ≡ k
      → IsFresh key k xs
      → All (λ x. key x ≡ k → x ≡ r) xs
  fresh_only r k [] e h = tt
  fresh_only r k (x ∷ xs) e (n, h) = ((λ m. absurd (n m)), fresh_only r k xs e h)

  not-In_fresh : (r : Row) (xs : List Row) → IsFresh key (key r) xs → In r xs → ⊥
  not-In_fresh r [] h i = i
  not-In_fresh r (x ∷ xs) (n, h) (inl e) = n (ap key (sym e))
  not-In_fresh r (x ∷ xs) (n, h) (inr i) = not-In_fresh r xs h i

  pub only_row :
      (r : Row) (xs : List Row) → IsKeyed key xs → In r xs → All (λ x. key x ≡ key r → x ≡ r) xs
  only_row r [] h i = tt
  only_row r (x ∷ xs) (n, h) (inl e) =
      ((λ _. sym e), fresh_only r (key r) xs refl (rw (sym (ap key e)) at n))
  only_row r (x ∷ xs) (n, h) (inr i) =
      ((λ m. absurd (not-In_fresh r xs (rw m at n) i)), only_row r xs h i)
