-- ===== src/Database/Members.antt =====
-- Which rows are there after rows are rewritten, removed or inserted.
use nestjs_hexagonal_templat.Prelude.{
  ◌≡◌, refl, ◌⊎◌, inl, inr, Bool, true, List, [], ◌∷◌, ◌++◌, keep, Bool-cases,
}
use nestjs_hexagonal_templat.Database.{In, rewrite_rows, Inserted}

module _ {Row : Type 0} where
  pub In-rewrite :
      (p : Row → Bool) (f : Row → Row) (x : Row) (xs : List Row)
      → In x (rewrite_rows p f xs)
      → In x xs ⊎ ((y : Row) × In y xs × (p y ≡ true) × (x ≡ f y))
  unfolding rewrite_rows
  In-rewrite p f x [] here = elim here [ ]
  In-rewrite p f x (y ∷ ys) (inr here) = elim (In-rewrite p f x ys here) [
    | inl old ↦ inl (inr old)
    | inr (z, there, hit, e) ↦ inr (z, inr there, hit, e)
  ]
  In-rewrite p f x (y ∷ ys) (inl e) = elim (Bool-cases (p y)) [
    | inl hit ↦ inr (y, inl refl, hit, rw hit at e)
    | inr miss ↦ inl (inl (rw miss at e))
  ]

  pub In-keep : (p : Row → Bool) (x : Row) (xs : List Row) → In x (keep p xs) → In x xs
  In-keep p x [] here = elim here [ ]
  In-keep p x (y ∷ ys) here = elim (Bool-cases (p y)) [
    | inl hit ↦ elim (rw hit at here) [ inl e ↦ inl e | inr there ↦ inr (In-keep p x ys there) ]
    | inr miss ↦ inr (In-keep p x ys (rw miss at here))
  ]

  In-around : (r x : Row) (xs ys : List Row) → In x (xs ++ (r ∷ ys)) → (x ≡ r) ⊎ In x (xs ++ ys)
  In-around r x [] ys (inl e) = inl e
  In-around r x [] ys (inr there) = inr there
  In-around r x (y ∷ xs) ys (inl e) = inr (inl e)
  In-around r x (y ∷ xs) ys (inr here) = elim (In-around r x xs ys here) [
    | inl e ↦ inl e
    | inr there ↦ inr (inr there)
  ]

  pub In-Inserted :
      (r x : Row) (before after : List Row)
      → Inserted r before after
      → In x after
      → (x ≡ r) ⊎ In x before
  In-Inserted r x before after (xs, ys, b, a) here = rw b (In-around r x xs ys (rw a at here))
