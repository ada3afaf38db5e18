-- ===== src/Database/Selection.antt =====
-- The rows that a condition selects, in any order: a search among them that at most one row can answer
-- gives what it gives among all rows.
use nestjs_hexagonal_templat.Prelude.{
  ◌≡◌, refl, ap, inl, inr, Bool, true, false, ◌&&◌, Option, none, some, List, [], ◌∷◌, arith, find,
  All, Bool-cases,
}
use nestjs_hexagonal_templat.Database.{In, FoundIn}

module _ {Row : Type 0} where
  -- Exactly the rows that pass a test.
  abbrev pub IsSelection : (Row → Bool) → List Row → List Row → Type 0
  IsSelection p rows xs =
      ((r : Row) → In r xs → In r rows × (p r ≡ true))
      × ((r : Row) → In r rows → p r ≡ true → In r xs)

  pub All-In : (P : Row → Type 0) (xs : List Row) (r : Row) → All P xs → In r xs → P r
  All-In P [] r h i = absurd i
  All-In P (x ∷ xs) r (h, hs) (inl e) = rw e h
  All-In P (x ∷ xs) r (h, hs) (inr i) = All-In P xs r hs i

  later :
      (p : Row → Bool) (x : Row) (xs : List Row) (o : Option Row)
      → p x ≡ false
      → FoundIn p xs o
      → FoundIn p (x ∷ xs) o
  later p x xs none h f = (h, f)
  later p x xs (some r) h f = (inr f.0, f.1)

  pub find-FoundIn : (p : Row → Bool) (xs : List Row) → FoundIn p xs (find p xs)
  find-FoundIn p [] = tt
  find-FoundIn p (x ∷ xs) = elim (Bool-cases (p x)) [
    | inl hit ↦ let here : FoundIn p (x ∷ xs) (some x) = (inl refl, hit) in rw hit here
    | inr miss ↦
        let there : FoundIn p (x ∷ xs) (find p xs) =
          later p x xs (find p xs) miss (find-FoundIn p xs) in
        rw miss there
  ]

  module _ (p q : Row → Bool) where
    both : (r : Row) → p r ≡ true → q r ≡ true → (p r && q r) ≡ true
    both r h k = rw (h, k) refl

    pub found_same :
        (rows xs : List Row) (o o' : Option Row)
        → IsSelection p rows xs
        → ((r s : Row) → In r rows → In s rows → (p r && q r) ≡ true → (p s && q s) ≡ true → r ≡ s)
        → FoundIn q xs o
        → FoundIn (λ r. p r && q r) rows o'
        → o ≡ o'
    found_same rows xs none none sel only h k = refl
    found_same rows xs none (some r) sel only h (here, hit) =
        let split : (p r ≡ true) × (q r ≡ true) = ground arith in
        let missed : q r ≡ false = All-In (λ x. q x ≡ false) xs r h (sel.1 r here split.0) in
        absurd (cc (missed, split.1))
    found_same rows xs (some r) none sel only (here, hit) k =
        let (kept, good) = sel.0 r here in
        let missed : (p r && q r) ≡ false = All-In (λ x. (p x && q x) ≡ false) rows r k kept in
        absurd (cc (missed, both r good hit))
    found_same rows xs (some r) (some s) sel only (here, hit) (there, both_s) =
        let (kept, good) = sel.0 r here in
        ap (λ x. some x) (only r s kept there (both r good hit) both_s)

    pub find-IsSelection :
        (rows xs : List Row)
        → IsSelection p rows xs
        → ((r s : Row) → In r rows → In s rows → (p r && q r) ≡ true → (p s && q s) ≡ true → r ≡ s)
        → find q xs ≡ find (λ r. p r && q r) rows
    find-IsSelection rows xs sel only =
        found_same rows xs (find q xs) (find (λ r. p r && q r) rows) sel only (find-FoundIn q xs)
          (find-FoundIn (λ r. p r && q r) rows)
