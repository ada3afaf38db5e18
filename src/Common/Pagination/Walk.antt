-- ===== src/Common/Pagination/Walk.antt =====
-- A client of a listing of src/common/utils/pagination.util.ts, which reads page after page while
-- `hasNext` says that there is another.
use nestjs_hexagonal_templat.Prelude.{
  ℕ, zero, suc, ◌+◌, ◌-◌, ◌*◌, ◌≤◌, ◌<◌, ◌≡◌, refl, sym, ap, ◌∙◌, inl, inr, Bool, List, [], ◌∷◌,
  ◌++◌, arith, ltb, if◌then◌else◌, Bool-cases, length, take, drop, All, length-drop, ltb→lt, true,
}
use Prim.Native.Nat.mul
use Prim.Native.Nat.add
use nestjs_hexagonal_templat.Common.Pagination.{build_pagination_meta, has_next_lem}

module _ {A : Type 0} where
  -- The entries of a page, as `skip` and `take` of a query cut them.
  abbrev pub page_of : ℕ → ℕ → List A → List A
  page_of page per_page xs = take per_page (drop ((page - 1) * per_page) xs)

  -- The pages that the client reads, in their order.
  unfoldable pub walk : ℕ → ℕ → ℕ → List A → List (List A)
  unfolding build_pagination_meta
  walk zero page per_page xs = []
  walk (suc fuel) page per_page xs =
      let rest = walk fuel (suc page) per_page xs in
      page_of page per_page xs
      ∷ (if (build_pagination_meta (length xs) page per_page).has_next then rest else [])

  abbrev pub concat : List (List A) → List A
  concat [] = []
  concat (p ∷ ps) = p ++ concat ps

  take-drop : (n : ℕ) (xs : List A) → take n xs ++ drop n xs ≡ xs
  take-drop zero xs = refl
  take-drop (suc n) [] = refl
  take-drop (suc n) (x ∷ xs) = ap (λ ys. x ∷ ys) (take-drop n xs)

  drop-empty : (n : ℕ) → drop {A = A} n [] ≡ []
  drop-empty zero = refl
  drop-empty (suc n) = refl

  drop-drop : (m n : ℕ) (xs : List A) → drop m (drop n xs) ≡ drop (n + m) xs
  drop-drop m zero xs = ap (λ k. drop k xs) (omega arith)
  drop-drop m (suc n) [] = drop-empty m ∙ sym (drop-empty (suc n + m))
  drop-drop m (suc n) (x ∷ xs) = drop-drop m n xs ∙ ap (λ k. drop k (x ∷ xs)) (sym (add.suc n m))

  drop-all : (n : ℕ) (xs : List A) → length xs ≤ n → drop n xs ≡ []
  drop-all n [] h = drop-empty n
  drop-all zero (x ∷ xs) h = absurd (omega arith)
  drop-all (suc n) (x ∷ xs) h = drop-all n xs (omega arith)

  -- A page, and what comes after it if there is more, is what was left.
  page-rest :
      (k per_page : ℕ) (xs : List A) (rest : List (List A)) (b : Bool)
      → b ≡ ltb (suc k * per_page) (length xs)
      → (b ≡ true → concat rest ≡ drop (suc k * per_page) xs)
      → page_of (suc k) per_page xs ++ concat (if b then rest else []) ≡ drop (k * per_page) xs
  page-rest k per_page xs rest b more e =
      let left : List A = drop (k * per_page) xs in
      let here : page_of (suc k) per_page xs ≡ take per_page left =
        ap (λ n. take per_page (drop (n * per_page) xs)) (omega arith) in
      let after : drop per_page left ≡ drop (suc k * per_page) xs =
        drop-drop per_page (k * per_page) xs
        ∙ ap (λ n. drop n xs) (omega (arith, mul.suc k per_page)) in
      let tail : concat (if b then rest else []) ≡ drop per_page left = elim (Bool-cases b) [
        | inl going ↦ rw going (e going ∙ sym after)
        | inr done ↦ rw done (sym (drop-all (suc k * per_page) xs (ground arith)) ∙ sym after)
      ] in
      rw here (rw tail (take-drop per_page left))

  walk-from :
      (fuel k per_page : ℕ) (xs : List A)
      → 0 < per_page
      → length xs < fuel + k * per_page
      → concat (walk fuel (suc k) per_page xs) ≡ drop (k * per_page) xs
  unfolding walk
  walk-from zero k per_page xs h enough = sym (drop-all (k * per_page) xs (omega arith))
  walk-from (suc fuel) k per_page xs h enough =
      let next = mul.suc k per_page in
      page-rest k per_page xs (walk fuel (suc (suc k)) per_page xs) _
        (has_next_lem (length xs) (suc k) per_page h)
        (λ _. walk-from fuel (suc k) per_page xs h (omega arith))

  abbrev IsFilled : List A → Type 0
  IsFilled p = 0 < length p

  take-IsFilled : (n : ℕ) (xs : List A) → 0 < n → 0 < length xs → IsFilled (take n xs)
  take-IsFilled zero xs h k = h
  take-IsFilled (suc n) [] h k = k
  take-IsFilled (suc n) (x ∷ xs) h k = omega arith

  page_of-IsFilled :
      (k per_page : ℕ) (xs : List A)
      → 0 < per_page
      → k * per_page < length xs
      → IsFilled (page_of (suc k) per_page xs)
  page_of-IsFilled k per_page xs h more =
      let here : page_of (suc k) per_page xs ≡ take per_page (drop (k * per_page) xs) =
        ap (λ n. take per_page (drop (n * per_page) xs)) (omega arith) in
      rw here (
        take-IsFilled per_page (drop (k * per_page) xs) h
          (omega (arith, length-drop (k * per_page) xs)))

  rest-IsFilled :
      (k per_page : ℕ) (xs : List A) (rest : List (List A)) (b : Bool)
      → b ≡ ltb (suc k * per_page) (length xs)
      → (suc k * per_page < length xs → All IsFilled rest)
      → All IsFilled (if b then rest else [])
  rest-IsFilled k per_page xs rest b more f = elim (Bool-cases b) [
    | inl going ↦ rw going (f (ltb→lt (suc k * per_page) (length xs) (sym more ∙ going)))
    | inr done ↦ rw done tt
  ]

  walk-IsFilled :
      (fuel k per_page : ℕ) (xs : List A)
      → 0 < per_page
      → k * per_page < length xs
      → All IsFilled (walk fuel (suc k) per_page xs)
  unfolding walk
  walk-IsFilled zero k per_page xs h more = tt
  walk-IsFilled (suc fuel) k per_page xs h more = (
    page_of-IsFilled k per_page xs h more,
    rest-IsFilled k per_page xs (walk fuel (suc (suc k)) per_page xs) _
        (has_next_lem (length xs) (suc k) per_page h) (walk-IsFilled fuel (suc k) per_page xs h),
  )

  -- Reading page after page from the first, while `hasNext` says that there is another, gives every
  -- entry once and in order, and no page that it reads after the first is empty, for any page size
  -- but 0 and any number of pages that the client is ready to read, if it is more than there are entries.
  pub walk_lem :
      (fuel per_page : ℕ) (xs : List A)
      → 0 < per_page
      → length xs < fuel
      → (concat (walk fuel 1 per_page xs) ≡ xs)
        × All (λ p. 0 < length p) (drop 1 (walk fuel 1 per_page xs))
  unfolding walk
  walk_lem zero per_page xs h enough = absurd (omega arith)
  walk_lem (suc fuel) per_page xs h enough = (
    walk-from (suc fuel) 0 per_page xs h (omega arith) ∙ ap (λ n. drop n xs) (mul.zero per_page),
    rest-IsFilled 0 per_page xs (walk fuel 2 per_page xs) _ (has_next_lem (length xs) 1 per_page h)
        (walk-IsFilled fuel 1 per_page xs h),
  )
