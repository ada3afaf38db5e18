-- ===== src/Database/Memory.antt =====
-- A table in memory: an instance of what `Database` says of TypeORM. A statement that would leave
-- two rows of one key throws, as a database does on a unique violation.
use nestjs_hexagonal_templat.Prelude.{
  ℕ, String, ◌≡◌, ◌⊎◌, refl, inl, inr, if◌then◌else◌, All, arith, Bool, true, false, not, Option,
  none, some, List, [], ◌∷◌, ◌==◌, Bool-cases, apart, take, drop, keep, find, count_if,
}
use mathlib.Core.List.Perm
use nestjs_hexagonal_templat.Prelude.Int.{ℤ, pos, negsuc, leb_int}
use nestjs_hexagonal_templat.Common.Exec.{ok, throw, Exec, Ensures}
use nestjs_hexagonal_templat.Common.Errors.{unknown}
use nestjs_hexagonal_templat.Database.Selection.{find-FoundIn}
use nestjs_hexagonal_templat.Database.{
  rewrite_rows, IsMaxOf, Inserted, IsFresh, IsKeyed, Generated, Table,
}

module _ {Row : Type 0} (key : Row → String) where
  abbrev pub Store : Type 0
  Store = (xs : List Row) × IsKeyed key xs

  abbrev fresh_if :
      (k : String) (x : Row) (xs : List Row) (b : Bool)
      → (key x == k) ≡ b
      → Option (IsFresh key k xs)
      → Option (IsFresh key k (x ∷ xs))
  fresh_if k x xs true e o = none
  fresh_if k x xs false e none = none
  fresh_if k x xs false e (some h) = some (apart (key x) k e, h)

  abbrev fresh? : (k : String) (xs : List Row) → Option (IsFresh key k xs)
  fresh? k [] = some tt
  fresh? k (x ∷ xs) = fresh_if k x xs (key x == k) refl (fresh? k xs)

  abbrev keyed? : (xs : List Row) → Option (IsKeyed key xs)
  keyed? [] = some tt
  keyed? (x ∷ xs) = elim (fresh? (key x) xs) [
    | none ↦ none
    | some h ↦ elim (keyed? xs) [ none ↦ none | some t ↦ some (h, t) ]
  ]

  abbrev commit_if : {A : Type 0} (xs : List Row) → Option (IsKeyed key xs) → A → Exec Store A
  commit_if xs none a w = (throw (unknown "QueryFailedError"), w)
  commit_if xs (some h) a w = (ok a, (xs, h))

  abbrev commit : {A : Type 0} → List Row → A → Exec Store A
  commit xs a = commit_if xs (keyed? xs) a

  pub commit_law :
      {A : Type 0} (xs : List Row) (o : Option (IsKeyed key xs)) (a : A) (w : Store)
      (P : A → List Row → Type 0)
      → P a xs
      → Ensures (commit_if xs o a w) (λ a w'. P a w'.0) (λ w'. w'.0 ≡ w.0)
  commit_law xs none a w P h = refl
  commit_law xs (some k) a w P h = h

  abbrev pub raise_to : ℤ → Option ℤ → Option ℤ
  raise_to a none = some a
  raise_to a (some m) = if leb_int a m then some m else some a

  abbrev pub max_if : (Row → Bool) → (Row → ℤ) → List Row → Option ℤ
  max_if p f [] = none
  max_if p f (x ∷ xs) = let rest = max_if p f xs in if p x then raise_to (f x) rest else rest

  leb_int-total : (a b : ℤ) → leb_int a b ≡ false → leb_int b a ≡ true
  leb_int-total (pos a) (pos b) h = ground arith
  leb_int-total (pos a) (negsuc b) h = refl
  leb_int-total (negsuc a) (pos b) h = absurd (cc)
  leb_int-total (negsuc a) (negsuc b) h = ground arith

  leb_int_refl : (a : ℤ) → leb_int a a ≡ true
  leb_int_refl (pos a) = ground arith
  leb_int_refl (negsuc a) = ground arith

  leb_int_trans : (a b c : ℤ) → leb_int a b ≡ true → leb_int b c ≡ true → leb_int a c ≡ true
  leb_int_trans (pos a) (pos b) (pos c) h k = ground arith
  leb_int_trans (pos a) (pos b) (negsuc c) h k = absurd (cc)
  leb_int_trans (pos a) (negsuc b) c h k = absurd (cc)
  leb_int_trans (negsuc a) b (pos c) h k = refl
  leb_int_trans (negsuc a) (pos b) (negsuc c) h k = absurd (cc)
  leb_int_trans (negsuc a) (negsuc b) (negsuc c) h k = ground arith

  module _ (p : Row → Bool) (f : Row → ℤ) where
    -- The bound of the rows behind, from `m` to a greater one.
    raised :
        (m n : ℤ) (xs : List Row)
        → leb_int m n ≡ true
        → All (λ x. (p x ≡ false) ⊎ (leb_int (f x) m ≡ true)) xs
        → All (λ x. (p x ≡ false) ⊎ (leb_int (f x) n ≡ true)) xs
    raised m n [] le h = tt
    raised m n (x ∷ xs) le (inl miss, h) = (inl miss, raised m n xs le h)
    raised m n (x ∷ xs) le (inr below, h) =
        (inr (leb_int_trans (f x) m n below le), raised m n xs le h)

    no_rows :
        (m : ℤ) (xs : List Row)
        → All (λ x. p x ≡ false) xs
        → All (λ x. (p x ≡ false) ⊎ (leb_int (f x) m ≡ true)) xs
    no_rows m [] h = tt
    no_rows m (x ∷ xs) (miss, h) = (inl miss, no_rows m xs h)

    raise_to-IsMaxOf :
        (x : Row) (xs : List Row) (o : Option ℤ)
        → p x ≡ true
        → IsMaxOf p f xs o
        → IsMaxOf p f (x ∷ xs) (raise_to (f x) o)
    raise_to-IsMaxOf x xs none hit h =
        ((x, inl refl, hit, refl), (inr (leb_int_refl (f x)), no_rows (f x) xs h))
    raise_to-IsMaxOf x xs (some m) hit ((r, here, good, e), h) =
        elim (Bool-cases (leb_int (f x) m)) [
          | inl less ↦
              let kept : IsMaxOf p f (x ∷ xs) (some m) = ((r, inr here, good, e), (inr less, h)) in
              rw less kept
          | inr more ↦
              let new : IsMaxOf p f (x ∷ xs) (some (f x)) = (
                (x, inl refl, hit, refl),
                (inr (leb_int_refl (f x)), raised m (f x) xs (leb_int-total (f x) m more) h),
              ) in
              rw more new
        ]

    skipped-IsMaxOf :
        (x : Row) (xs : List Row) (o : Option ℤ)
        → p x ≡ false
        → IsMaxOf p f xs o
        → IsMaxOf p f (x ∷ xs) o
    skipped-IsMaxOf x xs none miss h = (miss, h)
    skipped-IsMaxOf x xs (some m) miss ((r, here, good, e), h) =
        ((r, inr here, good, e), (inl miss, h))

    pub max_if-IsMaxOf : (xs : List Row) → IsMaxOf p f xs (max_if p f xs)
    max_if-IsMaxOf [] = tt
    max_if-IsMaxOf (x ∷ xs) = elim (Bool-cases (p x)) [
      | inl hit ↦ rw hit (raise_to-IsMaxOf x xs (max_if p f xs) hit (max_if-IsMaxOf xs))
      | inr miss ↦ rw miss (skipped-IsMaxOf x xs (max_if p f xs) miss (max_if-IsMaxOf xs))
    ]

  module _ (stamp : ℕ → Row → Row) (id : String) (now : ℕ) where
    -- The next row is given `id`, and every instant is `now`.
    abbrev pub memory_table : Table Store Row key stamp
    memory_table = record {
      rows = λ w. w.0;
      find_one = λ p w. (ok (find p w.0), w);
      find_and_count =
          λ p before skip limit w. (ok (take limit (drop skip (keep p w.0)), count_if p w.0), w);
      find_sorted = λ before w. (ok w.0, w);
      count = λ p w. (ok (count_if p w.0), w);
      max_of = λ p f w. (ok (max_if p f w.0), w);
      insert = λ make w.
          let row = make (record { id = id; created_at = now; updated_at = now }) in
          commit (row ∷ w.0) row w;
      update = λ p f w. commit (rewrite_rows p (λ r. stamp now (f r)) w.0) tt w;
      soft_delete = λ p w. commit (keep (λ r. not (p r)) w.0) tt w;
      rows_keyed = λ w. w.1;
      find_one_law = λ p w. (refl, find-FoundIn p w.0);
      find_and_count_law =
          λ p before skip limit w. (refl, (keep p w.0, Perm.refl (keep p w.0), refl), refl);
      find_sorted_law = λ before w. (refl, Perm.refl w.0);
      count_law = λ p w. (refl, refl);
      max_of_law = λ p f w. (refl, max_if-IsMaxOf p f w.0);
      insert_law = λ make w.
          let g : Generated = record { id = id; created_at = now; updated_at = now } in
          commit_law (make g ∷ w.0) (keyed? (make g ∷ w.0)) (make g) w
            (λ r after. ((g : Generated) × (r ≡ make g)) × Inserted r w.0 after)
            ((g, refl), ([], w.0, refl, refl));
      update_law = λ p f w.
          commit_law (rewrite_rows p (λ r. stamp now (f r)) w.0) _ tt w
            (λ _ after. (t : ℕ) × (after ≡ rewrite_rows p (λ r. stamp t (f r)) w.0)) (now, refl);
      soft_delete_law = λ p w.
          commit_law (keep (λ r. not (p r)) w.0) _ tt w
            (λ _ after. after ≡ keep (λ r. not (p r)) w.0) refl;
    }
