-- ===== src/Database.antt =====
-- TypeORM as the repositories of the application use it: one table of entities with an `id`, an
-- `updatedAt` that TypeORM writes, and a `deletedAt` that hides an entity from `find*` and `count`.
-- The operations are arguments; the laws state what TypeORM documents of them. Each is one SQL
-- statement, so it happens whole or, if it throws, not at all.
pub mod Rows
pub mod Memory
pub mod ReadBack
pub mod Selection
pub mod Isolation
pub mod Keyed
pub mod Members
use nestjs_hexagonal_templat.Prelude.{
  ℕ, zero, suc, ◌+◌, ◌-◌, ◌*◌, ◌/◌, ◌%◌, ◌^◌, ◌≤◌, ◌<◌, String, ◌≡◌, refl, sym, ap, ◌∙◌, ◌≢◌, ◌↔◌,
  ◌⊎◌, inl, inr, Bool, true, false, not, ◌&&◌, ◌||◌, Option, none, some, List, [], ◌∷◌, ◌++◌, map,
  arith, ◌==◌, eq_iff, eq_refl, ltb, leb, eqb, if◌then◌else◌, Bool-cases, Option-cases, str_cases,
  length, get_elem?, take, drop, any, all, keep, find, count_if, All, length-append, length-drop,
  length-keep-le, length-map, tests, ltb→lt, lt→ltb, leb→le, le→leb,
}
use mathlib.Core.List.{Perm}
use nestjs_hexagonal_templat.Prelude.Int.{ℤ, leb_int}
use nestjs_hexagonal_templat.Common.Exec.{Result, ok, throw, Exec, Ensures}

-- The columns that the database fills when a row is inserted.
pub record Generated : Type 0 where
  pub id : String
  pub created_at : ℕ
  pub updated_at : ℕ

module _ {Row : Type 0} where
  abbrev pub In : Row → List Row → Type 0
  In r [] = ⊥
  In r (x ∷ xs) = (r ≡ x) ⊎ In r xs

  -- What a search for one row gives.
  abbrev pub FoundIn : (Row → Bool) → List Row → Option Row → Type 0
  FoundIn p xs none = All (λ x. p x ≡ false) xs
  FoundIn p xs (some r) = In r xs × (p r ≡ true)

  -- The rows after the matching ones are rewritten.
  unfoldable pub rewrite_rows : (Row → Bool) → (Row → Row) → List Row → List Row
  rewrite_rows p f [] = []
  rewrite_rows p f (x ∷ xs) = (if p x then f x else x) ∷ rewrite_rows p f xs

  -- The greatest value of a column among the matching rows, none where there is no such row.
  abbrev pub IsMaxOf : (Row → Bool) → (Row → ℤ) → List Row → Option ℤ → Type 0
  IsMaxOf p f xs none = All (λ x. p x ≡ false) xs
  IsMaxOf p f xs (some m) =
      ((r : Row) × In r xs × (p r ≡ true) × (f r ≡ m))
      × All (λ x. (p x ≡ false) ⊎ (leb_int (f x) m ≡ true)) xs

  abbrev pub Inserted : Row → List Row → List Row → Type 0
  Inserted r before after =
      (xs : List Row) × (ys : List Row) × (before ≡ xs ++ ys) × (after ≡ xs ++ (r ∷ ys))

module _ {Row : Type 0} (key : Row → String) where
  abbrev pub IsFresh : String → List Row → Type 0
  IsFresh k [] = Unit
  IsFresh k (x ∷ xs) = (key x ≢ k) × IsFresh k xs

  -- The primary key holds each value once.
  abbrev pub IsKeyed : List Row → Type 0
  IsKeyed [] = Unit
  IsKeyed (x ∷ xs) = IsFresh (key x) xs × IsKeyed xs

-- `W` is the state of the world; `stamp` writes the `updatedAt` of a row.
pub record Table (W Row : Type 0) (key : Row → String) (stamp : ℕ → Row → Row) : Type 0 where
  -- The rows whose `deletedAt` is null, in the order of the primary key.
  pub rows : W → List Row
  pub find_one : (Row → Bool) → Exec W (Option Row)
  -- `findAndCount` with its order, `skip` and `take`.
  pub find_and_count : (Row → Bool) → (Row → Row → Bool) → ℕ → ℕ → Exec W (List Row × ℕ)
  -- `find` with its order alone.
  pub find_sorted : (Row → Row → Bool) → Exec W (List Row)
  pub count : (Row → Bool) → Exec W ℕ
  -- `SELECT MAX(column)` with a condition that names the rows that are not deleted.
  pub max_of : (Row → Bool) → (Row → ℤ) → Exec W (Option ℤ)
  -- `save(create(columns))`
  pub insert : (Generated → Row) → Exec W Row
  pub update : (Row → Bool) → (Row → Row) → Exec W (Unit {0})
  pub soft_delete : (Row → Bool) → Exec W (Unit {0})
  pub rows_keyed : (w : W) → IsKeyed key (rows w)
  pub find_one_law :
      (p : Row → Bool) (w : W)
      → Ensures
          (find_one p w)
          (λ o w'. (rows w' ≡ rows w) × FoundIn p (rows w) o)
          (λ w'. rows w' ≡ rows w)
  pub find_and_count_law :
      (p : Row → Bool) (before : Row → Row → Bool) (skip limit : ℕ) (w : W)
      → Ensures
          (find_and_count p before skip limit w)
          (λ r w'.
            (rows w' ≡ rows w)
            × ((s : List Row) × Perm s (keep p (rows w)) × (r.0 ≡ take limit (drop skip s)))
            × (r.1 ≡ count_if p (rows w)))
          (λ w'. rows w' ≡ rows w)
  pub find_sorted_law :
      (before : Row → Row → Bool) (w : W)
      → Ensures
          (find_sorted before w)
          (λ s w'. (rows w' ≡ rows w) × Perm s (rows w))
          (λ w'. rows w' ≡ rows w)
  pub count_law :
      (p : Row → Bool) (w : W)
      → Ensures
          (count p w)
          (λ n w'. (rows w' ≡ rows w) × (n ≡ count_if p (rows w)))
          (λ w'. rows w' ≡ rows w)
  pub max_of_law :
      (p : Row → Bool) (f : Row → ℤ) (w : W)
      → Ensures
          (max_of p f w)
          (λ o w'. (rows w' ≡ rows w) × IsMaxOf p f (rows w) o)
          (λ w'. rows w' ≡ rows w)
  pub insert_law :
      (make : Generated → Row) (w : W)
      → Ensures
          (insert make w)
          (λ r w'. ((g : Generated) × (r ≡ make g)) × Inserted r (rows w) (rows w'))
          (λ w'. rows w' ≡ rows w)
  pub update_law :
      (p : Row → Bool) (f : Row → Row) (w : W)
      → Ensures
          (update p f w)
          (λ _ w'. (t : ℕ) × (rows w' ≡ rewrite_rows p (λ r. stamp t (f r)) (rows w)))
          (λ w'. rows w' ≡ rows w)
  pub soft_delete_law :
      (p : Row → Bool) (w : W)
      → Ensures
          (soft_delete p w)
          (λ _ w'. rows w' ≡ keep (λ r. not (p r)) (rows w))
          (λ w'. rows w' ≡ rows w)
