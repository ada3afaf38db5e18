-- ===== src/Database/Keyed.antt =====
-- A column that holds each value once, as rows are rewritten, removed or inserted.
use nestjs_hexagonal_templat.Prelude.{
  String, ◌≡◌, ◌≢◌, sym, ◌∙◌, Bool, false, List, [], ◌∷◌, ◌++◌, ◌==◌, keep, All, Bool-cases, inl,
  inr, apart,
}
use nestjs_hexagonal_templat.Database.{rewrite_rows, Inserted, IsFresh, IsKeyed}

module _ {Row : Type 0} (key : Row → String) where
  fresh-rewrite :
      (p : Row → Bool) (f : Row → Row) (k : String) (xs : List Row)
      → ((x : Row) → key (f x) ≡ key x)
      → IsFresh key k xs
      → IsFresh key k (rewrite_rows p f xs)
  unfolding rewrite_rows
  fresh-rewrite p f k [] same h = tt
  fresh-rewrite p f k (x ∷ xs) same (n, h) = elim (Bool-cases (p x)) [
    | inl hit ↦ rw hit ((λ e. n (sym (same x) ∙ e)), fresh-rewrite p f k xs same h)
    | inr miss ↦ rw miss (n, fresh-rewrite p f k xs same h)
  ]

  pub IsKeyed-rewrite :
      (p : Row → Bool) (f : Row → Row) (xs : List Row)
      → ((x : Row) → key (f x) ≡ key x)
      → IsKeyed key xs
      → IsKeyed key (rewrite_rows p f xs)
  unfolding rewrite_rows
  IsKeyed-rewrite p f [] same h = tt
  IsKeyed-rewrite p f (x ∷ xs) same (n, h) = elim (Bool-cases (p x)) [
    | inl hit ↦
        rw hit (rw (same x) (fresh-rewrite p f (key x) xs same n), IsKeyed-rewrite p f xs same h)
    | inr miss ↦ rw miss (fresh-rewrite p f (key x) xs same n, IsKeyed-rewrite p f xs same h)
  ]

  fresh-keep :
      (p : Row → Bool) (k : String) (xs : List Row) → IsFresh key k xs → IsFresh key k (keep p xs)
  fresh-keep p k [] h = tt
  fresh-keep p k (x ∷ xs) (n, h) = elim (Bool-cases (p x)) [
    | inl hit ↦ rw hit (n, fresh-keep p k xs h)
    | inr miss ↦ rw miss (fresh-keep p k xs h)
  ]

  pub IsKeyed-keep : (p : Row → Bool) (xs : List Row) → IsKeyed key xs → IsKeyed key (keep p xs)
  IsKeyed-keep p [] h = tt
  IsKeyed-keep p (x ∷ xs) (n, h) = elim (Bool-cases (p x)) [
    | inl hit ↦ rw hit (fresh-keep p (key x) xs n, IsKeyed-keep p xs h)
    | inr miss ↦ rw miss (IsKeyed-keep p xs h)
  ]

  -- A row between others.
  fresh-between :
      (k : String) (r : Row) (xs ys : List Row)
      → key r ≢ k
      → IsFresh key k (xs ++ ys)
      → IsFresh key k (xs ++ (r ∷ ys))
  fresh-between k r [] ys n h = (n, h)
  fresh-between k r (x ∷ xs) ys n (m, h) = (m, fresh-between k r xs ys n h)

  IsKeyed-between :
      (r : Row) (xs ys : List Row)
      → IsFresh key (key r) (xs ++ ys)
      → IsKeyed key (xs ++ ys)
      → IsKeyed key (xs ++ (r ∷ ys))
  IsKeyed-between r [] ys f h = (f, h)
  IsKeyed-between r (x ∷ xs) ys (n, f) (m, h) =
      (fresh-between (key x) r xs ys (λ e. n (sym e)) m, IsKeyed-between r xs ys f h)

  pub IsKeyed-Inserted :
      (r : Row) (before after : List Row)
      → IsFresh key (key r) before
      → Inserted r before after
      → IsKeyed key before
      → IsKeyed key after
  IsKeyed-Inserted r before after f (xs, ys, b, a) h =
      rw a (IsKeyed-between r xs ys (rw b at f) (rw b at h))

  -- A search for a value that finds no row.
  pub missed-IsFresh :
      (k : String) (xs : List Row) → All (λ x. (key x == k) ≡ false) xs → IsFresh key k xs
  missed-IsFresh k [] h = tt
  missed-IsFresh k (x ∷ xs) (e, h) = (apart (key x) k e, missed-IsFresh k xs h)
