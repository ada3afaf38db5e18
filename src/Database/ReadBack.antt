-- ===== src/Database/ReadBack.antt =====
-- A row that is written and read again, as the `update` of each repository does it.
use nestjs_hexagonal_templat.Prelude.{ℕ, String, ◌≡◌, ◌⊎◌, inl, inr, Bool, Option, none, some, List}
use nestjs_hexagonal_templat.Common.Exec.{Exec, pure, raise, ◌>>=◌, ◌>>◌, Ensures, Ensures-bind}
use nestjs_hexagonal_templat.Common.Errors.{unknown}
use nestjs_hexagonal_templat.Database.{FoundIn, rewrite_rows, Table}

-- `findOneOrFail`
abbrev pub or_fail : {W Row : Type 0} → Option Row → Exec W Row
or_fail none = raise (unknown "EntityNotFoundError")
or_fail (some row) = pure row

module _ {W Row : Type 0} {key : Row → String} {stamp : ℕ → Row → Row}
    (table : Table W Row key stamp) (p : Row → Bool) (f : Row → Row) where
  abbrev pub update_and_read : Exec W Row
  update_and_read = do table.update p f; updated ← table.find_one p; or_fail updated

  -- The rows after the write.
  abbrev pub Rewritten : List Row → List Row → Type 0
  Rewritten before after = (t : ℕ) × (after ≡ rewrite_rows p (λ row. stamp t (f row)) before)

  -- What is written stays, also where the read fails.
  pub update_and_read_lem :
      (w : W)
      → Ensures
          (update_and_read w)
          (λ r w'. Rewritten (table.rows w) (table.rows w') × FoundIn p (table.rows w') (some r))
          (λ w'. (table.rows w' ≡ table.rows w) ⊎ Rewritten (table.rows w) (table.rows w'))
  update_and_read_lem w =
      Ensures-bind (table.update p f w) _ (λ _ w'. Rewritten (table.rows w) (table.rows w'))
        (λ w'. table.rows w' ≡ table.rows w) _ _ (table.update_law p f w)
        (λ _ w1 d.
          Ensures-bind (table.find_one p w1) or_fail
            (λ o w2. (table.rows w2 ≡ table.rows w1) × FoundIn p (table.rows w1) o)
            (λ w2. table.rows w2 ≡ table.rows w1) _ _ (table.find_one_law p w1)
            (λ o w2 h. again o w1 w2 d h.0 h.1) (λ w2 e. inr (rw e d)))
        (λ w' e. inl e)
    where
      again :
          (o : Option Row) (w1 w2 : W)
          → Rewritten (table.rows w) (table.rows w1)
          → table.rows w2 ≡ table.rows w1
          → FoundIn p (table.rows w1) o
          → Ensures
              (or_fail o w2)
              (λ r w'.
                Rewritten (table.rows w) (table.rows w') × FoundIn p (table.rows w') (some r))
              (λ w'. (table.rows w' ≡ table.rows w) ⊎ Rewritten (table.rows w) (table.rows w'))
      again none w1 w2 d e h = inr (rw e d)
      again (some r) w1 w2 d e h = (rw e d, rw e h)
