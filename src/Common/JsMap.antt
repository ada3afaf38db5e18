-- ===== src/Common/JsMap.antt =====
-- A JavaScript `Map` with string keys: the entries in the order of insertion. `set` on a key that
-- is there keeps the entry's place.
use nestjs_hexagonal_templat.Prelude.{
  ℕ, suc, ◌+◌, ◌≤◌, String, ◌≡◌, refl, ◌≢◌, Bool, true, Option, none, some, List, [], ◌∷◌, arith,
  ◌==◌, eq_iff, if◌then◌else◌, length, keep, drop,
}

module _ {ℓ} {V : Type ℓ} where
  -- map.get(k)
  unfoldable pub lookup : String → List (String × V) → Option V
  lookup k [] = none
  lookup k ((j, v) ∷ m) = if j == k then some v else lookup k m

  -- map.set(k, v)
  unfoldable pub insert : String → V → List (String × V) → List (String × V)
  insert k v [] = (k, v) ∷ []
  insert k v ((j, w) ∷ m) = if j == k then (k, v) ∷ m else (j, w) ∷ insert k v m

  -- map.delete(k)
  unfoldable pub erase : String → List (String × V) → List (String × V)
  erase k [] = []
  erase k ((j, w) ∷ m) = if j == k then m else (j, w) ∷ erase k m

  -- No entry of `m` has the key.
  abbrev pub IsAbsent : String → List (String × V) → Type 0
  IsAbsent k [] = Unit
  IsAbsent k ((j, w) ∷ m) = (j ≢ k) × IsAbsent k m

  -- A `Map` holds a key once.
  abbrev pub IsDistinct : List (String × V) → Type 0
  IsDistinct [] = Unit
  IsDistinct ((j, w) ∷ m) = IsAbsent j m × IsDistinct m

  -- Reading any key after a key was written.
  pub lookup-insert :
      (written asked : String) (new : V) (entries : List (String × V))
      → lookup asked (insert written new entries)
        ≡ (if written == asked then some new else lookup asked entries)
  unfolding lookup insert
  lookup-insert written asked new [] = refl
  lookup-insert written asked new ((key, old) ∷ rest) =
      let later = lookup-insert written asked new rest in
      ground (arith, later, eq_iff key written, eq_iff key asked, eq_iff written asked)

  pub lookup-erase_ne :
      (k j : String) (m : List (String × V)) → k ≢ j → lookup j (erase k m) ≡ lookup j m
  unfolding lookup erase
  lookup-erase_ne k j [] h = refl
  lookup-erase_ne k j ((i, w) ∷ m) h =
      ground (arith, eq_iff i k, eq_iff i j, lookup-erase_ne k j m h)

  pub lookup_absent : (k : String) (m : List (String × V)) → IsAbsent k m → lookup k m ≡ none
  unfolding lookup
  lookup_absent k [] h = refl
  lookup_absent k ((j, w) ∷ m) h = ground (arith, eq_iff j k, lookup_absent k m h.1)

  pub lookup-erase_self :
      (k : String) (m : List (String × V)) → IsDistinct m → lookup k (erase k m) ≡ none
  unfolding lookup erase
  lookup-erase_self k [] d = refl
  lookup-erase_self k ((j, w) ∷ m) d =
      ground (arith, eq_iff j k, lookup_absent j m d.0, lookup-erase_self k m d.1)

  pub length-insert-le :
      (k : String) (v : V) (m : List (String × V)) → length (insert k v m) ≤ length m + 1
  unfolding insert
  length-insert-le k v [] = omega arith
  length-insert-le k v ((j, w) ∷ m) = ground (arith, length-insert-le k v m)

  -- A key that is there is overwritten in place.
  pub length-insert_present :
      (k : String) (v w : V) (m : List (String × V))
      → lookup k m ≡ some w
      → length (insert k v m) ≡ length m
  unfolding insert lookup
  length-insert_present k v w [] h = cc
  length-insert_present k v w ((j, u) ∷ m) h = ground (arith, length-insert_present k v w m)

  pub length-erase-le : (k : String) (m : List (String × V)) → length (erase k m) ≤ length m
  unfolding erase
  length-erase-le k [] = omega arith
  length-erase-le k ((j, w) ∷ m) = ground (arith, length-erase-le k m)

  insert-IsAbsent :
      (k j : String) (v : V) (m : List (String × V))
      → k ≢ j
      → IsAbsent j m
      → IsAbsent j (insert k v m)
  unfolding insert
  insert-IsAbsent k j v [] n h = (n, tt)
  insert-IsAbsent k j v ((i, w) ∷ m) n h = ground (arith, eq_iff i k, insert-IsAbsent k j v m n h.1)

  pub insert-IsDistinct :
      (k : String) (v : V) (m : List (String × V)) → IsDistinct m → IsDistinct (insert k v m)
  unfolding insert
  insert-IsDistinct k v [] d = (tt, tt)
  insert-IsDistinct k v ((i, w) ∷ m) d =
      ground (
        arith,
        eq_iff i k,
        insert-IsDistinct k v m d.1,
        λ (n : k ≢ i). insert-IsAbsent k i v m n d.0,
      )

  erase-IsAbsent : (k j : String) (m : List (String × V)) → IsAbsent j m → IsAbsent j (erase k m)
  unfolding erase
  erase-IsAbsent k j [] h = tt
  erase-IsAbsent k j ((i, w) ∷ m) h = ground (arith, erase-IsAbsent k j m h.1)

  pub erase-IsDistinct :
      (k : String) (m : List (String × V)) → IsDistinct m → IsDistinct (erase k m)
  unfolding erase
  erase-IsDistinct k [] d = tt
  erase-IsDistinct k ((i, w) ∷ m) d =
      ground (arith, erase-IsDistinct k m d.1, erase-IsAbsent k i m d.0)

  -- What a filter keeps of an absent key, and of distinct keys.
  module _ (p : String × V → Bool) where
    pub keep-IsAbsent : (j : String) (m : List (String × V)) → IsAbsent j m → IsAbsent j (keep p m)
    keep-IsAbsent j [] h = tt
    keep-IsAbsent j ((i, w) ∷ m) h = ground (arith, keep-IsAbsent j m h.1)

    pub keep-IsDistinct : (m : List (String × V)) → IsDistinct m → IsDistinct (keep p m)
    keep-IsDistinct [] d = tt
    keep-IsDistinct ((i, w) ∷ m) d = ground (arith, keep-IsDistinct m d.1, keep-IsAbsent i m d.0)

    -- An entry that the filter keeps is found as before.
    pub lookup-keep-some :
        (k : String) (v : V) (m : List (String × V))
        → lookup k m ≡ some v
        → ((j : String) → (j == k) ≡ true → p (j, v) ≡ true)
        → lookup k (keep p m) ≡ some v
    unfolding lookup
    lookup-keep-some k v [] h good = cc
    lookup-keep-some k v ((j, w) ∷ m) h good = ground (arith, good j, lookup-keep-some k v m)

    -- Of distinct keys, one whose entry is dropped is found no more.
    pub lookup-keep-none :
        (k : String) (m : List (String × V))
        → IsDistinct m
        → lookup k m ≡ none
        → lookup k (keep p m) ≡ none
    unfolding lookup
    lookup-keep-none k [] d h = refl
    lookup-keep-none k ((j, w) ∷ m) d h = ground (arith, lookup-keep-none k m d.1)

  pub drop-IsAbsent :
      (n : ℕ) (j : String) (m : List (String × V)) → IsAbsent j m → IsAbsent j (drop n m)
  drop-IsAbsent ℕ.zero j m h = h
  drop-IsAbsent (suc n) j [] h = tt
  drop-IsAbsent (suc n) j ((i, w) ∷ m) h = drop-IsAbsent n j m h.1

  pub drop-IsDistinct : (n : ℕ) (m : List (String × V)) → IsDistinct m → IsDistinct (drop n m)
  drop-IsDistinct ℕ.zero m d = d
  drop-IsDistinct (suc n) [] d = tt
  drop-IsDistinct (suc n) ((i, w) ∷ m) d = drop-IsDistinct n m d.1
