-- ===== src/Common/NanoId/Sampling.antt =====
-- Which identifiers the loop of src/common/utils/slug.util.ts ends with, and when.
use mathlib.Core.List.{append_assoc, append-nil}
use nestjs_hexagonal_templat.Prelude.{
  ℕ, zero, suc, ◌+◌, ◌-◌, ◌%◌, ◌<◌, ◌≡◌, refl, sym, ap, ◌∙◌, inl, inr, Bool, true, false, ◌&&◌,
  ◌||◌, Option, none, some, List, [], ◌∷◌, ◌++◌, arith, leb, leb→le, ltb, eqb, length,
  length-append, take, All, if◌then◌else◌, Bool-cases,
}
use nestjs_hexagonal_templat.Common.NanoId.{
  letter, alphabet_length, nano_id_length, nano_id_byte_ceiling, fill, draw, generate_nano_id,
  letters, all_bytes,
}

snoc_length : (id : List ℕ) (c : ℕ) → length (id ++ (c ∷ [])) ≡ suc (length id)
snoc_length id c = omega (arith, length-append id (c ∷ []))

-- The last letter that is missing ends the loop, another goes on.
added :
    (id bytes : List ℕ) (c n : ℕ)
    → length id + suc n ≡ 8
    → ((m : ℕ)
        → length (id ++ (c ∷ [])) + suc m ≡ 8
        → fill (id ++ (c ∷ [])) bytes ≡ (id ++ (c ∷ [])) ++ take (suc m) (letters bytes))
    → elim (eqb (length (id ++ (c ∷ []))) nano_id_length) as (λ _. List ℕ) [
      | true ↦ id ++ (c ∷ [])
      | false ↦ fill (id ++ (c ∷ [])) bytes
    ]
      ≡ id ++ (c ∷ take n (letters bytes))
added id bytes c zero h rest =
    let full : eqb (length (id ++ (c ∷ []))) nano_id_length ≡ true =
      ground (arith, snoc_length id c) in
    rw full refl
added id bytes c (suc n) h rest =
    let short : eqb (length (id ++ (c ∷ []))) nano_id_length ≡ false =
      ground (arith, snoc_length id c) in
    rw short (
      rest n (omega (arith, snoc_length id c))
      ∙ append_assoc id (c ∷ []) (take (suc n) (letters bytes)))

fill_nil : (id : List ℕ) → fill id [] ≡ id
unfolding fill
fill_nil id = refl

fill_rejected :
    (id bytes : List ℕ) (byte : ℕ)
    → leb nano_id_byte_ceiling byte ≡ true
    → fill id (byte ∷ bytes) ≡ fill id bytes
unfolding fill
fill_rejected id bytes byte h = rw (fill, h) refl

fill_accepted :
    (id bytes : List ℕ) (byte : ℕ)
    → leb nano_id_byte_ceiling byte ≡ false
    → fill id (byte ∷ bytes)
      ≡ elim (eqb (length (id ++ (letter (byte % alphabet_length) ∷ []))) nano_id_length)
          as (λ _. List ℕ) [
            | true ↦ id ++ (letter (byte % alphabet_length) ∷ [])
            | false ↦ fill (id ++ (letter (byte % alphabet_length) ∷ [])) bytes
          ]
unfolding fill
fill_accepted id bytes byte h = rw (fill, h) refl

-- A batch adds the letters that are missing, as far as it has them.
fill_lem :
    (bytes id : List ℕ) (n : ℕ)
    → length id + suc n ≡ 8
    → fill id bytes ≡ id ++ take (suc n) (letters bytes)
fill_lem [] id n h = fill_nil id ∙ sym (append-nil id)
fill_lem (byte ∷ bytes) id n h = elim (Bool-cases (leb nano_id_byte_ceiling byte)) [
  | inl rejected ↦ rw rejected (fill_rejected id bytes byte rejected ∙ fill_lem bytes id n h)
  | inr accepted ↦ rw accepted (
      fill_accepted id bytes byte accepted
      ∙ added id bytes (letter (byte % alphabet_length)) n h
          (λ m k. fill_lem bytes (id ++ (letter (byte % alphabet_length) ∷ [])) m k))
]

letters-append : (xs ys : List ℕ) → letters (xs ++ ys) ≡ letters xs ++ letters ys
letters-append [] ys = refl
letters-append (x ∷ xs) ys = elim (Bool-cases (leb nano_id_byte_ceiling x)) [
  | inl rejected ↦ rw rejected (letters-append xs ys)
  | inr accepted ↦ rw accepted (ap (λ ls. letter (x % alphabet_length) ∷ ls) (letters-append xs ys))
]

take-append : (n : ℕ) (xs ys : List ℕ) → take n (xs ++ ys) ≡ take n xs ++ take (n - length xs) ys
take-append zero xs ys = let none_left : 0 - length xs ≡ 0 = omega arith in rw none_left refl
take-append (suc n) [] ys = let all_left : suc n - 0 ≡ suc n = omega arith in rw all_left refl
take-append (suc n) (x ∷ xs) ys =
    let less : suc n - suc (length xs) ≡ n - length xs = omega arith in
    rw less (ap (λ zs. x ∷ zs) (take-append n xs ys))

length-take : (n : ℕ) (xs : List ℕ) → length (take n xs) + (n - length xs) ≡ n
length-take zero xs = omega arith
length-take (suc n) [] = omega arith
length-take (suc n) (x ∷ xs) = omega (arith, length-take n xs)

draw_full : (id : List ℕ) (batches : List (List ℕ)) → length id ≡ 8 → draw id batches ≡ some id
unfolding draw
draw_full id [] h =
    let full : ltb (length id) nano_id_length ≡ false = ground (arith) in rw full refl
draw_full id (bytes ∷ batches) h =
    let full : ltb (length id) nano_id_length ≡ false = ground (arith) in rw (draw, full) refl

draw_short :
    (id bytes : List ℕ) (batches : List (List ℕ))
    → length id < 8
    → draw id (bytes ∷ batches) ≡ draw (fill id bytes) batches
unfolding draw
draw_short id bytes batches h =
    let short : ltb (length id) nano_id_length ≡ true = ground (arith) in rw (draw, short) refl

draw_out : (id : List ℕ) → length id < 8 → draw id [] ≡ none
unfolding draw
draw_out id h = let short : ltb (length id) nano_id_length ≡ true = ground (arith) in rw short refl

-- What is drawn, with `n` characters missing, from the letters that the batches hold.
abbrev drawn : List ℕ → ℕ → List ℕ → Option (List ℕ)
drawn id n ls = if leb n (length ls) then some (id ++ take n ls) else none

drawn_zero : (id ls : List ℕ) → drawn id 0 ls ≡ some id
drawn_zero id ls =
    let enough : leb 0 (length ls) ≡ true = ground (arith) in
    rw enough (ap (λ l. some l) (append-nil id))

-- The letters of a batch, and then those of the others.
drawn-append :
    (id : List ℕ) (n : ℕ) (ls ms : List ℕ)
    → drawn (id ++ take n ls) (n - length ls) ms ≡ drawn id n (ls ++ ms)
drawn-append id n ls ms =
    let same : leb (n - length ls) (length ms) ≡ leb n (length (ls ++ ms)) =
      ground (arith, length-append ls ms) in
    rw (same, append_assoc id (take n ls) (take (n - length ls) ms), ← (take-append n ls ms)) refl

draw_lem :
    (batches : List (List ℕ)) (id : List ℕ) (n : ℕ)
    → length id + n ≡ 8
    → draw id batches ≡ drawn id n (letters (all_bytes batches))
draw_lem batches id zero h =
    draw_full id batches (omega arith) ∙ sym (drawn_zero id (letters (all_bytes batches)))
draw_lem [] id (suc n) h =
    let missing : leb (suc n) 0 ≡ false = ground (arith) in rw missing (draw_out id (omega arith))
draw_lem (bytes ∷ batches) id (suc n) h =
    let ls = letters bytes in
    let left : length (id ++ take (suc n) ls) + (suc n - length ls) ≡ 8 =
      omega (arith, length-append id (take (suc n) ls), length-take (suc n) ls) in
    draw_short id bytes batches (omega arith)
    ∙ (ap (λ l. draw l batches) (fill_lem bytes id n h)
        ∙ (draw_lem batches (id ++ take (suc n) ls) (suc n - length ls) left
            ∙ (drawn-append id (suc n) ls (letters (all_bytes batches))
                ∙ ap (drawn id (suc n)) (sym (letters-append bytes (all_bytes batches))))))

-- The loop of the identifier ends exactly when the batches hold eight bytes below 248, wherever these
-- stand in them, and then the identifier is that of the first eight of them, one character each.
pub generate_nano_id-letters :
    (batches : List (List ℕ))
    → generate_nano_id batches ≡ (
        if leb 8 (length (letters (all_bytes batches)))
        then some (take 8 (letters (all_bytes batches)))
        else none)
unfolding generate_nano_id
generate_nano_id-letters batches = draw_lem batches [] 8 refl

abbrev pub is_alphanumeric : ℕ → Bool
is_alphanumeric c = leb b'0' c && leb c b'9' || leb b'A' c && leb c b'Z' || leb b'a' c && leb c b'z'

abbrev pub IsAlphanumeric : ℕ → Type 0
IsAlphanumeric c = is_alphanumeric c ≡ true

letter-IsAlphanumeric : (i : ℕ) → i < 62 → IsAlphanumeric (letter i)
letter-IsAlphanumeric i h = ground arith

letters-IsAlphanumeric : (bytes : List ℕ) → All IsAlphanumeric (letters bytes)
letters-IsAlphanumeric [] = tt
letters-IsAlphanumeric (x ∷ xs) = elim (Bool-cases (leb nano_id_byte_ceiling x)) [
  | inl rejected ↦ rw rejected (letters-IsAlphanumeric xs)
  | inr accepted ↦
      rw accepted (letter-IsAlphanumeric (x % 62) (omega arith), letters-IsAlphanumeric xs)
]

take-IsAlphanumeric : (n : ℕ) (cs : List ℕ) → All IsAlphanumeric cs → All IsAlphanumeric (take n cs)
take-IsAlphanumeric zero cs h = tt
take-IsAlphanumeric (suc n) [] h = tt
take-IsAlphanumeric (suc n) (c ∷ cs) h = (h.0, take-IsAlphanumeric n cs h.1)

-- An identifier that the loop ends with has eight characters, each a letter or a digit of ASCII,
-- whatever the bytes.
pub generate_nano_id-IsAlphanumeric :
    (batches : List (List ℕ)) (id : List ℕ)
    → generate_nano_id batches ≡ some id
    → (length id ≡ 8) × All IsAlphanumeric id
generate_nano_id-IsAlphanumeric batches id h =
    let ls = letters (all_bytes batches) in
    let e = sym (generate_nano_id-letters batches) ∙ h in
    elim (Bool-cases (leb 8 (length ls))) [
      | inl enough ↦
          let same : take 8 ls ≡ id = cc (rw enough at e) in
          rw (← same) (
            (omega (arith, length-take 8 ls, leb→le 8 (length ls) enough)),
            take-IsAlphanumeric 8 ls (letters-IsAlphanumeric (all_bytes batches)),
          )
      | inr short ↦ absurd (cc (rw short at e))
    ]
