-- ===== src/Common/NanoId.antt =====
-- src/common/utils/slug.util.ts, generateNanoId: sampling by rejection. What `randomBytes` gives, call
-- after call, is an argument, and an identifier is the list of the codes of its characters.
pub mod Sampling
use mathlib.Core.List.{append_assoc, append-nil}
use nestjs_hexagonal_templat.Prelude.{
  ℕ, zero, suc, ◌+◌, ◌-◌, ◌*◌, ◌%◌, ◌<◌, ◌≤◌, ◌≡◌, refl, sym, ap, ◌∙◌, ◌⊎◌, inl, inr, Bool, true,
  false, not, ◌&&◌, ◌||◌, Option, none, some, List, [], ◌∷◌, ◌++◌, map, arith, leb, ltb, eqb,
  length, length-append, take, keep, All, if◌then◌else◌, Bool-cases,
}

-- NANO_ID_ALPHABET[i]
abbrev pub letter : ℕ → ℕ
letter i = if ltb i 26 then b'A' + i else if ltb i 52 then b'a' + (i - 26) else b'0' + (i - 52)

abbrev pub alphabet_length : ℕ
alphabet_length = 62

abbrev pub nano_id_length : ℕ
nano_id_length = 8

-- 256 - (256 % NANO_ID_ALPHABET.length)
abbrev pub nano_id_byte_ceiling : ℕ
nano_id_byte_ceiling = 256 - 256 % alphabet_length

-- The `for` over one batch of bytes, with its `continue` and its `break`.
unfoldable pub fill : List ℕ → List ℕ → List ℕ
fill id [] = id
fill id (byte ∷ bytes) = elim (leb nano_id_byte_ceiling byte) [
  | true ↦ fill id bytes
  | false ↦
      let id' = id ++ (letter (byte % alphabet_length) ∷ []) in
      elim (eqb (length id') nano_id_length) [ true ↦ id' | false ↦ fill id' bytes ]
]

-- The `while` over the batches, none where it goes on after the last of them.
unfoldable pub draw : List ℕ → List (List ℕ) → Option (List ℕ)
unfolding fill
draw id [] = if ltb (length id) nano_id_length then none else some id
draw id (bytes ∷ batches) = elim (ltb (length id) nano_id_length) [
  | true ↦ draw (fill id bytes) batches
  | false ↦ some id
]

unfoldable pub generate_nano_id : List (List ℕ) → Option (List ℕ)
unfolding draw
generate_nano_id batches = draw [] batches

-- The letters of the bytes that are below the ceiling.
abbrev pub letters : List ℕ → List ℕ
letters [] = []
letters (byte ∷ bytes) =
    if leb nano_id_byte_ceiling byte
    then letters bytes
    else letter (byte % alphabet_length) ∷ letters bytes

abbrev pub all_bytes : List (List ℕ) → List ℕ
all_bytes [] = []
all_bytes (bytes ∷ batches) = bytes ++ all_bytes batches
