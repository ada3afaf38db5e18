-- ===== src/Common/Documents/CheckDigits.antt =====
-- The check digits of src/common/utils/validate-cpf.ts and validate-cnpj.ts are given by the digits
-- before them.
use nestjs_hexagonal_templat.Prelude.{
  ℕ, zero, suc, String, ◌≡◌, refl, sym, ap, ◌∙◌, Bool, true, not, ◌&&◌, some, List, [], ◌∷◌, arith,
  eqb, length, take, get_elem?,
}
use nestjs_hexagonal_templat.Common.Documents.{
  digits, all_equal, weighted, has_digit, cpf_weights1, cpf_weights2, cpf_digit, validate_cpf,
  cnpj_weights1, cnpj_weights2, cnpj_digit, validate_cnpj,
}

-- A sum reads as many digits as there are weights.
weighted_same :
    (ws ds es : List ℕ)
    → take (length ws) ds ≡ take (length ws) es
    → weighted ws ds ≡ weighted ws es
weighted_same [] ds es h = refl
weighted_same (w ∷ ws) [] [] h = refl
weighted_same (w ∷ ws) [] (e ∷ es) h = absurd (cc (h))
weighted_same (w ∷ ws) (d ∷ ds) [] h = absurd (cc (h))
weighted_same (w ∷ ws) (d ∷ ds) (e ∷ es) h =
    let here : d ≡ e = cc (h) in
    let rest : take (length ws) ds ≡ take (length ws) es = cc (h) in
    let sums : weighted ws ds ≡ weighted ws es = weighted_same ws ds es rest in cc (here, sums)

-- One digit more.
take_next :
    (n d : ℕ) (xs ys : List ℕ)
    → take n xs ≡ take n ys
    → get_elem? xs n ≡ some d
    → get_elem? ys n ≡ some d
    → take (suc n) xs ≡ take (suc n) ys
take_next n d [] ys h k l = absurd (cc (k))
take_next n d (x ∷ xs) [] h k l = absurd (cc (l))
take_next zero d (x ∷ xs) (y ∷ ys) h k l = cc (k, l)
take_next (suc n) d (x ∷ xs) (y ∷ ys) h k l =
    let here : x ≡ y = cc (h) in
    let rest : take n xs ≡ take n ys = cc (h) in cc (here, take_next n d xs ys rest k l)

has_digit_lem : (i v : ℕ) (ds : List ℕ) → has_digit i v ds ≡ true → get_elem? ds i ≡ some v
has_digit_lem i v [] h = absurd (cc (h))
has_digit_lem zero v (d ∷ ds) h = ground arith
has_digit_lem (suc i) v (d ∷ ds) h = has_digit_lem i v ds h

take_whole : (n : ℕ) (xs : List ℕ) → length xs ≡ n → take n xs ≡ xs
take_whole zero [] h = refl
take_whole zero (x ∷ xs) h = absurd (omega arith)
take_whole (suc n) [] h = absurd (omega arith)
take_whole (suc n) (x ∷ xs) h = ap (λ r. x ∷ r) (take_whole n xs (omega arith))

-- Two check digits that functions of the digits before them give.
module _ (n : ℕ) (f g : ℕ → ℕ) (ws vs : List ℕ) (len : length ws ≡ n)
    (len' : length vs ≡ suc n) where
  abbrev Completes : List ℕ → Type 0
  Completes ds =
      (length ds ≡ suc (suc n))
      × (has_digit n (f (weighted ws ds)) ds ≡ true)
      × (has_digit (suc n) (g (weighted vs ds)) ds ≡ true)

  Completes-same : (ds es : List ℕ) → Completes ds → Completes es → take n ds ≡ take n es → ds ≡ es
  Completes-same ds es (a, b, c) (a', b', c') h =
      let first : f (weighted ws ds) ≡ f (weighted ws es) =
        ap f (weighted_same ws ds es (rw len h)) in
      let one : take (suc n) ds ≡ take (suc n) es =
        take_next n (f (weighted ws es)) ds es h (has_digit_lem n _ ds b ∙ ap (λ v. some v) first)
          (has_digit_lem n _ es b') in
      let second : g (weighted vs ds) ≡ g (weighted vs es) =
        ap g (weighted_same vs ds es (rw len' one)) in
      let two : take (suc (suc n)) ds ≡ take (suc (suc n)) es =
        take_next (suc n) (g (weighted vs es)) ds es one
          (has_digit_lem (suc n) _ ds c ∙ ap (λ v. some v) second)
          (has_digit_lem (suc n) _ es c') in
      sym (take_whole (suc (suc n)) ds a) ∙ (two ∙ take_whole (suc (suc n)) es a')

all_pass :
    (n m : ℕ) (b c d : Bool) → (eqb n m && b && c && d) ≡ true → (n ≡ m) × (c ≡ true) × (d ≡ true)
all_pass n m b c d h = ground arith

validate_cpf_parts :
    (s : String)
    → validate_cpf s ≡ true
    → Completes 9 cpf_digit cpf_digit cpf_weights1 cpf_weights2 refl refl (digits s)
unfolding validate_cpf
validate_cpf_parts s h =
    let ds = digits s in
    all_pass (length ds) 11 (not (all_equal ds))
      (has_digit 9 (cpf_digit (weighted cpf_weights1 ds)) ds)
      (has_digit 10 (cpf_digit (weighted cpf_weights2 ds)) ds) h

validate_cnpj_parts :
    (s : String)
    → validate_cnpj s ≡ true
    → Completes 12 cnpj_digit cnpj_digit cnpj_weights1 cnpj_weights2 refl refl (digits s)
unfolding validate_cnpj
validate_cnpj_parts s h =
    let ds = digits s in
    all_pass (length ds) 14 (not (all_equal ds))
      (has_digit 12 (cnpj_digit (weighted cnpj_weights1 ds)) ds)
      (has_digit 13 (cnpj_digit (weighted cnpj_weights2 ds)) ds) h

-- Two texts that pass as CPF, and whose first nine digits agree, have the same digits.
pub validate_cpf_same :
    (s t : String)
    → validate_cpf s ≡ true
    → validate_cpf t ≡ true
    → take 9 (digits s) ≡ take 9 (digits t)
    → digits s ≡ digits t
validate_cpf_same s t h k e =
    Completes-same 9 cpf_digit cpf_digit cpf_weights1 cpf_weights2 refl refl (digits s) (digits t)
      (validate_cpf_parts s h) (validate_cpf_parts t k) e

-- Two texts that pass as CNPJ, and whose first twelve digits agree, have the same digits, however they
-- are punctuated: a wrong check digit is always found.
pub validate_cnpj_same :
    (s t : String)
    → validate_cnpj s ≡ true
    → validate_cnpj t ≡ true
    → take 12 (digits s) ≡ take 12 (digits t)
    → digits s ≡ digits t
validate_cnpj_same s t h k e =
    Completes-same 12 cnpj_digit cnpj_digit cnpj_weights1 cnpj_weights2 refl refl (digits s)
      (digits t) (validate_cnpj_parts s h) (validate_cnpj_parts t k) e
