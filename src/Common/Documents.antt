-- ===== src/Common/Documents.antt =====
-- src/common/utils/validate-cpf.ts and validate-cnpj.ts: the check digits of the two documents, over the
-- digits of a text.
pub mod CheckDigits
use Prim.Native.Char.{code}
use Prim.Native.String.{String, [], ◌∷◌}
use mathlib.Core.List
use nestjs_hexagonal_templat.Prelude.{
  ℕ, ◌+◌, ◌-◌, ◌*◌, ◌%◌, Bool, true, false, not, ◌&&◌, Option, none, some, ltb, eqb, if◌then◌else◌,
  length, get_elem?, all,
}
use nestjs_hexagonal_templat.Common.Text.{is_digit}

-- s.replace(/\D/g, ''), each digit as the number that parseInt gives of it.
unfoldable pub digits : String → List.List ℕ
digits [] = List.[]
digits (c ∷ s) =
    let rest = digits s in if is_digit (code c) then List.◌∷◌ (code c - 48) rest else rest

-- /^(\d)\1*$/
abbrev pub all_equal : List.List ℕ → Bool
all_equal List.[] = false
all_equal (List.◌∷◌ d ds) = all (λ e. eqb d e) ds

-- The sum of the digits times the weights, as far as there are weights.
abbrev pub weighted : List.List ℕ → List.List ℕ → ℕ
weighted List.[] ds = 0
weighted (List.◌∷◌ w ws) List.[] = 0
weighted (List.◌∷◌ w ws) (List.◌∷◌ d ds) = d * w + weighted ws ds

-- The digit at a place is the number.
abbrev pub has_digit : ℕ → ℕ → List.List ℕ → Bool
has_digit i v ds = elim (get_elem? ds i) [ none ↦ false | some d ↦ eqb v d ]

-- 10 - i, for i < 9
abbrev pub cpf_weights1 : List.List ℕ
cpf_weights1 = List.◌∷◌ 10 (
    List.◌∷◌ 9 (
      List.◌∷◌ 8
        (List.◌∷◌ 7 (List.◌∷◌ 6 (List.◌∷◌ 5 (List.◌∷◌ 4 (List.◌∷◌ 3 (List.◌∷◌ 2 List.[]))))))))

-- 11 - i, for i < 10
abbrev pub cpf_weights2 : List.List ℕ
cpf_weights2 = List.◌∷◌ 11 cpf_weights1

abbrev pub cpf_digit : ℕ → ℕ
cpf_digit sum = let remainder = sum * 10 % 11 in if eqb remainder 10 then 0 else remainder

unfoldable pub validate_cpf : String → Bool
unfolding digits
validate_cpf cpf =
    let cleaned = digits cpf in
    eqb (length cleaned) 11
    && not (all_equal cleaned)
    && has_digit 9 (cpf_digit (weighted cpf_weights1 cleaned)) cleaned
    && has_digit 10 (cpf_digit (weighted cpf_weights2 cleaned)) cleaned

abbrev pub cnpj_weights1 : List.List ℕ
cnpj_weights1 = List.◌∷◌ 5 (
    List.◌∷◌ 4 (
      List.◌∷◌ 3 (
        List.◌∷◌ 2 (
          List.◌∷◌ 9 (
            List.◌∷◌ 8 (
              List.◌∷◌ 7
                (List.◌∷◌ 6 (List.◌∷◌ 5 (List.◌∷◌ 4 (List.◌∷◌ 3 (List.◌∷◌ 2 List.[])))))))))))

abbrev pub cnpj_weights2 : List.List ℕ
cnpj_weights2 = List.◌∷◌ 6 cnpj_weights1

abbrev pub cnpj_digit : ℕ → ℕ
cnpj_digit sum = let remainder = sum % 11 in if ltb remainder 2 then 0 else 11 - remainder

unfoldable pub validate_cnpj : String → Bool
unfolding digits
validate_cnpj cnpj =
    let cleaned = digits cnpj in
    eqb (length cleaned) 14
    && not (all_equal cleaned)
    && has_digit 12 (cnpj_digit (weighted cnpj_weights1 cleaned)) cleaned
    && has_digit 13 (cnpj_digit (weighted cnpj_weights2 cleaned)) cleaned
