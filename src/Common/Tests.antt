-- ===== src/Common/Tests.antt =====
-- The utilities of src/common at concrete inputs.
use nestjs_hexagonal_templat.Prelude.{
  ℕ, ◌≤◌, String, ◌≡◌, ◌↔◌, refl, true, false, none, some, [], ◌∷◌, arith,
}
use nestjs_hexagonal_templat.Prelude.{List, ◌<◌, All, drop, leb, length, take, if◌then◌else◌}
use nestjs_hexagonal_templat.Common.Documents.{digits, validate_cpf, validate_cnpj}
use nestjs_hexagonal_templat.Common.Documents.CheckDigits.{validate_cnpj_same}
use nestjs_hexagonal_templat.Common.NanoId.{generate_nano_id, letters, all_bytes}
use nestjs_hexagonal_templat.Common.NanoId.Sampling.{generate_nano_id-letters}
use nestjs_hexagonal_templat.Common.Json.{str}
use nestjs_hexagonal_templat.Prelude.{Option, ◌==◌, inl, inr}
use nestjs_hexagonal_templat.Common.S3Key.{is_url, extract_s3_key, extract_s3_key_lem}
use nestjs_hexagonal_templat.Common.Password.{
  IsPassword, password_schema, validate_password_policy, password_schema-agrees,
}
use nestjs_hexagonal_templat.Common.Text.{parse_int}
use nestjs_hexagonal_templat.Common.Pagination.{
  PageQuery, parse_pagination_params, parse_pagination_params_lem, parse_sort_param, desc,
}
use nestjs_hexagonal_templat.Common.Pagination.Walk.{walk, concat, walk_lem}
use nestjs_hexagonal_templat.Common.Errors.{Exception, domain}
use nestjs_hexagonal_templat.Common.ExceptionFilter.{
  describe, catch_exception, catch_exception-server_error,
}

abbrev query : PageQuery
query = record { page = some "0"; per_page = some "250" }

parse_pagination_params_example :
    (1 ≤ (parse_pagination_params query).page)
    × (1 ≤ (parse_pagination_params query).per_page)
    × ((parse_pagination_params query).per_page ≤ 100)
parse_pagination_params_example = parse_pagination_params_lem query

per_page_is_cut : (parse_pagination_params query).per_page ≡ 100
unfolding parse_pagination_params parse_int
per_page_is_cut = refl

abbrev five : List ℕ
five = 1 ∷ 2 ∷ 3 ∷ 4 ∷ 5 ∷ []

walk_example :
    (concat (walk 100 1 2 five) ≡ five) × All (λ p. 0 < length p) (drop 1 (walk 100 1 2 five))
walk_example = walk_lem {A = ℕ} 100 2 five (omega arith) (omega arith)

three_pages : length (walk 100 1 2 five) ≡ 3
unfolding walk
three_pages = refl

descending : parse_sort_param (some "-name") ≡ some ("name", desc)
unfolding parse_sort_param
descending = refl

abbrev failure : String → Exception
failure message = domain (record {
  code = "QUEUE_UNAVAILABLE";
  message = message;
  http_status = 503;
  details = some (str message);
})

catch_exception_example :
    catch_exception false (failure "redis://host") ≡ catch_exception false (failure "")
unfolding describe
catch_exception_example =
    catch_exception-server_error false (failure "redis://host") (failure "") (omega arith) refl refl

password_schema-agrees_example :
    ((validate_password_policy (some (str "Senha123")) ≡ none) ↔ IsPassword (some (str "Senha123")))
    × (((t : String) × (password_schema (some (str "Senha123")) ≡ some t))
        ↔ IsPassword (some (str "Senha123")))
password_schema-agrees_example = password_schema-agrees (some (str "Senha123"))

weak_password :
    validate_password_policy (some (str "senha"))
    ≡ some
        "Mínimo 8 caracteres; Deve conter pelo menos uma letra maiúscula; Deve conter pelo menos um número"
unfolding validate_password_policy
weak_password = refl

-- The third byte is out of range, and the first batch is one short of an identifier.
abbrev batches : List (List ℕ)
batches = (0 ∷ 61 ∷ 250 ∷ 62 ∷ 27 ∷ 1 ∷ 2 ∷ 3 ∷ []) ∷ (247 ∷ 5 ∷ 6 ∷ 7 ∷ 8 ∷ 9 ∷ 10 ∷ 11 ∷ []) ∷ []

generate_nano_id-letters_example : generate_nano_id batches ≡ (
    if leb 8 (length (letters (all_bytes batches)))
    then some (take 8 (letters (all_bytes batches)))
    else none)
generate_nano_id-letters_example = generate_nano_id-letters batches

abbrev nano_id : List ℕ
nano_id = b'A' ∷ b'9' ∷ b'A' ∷ b'b' ∷ b'B' ∷ b'C' ∷ b'D' ∷ b'9' ∷ []

nano_id_is_drawn : generate_nano_id batches ≡ some nano_id
unfolding generate_nano_id
nano_id_is_drawn = refl

formatted_passes : validate_cnpj "11.222.333/0001-81" ≡ true
unfolding validate_cnpj
formatted_passes = refl

plain_passes : validate_cnpj "11222333000181" ≡ true
unfolding validate_cnpj
plain_passes = refl

cpf_passes : validate_cpf "529.982.247-25" ≡ true
unfolding validate_cpf
cpf_passes = refl

cpf_repeated_refused : validate_cpf "111.111.111-11" ≡ false
unfolding validate_cpf
cpf_repeated_refused = refl

validate_cnpj_same_example : digits "11.222.333/0001-81" ≡ digits "11222333000181"
unfolding digits
validate_cnpj_same_example =
    validate_cnpj_same "11.222.333/0001-81" "11222333000181" formatted_passes plain_passes refl

-- A path name for the two URLs below, with the host cut off; nothing is encoded.
abbrev path_of : String → Option String
path_of url =
    if url == "https://s3.amazonaws.com/media/uploads/a.webp"
    then some "/media/uploads/a.webp"
    else if url == "https://uploads.s3.amazonaws.com/uploads/a.webp"
    then some "/uploads/a.webp"
    else none

extract_s3_key_lem_example :
    extract_s3_key path_of some
      (some "https://s3.amazonaws.com/media/uploads/a.webp")
      (some "media")
    ≡ some "uploads/a.webp"
unfolding is_url
extract_s3_key_lem_example =
    extract_s3_key_lem path_of some "media" "uploads/a.webp"
      "https://s3.amazonaws.com/media/uploads/a.webp" refl
      (inr (refl, ("uploads/a.webp", refl, inl refl)))

-- A bucket called uploads: the first folder of the key is taken for it.
folder_is_lost :
    extract_s3_key path_of some
      (some "https://uploads.s3.amazonaws.com/uploads/a.webp")
      (some "uploads")
    ≡ some "a.webp"
unfolding extract_s3_key
folder_is_lost = refl
