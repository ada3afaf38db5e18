-- ===== src/Auth/Schema.antt =====
-- src/auth/application/dtos/reset-password.dto.ts and forgot-password.dto.ts: the schemas of the
-- bodies. What zod takes for an e-mail address is an argument.
use Prim.Native.String.{String}
use nestjs_hexagonal_templat.Prelude.{
  ◌≡◌, inl, inr, eq_iff, Bool-cases, Bool, false, Option, none, some, ◌==◌, arith, if◌then◌else◌,
}
use nestjs_hexagonal_templat.Common.Json.{Json, null, bool, num, str, arr, obj, get}
use nestjs_hexagonal_templat.Common.Pipes.{◌>>=◌, Schema, fields_of, bind_passed}
use nestjs_hexagonal_templat.Common.Password.{password_schema, IsStrong, password_schema-IsStrong}
use nestjs_hexagonal_templat.Auth.{ResetPasswordDto}

-- z.string().min(1)
unfoldable pub filled_text : Schema String
filled_text (some (str s)) = if s == "" then none else some s
filled_text _ = none

-- The fields, before `refine`.
abbrev reset_fields : Schema ResetPasswordDto
unfolding get filled_text password_schema
reset_fields body = do
  fs ← fields_of body
  token ← filled_text (get "token" fs)
  new_password ← password_schema (get "newPassword" fs)
  confirm_password ← filled_text (get "confirmPassword" fs)
  some (record { token = token; new_password = new_password; confirm_password = confirm_password })

abbrev refined : ResetPasswordDto → Option ResetPasswordDto
refined dto = if dto.new_password == dto.confirm_password then some dto else none

unfoldable pub reset_password_schema : Schema ResetPasswordDto
unfolding get filled_text password_schema
reset_password_schema body = reset_fields body >>= refined

module _ (is_email : String → Bool) where
  abbrev email_text : Schema String
  email_text (some (str s)) = if is_email s then some s else none
  email_text _ = none

  unfoldable pub forgot_password_schema : Schema String
  unfolding get
  forgot_password_schema body = do fs ← fields_of body; email_text (get "email" fs)

filled_text_lem : (v : Option Json) (s : String) → filled_text v ≡ some s → (s == "") ≡ false
unfolding filled_text
filled_text_lem none s h = absurd (cc)
filled_text_lem (some (str t)) s h = ground arith
filled_text_lem (some null) s h = absurd (cc)
filled_text_lem (some (bool b)) s h = absurd (cc)
filled_text_lem (some (num n)) s h = absurd (cc)
filled_text_lem (some (arr items)) s h = absurd (cc)
filled_text_lem (some (obj fs)) s h = absurd (cc)

-- The token is not empty, and the password is strong and the same as its confirmation.
abbrev pub IsAgreed : ResetPasswordDto → Type 0
IsAgreed dto =
    ((dto.token == "") ≡ false)
    × IsStrong dto.new_password
    × (dto.new_password ≡ dto.confirm_password)

-- What a field that was checked says of the whole.
abbrev IsChecked : ResetPasswordDto → Type 0
IsChecked dto = ((dto.token == "") ≡ false) × IsStrong dto.new_password

reset_fields-IsChecked :
    (body : Option Json) (dto : ResetPasswordDto) → reset_fields body ≡ some dto → IsChecked dto
unfolding reset_fields
reset_fields-IsChecked body dto h =
    let (fs, f, h1) = bind_passed (fields_of body) _ dto h in
    let (token, t, h2) = bind_passed (filled_text (get "token" fs)) _ dto h1 in
    let (password, p, h3) = bind_passed (password_schema (get "newPassword" fs)) _ dto h2 in
    let (confirmed, c, h4) = bind_passed (filled_text (get "confirmPassword" fs)) _ dto h3 in
    let made : IsChecked
        (record { token = token; new_password = password; confirm_password = confirmed }) =
      (
        filled_text_lem (get "token" fs) token t,
        password_schema-IsStrong (get "newPassword" fs) password p,
      ) in
    let same : record { token = token; new_password = password; confirm_password = confirmed }
        ≡ dto =
      ground (arith, h4) in
    rw (← same) made

refined_same :
    (made dto : ResetPasswordDto)
    → refined made ≡ some dto
    → (made ≡ dto) × (made.new_password ≡ made.confirm_password)
refined_same made dto h = elim (Bool-cases (made.new_password == made.confirm_password)) [
  | inl same ↦
      (ground (arith, rw same at h), (eq_iff made.new_password made.confirm_password).0 same)
  | inr differs ↦ absurd (cc (rw differs at h))
]

-- A body that the schema of a reset lets pass has a token, and a password that meets the policy and is
-- the same as its confirmation.
pub reset_password_schema-IsAgreed :
    (body : Option Json) (dto : ResetPasswordDto)
    → reset_password_schema body ≡ some dto
    → IsAgreed dto
unfolding reset_password_schema
reset_password_schema-IsAgreed body dto h =
    let (made, h1, r) = bind_passed (reset_fields body) refined dto h in
    let (same, agreed) = refined_same made dto r in
    let (filled, strong) = reset_fields-IsChecked body made h1 in
    let checked : IsAgreed made = (filled, strong, agreed) in rw (← same) checked
