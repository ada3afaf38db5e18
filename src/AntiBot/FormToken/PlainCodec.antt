-- ===== src/AntiBot/FormToken/PlainCodec.antt =====
-- A coding of tokens that can be run, for the instances of what
-- src/anti-bot/infrastructure/services/form-token.service.ts takes from Node. It keeps no secret.
use nestjs_hexagonal_templat.Prelude.{
  ℕ, zero, suc, ◌<◌, String, ◌≡◌, refl, ap, ◌⊎◌, inl, inr, Bool, true, false, Option, none, some,
  List, [], ◌∷◌, arith, eqb, if◌then◌else◌,
}
use Prim.Native.Char.{code}
use Prim.Native.String
use text.Mathlib.TextEquality.{Char-path}
use text.Mathlib.TextLemmas.{nil-append, cons-append}
use nestjs_hexagonal_templat.Prelude.Int.{ℤ, pos, negsuc}
use nestjs_hexagonal_templat.Common.Json.{Json, num, str, obj, field, end}
use nestjs_hexagonal_templat.Common.Text.{split, IsFree, split-append, split_free}
use nestjs_hexagonal_templat.AntiBot.FormToken.{FormTokenPayload, TokenCodec, payload_json}

-- Text without a dot or a comma: `x` and a character, or `d` or `c` for the two.
abbrev escape : String → String
escape String.[] = ""
escape (String.◌∷◌ k s) =
    let rest = escape s in
    if eqb (code k) b'.'
    then String.◌∷◌ "d" rest
    else if eqb (code k) b','
    then String.◌∷◌ "c" rest
    else String.◌∷◌ "x" (String.◌∷◌ k rest)

-- `quoted` tells that the character before was `x`.
abbrev unescape : Bool → String → String
unescape quoted String.[] = ""
unescape true (String.◌∷◌ k s) = String.◌∷◌ k (unescape false s)
unescape false (String.◌∷◌ k s) =
    let rest = unescape false s in
    let taken = unescape true s in
    if eqb (code k) b'x'
    then taken
    else if eqb (code k) b'd'
    then String.◌∷◌ "." rest
    else String.◌∷◌ "," rest

unescape-escape : (s : String) → unescape false (escape s) ≡ s
unescape-escape String.[] = refl
unescape-escape (String.◌∷◌ k s) =
    ground (arith, unescape-escape s, Char-path k ".", Char-path k ",")

pub escape-IsFree : (sep : ℕ) (s : String) → (sep ≡ b'.') ⊎ (sep ≡ b',') → IsFree sep (escape s)
escape-IsFree sep String.[] h = tt
escape-IsFree sep (String.◌∷◌ k s) h = ground (arith, escape-IsFree sep s h)

-- A number as that many `1`s.
abbrev unary : ℕ → String
unary zero = ""
unary (suc n) = String.◌∷◌ "1" (unary n)

abbrev from_unary : String → ℕ
from_unary String.[] = 0
from_unary (String.◌∷◌ k s) = suc (from_unary s)

abbrev integer : ℤ → String
integer (pos n) = String.◌∷◌ "p" (unary n)
integer (negsuc n) = String.◌∷◌ "n" (unary n)

abbrev from_integer : String → ℤ
from_integer String.[] = pos 0
from_integer (String.◌∷◌ k s) =
    if eqb (code k) b'p' then pos (from_unary s) else negsuc (from_unary s)

from_unary-unary : (n : ℕ) → from_unary (unary n) ≡ n
from_unary-unary zero = refl
from_unary-unary (suc n) = ap suc (from_unary-unary n)

from_integer-integer : (z : ℤ) → from_integer (integer z) ≡ z
from_integer-integer (pos n) = ap pos (from_unary-unary n)
from_integer-integer (negsuc n) = ap negsuc (from_unary-unary n)

unary-IsFree : (sep : ℕ) (n : ℕ) → sep < 49 → IsFree sep (unary n)
unary-IsFree sep zero h = tt
unary-IsFree sep (suc n) h = (λ e. ground arith, unary-IsFree sep n h)

integer-IsFree : (sep : ℕ) (z : ℤ) → sep < 49 → IsFree sep (integer z)
integer-IsFree sep (pos n) h = (λ e. ground arith, unary-IsFree sep n h)
integer-IsFree sep (negsuc n) h = (λ e. ground arith, unary-IsFree sep n h)

abbrev join_comma : String → String → String
join_comma a b = String.◌++◌ a (String.◌∷◌ "," b)

join_comma-IsFree : (a b : String) → IsFree b'.' a → IsFree b'.' b → IsFree b'.' (join_comma a b)
join_comma-IsFree String.[] b h k = rw nil-append ((λ e. ground arith), k)
join_comma-IsFree (String.◌∷◌ c a) b (n, h) k = rw cons-append (n, join_comma-IsFree a b h k)

abbrev encode : Json → String
encode
      (obj
        (field _ (str jti) (field _ (str context) (field _ (num iat) (field _ (num exp) end))))) =
    join_comma (escape jti) (join_comma (escape context) (join_comma (integer iat) (integer exp)))
encode _ = "h"

abbrev from_parts : List String → Option Json
from_parts (jti ∷ context ∷ iat ∷ exp ∷ []) = some (
    payload_json (record {
      jti = unescape false jti;
      context = unescape false context;
      iat = from_integer iat;
      exp = from_integer exp;
    }))
from_parts _ = none

abbrev pub decode : String → Option Json
decode s = from_parts (split b',' s)

pub encode-IsFree : (v : Json) → IsFree b'.' (encode v)
encode-IsFree
      (obj
        (field a (str jti) (field b (str context) (field c (num iat) (field d (num exp) end))))) =
    join_comma-IsFree _ _ (escape-IsFree b'.' jti (inl refl)) (
      join_comma-IsFree _ _ (escape-IsFree b'.' context (inl refl)) (
        join_comma-IsFree _ _ (integer-IsFree b'.' iat (omega arith))
          (integer-IsFree b'.' exp (omega arith))))
encode-IsFree _ = (λ e. ground arith, tt)

split-join_comma : (a b : String) → IsFree b',' a → split b',' (join_comma a b) ≡ a ∷ split b',' b
split-join_comma a b h = split-append b',' "," a b refl h

pub decode-encode :
    (p : FormTokenPayload) → decode (encode (payload_json p)) ≡ some (payload_json p)
decode-encode p =
    let j = escape p.jti in
    let c = escape p.context in
    let i = integer p.iat in
    let e = integer p.exp in
    rw (
      split-join_comma j (join_comma c (join_comma i e)) (escape-IsFree b',' p.jti (inr refl)),
      split-join_comma c (join_comma i e) (escape-IsFree b',' p.context (inr refl)),
      split-join_comma i e (integer-IsFree b',' p.iat (omega arith)),
      split_free b',' e (integer-IsFree b',' p.exp (omega arith)),
      unescape-escape p.jti,
      unescape-escape p.context,
      from_integer-integer p.iat,
      from_integer-integer p.exp,
    )

abbrev pub plain_codec : TokenCodec
plain_codec = record {
  hmac = λ key text. escape (String.◌++◌ key text);
  encode = encode;
  decode = decode;
  decode-encode = decode-encode;
  encode-IsFree = encode-IsFree;
  hmac-IsFree = λ key text. escape-IsFree b'.' (String.◌++◌ key text) (inl refl);
}
