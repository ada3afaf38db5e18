-- ===== src/AntiBot/FormToken.antt =====
-- src/anti-bot/infrastructure/services/form-token.service.ts. HMAC-SHA256 and the base64url
-- coding of JSON come from Node; they are the argument `codec`.
pub mod RoundTrip
pub mod PlainCodec
use nestjs_hexagonal_templat.Prelude.{
  ℕ, zero, suc, ◌+◌, ◌-◌, ◌*◌, ◌/◌, ◌%◌, ◌^◌, ◌≤◌, ◌<◌, String, ◌≡◌, refl, sym, ap, ◌∙◌, ◌≢◌, ◌↔◌,
  ◌⊎◌, inl, inr, Bool, true, false, not, ◌&&◌, ◌||◌, Option, none, some, List, [], ◌∷◌, ◌++◌, map,
  arith, ◌==◌, eq_iff, eq_refl, ltb, leb, eqb, if◌then◌else◌, Bool-cases, Option-cases, str_cases,
  length, get_elem?, take, drop, any, all, keep, find, count_if, All, length-append, length-drop,
  length-keep-le, length-map, tests, ltb→lt, lt→ltb, leb→le, le→leb,
}
use nestjs_hexagonal_templat.Prelude.Int.{ℤ, pos, negsuc}
use nestjs_hexagonal_templat.Common.Json.{Json, null, bool, num, str, arr, obj, field, end, get}
use nestjs_hexagonal_templat.Common.Text.{split, IsFree}
use Prim.Native.String

pub record FormTokenPayload : Type 0 where
  pub jti : String
  pub context : String
  pub iat : ℤ
  pub exp : ℤ

-- The object that is signed.
abbrev pub payload_json : FormTokenPayload → Json
payload_json p = obj (
    field "jti" (str p.jti)
      (field "context" (str p.context) (field "iat" (num p.iat) (field "exp" (num p.exp) end))))

-- What Node does for the service, with what the service relies on: the coding of a
-- payload can be undone, and neither a code nor a signature holds a dot.
pub record TokenCodec : Type 0 where
  pub hmac : String → String → String
  pub encode : Json → String
  pub decode : String → Option Json
  pub decode-encode :
      (p : FormTokenPayload) → decode (encode (payload_json p)) ≡ some (payload_json p)
  pub encode-IsFree : (v : Json) → IsFree b'.' (encode v)
  pub hmac-IsFree : (key text : String) → IsFree b'.' (hmac key text)

pub record IssuedToken : Type 0 where
  pub token : String
  -- The instant in milliseconds that `toISOString` prints.
  pub expires_at : ℕ

-- Math.max(1, Math.floor(maxTimeMs / 1000))
unfoldable pub ttl_seconds : ℕ → ℕ
ttl_seconds max_time_ms = if ltb (max_time_ms / 1000) 1 then 1 else max_time_ms / 1000

-- The configured secret, or a random one for the process.
unfoldable pub choose_secret : String → String → String
choose_secret configured random = if configured == "" then random else configured

abbrev pub join_dot : String → String → String
join_dot a b = String.◌++◌ a (String.◌∷◌ "." b)

abbrev header : Json
header = obj (field "alg" (str "HS256") (field "typ" (str "JWT") end))

-- `isPayload`, on the four fields.
unfoldable pub read_fields :
    Option Json → Option Json → Option Json → Option Json → Option FormTokenPayload
read_fields (some (str jti)) (some (str context)) (some (num iat)) (some (num exp)) =
    if jti == "" then none else some (record { jti = jti; context = context; iat = iat; exp = exp })
read_fields _ _ _ _ = none

unfoldable pub read_payload : Json → Option FormTokenPayload
unfolding read_fields get
read_payload (obj fs) = read_fields (get "jti" fs) (get "context" fs) (get "iat" fs) (get "exp" fs)
read_payload _ = none

abbrev pub read_decoded : Option Json → Option FormTokenPayload
read_decoded none = none
read_decoded (some v) = read_payload v

-- The payload of a token issued at `now`.
unfoldable pub issued_payload : ℕ → ℕ → String → String → FormTokenPayload
issued_payload ttl now jti context = record {
  jti = jti;
  context = context;
  iat = pos (now / 1000);
  exp = pos (now / 1000 + ttl);
}

module _ (codec : TokenCodec) (secret : String) where
  unfoldable pub sign : String → String
  sign text = codec.hmac secret text

  unfoldable pub issue : ℕ → ℕ → String → String → IssuedToken
  unfolding issued_payload sign
  issue ttl now jti context =
      let h = codec.encode header in
      let b = codec.encode (payload_json (issued_payload ttl now jti context)) in
      record {
        token = join_dot h (join_dot b (sign (join_dot h b)));
        expires_at = (now / 1000 + ttl) * 1000;
      }

  unfoldable pub verify_parts : List String → Option FormTokenPayload
  unfolding sign
  verify_parts (h ∷ b ∷ signature ∷ []) =
      if sign (join_dot h b) == signature then read_decoded (codec.decode b) else none
  verify_parts _ = none

  unfoldable pub verify : String → Option FormTokenPayload
  unfolding verify_parts
  verify token = verify_parts (split b'.' token)
