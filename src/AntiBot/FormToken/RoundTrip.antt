-- ===== src/AntiBot/FormToken/RoundTrip.antt =====
-- What the service issues it accepts, and what it accepts carries its signature.
use nestjs_hexagonal_templat.Prelude.{
  ℕ, String, ◌≡◌, refl, ap, ◌∙◌, ◌≢◌, some, List, [], ◌∷◌, arith, eq_iff, eq_refl,
}
use nestjs_hexagonal_templat.Common.Json.{Json}
use nestjs_hexagonal_templat.Common.Text.{split, split-append, split_free}
use nestjs_hexagonal_templat.AntiBot.FormToken.{
  FormTokenPayload, TokenCodec, header, payload_json, join_dot, read_payload, read_decoded,
  issued_payload, issue, verify_parts, verify,
}

read_payload-json : (p : FormTokenPayload) → p.jti ≢ "" → read_payload (payload_json p) ≡ some p
unfolding read_payload
read_payload-json p h = ground (arith, eq_iff p.jti "")

module _ (codec : TokenCodec) (secret : String) where
  split_token :
      (v w : Json) (text : String)
      → split b'.' (join_dot (codec.encode v) (join_dot (codec.encode w) (codec.hmac secret text)))
        ≡ codec.encode v ∷ codec.encode w ∷ codec.hmac secret text ∷ []
  split_token v w text =
      let a = codec.encode v in
      let b = codec.encode w in
      let c = codec.hmac secret text in
      split-append b'.' "." a (join_dot b c) refl (codec.encode-IsFree v)
      ∙ ap (◌∷◌ a) (
          split-append b'.' "." b c refl (codec.encode-IsFree w)
          ∙ ap (◌∷◌ b) (split_free b'.' c (codec.hmac-IsFree secret text)))

  verify_parts_sound :
      (parts : List String) (p : FormTokenPayload)
      → verify_parts codec secret parts ≡ some p
      → (h : String) × (b : String) × (parts ≡ h ∷ b ∷ codec.hmac secret (join_dot h b) ∷ [])
        × (read_decoded (codec.decode b) ≡ some p)
  unfolding verify_parts
  verify_parts_sound (h ∷ b ∷ s ∷ []) p e =
      let signed = codec.hmac secret (join_dot h b) in
      (h, b, ground (arith, eq_iff signed s), ground arith)
  verify_parts_sound _ p e = cc

  -- A token is verified to the payload that it was issued with, for any secret, context and
  -- instant, if its identifier is not empty.
  pub verify-issue :
      (ttl now : ℕ) (jti context : String)
      → jti ≢ ""
      → verify codec secret (issue codec secret ttl now jti context).token
        ≡ some (issued_payload ttl now jti context)
  unfolding issue verify
  verify-issue ttl now jti context h =
      let p = issued_payload ttl now jti context in
      let data_text = join_dot (codec.encode header) (codec.encode (payload_json p)) in
      rw
        (
          split_token header (payload_json p) data_text,
          eq_refl (codec.hmac secret data_text),
          codec.decode-encode p,
        )
        (read_payload-json p h)

  -- What is verified has three parts, the last of which is the signature of the other two, and the
  -- second of which decodes to the payload.
  pub verify_sound :
      (token : String) (p : FormTokenPayload)
      → verify codec secret token ≡ some p
      → (h : String) × (b : String) × (split b'.' token
          ≡ h ∷ b ∷ codec.hmac secret (join_dot h b) ∷ [])
        × (read_decoded (codec.decode b) ≡ some p)
  unfolding verify
  verify_sound token p e = verify_parts_sound (split b'.' token) p e
