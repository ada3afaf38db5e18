-- ===== src/Common/S3Key.antt =====
-- src/common/utils/s3-key.util.ts: the key of an object in S3, from a URL of it. What `new URL` gives as the
-- path name, none where it throws, and `decodeURIComponent` are arguments.
use Prim.Native.Char.{code}
use Prim.Native.String
use Prim.Native.String.{[], ◌∷◌}
use text.Mathlib.TextLemmas.{nil-append, cons-append}
use nestjs_hexagonal_templat.Prelude.{
  String, ◌≡◌, refl, Bool, true, false, ◌||◌, Option, none, some, ◌==◌, eqb, arith, if◌then◌else◌,
  Bool-cases, ◌⊎◌, inl, inr, ap, eq_iff,
}

-- s.slice(prefix.length) where s.startsWith(prefix)
unfoldable pub without_prefix : String → String → Option String
without_prefix [] s = some s
without_prefix (c ∷ p) [] = none
without_prefix (c ∷ p) (d ∷ s) =
    let rest = without_prefix p s in if eqb (code c) (code d) then rest else none

abbrev or_whole : String → Option String → String
or_whole s none = s
or_whole s (some rest) = rest

-- Whether the value has a protocol.
unfoldable pub is_url : String → Bool
unfolding without_prefix
is_url value =
    elim (without_prefix "http://" value) [ none ↦ false | some _ ↦ true ]
    || elim (without_prefix "https://" value) [ none ↦ false | some _ ↦ true ]

-- The bucket that stands in front of the path.
unfoldable pub without_bucket : Option String → String → String
unfolding without_prefix
without_bucket none key = key
without_bucket (some bucket) key =
    let rest = or_whole key (without_prefix (String.◌++◌ bucket "/") key) in
    if bucket == "" then key else rest

module _ (pathname decode_uri_component : String → Option String) where
  abbrev key_of_path : Option String → String → Option String → Option String
  unfolding without_bucket without_prefix
  key_of_path bucket value none = some value
  key_of_path bucket value (some path) =
      let key = without_bucket bucket (or_whole path (without_prefix "/" path)) in
      some (or_whole key (decode_uri_component key))

  unfoldable pub extract_s3_key : Option String → Option String → Option String
  unfolding is_url key_of_path
  extract_s3_key none bucket = none
  extract_s3_key (some value) bucket =
      let found = key_of_path bucket value (pathname value) in
      if value == "" then none else if is_url value then found else some value

without_prefix-append : (p s : String) → without_prefix p (String.◌++◌ p s) ≡ some s
unfolding without_prefix
without_prefix-append [] s = rw nil-append refl
without_prefix-append (c ∷ p) s = rw cons-append (ground (arith, without_prefix-append p s))

module _ (pathname decode_uri_component : String → Option String) where
  -- The value is the key itself, a URL with the bucket in front of the key, or one whose path is the key
  -- alone, and does not start with the bucket's name.
  abbrev pub IsAddress : String → String → String → Type 0
  IsAddress bucket key value =
      ((value ≡ key) × (is_url value ≡ false) × ((value == "") ≡ false))
      ⊎ ((is_url value ≡ true)
          × ((encoded : String) × (decode_uri_component encoded ≡ some key)
              × ((pathname value
                    ≡ some (String.◌++◌ "/" (String.◌++◌ (String.◌++◌ bucket "/") encoded)))
                  ⊎ ((pathname value ≡ some (String.◌++◌ "/" encoded))
                      × (without_prefix (String.◌++◌ bucket "/") encoded ≡ none)))))

  url_filled : (value : String) → is_url value ≡ true → (value == "") ≡ false
  unfolding is_url
  url_filled value h = elim (Bool-cases (value == "")) [
    | inl empty ↦ let same : value ≡ "" = (eq_iff value "").0 empty in absurd (cc (rw same at h))
    | inr filled ↦ filled
  ]

  key_of_path_lem :
      (bucket key encoded value path : String)
      → (bucket == "") ≡ false
      → decode_uri_component encoded ≡ some key
      → or_whole path (without_prefix (String.◌++◌ bucket "/") path) ≡ encoded
      → key_of_path pathname decode_uri_component (some bucket) value (some (String.◌++◌ "/" path))
        ≡ some key
  unfolding key_of_path without_bucket
  key_of_path_lem bucket key encoded value path named decoded left =
      rw (without_prefix-append "/" path, named, left, decoded) refl

  -- The key of an object comes back from each of its addresses. In front of a bucket with a name, these
  -- are the key itself, a URL of the style that names the bucket in the path, and one that does not,
  -- where the key does not itself start with the bucket's name and a slash; the path of a URL is the
  -- key as it is encoded.
  pub extract_s3_key_lem :
      (bucket key value : String)
      → (bucket == "") ≡ false
      → IsAddress bucket key value
      → extract_s3_key pathname decode_uri_component (some value) (some bucket) ≡ some key
  unfolding extract_s3_key
  extract_s3_key_lem bucket key value named (inl (same, plain, filled)) =
      rw (filled, plain) (ap some same)
  extract_s3_key_lem bucket key value named (inr (url, (encoded, decoded, inl in_path))) =
      rw (url_filled value url, url, in_path)
        (key_of_path_lem bucket key encoded value (String.◌++◌ (String.◌++◌ bucket "/") encoded)
          named decoded (rw (without_prefix-append (String.◌++◌ bucket "/") encoded) refl))
  extract_s3_key_lem bucket key value named (inr (url, (encoded, decoded, inr (hosted, other)))) =
      rw (url_filled value url, url, hosted)
        (key_of_path_lem bucket key encoded value encoded named decoded (rw other refl))
