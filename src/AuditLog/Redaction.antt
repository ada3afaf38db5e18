-- ===== src/AuditLog/Redaction.antt =====
-- What src/common/interceptors/audit-log.interceptor.ts leaves of a body.
use Prim.Native.String.{String}
use nestjs_hexagonal_templat.Prelude.{
  ℕ, suc, ◌≡◌, ◌≢◌, ◌⊎◌, refl, false, none, some, arith, eq_iff, leb, if◌then◌else◌,
}
use nestjs_hexagonal_templat.Common.Json.{
  Json, null, bool, num, arr, obj, str, Items, nil, cons, Fields, end, field, get,
}
use nestjs_hexagonal_templat.AuditLog.{
  is_sensitive, redacted_value, max_redaction_depth, put, redact, redact_value, redact_items,
}

-- No sensitive key has a value of its own, at any depth.
unfoldable mutual
  pub IsClean : Json → Type 0
  IsClean (arr items) = IsCleanItems items
  IsClean (obj fs) = IsCleanFields fs
  IsClean _ = Unit

  pub IsCleanItems : Items → Type 0
  IsCleanItems nil = Unit
  IsCleanItems (cons v rest) = IsClean v × IsCleanItems rest

  pub IsCleanFields : Fields → Type 0
  IsCleanFields end = Unit
  IsCleanFields (field key v rest) =
      ((is_sensitive key ≡ false) ⊎ (v ≡ redacted_value)) × IsClean v × IsCleanFields rest

-- No array is an element of an array.
unfoldable mutual
  pub IsFlat : Json → Type 0
  IsFlat (arr items) = IsFlatItems items
  IsFlat (obj fs) = IsFlatFields fs
  IsFlat _ = Unit

  pub IsFlatItems : Items → Type 0
  IsFlatItems nil = Unit
  IsFlatItems (cons (arr inner) rest) = ⊥
  IsFlatItems (cons (obj fs) rest) = IsFlatFields fs × IsFlatItems rest
  IsFlatItems (cons v rest) = IsFlatItems rest

  pub IsFlatFields : Fields → Type 0
  IsFlatFields end = Unit
  IsFlatFields (field key v rest) = IsFlat v × IsFlatFields rest

-- The value that `redact` gives a key.
abbrev pub kept_value : String → ℕ → Json → Json
kept_value key depth v =
    if is_sensitive key
    then redacted_value
    else if leb max_redaction_depth depth
    then redacted_value
    else redact_value v depth

put-IsClean :
    (key : String) (v : Json) (rest : Fields)
    → (is_sensitive key ≡ false) ⊎ (v ≡ redacted_value)
    → IsClean v
    → IsCleanFields rest
    → IsCleanFields (put key v rest)
unfolding put IsCleanFields
put-IsClean key v rest h c r = ground arith

redacted-IsClean : IsClean redacted_value
unfolding IsClean
redacted-IsClean = tt

-- What a key is given is clean if its value is clean once redacted.
kept-IsClean :
    (key : String) (depth : ℕ) (v : Json)
    → IsClean (redact_value v depth)
    → ((is_sensitive key ≡ false) ⊎ (kept_value key depth v ≡ redacted_value))
      × IsClean (kept_value key depth v)
kept-IsClean key depth v h = ground (arith, redacted-IsClean)

mutual
  unfolding redact IsClean IsFlat

  pub redact-IsClean : (fs : Fields) (depth : ℕ) → IsFlatFields fs → IsCleanFields (redact fs depth)
  redact-IsClean end depth flat = tt
  redact-IsClean (field key v fs) depth flat =
      let kept = kept-IsClean key depth v (redact_value-IsClean v depth flat.0) in
      put-IsClean key (kept_value key depth v) (redact fs depth) kept.0 kept.1
        (redact-IsClean fs depth flat.1)

  redact_value-IsClean : (v : Json) (depth : ℕ) → IsFlat v → IsClean (redact_value v depth)
  redact_value-IsClean null depth flat = tt
  redact_value-IsClean (bool b) depth flat = tt
  redact_value-IsClean (num n) depth flat = tt
  redact_value-IsClean (str s) depth flat = tt
  redact_value-IsClean (arr items) depth flat = redact_items-IsClean items depth flat
  redact_value-IsClean (obj fs) depth flat = redact-IsClean fs (suc depth) flat

  redact_items-IsClean :
      (items : Items) (depth : ℕ) → IsFlatItems items → IsCleanItems (redact_items items depth)
  redact_items-IsClean nil depth flat = tt
  redact_items-IsClean (cons null rest) depth flat = (tt, redact_items-IsClean rest depth flat)
  redact_items-IsClean (cons (bool b) rest) depth flat = (tt, redact_items-IsClean rest depth flat)
  redact_items-IsClean (cons (num n) rest) depth flat = (tt, redact_items-IsClean rest depth flat)
  redact_items-IsClean (cons (str s) rest) depth flat = (tt, redact_items-IsClean rest depth flat)
  redact_items-IsClean (cons (arr inner) rest) depth flat = absurd flat
  redact_items-IsClean (cons (obj fs) rest) depth flat =
      (redact-IsClean fs (suc depth) flat.0, redact_items-IsClean rest depth flat.1)

-- Every key but `__proto__` is found after the redaction where it was found before.
pub get-redact :
    (key : String) (fs : Fields) (depth : ℕ)
    → key ≢ "__proto__"
    → get key (redact fs depth)
      ≡ elim (get key fs) [ none ↦ none | some v ↦ some (kept_value key depth v) ]
unfolding get redact put
get-redact key end depth other = refl
get-redact key (field k v fs) depth other =
    ground (arith, eq_iff k key, eq_iff k "__proto__", get-redact key fs depth other)
