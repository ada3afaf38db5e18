-- ===== src/AuditLog/Keys.antt =====
-- The keys that SENSITIVE_KEY_PATTERN of src/common/interceptors/audit-log.interceptor.ts finds.
use Prim.Native.Char.{code}
use Prim.Native.String.{String, [], ◌∷◌, ◌++◌}
use text.Mathlib.TextLemmas.{cons-append}
use nestjs_hexagonal_templat.Prelude.{
  ◌≡◌, sym, ap, ◌∙◌, Bool, true, false, ◌||◌, arith, eqb, if◌then◌else◌,
}
use nestjs_hexagonal_templat.Common.Patterns.{starts, after, starts-append, occurs-append}
use nestjs_hexagonal_templat.AuditLog.{key_after, secret_here, is_sensitive}

key_after-append :
    (word s rest : String)
    → key_after (after word s) ≡ true
    → key_after (after word (s ++ rest)) ≡ true
unfolding starts after
key_after-append [] [] rest h = ground arith
key_after-append [] (c ∷ s) rest h =
    rw cons-append (dashed (eqb (code c) b'-' || eqb (code c) b'_') h)
  where
    dashed :
        (dash : Bool)
        → starts "key" (if dash then s else c ∷ s) ≡ true
        → starts "key" (if dash then s ++ rest else c ∷ (s ++ rest)) ≡ true
    dashed true h = starts-append "key" s rest h
    dashed false h =
        ap (starts "key") (sym (cons-append c s rest)) ∙ starts-append "key" (c ∷ s) rest h
key_after-append (d ∷ word) [] rest h = ground arith
key_after-append (d ∷ word) (c ∷ s) rest h =
    rw cons-append (ground (arith, key_after-append word s rest))

secret_here-append : (rest s : String) → secret_here s ≡ true → secret_here (s ++ rest) ≡ true
secret_here-append rest s h = ground (
  arith,
  starts-append "pass" s rest,
  starts-append "pwd" s rest,
  starts-append "senha" s rest,
  starts-append "secret" s rest,
  starts-append "token" s rest,
  starts-append "credential" s rest,
  starts-append "authorization" s rest,
  key_after-append "api" s rest,
)

-- The name of a credential is found at any place of a key: a key that is sensitive stays so with more
-- text in front of it and behind it.
pub is_sensitive-append :
    (before key rest : String)
    → is_sensitive key ≡ true
    → is_sensitive (before ++ (key ++ rest)) ≡ true
unfolding is_sensitive
is_sensitive-append before key rest h =
    occurs-append secret_here before key rest (secret_here-append rest) h
