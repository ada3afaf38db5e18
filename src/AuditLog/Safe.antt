-- ===== src/AuditLog/Safe.antt =====
-- What src/common/interceptors/audit-log.interceptor.ts leaves in the audit log, whatever saves it.
use nestjs_hexagonal_templat.Prelude.{
  ◌≡◌, ◌≢◌, ◌⊎◌, inl, inr, refl, Bool, true, false, not, ◌&&◌, Option, none, some, ◌==◌, arith,
  if◌then◌else◌, eq_iff, Bool-cases,
}
use nestjs_hexagonal_templat.Common.Exec.{Result, ok, throw, Exec, continue}
use nestjs_hexagonal_templat.Common.Json.{Json, null, bool, num, arr, obj, str}
use nestjs_hexagonal_templat.User.Controller.{RequestUser}
use nestjs_hexagonal_templat.AuditLog.{sanitize_body}
use nestjs_hexagonal_templat.AuditLog.Redaction.{IsFlat, IsCleanFields, redact-IsClean}
use nestjs_hexagonal_templat.AuditLog.Interceptor.{
  Request, AuditLog, is_write, caller_of, audit_log, record_for, record_log, intercept,
}

abbrev pub IsFlatBody : Option Json → Type 0
IsFlatBody none = Unit
IsFlatBody (some body) = IsFlat body

-- A body that may be kept: no sensitive key has a value of its own.
abbrev pub IsCleanBody : Option Json → Type 0
IsCleanBody none = Unit
IsCleanBody (some (obj fs)) = IsCleanFields fs
IsCleanBody (some _) = ⊥

-- A log that hides what it has to, of a caller who is known.
abbrev pub IsSafe : Bool → AuditLog → Type 0
IsSafe skip_body log =
    IsCleanBody log.after × ((log.after ≡ none) ⊎ (skip_body ≡ false)) × (log.user_id ≢ "")

sanitize_body-IsClean : (body : Option Json) → IsFlatBody body → IsCleanBody (sanitize_body body)
unfolding sanitize_body IsFlat
sanitize_body-IsClean none flat = tt
sanitize_body-IsClean (some null) flat = tt
sanitize_body-IsClean (some (bool b)) flat = tt
sanitize_body-IsClean (some (num n)) flat = tt
sanitize_body-IsClean (some (str s)) flat = tt
sanitize_body-IsClean (some (arr items)) flat = tt
sanitize_body-IsClean (some (obj fs)) flat = redact-IsClean fs 0 flat

kept_body-IsSafe :
    (deleted skip_body : Bool) (body : Option Json)
    → IsCleanBody body
    → IsCleanBody (if deleted && not skip_body then body else none)
      × (((if deleted && not skip_body then body else none) ≡ none) ⊎ (skip_body ≡ false))
kept_body-IsSafe true true body clean = (tt, inl refl)
kept_body-IsSafe true false body clean = (clean, inr refl)
kept_body-IsSafe false skip_body body clean = (tt, inl refl)

audit_log-IsSafe :
    (request : Request) (caller : RequestUser) (skip_body : Bool) (response : Option Json)
    → IsFlatBody request.body
    → caller.user_id ≢ ""
    → IsSafe skip_body (audit_log request caller skip_body response)
unfolding audit_log
audit_log-IsSafe request caller skip_body response flat named =
    let kept =
      kept_body-IsSafe (not (request.method == "DELETE")) skip_body (sanitize_body request.body)
        (sanitize_body-IsClean request.body flat) in
    (kept.0, kept.1, named)

caller_of_named :
    (user : Option RequestUser) (caller : RequestUser)
    → caller_of user ≡ some caller
    → caller.user_id ≢ ""
caller_of_named none caller h = absurd (cc)
caller_of_named (some found) caller h = ground (arith, eq_iff found.user_id "")

module _ {W : Type 0} (save : AuditLog → Exec W (Unit {0})) where
  -- The state after at most one attempt to save a safe log.
  abbrev pub Logged : Bool → W → W → Type 0
  Logged skip_body before after =
      (after ≡ before) ⊎ ((log : AuditLog) × (after ≡ (save log before).1) × IsSafe skip_body log)

  record_for-Logged :
      (request : Request) (skip_body : Bool) (response : Option Json) (who : Option RequestUser)
      (w : W)
      → IsFlatBody request.body
      → caller_of request.user ≡ who
      → Logged skip_body w (record_for save request skip_body response who w)
  record_for-Logged request skip_body response none w flat known = inl refl
  record_for-Logged request skip_body response (some caller) w flat known = inr (
    audit_log request caller skip_body response,
    refl,
    audit_log-IsSafe request caller skip_body response flat
        (caller_of_named request.user caller known),
  )

  record_log-Logged :
      (request : Request) (skip_body : Bool) (response : Option Json) (w : W)
      → IsFlatBody request.body
      → Logged skip_body w (record_log save request skip_body response w)
  unfolding record_log
  record_log-Logged request skip_body response w flat =
      record_for-Logged request skip_body response (caller_of request.user) w flat refl

  answered :
      (request : Request) (skip_body : Bool) (r : Result (Option Json) × W)
      → IsFlatBody request.body
      → let f : Option Json → Exec W (Option Json) =
          λ response w. (ok response, record_log save request skip_body response w) in
        ((continue r.0 f r.1).0 ≡ r.0) × Logged skip_body r.1 (continue r.0 f r.1).1
  answered request skip_body (ok response, w) flat =
      (refl, record_log-Logged request skip_body response w flat)
  answered request skip_body (throw e, w) flat = (refl, inl refl)

  -- The interceptor answers what the handler answers. What it leaves behind is what the handler left,
  -- or that and one attempt to save a log of a caller who is known, in which no sensitive key has a
  -- value at any depth, and no body where the route asks for none. The hypothesis is that no array of
  -- the body is an element of an array.
  pub intercept-Logged :
      (request : Request) (skip_body : Bool) (next : Exec W (Option Json)) (w : W)
      → IsFlatBody request.body
      → ((intercept save request skip_body next w).0 ≡ (next w).0)
        × Logged skip_body (next w).1 (intercept save request skip_body next w).1
  unfolding intercept
  intercept-Logged request skip_body next w flat = elim (Bool-cases (is_write request.method)) [
    | inl write ↦ rw write (answered request skip_body (next w) flat)
    | inr read ↦ rw read (refl, inl refl)
  ]
