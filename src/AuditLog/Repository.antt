-- ===== src/AuditLog/Repository.antt =====
-- src/audit-log/infrastructure/persistence/audit-log.typeorm-repository.ts over the table of the audit logs, and
-- what the interceptor leaves there.
use nestjs_hexagonal_templat.Prelude.{ℕ, String, ◌≡◌, ap, ◌⊎◌, inl, inr, Bool, Option, List}
use nestjs_hexagonal_templat.Common.Exec.{Exec, pure, ◌>>=◌, ◌>>◌, Ensures-bind, Ensures-state}
use nestjs_hexagonal_templat.Common.Json.{Json}
use nestjs_hexagonal_templat.Database.{Generated, Inserted, Table}
use nestjs_hexagonal_templat.AuditLog.Interceptor.{Request, AuditLog, intercept}
use nestjs_hexagonal_templat.AuditLog.Safe.{IsFlatBody, IsSafe, Logged, intercept-Logged}

-- A row of `audit_logs`, which has no `updatedAt` and no `deletedAt`.
pub record AuditLogRow : Type 0 where
  pub id : String
  pub created_at : ℕ
  pub log : AuditLog

abbrev pub row_key : AuditLogRow → String
row_key r = r.id

abbrev pub stamp : ℕ → AuditLogRow → AuditLogRow
stamp t r = r

abbrev pub logged_as : AuditLog → Generated → AuditLogRow
logged_as log g = record { id = g.id; created_at = g.created_at; log = log }

module _ {W : Type 0} (table : Table W AuditLogRow row_key stamp) where
  unfoldable pub save : AuditLog → Exec W AuditLogRow
  save log = do
    saved ← table.insert (logged_as log)
    pure (record { id = saved.id; created_at = saved.created_at; log = saved.log })

  -- The interceptor has no use for the answer.
  abbrev pub save_log : AuditLog → Exec W (Unit {0})
  save_log log = save log >> pure tt

  -- At most one row more, with a log that is safe.
  abbrev pub Stored : Bool → List AuditLogRow → List AuditLogRow → Type 0
  Stored skip_body before after =
      (after ≡ before) ⊎ ((r : AuditLogRow) × Inserted r before after × IsSafe skip_body r.log)

  save_log-Stored :
      (skip_body : Bool) (log : AuditLog) (w : W)
      → IsSafe skip_body log
      → Stored skip_body (table.rows w) (table.rows (save_log log w).1)
  unfolding save
  save_log-Stored skip_body log w safe =
      Ensures-state (save_log log w) (λ w'. Stored skip_body (table.rows w) (table.rows w'))
        (Ensures-bind (save log w) (λ r. pure tt)
          (λ r w'. Stored skip_body (table.rows w) (table.rows w'))
          (λ w'. Stored skip_body (table.rows w) (table.rows w')) _ _
          (Ensures-bind (table.insert (logged_as log) w) _ _ _ _ _
            (table.insert_law (logged_as log) w)
            (λ r w' p. inr (r, p.1, rw (ap (λ (x : AuditLogRow). x.log) p.0.1) safe))
            (λ w' e. inl e))
          (λ r w' h. h) (λ w' h. h))

  -- The interceptor answers what the handler answers. In the table of the audit logs it leaves what the
  -- handler left, or that and one row more, with the log of a caller who is known, in which no
  -- sensitive key has a value at any depth, and no body where the route asks for none. The hypothesis
  -- is that no array of the body is an element of an array.
  pub intercept-Stored :
      (request : Request) (skip_body : Bool) (next : Exec W (Option Json)) (w : W)
      → IsFlatBody request.body
      → ((intercept save_log request skip_body next w).0 ≡ (next w).0)
        × Stored skip_body
            (table.rows (next w).1)
            (table.rows (intercept save_log request skip_body next w).1)
  intercept-Stored request skip_body next w flat =
      let (same, logged) = intercept-Logged save_log request skip_body next w flat in
      (same, stored (intercept save_log request skip_body next w).1 logged)
    where
      stored :
          (w' : W)
          → Logged save_log skip_body (next w).1 w'
          → Stored skip_body (table.rows (next w).1) (table.rows w')
      stored w' (inl kept) = inl (ap table.rows kept)
      stored w' (inr (log, e, safe)) = rw e (save_log-Stored skip_body log (next w).1 safe)
