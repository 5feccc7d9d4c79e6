-- ===== src/Store/Audit.antt =====
-- backend/src/audit/audit.service.ts: `log`, for what is not about a sale or is done by the system.
use vfw.Prelude.{ℕ, Option, none, ◌∷◌}
use vfw.Store.{AuditAction}
use vfw.Store.Call.{Call, get, put, ◌>>=◌}

unfoldable pub log_action : {D : Type 0} → Option ℕ → ℕ → AuditAction → Call D (Unit {0})
log_action submission_id actor_id action = do
  db ← get
  put (record db {
    audit =
        record {
          submission_id = submission_id;
          actor_id = actor_id;
          action = action;
          requested_by = none;
        }
        ∷ db.audit;
  })
