-- ===== src/Core/Audit.antt =====
-- core/audit.go.
use xensus.Base.{ℕ, zero, suc, Option, none, some, ◌||◌, is_empty, Text, if◌then◌else◌}
use xensus.Sql.{insert_row}
use xensus.Store.Schema.{AuditLogRow, Details}
use xensus.Store.Session.{
  Action, missing_argument, exec, inserted, ◌>>=◌, ◌>>◌, raise, pure, time_now,
}

pub record Actor : Type 0 where
  pub oid : Text
  pub upn : Text

-- `entity_id` 0 means that there is none.
pub record AuditEntry : Type 0 where
  pub actor : Actor
  pub action : Text
  pub entity_type : Text
  pub entity_id : ℕ
  pub details : Option Details

abbrev pub null_int : ℕ → Option ℕ
null_int zero = none
null_int (suc n) = some (suc n)

-- The row that `INSERT INTO audit_log (occurred_at, actor_oid, …) VALUES (?, ?, …)` adds.
abbrev pub audit_log_row : AuditEntry → Text → ℕ → AuditLogRow
audit_log_row e at id = record {
  id = id;
  occurred_at = at;
  actor_oid = e.actor.oid;
  actor_upn = e.actor.upn;
  action = e.action;
  entity_type = e.entity_type;
  entity_id = null_int e.entity_id;
  details = e.details;
}

abbrev insert_audit_log : AuditEntry → Text → Action ℕ
insert_audit_log e at = exec λ now d.
    inserted (λ t. record d { audit_log = t }) (insert_row (audit_log_row e at) d.audit_log)

unfoldable pub write_audit : AuditEntry → Action (Unit {0})
write_audit e =
    if is_empty e.action || is_empty e.entity_type || is_empty e.actor.oid
    then raise missing_argument
    else do at ← time_now; insert_audit_log e at; pure tt
