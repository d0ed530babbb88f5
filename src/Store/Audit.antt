-- ===== src/Store/Audit.antt =====
-- store/audit.go: the reads of the table audit_log. A row's details are the JSON object itself, `none`
-- where the program has the empty text.
use xensus.Base.{
  ℕ, zero, suc, ℤ, pos, negsuc, Bool, true, false, not, ◌&&◌, ◌==◌, ltb, Option, none, some, List,
  [], ◌∷◌, Text, text_eq, trim_space, is_empty, if◌then◌else◌,
}
use xensus.Sql.{select_where}
use xensus.Sql.Order.{text_lt, nocase_lt, by_then, by_number, desc, order_by, limit}
use xensus.Store.Schema.{AuditLogRow, Details}
use xensus.Store.Session.{Action}
use xensus.Store.Listings.{query_rows, scan_all}
use xensus.Store.Days.{day_lower_bound, day_upper_bound}

-- The struct `AuditRow`
pub record AuditRow : Type 0 where
  pub id : ℕ
  pub occurred_at : Text
  pub actor_upn : Text
  pub action : Text
  pub details : Option Details

abbrev pub scan_audit_row : AuditLogRow → AuditRow
scan_audit_row r = record {
  id = r.id;
  occurred_at = r.occurred_at;
  actor_upn = r.actor_upn;
  action = r.action;
  details = r.details;
}

-- `ORDER BY occurred_at DESC, id DESC`
abbrev pub newest_first : AuditLogRow → AuditLogRow → Bool
newest_first = desc (by_then text_lt (λ r. r.occurred_at) (by_number (λ r. r.id)))

abbrev pub is_id : ℕ → Option ℕ → Bool
is_id id none = false
is_id id (some n) = n == id

abbrev pub about : Text → ℕ → AuditLogRow → Bool
about entity_type entity_id r = text_eq r.entity_type entity_type && is_id entity_id r.entity_id

-- `ListAuditForEntity`
unfoldable pub list_audit_for_entity : Text → ℕ → Action (List AuditRow)
list_audit_for_entity entity_type entity_id = query_rows λ d.
    scan_all scan_audit_row
      (order_by newest_first (select_where (about entity_type entity_id) d.audit_log.rows))

abbrev pub default_audit_limit : ℕ
default_audit_limit = 200

abbrev pub max_audit_limit : ℕ
max_audit_limit = 5000

-- The struct `AuditEvent`
pub record AuditEvent : Type 0 where
  pub id : ℕ
  pub occurred_at : Text
  pub actor_oid : Text
  pub actor_upn : Text
  pub action : Text
  pub entity_type : Text
  pub entity_id : ℕ
  pub details : Option Details

-- `sql.NullInt64.Int64`
abbrev pub null_int64 : Option ℕ → ℕ
null_int64 none = 0
null_int64 (some n) = n

abbrev pub scan_audit_event : AuditLogRow → AuditEvent
scan_audit_event r = record {
  id = r.id;
  occurred_at = r.occurred_at;
  actor_oid = r.actor_oid;
  actor_upn = r.actor_upn;
  action = r.action;
  entity_type = r.entity_type;
  entity_id = null_int64 r.entity_id;
  details = r.details;
}

-- The struct `AuditQuery`
pub record AuditQuery : Type 0 where
  pub entity_type : Text
  pub entity_id : ℤ
  pub actor : Text
  pub from : Text
  pub to : Text
  pub limit : ℤ

-- A condition that is left out where its argument is empty.
abbrev pub unless_empty : Text → Bool → Bool
unless_empty s condition = if is_empty s then true else condition

-- `q.EntityID > 0` with its condition
abbrev pub has_entity_id : ℤ → Option ℕ → Bool
has_entity_id (pos zero) id = true
has_entity_id (pos (suc n)) id = is_id (suc n) id
has_entity_id (negsuc n) id = true

-- The conditions behind WHERE.
abbrev pub meets : AuditQuery → AuditLogRow → Bool
meets q r =
    unless_empty (trim_space q.entity_type)
      (text_eq r.entity_type (trim_space q.entity_type) && has_entity_id q.entity_id r.entity_id)
    && unless_empty (trim_space q.actor) (text_eq r.actor_upn (trim_space q.actor))
    && unless_empty (day_lower_bound q.from) (not (text_lt r.occurred_at (day_lower_bound q.from)))
    && unless_empty (day_upper_bound q.to) (text_lt r.occurred_at (day_upper_bound q.to))

-- `auditLimit`
unfoldable pub audit_limit : ℤ → ℕ
audit_limit (pos zero) = default_audit_limit
audit_limit (pos (suc n)) = if ltb max_audit_limit (suc n) then max_audit_limit else suc n
audit_limit (negsuc n) = default_audit_limit

-- `ListAudit`
unfoldable pub list_audit : AuditQuery → Action (List AuditEvent)
list_audit q = query_rows λ d.
    scan_all scan_audit_event (
      limit (audit_limit q.limit) (order_by newest_first (select_where (meets q) d.audit_log.rows)))

abbrev pub contains_text : Text → List Text → Bool
contains_text s [] = false
contains_text s (t ∷ ts) = let rest = contains_text s ts in if text_eq s t then true else rest

-- `SELECT DISTINCT actor_upn`
unfoldable pub distinct : List Text → List Text
distinct [] = []
distinct (s ∷ ts) = let rest = distinct ts in if contains_text s rest then rest else s ∷ rest

-- `ListAuditActors`: `ORDER BY actor_upn COLLATE NOCASE`
unfoldable pub list_audit_actors : Action (List Text)
list_audit_actors = query_rows λ d.
    order_by (by_then nocase_lt (λ s. s) (λ _ _. true))
      (distinct (scan_all (λ (r : AuditLogRow). r.actor_upn) d.audit_log.rows))
