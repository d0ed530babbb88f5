-- ===== src/Api/AuditLog.antt =====
-- api/audit.go, and the export of the whole registry in api/export.go.
use xensus.Base.{
  zero, suc, ℤ, pos, negsuc, Option, none, some, [], ◌∷◌, Text, codes, trim_space, parse_int,
}
use xensus.Store.Schema.{Details}
use xensus.Store.Listings.{
  scan_all, list_persons, list_systems, list_disabled_systems, list_active_stewards,
  list_all_associations,
}
use xensus.Store.Audit.{AuditQuery, list_audit, max_audit_limit}
use xensus.Api.Records.{
  write_persons_csv, write_systems_export_csv, write_associations_csv, write_stewards_csv,
  write_audit_csv,
}
use xensus.Api.Reads.{Reader, reading, show, events, csv, zip, to_audit_event_dto}

-- The parameters of the query string, empty where they are missing.
pub record Params : Type 0 where
  pub entity_type : Text
  pub entity_id : Text
  pub actor : Text
  pub from : Text
  pub to : Text
  pub limit : Text

abbrev positive_or_zero : Option ℤ → ℤ
positive_or_zero none = pos 0
positive_or_zero (some (pos n)) = pos n
positive_or_zero (some (negsuc n)) = pos 0

abbrev or_zero : Option ℤ → ℤ
or_zero none = pos 0
or_zero (some n) = n

-- `auditQueryFrom`
unfoldable pub audit_query_from : Params → AuditQuery
audit_query_from q = record {
  entity_type = trim_space q.entity_type;
  entity_id = positive_or_zero (parse_int (trim_space q.entity_id));
  actor = trim_space q.actor;
  from = trim_space q.from;
  to = trim_space q.to;
  limit = or_zero (parse_int (trim_space q.limit));
}

-- `ListAudit`
abbrev pub list_events : Params → Reader
list_events q =
    reading (list_audit (audit_query_from q)) λ es. show (events (scan_all to_audit_event_dto es))

abbrev pub or_max : ℤ → ℤ
or_max (pos zero) = pos max_audit_limit
or_max (pos (suc n)) = pos (suc n)
or_max (negsuc n) = pos max_audit_limit

-- `if q.Limit <= 0 { q.Limit = store.MaxAuditLimit }`
abbrev pub with_max : AuditQuery → AuditQuery
with_max q = record q { limit = or_max q.limit }

-- `ExportAuditCSV`
abbrev pub export_audit_csv : (Details → Text) → Params → Reader
export_audit_csv marshal q =
    reading (list_audit (with_max (audit_query_from q)))
      λ es. show (csv (write_audit_csv marshal es))

-- The query of the export: everything, up to the larger limit.
abbrev pub everything : AuditQuery
everything = record {
  entity_type = [];
  entity_id = pos 0;
  actor = [];
  from = [];
  to = [];
  limit = pos max_audit_limit;
}

-- `ExportRegistry`
abbrev pub export_registry : (Details → Text) → Reader
export_registry marshal = reading (list_persons []) λ ps. reading (list_systems []) λ active.
    reading list_disabled_systems λ disabled. reading list_all_associations λ assocs.
      reading list_active_stewards λ ss. reading (list_audit everything) λ es. show (
        zip (
          (codes "persons.csv", write_persons_csv ps)
          ∷ (codes "systems.csv", write_systems_export_csv active disabled)
          ∷ (codes "associations.csv", write_associations_csv assocs)
          ∷ (codes "stewards.csv", write_stewards_csv ss)
          ∷ (codes "audit.csv", write_audit_csv marshal es)
          ∷ []))
