-- ===== src/Web/Rows.antt =====
-- web/*.go: how what package store returns is put for the templates.
use xensus.Base.{
  ℕ, zero, suc, pos, ◌++◌, not, Option, none, some, List, [], ◌∷◌, Text, codes, text_eq, is_empty,
  decimal, if◌then◌else◌,
}
use xensus.Store.Schema.{Person, PendingSteward, Details}
use xensus.Store.Systems.{System, disabled}
use xensus.Store.Associations.{Association}
use xensus.Store.Stewards.{Steward}
use xensus.Store.Listings.{scan_all}
use xensus.Store.Audit.{AuditRow, AuditEvent}
use xensus.Id.{format}
use xensus.Web.Page.{Page}
use xensus.Web.Views.{
  PersonRow, PersonView, AuditView, LinkRow, SystemOption, SystemLine, SystemView, StewardWebRow,
  PendingWebRow, AuditFilterView, AuditEventRow, View,
}

-- What the pages take from elsewhere: the time that time.Parse reads by RFC3339Nano, printed in UTC
-- by the minute, or nothing where it refuses the text; the text of an audit row's details;
-- url.Values' Encode, of distinct keys; and the page that `render` makes.
pub record Display : Type 0 where
  pub format_time : Text → Option Text
  pub marshal : Details → Text
  pub encode : List (Text × Text) → Text
  pub show : View → Page

abbrev pub or_text : Text → Option Text → Text
or_text s none = s
or_text s (some t) = t

-- `formatTS`
abbrev pub format_ts : Display → Text → Text
format_ts w s = or_text s (w.format_time s)

-- The column `details`
abbrev pub details_text : Display → Option Details → Text
details_text w none = []
details_text w (some d) = w.marshal d

-- `personTitle`
abbrev pub person_title : Person → Text
person_title p = if not (is_empty p.name) then p.name else format (pos p.id)

abbrev pub to_person_row : Person → PersonRow
to_person_row p = record { id = format (pos p.id); name = p.name }

-- `toPersonView`
abbrev pub to_person_view : Display → Person → PersonView
to_person_view w p = record {
  id = format (pos p.id);
  name = p.name;
  created_at = format_ts w p.created_at;
  created_by = p.created_by;
  updated_at = format_ts w p.updated_at;
  updated_by = p.updated_by;
}

-- `toAuditViews`
abbrev pub to_audit_views : Display → List AuditRow → List AuditView
to_audit_views w = scan_all λ a. record {
  occurred_at = format_ts w a.occurred_at;
  action = a.action;
  actor_upn = a.actor_upn;
  details = details_text w a.details;
}

-- `toAssociationRows`
abbrev pub to_link_rows : Display → List Association → List LinkRow
to_link_rows w = scan_all λ a. record {
  id = a.id;
  system_id = a.system_id;
  system_name = a.system_name;
  foreign_id = a.foreign_id;
  created_at = format_ts w a.created_at;
  created_by = a.created_by;
}

-- `toSystemOptions`
abbrev pub to_system_options : List System → List SystemOption
to_system_options = scan_all λ s. record { id = s.id; name = s.name }

-- `toSystemRows`
abbrev pub to_system_rows : Display → List System → List SystemLine
to_system_rows w = scan_all λ s. record {
  id = s.id;
  name = s.name;
  created_at = format_ts w s.created_at;
  created_by = s.created_by;
  disabled_at = format_ts w s.disabled_at;
  disabled_by = s.disabled_by;
}

-- `toSystemView`
abbrev pub to_system_view : Display → System → SystemView
to_system_view w s = record {
  id = s.id;
  name = s.name;
  created_at = format_ts w s.created_at;
  created_by = s.created_by;
  updated_at = format_ts w s.updated_at;
  updated_by = s.updated_by;
  disabled = disabled s;
  disabled_at = format_ts w s.disabled_at;
  disabled_by = s.disabled_by;
}

-- `toStewardWebRows`
abbrev pub to_steward_web_rows : Display → List Steward → Text → List StewardWebRow
to_steward_web_rows w ss self_oid =
    scan_all
      (λ (s : Steward). record {
        id = s.id;
        upn = s.user_upn;
        promoted_at = format_ts w s.promoted_at;
        promoted_by = s.promoted_by;
        is_self = text_eq s.user_oid self_oid;
      })
      ss

-- `toPendingWebRows`
abbrev pub to_pending_web_rows : Display → List PendingSteward → List PendingWebRow
to_pending_web_rows w = scan_all λ p. record {
  id = p.id;
  upn = p.user_upn;
  invited_at = format_ts w p.invited_at;
  invited_by = p.invited_by;
}

-- `entityLabelHref`, the label and the address
unfoldable pub entity_label_href : Text → ℕ → Text × Text
entity_label_href entity_type zero = (entity_type, [])
entity_label_href entity_type (suc n) =
    let handle = format (pos (suc n)) in
    let number = decimal (suc n) in
    if text_eq entity_type (codes "person")
    then (codes "person " ++ handle, codes "/persons/" ++ handle)
    else if text_eq entity_type (codes "system")
    then (codes "system " ++ number, codes "/systems/" ++ number)
    else (entity_type ++ codes " " ++ number, [])

abbrev pub to_audit_event_row : Display → AuditEvent → AuditEventRow
to_audit_event_row w e =
    let (label, href) = entity_label_href e.entity_type e.entity_id in
    record {
      occurred_at = format_ts w e.occurred_at;
      actor_upn = e.actor_upn;
      action = e.action;
      entity_label = label;
      entity_href = href;
      details = details_text w e.details;
    }

-- `toAuditEventRows`
abbrev pub to_audit_event_rows : Display → List AuditEvent → List AuditEventRow
to_audit_event_rows w = scan_all (to_audit_event_row w)

-- A parameter of the query string where it is not empty.
abbrev pub given : Text → Text → List (Text × Text) → List (Text × Text)
given key value rest = if not (is_empty value) then (key, value) ∷ rest else rest

abbrev pub filter_values : AuditFilterView → List (Text × Text)
filter_values f =
    given (codes "entity_type") f.entity_type
      (given (codes "actor") f.actor (given (codes "from") f.from (given (codes "to") f.to [])))

abbrev csv_with : Display → List (Text × Text) → Text
csv_with w [] = codes "/api/v1/audit.csv"
csv_with w (v ∷ vs) = codes "/api/v1/audit.csv?" ++ w.encode (v ∷ vs)

-- `auditCSVHref`
unfoldable pub audit_csv_href : Display → AuditFilterView → Text
audit_csv_href w f = csv_with w (filter_values f)
