-- ===== src/Web/Twins.antt =====
-- web/*.go and api/*.go: the pages beside the answers of the API that read the same.
use xensus.Base.{◌≤◌, ◌≡◌, not, ◌⊎◌, [], Text, is_empty, text_eq}
use xensus.Store.Listings.{scan_all}
use xensus.Api.Response.{PersonDto, SystemDto, AssociationDto, PendingStewardDto}
use xensus.Api.Reads.{
  StewardDto, AuditEventDto, Answer, Content, shown, persons, person, systems, system, associations,
  events,
}
use xensus.Api.Reads
use xensus.Api.AuditLog.{Params}
use xensus.Api.Gates.{Read}
use xensus.Api.Gates
use xensus.Web.Page.{Page, missing}
use xensus.Web.Views.{
  PersonRow, PersonView, LinkRow, SystemLine, SystemView, StewardWebRow, PendingWebRow,
  AuditEventRow, View, persons_list, person_detail, systems_list, system_detail, disabled_systems,
  audit,
}
use xensus.Web.Views
use xensus.Web.Rows.{Display, format_ts, details_text, entity_label_href}
use xensus.Web.Pages.{Filter}
use xensus.Web.Visits.{PageRead}
use xensus.Web.Visits

-- The query string of the API for the filter of the page.
abbrev pub as_params : Filter → Params
as_params q = record {
  entity_type = q.entity_type;
  entity_id = [];
  actor = q.actor;
  from = q.from;
  to = q.to;
  limit = [];
}

-- The routes of the API that read what a page shows.
pub data Twins : PageRead → Read → Type 0 where
  persons_twins : (q : Text) → Twins (Visits.get_persons q) (Gates.get_persons q)
  person_twins : (path : Text) → Twins (Visits.get_person path) (Gates.get_person path)
  links_twins : (path : Text) → Twins (Visits.get_person path) (Gates.get_person_associations path)
  systems_twins : (q : Text) → Twins (Visits.get_systems q) (Gates.get_systems q)
  disabled_twins : Twins Visits.get_disabled_systems Gates.get_systems_disabled
  system_twins : (path : Text) → Twins (Visits.get_system path) (Gates.get_system path)
  stewards_twins : Twins Visits.get_stewards Gates.get_stewards
  audit_twins : (q : Filter) → Twins (Visits.get_audit q) (Gates.get_audit (as_params q))

abbrev row_of_person : PersonDto → PersonRow
row_of_person p = record { id = p.id; name = p.name }

abbrev view_of_person : Display → PersonDto → PersonView
view_of_person w p = record {
  id = p.id;
  name = p.name;
  created_at = format_ts w p.created_at;
  created_by = p.created_by;
  updated_at = format_ts w p.updated_at;
  updated_by = p.updated_by;
}

abbrev row_of_link : Display → AssociationDto → LinkRow
row_of_link w a = record {
  id = a.id;
  system_id = a.system_id;
  system_name = a.system;
  foreign_id = a.foreign_id;
  created_at = format_ts w a.created_at;
  created_by = a.created_by;
}

abbrev row_of_system : Display → SystemDto → SystemLine
row_of_system w s = record {
  id = s.id;
  name = s.name;
  created_at = format_ts w s.created_at;
  created_by = s.created_by;
  disabled_at = format_ts w s.disabled_at;
  disabled_by = s.disabled_by;
}

abbrev view_of_system : Display → SystemDto → SystemView
view_of_system w s = record {
  id = s.id;
  name = s.name;
  created_at = format_ts w s.created_at;
  created_by = s.created_by;
  updated_at = format_ts w s.updated_at;
  updated_by = s.updated_by;
  disabled = not (is_empty s.disabled_at);
  disabled_at = format_ts w s.disabled_at;
  disabled_by = s.disabled_by;
}

abbrev row_of_steward : Display → Text → StewardDto → StewardWebRow
row_of_steward w oid s = record {
  id = s.id;
  upn = s.upn;
  promoted_at = format_ts w s.promoted_at;
  promoted_by = s.promoted_by;
  is_self = text_eq s.oid oid;
}

abbrev row_of_invitation : Display → PendingStewardDto → PendingWebRow
row_of_invitation w p = record {
  id = p.id;
  upn = p.upn;
  invited_at = format_ts w p.invited_at;
  invited_by = p.invited_by;
}

abbrev row_of_event : Display → AuditEventDto → AuditEventRow
row_of_event w e =
    let (label, href) = entity_label_href e.entity_type e.entity_id in
    record {
      occurred_at = format_ts w e.occurred_at;
      actor_upn = e.actor_upn;
      action = e.action;
      entity_label = label;
      entity_href = href;
      details = details_text w e.details;
    }

-- A page shows what the API answers, row by row and in the same order, to the visitor `oid`.
abbrev pub Pictures : Display → Text → Content → View → Type 0
Pictures w oid (persons ps) (persons_list v) = v.persons ≡ scan_all row_of_person ps
Pictures w oid (person p) (person_detail v) = v.person ≡ view_of_person w p
Pictures w oid (associations links) (person_detail v) =
    v.associations ≡ scan_all (row_of_link w) links
Pictures w oid (systems ss) (systems_list v) = v.systems ≡ scan_all (row_of_system w) ss
Pictures w oid (systems ss) (disabled_systems v) = v.systems ≡ scan_all (row_of_system w) ss
Pictures w oid (system y) (system_detail v) = v.system ≡ view_of_system w y
Pictures w oid (Reads.stewards ss ps) (Views.stewards v) =
    (v.stewards ≡ scan_all (row_of_steward w oid) ss)
    × (v.pending ≡ scan_all (row_of_invitation w) ps)
Pictures w oid (events es) (audit v) = v.events ≡ scan_all (row_of_event w) es
Pictures _ _ _ _ = ⊥

-- The API refuses and the page is missing, or both show the same.
abbrev pub Match : Display → Text → Answer → Page → Type 0
Match w oid answer page =
    ((400 ≤ answer.status) × (page ≡ missing))
    ⊎ ((c : Content) × (v : View) × (answer ≡ shown c) × (page ≡ w.show v) × Pictures w oid c v)
