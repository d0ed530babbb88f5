-- ===== src/Web/Pages.antt =====
-- web/persons.go, web/systems.go, web/stewards.go and web/audit.go: the pages that show.
use xensus.Base.{
  pos, Bool, false, ◌&&◌, leb, Option, none, some, List, [], ◌∷◌, Text, codes, length, trim_space,
  is_empty, if◌then◌else◌,
}
use xensus.Store.Session.{Session, Action, Result, ok, err, no_rows, db}
use xensus.Store.Persons.{get_person}
use xensus.Store.Systems.{get_system}
use xensus.Store.Listings.{
  scan_all, list_persons, list_systems, list_disabled_systems, count_disabled_systems,
  list_active_stewards, list_pending_stewards, list_associations_for_person, is_registry_empty,
}
use xensus.Store.Audit.{
  list_audit_for_entity, AuditQuery, AuditEvent, list_audit, list_audit_actors, default_audit_limit,
}
use xensus.Config.{Access}
use xensus.Id.{parse}
use xensus.Auth.{User}
use xensus.Api.Systems.{parse_row_id}
use xensus.Web.Page.{Page, PageHandler, missing, internal, with_person, with_row}
use xensus.Web.Landing.{is_steward}
use xensus.Web.Views.{
  base, AuditFilterView, View, persons_list, person_detail, systems_list, system_detail,
  disabled_systems, stewards, audit,
}
use xensus.Web.Rows.{
  Display, person_title, to_person_row, to_person_view, to_audit_views, to_link_rows,
  to_system_options, to_system_rows, to_system_view, to_steward_web_rows, to_pending_web_rows,
  to_audit_event_rows, audit_csv_href,
}

-- A read with its 500, and what follows.
abbrev pub after : {A : Type 0} → (A → PageHandler) → Result A × Session → Page × Session
after next (ok a, s) = next a s
after next (err e, s) = (internal, s)

abbrev pub reading : {A : Type 0} → Action A → (A → PageHandler) → PageHandler
reading action next s = after next (action s)

-- The same behind a check for `sql.ErrNoRows`.
abbrev pub after_row : {A : Type 0} → (A → PageHandler) → Result A × Session → Page × Session
after_row next (ok a, s) = next a s
after_row next (err no_rows, s) = (missing, s)
after_row next (err e, s) = (internal, s)

abbrev pub reading_row : {A : Type 0} → Action A → (A → PageHandler) → PageHandler
reading_row action next s = after_row next (action s)

abbrev pub showing : Display → View → PageHandler
showing w view s = (w.show view, s)

-- Whether the registry is empty, looked up where the panel for it may be shown.
abbrev pub welcome : Option User → Text → (Bool → PageHandler) → PageHandler
welcome user q next =
    if is_steward user && is_empty q then reading is_registry_empty next else next false

-- `ListPersons`
abbrev pub show_persons : Display → Access → Text → Option User → PageHandler
show_persons w access q user = reading (list_persons q) λ ps. welcome user q λ show_welcome.
    showing w (
      persons_list (record {
        base = base access user (codes "Persons");
        query = q;
        persons = scan_all to_person_row ps;
        show_welcome = show_welcome;
      }))

-- `PersonDetail`
abbrev pub show_person : Display → Access → Text → Option User → PageHandler
show_person w access path user = with_person (parse path) λ pid.
    reading_row (get_person db pid) λ p. reading (list_associations_for_person pid) λ links.
      reading (list_systems []) λ systems.
        reading (list_audit_for_entity (codes "person") pid) λ rows. showing w (
          person_detail (record {
            base = base access user (person_title p);
            person = to_person_view w p;
            associations = to_link_rows w links;
            systems = to_system_options systems;
            audit = to_audit_views w rows;
          }))

-- `ListSystems`
abbrev pub show_systems : Display → Access → Text → Option User → PageHandler
show_systems w access q user = reading (list_systems q) λ systems.
    reading count_disabled_systems λ disabled_count. showing w (
      systems_list (record {
        base = base access user (codes "Systems");
        query = q;
        systems = to_system_rows w systems;
        disabled_count = disabled_count;
      }))

-- `ListDisabledSystems`
abbrev pub show_disabled_systems : Display → Access → Option User → PageHandler
show_disabled_systems w access user = reading list_disabled_systems λ systems. showing w (
    disabled_systems (record {
      base = base access user (codes "Disabled systems");
      systems = to_system_rows w systems;
    }))

-- `SystemDetail`
abbrev pub show_system : Display → Access → Text → Option User → PageHandler
show_system w access path user = with_row (parse_row_id path) λ sid.
    reading_row (get_system db sid) λ y.
      reading (list_audit_for_entity (codes "system") sid) λ rows. showing w (
        system_detail (record {
          base = base access user y.name;
          system = to_system_view w y;
          audit = to_audit_views w rows;
        }))

abbrev pub self_oid : Option User → Text
self_oid none = []
self_oid (some u) = u.oid

-- `Stewards`
abbrev pub show_stewards : Display → Access → Option User → PageHandler
show_stewards w access user = reading list_active_stewards λ ss.
    reading list_pending_stewards λ pending. showing w (
      stewards (record {
        base = base access user (codes "Stewards");
        stewards = to_steward_web_rows w ss (self_oid user);
        pending = to_pending_web_rows w pending;
      }))

-- The parameters of the page's query string, empty where they are missing.
pub record Filter : Type 0 where
  pub entity_type : Text
  pub actor : Text
  pub from : Text
  pub to : Text

-- `auditEntityTypes`
abbrev pub audit_entity_types : List Text
audit_entity_types =
    codes "person" ∷ codes "system" ∷ codes "association" ∷ codes "steward" ∷ codes "tenant" ∷ []

abbrev pub filter_view : Filter → List Text → AuditFilterView
filter_view q actors = record {
  entity_type = trim_space q.entity_type;
  actor = trim_space q.actor;
  from = trim_space q.from;
  to = trim_space q.to;
  entity_types = audit_entity_types;
  actors = actors;
}

-- The query that the filter stands for.
abbrev pub page_query : AuditFilterView → AuditQuery
page_query f = record {
  entity_type = f.entity_type;
  entity_id = pos 0;
  actor = f.actor;
  from = f.from;
  to = f.to;
  limit = pos default_audit_limit;
}

abbrev pub audit_page : Display → Access → Option User → AuditFilterView → List AuditEvent → View
audit_page w access user f events = audit (record {
  base = base access user (codes "Audit log");
  filter = f;
  events = to_audit_event_rows w events;
  csv_href = audit_csv_href w f;
  limited = leb default_audit_limit (length events);
})

-- `Audit`
abbrev pub show_audit : Display → Access → Filter → Option User → PageHandler
show_audit w access q user = reading (list_audit (page_query (filter_view q []))) λ events.
    reading list_audit_actors
      λ actors. showing w (audit_page w access user (filter_view q actors) events)
