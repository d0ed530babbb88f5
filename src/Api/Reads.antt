-- ===== src/Api/Reads.antt =====
-- api/*.go: the handlers that read. encoding/csv and archive/zip only write what is given to them; an
-- answer keeps the records, and a failure to write them is not in the model.
use xensus.Base.{ℕ, Option, none, some, List, Text, codes}
use xensus.Store.Schema.{Details}
use xensus.Store.Session.{Session, Action, Result, ok, err, no_rows, db}
use xensus.Store.Systems.{get_system}
use xensus.Store.Persons.{get_person}
use xensus.Store.Stewards.{Steward}
use xensus.Store.Listings.{
  scan_all, list_persons, list_systems, list_disabled_systems, list_active_stewards,
  list_pending_stewards, list_associations_for_person,
}
use xensus.Store.Audit.{AuditEvent}
use xensus.Id.{parse, Parsed, id, invalid}
use xensus.Auth.{User}
use xensus.Api.Response.{
  PersonDto, SystemDto, AssociationDto, PendingStewardDto, Body, Response, plain, write_error,
  write_json, http_error, invalid_person_id, invalid_id,
}
use xensus.Api.Persons.{to_person_dto}
use xensus.Api.Systems.{to_system_dto, parse_row_id}
use xensus.Api.Associations.{to_association_dto}
use xensus.Api.Stewards.{to_pending_steward_dto}
use xensus.Api.Records.{Record, write_persons_csv, write_systems_csv}

-- `stewardDTO`
pub record StewardDto : Type 0 where
  pub id : ℕ
  pub oid : Text
  pub upn : Text
  pub promoted_at : Text
  pub promoted_by : Text

-- `toStewardDTO`
abbrev pub to_steward_dto : Steward → StewardDto
to_steward_dto s = record {
  id = s.id;
  oid = s.user_oid;
  upn = s.user_upn;
  promoted_at = s.promoted_at;
  promoted_by = s.promoted_by;
}

-- `auditEventDTO`: an `entity_id` of 0 and missing details are left out of the JSON.
pub record AuditEventDto : Type 0 where
  pub id : ℕ
  pub occurred_at : Text
  pub actor_oid : Text
  pub actor_upn : Text
  pub action : Text
  pub entity_type : Text
  pub entity_id : ℕ
  pub details : Option Details

-- `toAuditEventDTO`
abbrev pub to_audit_event_dto : AuditEvent → AuditEventDto
to_audit_event_dto e = record {
  id = e.id;
  occurred_at = e.occurred_at;
  actor_oid = e.actor_oid;
  actor_upn = e.actor_upn;
  action = e.action;
  entity_type = e.entity_type;
  entity_id = e.entity_id;
  details = e.details;
}

-- What an answer shows: an object of the registry or a list, records of a CSV file, the files of a zip
-- archive, or, for an error, its body.
pub data Content : Type 0 where
  me : User → Content
  persons : List PersonDto → Content
  person : PersonDto → Content
  systems : List SystemDto → Content
  system : SystemDto → Content
  associations : List AssociationDto → Content
  stewards : List StewardDto → List PendingStewardDto → Content
  events : List AuditEventDto → Content
  csv : List Record → Content
  zip : List (Text × List Record) → Content
  problem : Body → Content

pub record Answer : Type 0 where
  pub status : ℕ
  pub content : Content

abbrev pub Reader : Type 0
Reader = Session → Answer × Session

abbrev pub shown : Content → Answer
shown content = record { status = 200; content = content }

abbrev pub refused : Response → Answer
refused r = record { status = r.status; content = problem r.body }

-- A read, its `httpError`, and what follows.
abbrev pub after : {A : Type 0} → (A → Reader) → Result A × Session → Answer × Session
after next (ok a, s) = next a s
after next (err e, s) = (refused (http_error e), s)

abbrev pub show : Content → Reader
show content s = (shown content, s)

abbrev pub reading : {A : Type 0} → Action A → (A → Reader) → Reader
reading action next s = after next (action s)

-- The same behind a check for `sql.ErrNoRows`.
abbrev pub after_row : {A : Type 0} → (A → Reader) → Result A × Session → Answer × Session
after_row next (ok a, s) = next a s
after_row next (err no_rows, s) = (refused (write_error 404 (codes "not found")), s)
after_row next (err e, s) = (refused (http_error e), s)

abbrev pub reading_row : {A : Type 0} → Action A → (A → Reader) → Reader
reading_row action next s = after_row next (action s)

abbrev pub parsed_person : Text → Parsed → (ℕ → Reader) → Reader
parsed_person path (id n) next s = next n s
parsed_person path (invalid e) next s = (refused (write_json 400 (invalid_person_id e path)), s)

abbrev pub parsed_row : Text → Option ℕ → (ℕ → Reader) → Reader
parsed_row path (some n) next s = next n s
parsed_row path none next s = (refused (write_json 400 (invalid_id path)), s)

-- `Me`
abbrev pub show_me : Option User → Reader
show_me none s = (refused (plain 401 (codes "unauthorized")), s)
show_me (some u) s = show (me u) s

-- `ListPersons`
abbrev pub list_all_persons : Text → Reader
list_all_persons q = reading (list_persons q) λ ps. show (persons (scan_all to_person_dto ps))

-- `GetPerson`
abbrev pub show_person : Text → Reader
show_person path =
    parsed_person path (parse path)
      λ pid. reading_row (get_person db pid) λ p. show (person (to_person_dto p))

-- `ExportCSV`
abbrev pub export_csv : Text → Reader
export_csv q = reading (list_persons q) λ ps. show (csv (write_persons_csv ps))

-- `ListAssociations`
abbrev pub list_associations : Text → Reader
list_associations path = parsed_person path (parse path) λ pid. reading_row (get_person db pid) λ _.
    reading (list_associations_for_person pid)
      λ links. show (associations (scan_all to_association_dto links))

-- `ListSystems`
abbrev pub list_active_systems : Text → Reader
list_active_systems q = reading (list_systems q) λ ss. show (systems (scan_all to_system_dto ss))

-- `ExportSystemsCSV`
abbrev pub export_systems_csv : Text → Reader
export_systems_csv q = reading (list_systems q) λ ss. show (csv (write_systems_csv ss))

-- `ListDisabledSystems`
abbrev pub list_disabled : Reader
list_disabled = reading list_disabled_systems λ ss. show (systems (scan_all to_system_dto ss))

-- `GetSystem`
abbrev pub show_system : Text → Reader
show_system path =
    parsed_row path (parse_row_id path)
      λ sid. reading_row (get_system db sid) λ y. show (system (to_system_dto y))

-- `ListStewards`
abbrev pub list_stewards : Reader
list_stewards = reading list_active_stewards λ ss.
    reading list_pending_stewards
      λ ps. show (stewards (scan_all to_steward_dto ss) (scan_all to_pending_steward_dto ps))
