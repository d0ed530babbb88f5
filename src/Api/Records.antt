-- ===== src/Api/Records.antt =====
-- api/export.go: the records that the exports hand to encoding/csv. The JSON text of details is what
-- encoding/json, a parameter, makes of them.
use xensus.Base.{
  pos, ltb, Option, none, some, List, [], ◌∷◌, ◌++◌, Text, codes, decimal, if◌then◌else◌,
}
use xensus.Id.{format}
use xensus.Store.Schema.{Person, Details}
use xensus.Store.Systems.{System}
use xensus.Store.Associations.{Association}
use xensus.Store.Stewards.{Steward}
use xensus.Store.Listings.{scan_all}
use xensus.Store.Audit.{AuditEvent}

abbrev pub Record : Type 0
Record = List Text

abbrev pub person_record : Person → Record
person_record p =
    format (pos p.id) ∷ p.name ∷ p.created_at ∷ p.created_by ∷ p.updated_at ∷ p.updated_by ∷ []

-- `writePersonsCSV`
unfoldable pub write_persons_csv : List Person → List Record
write_persons_csv persons =
    (codes "id"
      ∷ codes "name"
      ∷ codes "created_at"
      ∷ codes "created_by"
      ∷ codes "updated_at"
      ∷ codes "updated_by"
      ∷ [])
    ∷ scan_all person_record persons

-- The columns that both lists of systems have.
abbrev pub system_record : System → Record
system_record s =
    decimal s.id ∷ s.name ∷ s.created_at ∷ s.created_by ∷ s.updated_at ∷ s.updated_by ∷ []

-- The records of `ExportSystemsCSV`
unfoldable pub write_systems_csv : List System → List Record
write_systems_csv systems =
    (codes "id"
      ∷ codes "name"
      ∷ codes "created_at"
      ∷ codes "created_by"
      ∷ codes "updated_at"
      ∷ codes "updated_by"
      ∷ [])
    ∷ scan_all system_record systems

abbrev pub full_system_record : System → Record
full_system_record s = system_record s ++ (s.disabled_at ∷ s.disabled_by ∷ [])

-- `writeSystemsExportCSV`
unfoldable pub write_systems_export_csv : List System → List System → List Record
write_systems_export_csv active disabled =
    (codes "id"
      ∷ codes "name"
      ∷ codes "created_at"
      ∷ codes "created_by"
      ∷ codes "updated_at"
      ∷ codes "updated_by"
      ∷ codes "disabled_at"
      ∷ codes "disabled_by"
      ∷ [])
    ∷ (scan_all full_system_record active ++ scan_all full_system_record disabled)

abbrev pub association_record : Association → Record
association_record a =
    decimal a.id
    ∷ format (pos a.person_id)
    ∷ decimal a.system_id
    ∷ a.system_name
    ∷ a.foreign_id
    ∷ a.created_at
    ∷ a.created_by
    ∷ []

-- `writeAssociationsCSV`
unfoldable pub write_associations_csv : List Association → List Record
write_associations_csv assocs =
    (codes "id"
      ∷ codes "person_id"
      ∷ codes "system_id"
      ∷ codes "system"
      ∷ codes "foreign_id"
      ∷ codes "created_at"
      ∷ codes "created_by"
      ∷ [])
    ∷ scan_all association_record assocs

abbrev pub steward_record : Steward → Record
steward_record s = decimal s.id ∷ s.user_oid ∷ s.user_upn ∷ s.promoted_at ∷ s.promoted_by ∷ []

-- `writeStewardsCSV`
unfoldable pub write_stewards_csv : List Steward → List Record
write_stewards_csv stewards =
    (codes "id" ∷ codes "oid" ∷ codes "upn" ∷ codes "promoted_at" ∷ codes "promoted_by" ∷ [])
    ∷ scan_all steward_record stewards

abbrev pub details_text : (Details → Text) → Option Details → Text
details_text marshal none = []
details_text marshal (some d) = marshal d

abbrev pub event_record : (Details → Text) → AuditEvent → Record
event_record marshal e =
    decimal e.id
    ∷ e.occurred_at
    ∷ e.actor_oid
    ∷ e.actor_upn
    ∷ e.action
    ∷ e.entity_type
    ∷ (if ltb 0 e.entity_id then decimal e.entity_id else [])
    ∷ details_text marshal e.details
    ∷ []

-- `writeAuditCSV`
unfoldable pub write_audit_csv : (Details → Text) → List AuditEvent → List Record
write_audit_csv marshal events =
    (codes "id"
      ∷ codes "occurred_at"
      ∷ codes "actor_oid"
      ∷ codes "actor_upn"
      ∷ codes "action"
      ∷ codes "entity_type"
      ∷ codes "entity_id"
      ∷ codes "details"
      ∷ [])
    ∷ scan_all (event_record marshal) events
