-- ===== src/Api/Files.antt =====
-- api/export.go: the files that the export is made of.
use xensus.Base.{
  Bool, map, ap, arith, ℕ, zero, suc, ◌≡◌, refl, true, not, Option, none, some, if◌then◌else◌, ltb,
  decimal, List, [], ◌∷◌, ◌++◌, Text, codes,
}
use xensus.Sql.{count_where}
use xensus.Sql.Order.{limit, IsSorted}
use xensus.Sql.Selected.{IsListing}
use xensus.Store.Schema.{Person, SystemRow, StewardRow, AuditLogRow, Details, Database}
use xensus.Store.Systems.{scan_system, is_null}
use xensus.Store.Associations.{Association}
use xensus.Store.Listings.{by_name, latest_disabled, person_then_id, scan_all}
use xensus.Store.Stewards.{scan_steward}
use xensus.Store.Audit.{scan_audit_event, null_int64, newest_first, audit_limit}
use xensus.Api.Records.{
  Record, person_record, association_record, details_text, full_system_record, steward_record,
  event_record, write_persons_csv, write_systems_export_csv, write_associations_csv,
  write_stewards_csv, write_audit_csv,
}
use xensus.Api.Linked.{count_links}
use xensus.Api.Exported.{
  person_columns, system_columns, association_columns, steward_columns, event_columns, id_column,
  details_column, persons_of, active_of, disabled_of, associations_of, stewards_of, events_of,
  persons_of-IsListing, active_of-IsListing, disabled_of-IsListing, associations_of-IsSorted,
  count_where-associations_of, stewards_of-IsListing, events_of-IsListing,
}
use xensus.Api.AuditLog.{everything}

-- The files of an export: under each heading, the columns of the rows of a table in their order.
pub record Holds (marshal : Details → Text) (d : Database) (files : List (Text × List Record))
    : Type 0 where
  pub persons : List Person
  pub active : List SystemRow
  pub disabled : List SystemRow
  pub associations : List Association
  pub stewards : List StewardRow
  pub events : List AuditLogRow
  pub every_person :
      IsListing (λ _. true) (by_name (λ (p : Person). p.name) (λ p. p.id)) d.persons.rows persons
  pub every_active :
      IsListing
        (λ r. is_null r.disabled_at)
        (by_name (λ (r : SystemRow). r.name) (λ r. r.id))
        d.systems.rows
        active
  pub every_disabled :
      IsListing (λ r. not (is_null r.disabled_at)) latest_disabled d.systems.rows disabled
  pub sorted_associations : IsSorted person_then_id associations
  pub every_association :
      (test : Association → Bool)
      → count_where test associations ≡ count_links test d.associations.rows d.systems.rows
  pub every_steward :
      IsListing
        (λ r. is_null r.removed_at)
        (by_name (λ (r : StewardRow). r.user_upn) (λ r. r.id))
        d.stewards.rows
        stewards
  pub every_event : IsListing (λ _. true) newest_first d.audit_log.rows events
  pub written :
      files
      ≡ (
        codes "persons.csv",
        (codes "id"
              ∷ codes "name"
              ∷ codes "created_at"
              ∷ codes "created_by"
              ∷ codes "updated_at"
              ∷ codes "updated_by"
              ∷ [])
            ∷ map person_columns persons,
      )
        ∷ (
          codes "systems.csv",
          (codes "id"
                ∷ codes "name"
                ∷ codes "created_at"
                ∷ codes "created_by"
                ∷ codes "updated_at"
                ∷ codes "updated_by"
                ∷ codes "disabled_at"
                ∷ codes "disabled_by"
                ∷ [])
              ∷ (map system_columns active ++ map system_columns disabled),
        )
        ∷ (
          codes "associations.csv",
          (codes "id"
                ∷ codes "person_id"
                ∷ codes "system_id"
                ∷ codes "system"
                ∷ codes "foreign_id"
                ∷ codes "created_at"
                ∷ codes "created_by"
                ∷ [])
              ∷ map association_columns associations,
        )
        ∷ (
          codes "stewards.csv",
          (codes "id" ∷ codes "oid" ∷ codes "upn" ∷ codes "promoted_at" ∷ codes "promoted_by" ∷ [])
              ∷ map steward_columns stewards,
        )
        ∷ (
          codes "audit.csv",
          (codes "id"
                ∷ codes "occurred_at"
                ∷ codes "actor_oid"
                ∷ codes "actor_upn"
                ∷ codes "action"
                ∷ codes "entity_type"
                ∷ codes "entity_id"
                ∷ codes "details"
                ∷ [])
              ∷ map (event_columns marshal) (limit 5000 events),
        )
        ∷ []

scan_all-as_map : {A B : Type 0} (f : A → B) (xs : List A) → scan_all f xs ≡ map f xs
unfolding scan_all
scan_all-as_map f [] = refl
scan_all-as_map f (x ∷ xs) = ap (f x ∷◌) (scan_all-as_map f xs)

scan_all-map :
    {A B C : Type 0} (f : B → C) (g : A → B) (h : A → C) (xs : List A)
    → ((x : A) → f (g x) ≡ h x)
    → scan_all f (scan_all g xs) ≡ map h xs
unfolding scan_all
scan_all-map f g h [] same = refl
scan_all-map f g h (x ∷ xs) same = rw (same x, scan_all-map f g h xs same) refl

same_details :
    (marshal : Details → Text) (o : Option Details)
    → details_text marshal o ≡ details_column marshal o
same_details marshal none = refl
same_details marshal (some d) = refl

same_id :
    (o : Option ℕ) → (if ltb 0 (null_int64 o) then decimal (null_int64 o) else []) ≡ id_column o
same_id none = refl
same_id (some zero) = refl
same_id (some (suc n)) = let positive : ltb 0 (suc n) ≡ true = ground arith in rw positive refl

same_event :
    (marshal : Details → Text) (r : AuditLogRow)
    → event_record marshal (scan_audit_event r) ≡ event_columns marshal r
same_event marshal r = rw (same_id r.entity_id, same_details marshal r.details) refl

systems_written :
    (active disabled : List SystemRow)
    → scan_all full_system_record (scan_all scan_system active)
        ++ scan_all full_system_record (scan_all scan_system disabled)
      ≡ map system_columns active ++ map system_columns disabled
systems_written active disabled =
    rw
      (
        scan_all-map full_system_record scan_system system_columns active (λ _. refl),
        scan_all-map full_system_record scan_system system_columns disabled (λ _. refl),
      )
      refl

abbrev pub export_files : (Details → Text) → Database → List (Text × List Record)
export_files marshal d =
    (codes "persons.csv", write_persons_csv (persons_of d))
    ∷ (
      codes "systems.csv",
      write_systems_export_csv (scan_all scan_system (active_of d))
          (scan_all scan_system (disabled_of d)),
    )
    ∷ (codes "associations.csv", write_associations_csv (associations_of d))
    ∷ (codes "stewards.csv", write_stewards_csv (scan_all scan_steward (stewards_of d)))
    ∷ (
      codes "audit.csv",
      write_audit_csv marshal
          (scan_all scan_audit_event (limit (audit_limit everything.limit) (events_of d))),
    )
    ∷ []

pub export_files-Holds :
    (marshal : Details → Text) (d : Database) → Holds marshal d (export_files marshal d)
unfolding write_persons_csv write_systems_export_csv write_associations_csv write_stewards_csv
    write_audit_csv audit_limit
export_files-Holds marshal d = record {
  persons = persons_of d;
  active = active_of d;
  disabled = disabled_of d;
  associations = associations_of d;
  stewards = stewards_of d;
  events = events_of d;
  every_person = persons_of-IsListing d;
  every_active = active_of-IsListing d;
  every_disabled = disabled_of-IsListing d;
  sorted_associations = associations_of-IsSorted d;
  every_association = count_where-associations_of d;
  every_steward = stewards_of-IsListing d;
  every_event = events_of-IsListing d;
  written =
      rw
        (
          scan_all-as_map person_record (persons_of d),
          scan_all-as_map association_record (associations_of d),
          systems_written (active_of d) (disabled_of d),
          scan_all-map steward_record scan_steward steward_columns (stewards_of d) (λ _. refl),
          scan_all-map (event_record marshal) scan_audit_event (event_columns marshal)
              (limit 5000 (events_of d)) (same_event marshal),
        )
        refl;
}
