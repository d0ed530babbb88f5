-- ===== src/Api/Export.antt =====
-- api/export.go: the six reads of the export.
use xensus.Base.{ℕ, suc, ◌≡◌, refl, ap, ◌∙◌, false, List, [], ◌∷◌, Text, codes}
use xensus.Sql.Order.{limit}
use xensus.Store.Schema.{Details, Database}
use xensus.Store.Session.{Session, query_row}
use xensus.Store.Systems.{scan_system}
use xensus.Store.Listings.{
  query_rows, scan_all, list_persons, list_systems, list_disabled_systems, list_active_stewards,
  list_all_associations,
}
use xensus.Store.Stewards.{scan_steward}
use xensus.Store.Audit.{scan_audit_event, list_audit, audit_limit}
use xensus.Api.Records.{
  Record, write_persons_csv, write_systems_export_csv, write_associations_csv, write_stewards_csv,
  write_audit_csv,
}
use xensus.Api.Reads.{Reader, Content, reading, show, shown, zip}
use xensus.Api.Exported.{
  persons_of, active_of, disabled_of, associations_of, stewards_of, events_of,
}
use xensus.Api.AuditLog.{export_registry, everything}
use xensus.Api.Files.{Holds, export_files, export_files-Holds}

-- No call of the driver fails.
abbrev pub Works : Session → Type 0
Works s = (k : ℕ) → s.driver.fails k ≡ false

abbrev ticked : Session → Session
ticked s = record s { tick = suc s.tick }

reading-Works :
    {A : Type 0} (f : Database → A) (next : A → Reader) (s : Session)
    → Works s
    → reading (query_rows f) next s ≡ next (f s.committed) (ticked s)
unfolding query_row
reading-Works f next s works = rw (works s.tick) refl

six_reads :
    {A B C D E F : Type 0} (f : Database → A) (g : Database → B) (h : Database → C)
    (i : Database → D) (j : Database → E) (k : Database → F)
    (make : A → B → C → D → E → F → Content) (s : Session)
    → Works s
    → (reading
        (query_rows f)
        (λ a. reading (query_rows g) (λ b. reading (query_rows h) (λ c. reading (query_rows i) (λ d.
          reading (query_rows j) (λ e. reading (query_rows k) (λ x. show (make a b c d e x)))))))
        s).0
      ≡ shown (
          make
            (f s.committed)
            (g s.committed)
            (h s.committed)
            (i s.committed)
            (j s.committed)
            (k s.committed))
six_reads f g h i j k make s works =
    ap (λ x. x.0)
      (reading-Works f _ s works
        ∙ reading-Works g _ (ticked s) works
        ∙ reading-Works h _ (ticked (ticked s)) works
        ∙ reading-Works i _ (ticked (ticked (ticked s))) works
        ∙ reading-Works j _ (ticked (ticked (ticked (ticked s)))) works
        ∙ reading-Works k _ (ticked (ticked (ticked (ticked (ticked s))))) works)

-- Where no call of the driver fails, the export has a file each for persons, systems, associations,
-- stewards and the audit log, with its heading. Under it stand, column by column, every person by name;
-- the systems that are not disabled by name, and then the disabled ones, latest first; every
-- association with a system of its ID, by person and ID; the stewards who are not removed, by UPN; and
-- the newest 5000 rows of the audit log.
pub export_registry-Holds :
    (marshal : Details → Text) (s : Session)
    → Works s
    → (files : List (Text × List Record)) × ((export_registry marshal s).0 ≡ shown (zip files))
      × Holds marshal s.committed files
unfolding query_row list_persons list_systems list_disabled_systems list_all_associations
    list_active_stewards list_audit
export_registry-Holds marshal s works =
    let d = s.committed in
    (
      export_files marshal d,
      six_reads persons_of (λ d. scan_all scan_system (active_of d))
          (λ d. scan_all scan_system (disabled_of d)) associations_of
          (λ d. scan_all scan_steward (stewards_of d))
          (λ d. scan_all scan_audit_event (limit (audit_limit everything.limit) (events_of d)))
          (λ ps active disabled assocs ss es. zip (
            (codes "persons.csv", write_persons_csv ps)
            ∷ (codes "systems.csv", write_systems_export_csv active disabled)
            ∷ (codes "associations.csv", write_associations_csv assocs)
            ∷ (codes "stewards.csv", write_stewards_csv ss)
            ∷ (codes "audit.csv", write_audit_csv marshal es)
            ∷ []))
          s works,
      export_files-Holds marshal d,
    )
