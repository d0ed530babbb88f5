-- ===== src/Core/Associations.antt =====
-- core/associations.go.
use xensus.Base.{ℕ, not, some, [], ◌∷◌, ◌==◌, Text, codes, is_empty, trim_space, if◌then◌else◌}
use xensus.Store.Schema.{text, number}
use xensus.Store.Session.{
  Action, tx, missing_argument, not_found, ◌>>=◌, ◌>>◌, raise, pure, begin_tx, commit, or_rollback,
  no_rows_as,
}
use xensus.Store.Persons.{get_person}
use xensus.Store.Systems.{get_system}
use xensus.Store.Associations.{Association, insert_association, get_association, delete_association}
use xensus.Core.Audit.{Actor, AuditEntry, write_audit}

-- The audit entry, which is filed against the person.
abbrev pub association_entry : Actor → Text → ℕ → ℕ → ℕ → Text → Text → AuditEntry
association_entry actor action person_id id system_id system foreign_id = record {
  actor = actor;
  action = action;
  entity_type = codes "person";
  entity_id = person_id;
  details = some (
      (codes "association_id", number id)
      ∷ (codes "system_id", number system_id)
      ∷ (codes "system", text system)
      ∷ (codes "foreign_id", text foreign_id)
      ∷ []);
}

-- `CreateAssociation`
unfoldable pub create_association : Actor → ℕ → ℕ → Text → Action Association
create_association actor person_id system_id raw =
    let foreign_id = trim_space raw in
    if is_empty actor.oid then raise missing_argument else do
      begin_tx
      or_rollback do
        no_rows_as not_found (get_person tx person_id)
        system ← no_rows_as not_found (get_system tx system_id)
        id ← insert_association person_id system_id foreign_id actor.upn
        write_audit (
            association_entry actor (codes "association.create") person_id id system_id system.name
              foreign_id)
        a ← get_association tx id
        commit
        pure a

-- `RemoveAssociation` once the transaction is open and the association read
abbrev remove_association_body : Actor → ℕ → ℕ → Association → Action (Unit {0})
remove_association_body actor person_id assoc_id current =
    if not (current.person_id == person_id) then raise not_found else do
      delete_association assoc_id
      write_audit (
          association_entry actor (codes "association.remove") person_id assoc_id current.system_id
            current.system_name current.foreign_id)
      commit
      pure tt

-- `RemoveAssociation`
unfoldable pub remove_association : Actor → ℕ → ℕ → Action (Unit {0})
remove_association actor person_id assoc_id =
    if is_empty actor.oid then raise missing_argument else do
      begin_tx
      or_rollback do
        current ← no_rows_as not_found (get_association tx assoc_id)
        remove_association_body actor person_id assoc_id current
