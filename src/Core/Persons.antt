-- ===== src/Core/Persons.antt =====
-- core/persons.go.
use xensus.Base.{ℕ, some, [], ◌∷◌, Text, codes, is_empty, text_eq, trim_space, if◌then◌else◌}
use xensus.Store.Schema.{Person, text}
use xensus.Store.Session.{
  Action, tx, missing_argument, not_found, ◌>>=◌, ◌>>◌, raise, pure, begin_tx, commit, rollback,
  or_rollback, no_rows_as,
}
use xensus.Store.Persons.{insert_person, update_person_name, get_person}
use xensus.Core.Audit.{Actor, AuditEntry, write_audit}

abbrev pub create_entry : Actor → ℕ → Text → AuditEntry
create_entry actor id name = record {
  actor = actor;
  action = codes "person.create";
  entity_type = codes "person";
  entity_id = id;
  details = some ((codes "name", text name) ∷ []);
}

abbrev pub rename_entry : Actor → ℕ → Text → Text → AuditEntry
rename_entry actor id from to = record {
  actor = actor;
  action = codes "person.rename";
  entity_type = codes "person";
  entity_id = id;
  details = some ((codes "from", text from) ∷ (codes "to", text to) ∷ []);
}

-- `CreatePerson`
unfoldable pub create_person : Actor → Text → Action Person
create_person actor raw =
    let name = trim_space raw in
    if is_empty actor.oid then raise missing_argument else do
      begin_tx
      or_rollback do
        id ← insert_person name actor.upn
        write_audit (create_entry actor id name)
        p ← get_person tx id
        commit
        pure p

-- `RenamePerson` once the transaction is open and the person read
abbrev rename_person_body : Actor → ℕ → Text → Person → Action Person
rename_person_body actor id name current =
    if text_eq current.name name then (do rollback; pure current) else do
      update_person_name id name actor.upn
      write_audit (rename_entry actor id current.name name)
      p ← get_person tx id
      commit
      pure p

-- `RenamePerson`
unfoldable pub rename_person : Actor → ℕ → Text → Action Person
rename_person actor id raw =
    let name = trim_space raw in
    if is_empty actor.oid then raise missing_argument else do
      begin_tx
      or_rollback do
        current ← no_rows_as not_found (get_person tx id)
        rename_person_body actor id name current
