-- ===== src/Core/Systems.antt =====
-- core/systems.go.
use xensus.Base.{ℕ, not, some, [], ◌∷◌, Text, codes, is_empty, text_eq, trim_space, if◌then◌else◌}
use xensus.Store.Schema.{text}
use xensus.Store.Session.{
  Action, tx, missing_argument, not_found, name_required, ◌>>=◌, ◌>>◌, raise, pure, begin_tx,
  commit, rollback, or_rollback, no_rows_as,
}
use xensus.Store.Systems
use xensus.Store.Systems.{System, disabled, insert_system, update_system_name, get_system}
use xensus.Core.Audit.{Actor, AuditEntry, write_audit}

-- The audit entry for the system `id`.
abbrev pub system_entry : Actor → Text → ℕ → Text → AuditEntry
system_entry actor action id name = record {
  actor = actor;
  action = action;
  entity_type = codes "system";
  entity_id = id;
  details = some ((codes "name", text name) ∷ []);
}

abbrev pub rename_entry : Actor → ℕ → Text → Text → AuditEntry
rename_entry actor id from to = record {
  actor = actor;
  action = codes "system.rename";
  entity_type = codes "system";
  entity_id = id;
  details = some ((codes "from", text from) ∷ (codes "to", text to) ∷ []);
}

-- The end of each function: read the row back, commit and return it.
abbrev read_back : ℕ → Action System
read_back id = do s ← get_system tx id; commit; pure s

-- `CreateSystem`
unfoldable pub create_system : Actor → Text → Action System
create_system actor raw =
    let name = trim_space raw in
    if is_empty actor.oid
    then raise missing_argument
    else if is_empty name
    then raise name_required
    else do
      begin_tx
      or_rollback do
        id ← insert_system name actor.upn
        write_audit (system_entry actor (codes "system.create") id name)
        read_back id

-- `RenameSystem` once the transaction is open and the system read
abbrev rename_system_body : Actor → ℕ → Text → System → Action System
rename_system_body actor id name current =
    if disabled current
    then raise not_found
    else if text_eq current.name name
    then (do rollback; pure current)
    else do
      update_system_name id name actor.upn
      write_audit (rename_entry actor id current.name name)
      read_back id

-- `RenameSystem`
unfoldable pub rename_system : Actor → ℕ → Text → Action System
rename_system actor id raw =
    let name = trim_space raw in
    if is_empty actor.oid
    then raise missing_argument
    else if is_empty name
    then raise name_required
    else do
      begin_tx
      or_rollback do
        current ← no_rows_as not_found (get_system tx id)
        rename_system_body actor id name current

-- `DisableSystem` once the transaction is open and the system read
abbrev disable_system_body : Actor → ℕ → System → Action System
disable_system_body actor id current = if disabled current then (do rollback; pure current) else do
  Systems.disable_system id actor.upn
  write_audit (system_entry actor (codes "system.disable") id current.name)
  read_back id

-- `DisableSystem`
unfoldable pub disable_system : Actor → ℕ → Action System
disable_system actor id = if is_empty actor.oid then raise missing_argument else do
  begin_tx
  or_rollback
      do current ← no_rows_as not_found (get_system tx id); disable_system_body actor id current

-- `EnableSystem` once the transaction is open and the system read
abbrev enable_system_body : Actor → ℕ → System → Action System
enable_system_body actor id current =
    if not (disabled current) then (do rollback; pure current) else do
      Systems.enable_system id
      write_audit (system_entry actor (codes "system.enable") id current.name)
      read_back id

-- `EnableSystem`
unfoldable pub enable_system : Actor → ℕ → Action System
enable_system actor id = if is_empty actor.oid then raise missing_argument else do
  begin_tx
  or_rollback
      do current ← no_rows_as not_found (get_system tx id); enable_system_body actor id current
