-- ===== src/Registry/Systems.antt =====
-- Systems: created with a name, renamed while active, disabled and enabled again.
use xensus.Base.{
  ℕ, Bool, not, Option, none, some, ◌==◌, Text, codes, is_empty, text_eq, trim_space, if◌then◌else◌,
}
use xensus.Sql.{insert_row, select_first, update_where}
use xensus.Store.Schema.{SystemRow, Database}
use xensus.Store.Session.{Result, ok, err, missing_argument, not_found, name_required}
use xensus.Store.Systems.{
  System, disabled, scan_system, is_active, is_inactive, new_system, set_name, set_disabled,
  set_enabled,
}
use xensus.Core.Audit.{Actor, AuditEntry}
use xensus.Core.Systems.{system_entry, rename_entry}
use xensus.Registry.Change.{◌>>=◌, all_or_nothing, logged}

abbrev pub with_id : ℕ → SystemRow → Bool
with_id id r = r.id == id

unfoldable pub create_system : Text → Text → Actor → Text → Database → Result System × Database
create_system now at actor raw d =
    let name = trim_space raw in
    if is_empty actor.oid
    then (err missing_argument, d)
    else if is_empty name
    then (err name_required, d)
    else all_or_nothing d do
      (id, t) ← insert_row (new_system name actor.upn now) d.systems
      d' ← logged (system_entry actor (codes "system.create") id name) at (record d { systems = t })
      some (scan_system (new_system name actor.upn now id), d')

-- The found row `r` and the rows that `hit` selects are set, and the change is logged.
abbrev pub set_system :
    (SystemRow → Bool)
    → (SystemRow → SystemRow)
    → AuditEntry
    → Text
    → SystemRow
    → Database
    → Result System × Database
set_system hit set e at r d = all_or_nothing d do
  let t = record d.systems { rows = update_where hit set d.systems.rows }
  d' ← logged e at (record d { systems = t })
  some (scan_system (if hit r then set r else r), d')

abbrev pub rename_found :
    Text → Text → Actor → ℕ → Text → Database → Option SystemRow → Result System × Database
rename_found now at actor id name d none = (err not_found, d)
rename_found now at actor id name d (some r) =
    if disabled (scan_system r)
    then (err not_found, d)
    else if text_eq r.name name
    then (ok (scan_system r), d)
    else set_system (is_active id) (set_name name actor.upn now) (rename_entry actor id r.name name)
        at r d

unfoldable pub rename_system : Text → Text → Actor → ℕ → Text → Database → Result System × Database
rename_system now at actor id raw d =
    let name = trim_space raw in
    if is_empty actor.oid
    then (err missing_argument, d)
    else if is_empty name
    then (err name_required, d)
    else rename_found now at actor id name d (select_first (with_id id) d.systems.rows)

abbrev pub disable_found :
    Text → Text → Actor → ℕ → Database → Option SystemRow → Result System × Database
disable_found now at actor id d none = (err not_found, d)
disable_found now at actor id d (some r) =
    if disabled (scan_system r)
    then (ok (scan_system r), d)
    else set_system (is_active id) (set_disabled actor.upn now)
        (system_entry actor (codes "system.disable") id r.name) at r d

unfoldable pub disable_system : Text → Text → Actor → ℕ → Database → Result System × Database
disable_system now at actor id d =
    if is_empty actor.oid
    then (err missing_argument, d)
    else disable_found now at actor id d (select_first (with_id id) d.systems.rows)

abbrev pub enable_found :
    Text → Text → Actor → ℕ → Database → Option SystemRow → Result System × Database
enable_found now at actor id d none = (err not_found, d)
enable_found now at actor id d (some r) =
    if not (disabled (scan_system r))
    then (ok (scan_system r), d)
    else set_system (is_inactive id) (set_enabled now)
        (system_entry actor (codes "system.enable") id r.name) at r d

unfoldable pub enable_system : Text → Text → Actor → ℕ → Database → Result System × Database
enable_system now at actor id d =
    if is_empty actor.oid
    then (err missing_argument, d)
    else enable_found now at actor id d (select_first (with_id id) d.systems.rows)
