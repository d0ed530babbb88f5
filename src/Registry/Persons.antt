-- ===== src/Registry/Persons.antt =====
-- Persons: created with the next ID, and renamed.
use xensus.Base.{
  ℕ, Bool, Option, none, some, ◌==◌, Text, is_empty, text_eq, trim_space, if◌then◌else◌,
}
use xensus.Sql.{insert_row, select_first, update_where}
use xensus.Store.Schema.{Person, Database}
use xensus.Store.Session.{Result, ok, err, missing_argument, not_found}
use xensus.Store.Persons.{new_person, set_name}
use xensus.Core.Audit.{Actor}
use xensus.Core.Persons.{create_entry, rename_entry}
use xensus.Registry.Change.{◌>>=◌, all_or_nothing, logged}

unfoldable pub create_person : Text → Text → Actor → Text → Database → Result Person × Database
create_person now at actor raw d =
    let name = trim_space raw in
    if is_empty actor.oid
    then (err missing_argument, d)
    else all_or_nothing d do
      (id, t) ← insert_row (new_person name actor.upn now) d.persons
      d' ← logged (create_entry actor id name) at (record d { persons = t })
      some (new_person name actor.upn now id, d')

abbrev pub with_id : ℕ → Person → Bool
with_id id p = p.id == id

abbrev pub rename_found :
    Text → Text → Actor → ℕ → Text → Database → Option Person → Result Person × Database
rename_found now at actor id name d none = (err not_found, d)
rename_found now at actor id name d (some p) =
    if text_eq p.name name
    then (ok p, d)
    else all_or_nothing d do
      let rows = update_where (with_id id) (set_name name actor.upn now) d.persons.rows
      let t = record d.persons { rows = rows }
      d' ← logged (rename_entry actor id p.name name) at (record d { persons = t })
      some (set_name name actor.upn now p, d')

unfoldable pub rename_person : Text → Text → Actor → ℕ → Text → Database → Result Person × Database
rename_person now at actor id raw d =
    if is_empty actor.oid
    then (err missing_argument, d)
    else rename_found now at actor id (trim_space raw) d (select_first (with_id id) d.persons.rows)
