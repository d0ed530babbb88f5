-- ===== src/Registry/Associations.antt =====
-- Associations: a person's link to a system is created and removed.
use xensus.Base.{
  ℕ, Bool, not, Option, none, some, ◌==◌, Text, codes, is_empty, trim_space, if◌then◌else◌,
}
use xensus.Sql.{insert_row, select_first, delete_where}
use xensus.Store.Schema.{Person, SystemRow, AssociationRow, Database}
use xensus.Store.Session.{Result, err, missing_argument, not_found}
use xensus.Store.Associations.{Association, new_association, scan_association, joined}
use xensus.Core.Audit.{Actor}
use xensus.Core.Associations.{association_entry}
use xensus.Registry.Change.{◌>>=◌, all_or_nothing, logged}
use xensus.Registry.Persons
use xensus.Registry.Systems

abbrev pub link :
    Text
    → Text
    → Actor
    → ℕ
    → ℕ
    → Text
    → Database
    → Option Person
    → Option SystemRow
    → Result Association × Database
link now at actor person_id system_id foreign_id d none system = (err not_found, d)
link now at actor person_id system_id foreign_id d (some p) none = (err not_found, d)
link now at actor person_id system_id foreign_id d (some p) (some r) = all_or_nothing d do
  (id, t) ← insert_row (new_association person_id system_id foreign_id actor.upn now) d.associations
  d' ←
      logged
        (association_entry actor (codes "association.create") person_id id system_id r.name
          foreign_id)
        at (record d { associations = t })
  some (scan_association (new_association person_id system_id foreign_id actor.upn now id) r, d')

unfoldable pub create_association :
    Text → Text → Actor → ℕ → ℕ → Text → Database → Result Association × Database
create_association now at actor person_id system_id raw d =
    if is_empty actor.oid
    then (err missing_argument, d)
    else link now at actor person_id system_id (trim_space raw) d
        (select_first (Persons.with_id person_id) d.persons.rows)
        (select_first (Systems.with_id system_id) d.systems.rows)

abbrev pub with_id : ℕ → AssociationRow → Bool
with_id id a = a.id == id

abbrev pub unlink :
    Text → Actor → ℕ → ℕ → Database → Option Association → Result (Unit {0}) × Database
unlink at actor person_id assoc_id d none = (err not_found, d)
unlink at actor person_id assoc_id d (some a) =
    if not (a.person_id == person_id)
    then (err not_found, d)
    else all_or_nothing d do
      let t = record d.associations { rows = delete_where (with_id assoc_id) d.associations.rows }
      d' ←
          logged
            (association_entry actor (codes "association.remove") person_id assoc_id a.system_id
              a.system_name a.foreign_id)
            at (record d { associations = t })
      some (tt, d')

unfoldable pub remove_association : Text → Actor → ℕ → ℕ → Database → Result (Unit {0}) × Database
remove_association at actor person_id assoc_id d =
    if is_empty actor.oid
    then (err missing_argument, d)
    else unlink at actor person_id assoc_id d
        (joined d (select_first (with_id assoc_id) d.associations.rows))
