-- ===== src/Store/Associations.antt =====
-- store/associations.go: the statements on the table associations.
use xensus.Base.{ℕ, Bool, not, ◌&&◌, Option, none, some, ◌==◌, Text, if◌then◌else◌}
use xensus.Sql.{insert_row, select_first, count_where, delete_where}
use xensus.Store.Schema.{Person, SystemRow, AssociationRow, Database}
use xensus.Store.Session.{
  Action, ok, err, constraint, exec, RowQueryer, query_row, scanned, inserted,
}
use xensus.Store.Systems.{is_null}

-- The struct `Association`, with the name of the system joined in.
pub record Association : Type 0 where
  pub id : ℕ
  pub person_id : ℕ
  pub system_id : ℕ
  pub system_name : Text
  pub foreign_id : Text
  pub created_at : Text
  pub created_by : Text

-- `REFERENCES persons(id)` and `REFERENCES systems(id)`
abbrev pub has_references : ℕ → ℕ → Database → Bool
has_references person_id system_id d =
    not (is_null (select_first (λ (p : Person). p.id == person_id) d.persons.rows))
    && not (is_null (select_first (λ (r : SystemRow). r.id == system_id) d.systems.rows))

-- The row of a new association.
abbrev pub new_association : ℕ → ℕ → Text → Text → Text → ℕ → AssociationRow
new_association person_id system_id foreign_id by now id = record {
  id = id;
  person_id = person_id;
  system_id = system_id;
  foreign_id = foreign_id;
  created_at = now;
  created_by = by;
}

-- `INSERT INTO associations (person_id, system_id, foreign_id, created_by) VALUES (?, ?, ?, ?)`
unfoldable pub insert_association : ℕ → ℕ → Text → Text → Action ℕ
insert_association person_id system_id foreign_id by = exec λ now d.
    if has_references person_id system_id d
    then inserted (λ t. record d { associations = t })
        (insert_row (new_association person_id system_id foreign_id by now) d.associations)
    else err constraint

-- The inner join: a row whose system is missing is not selected.
abbrev pub scan_association : AssociationRow → SystemRow → Association
scan_association a s = record {
  id = a.id;
  person_id = a.person_id;
  system_id = a.system_id;
  system_name = s.name;
  foreign_id = a.foreign_id;
  created_at = a.created_at;
  created_by = a.created_by;
}

abbrev pub join_system : AssociationRow → Option SystemRow → Option Association
join_system a none = none
join_system a (some s) = some (scan_association a s)

abbrev pub joined : Database → Option AssociationRow → Option Association
joined d none = none
joined d (some a) =
    join_system a (select_first (λ (r : SystemRow). r.id == a.system_id) d.systems.rows)

-- `SELECT … FROM associations a JOIN systems s ON s.id = a.system_id WHERE a.id = ?`
unfoldable pub get_association : RowQueryer → ℕ → Action Association
get_association q id =
    query_row q
      λ d. scanned (λ a. a) (joined d (select_first (λ a. a.id == id) d.associations.rows))

-- `DELETE FROM associations WHERE id = ?`, with the number of rows that it affects
unfoldable pub delete_association : ℕ → Action ℕ
delete_association id = exec λ now d.
    let hit = λ (a : AssociationRow). a.id == id in
    let t = d.associations in
    ok (
      count_where hit t.rows,
      record d { associations = record t { rows = delete_where hit t.rows } },
    )
