-- ===== src/Store/Persons.antt =====
-- store/persons.go: the statements on the table persons.
use xensus.Base.{ℕ, ◌==◌, Text}
use xensus.Sql.{insert_row, select_first, count_where, update_where}
use xensus.Store.Schema.{Person}
use xensus.Store.Session.{Action, ok, exec, RowQueryer, query_row, scanned, inserted}

-- The row of a new person.
abbrev pub new_person : Text → Text → Text → ℕ → Person
new_person name by now id = record {
  id = id;
  name = name;
  created_at = now;
  created_by = by;
  updated_at = now;
  updated_by = by;
}

-- `INSERT INTO persons (name, created_by, updated_by) VALUES (?, ?, ?)`
unfoldable pub insert_person : Text → Text → Action ℕ
insert_person name by = exec λ now d.
    inserted (λ t. record d { persons = t }) (insert_row (new_person name by now) d.persons)

abbrev pub set_name : Text → Text → Text → Person → Person
set_name name by now p = record p { name = name; updated_at = now; updated_by = by }

-- `UPDATE persons SET name = ?, updated_at = …, updated_by = ? WHERE id = ?`, with the number of
-- rows that it affects
unfoldable pub update_person_name : ℕ → Text → Text → Action ℕ
update_person_name id name by = exec λ now d.
    let hit = λ (p : Person). p.id == id in
    let t = d.persons in
    ok (
      count_where hit t.rows,
      record d { persons = record t { rows = update_where hit (set_name name by now) t.rows } },
    )

-- `SELECT … FROM persons WHERE id = ?`
unfoldable pub get_person : RowQueryer → ℕ → Action Person
get_person q id = query_row q λ d. scanned (λ p. p) (select_first (λ p. p.id == id) d.persons.rows)
