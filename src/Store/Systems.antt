-- ===== src/Store/Systems.antt =====
-- store/systems.go: the statements on the table systems.
use xensus.Base.{ℕ, Bool, not, ◌&&◌, Option, none, some, [], ◌==◌, is_empty, Text}
use xensus.Sql.{insert_row, select_first, count_where, update_where}
use xensus.Store.Schema.{SystemRow}
use xensus.Store.Session.{Action, ok, exec, RowQueryer, query_row, scanned, inserted}

-- The struct `System`: a NULL column reads as the empty string.
pub record System : Type 0 where
  pub id : ℕ
  pub name : Text
  pub created_at : Text
  pub created_by : Text
  pub updated_at : Text
  pub updated_by : Text
  pub disabled_at : Text
  pub disabled_by : Text

-- `System.Disabled`
abbrev pub disabled : System → Bool
disabled s = not (is_empty s.disabled_at)

-- `sql.NullString.String`
abbrev pub null_string : Option Text → Text
null_string none = []
null_string (some s) = s

abbrev pub scan_system : SystemRow → System
scan_system r = record {
  id = r.id;
  name = r.name;
  created_at = r.created_at;
  created_by = r.created_by;
  updated_at = r.updated_at;
  updated_by = r.updated_by;
  disabled_at = null_string r.disabled_at;
  disabled_by = null_string r.disabled_by;
}

-- `IS NULL`
abbrev pub is_null {ℓ} : {A : Type ℓ} → Option A → Bool
is_null none = Bool.true
is_null (some _) = Bool.false

-- The row of a new system.
abbrev pub new_system : Text → Text → Text → ℕ → SystemRow
new_system name by now id = record {
  id = id;
  name = name;
  created_at = now;
  created_by = by;
  updated_at = now;
  updated_by = by;
  disabled_at = none;
  disabled_by = none;
}

-- `INSERT INTO systems (name, created_by, updated_by) VALUES (?, ?, ?)`
unfoldable pub insert_system : Text → Text → Action ℕ
insert_system name by = exec λ now d.
    inserted (λ t. record d { systems = t }) (insert_row (new_system name by now) d.systems)

-- `UPDATE systems SET … WHERE …`, with the number of rows that it affects
abbrev pub update_systems : (SystemRow → Bool) → (Text → SystemRow → SystemRow) → Action ℕ
update_systems hit set = exec λ now d.
    let t = d.systems in
    ok (
      count_where hit t.rows,
      record d { systems = record t { rows = update_where hit (set now) t.rows } },
    )

abbrev pub is_active : ℕ → SystemRow → Bool
is_active id r = r.id == id && is_null r.disabled_at

abbrev pub is_inactive : ℕ → SystemRow → Bool
is_inactive id r = r.id == id && not (is_null r.disabled_at)

abbrev pub set_name : Text → Text → Text → SystemRow → SystemRow
set_name name by now r = record r { name = name; updated_at = now; updated_by = by }

abbrev pub set_disabled : Text → Text → SystemRow → SystemRow
set_disabled by now r = record r { disabled_at = some now; disabled_by = some by }

abbrev pub set_enabled : Text → SystemRow → SystemRow
set_enabled now r = record r { disabled_at = none; disabled_by = none }

-- `SET name = ?, updated_at = …, updated_by = ? WHERE id = ? AND disabled_at IS NULL`
unfoldable pub update_system_name : ℕ → Text → Text → Action ℕ
update_system_name id name by = update_systems (is_active id) (set_name name by)

-- `SET disabled_at = …, disabled_by = ? WHERE id = ? AND disabled_at IS NULL`
unfoldable pub disable_system : ℕ → Text → Action ℕ
disable_system id by = update_systems (is_active id) (set_disabled by)

-- `SET disabled_at = NULL, disabled_by = NULL WHERE id = ? AND disabled_at IS NOT NULL`
unfoldable pub enable_system : ℕ → Action ℕ
enable_system id = update_systems (is_inactive id) set_enabled

-- `SELECT … FROM systems WHERE id = ?`, disabled or not
unfoldable pub get_system : RowQueryer → ℕ → Action System
get_system q id =
    query_row q λ d. scanned scan_system (select_first (λ r. r.id == id) d.systems.rows)
