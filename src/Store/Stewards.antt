-- ===== src/Store/Stewards.antt =====
-- store/stewards.go: the statements on the table stewards.
use xensus.Base.{
  ℕ, Bool, not, ◌&&◌, none, some, ◌==◌, ltb, Text, text_eq, is_empty, lower, if◌then◌else◌,
}
use xensus.Sql.{insert_row, select_first, count_where, update_where}
use xensus.Store.Schema.{StewardRow}
use xensus.Store.Session.{
  Action, ok, err, constraint, exec, RowQueryer, query_row, scanned, inserted,
}
use xensus.Store.Systems.{null_string, is_null}

-- The struct `Steward`.
pub record Steward : Type 0 where
  pub id : ℕ
  pub user_oid : Text
  pub user_upn : Text
  pub promoted_at : Text
  pub promoted_by : Text
  pub removed_at : Text
  pub removed_by : Text

-- `Steward.Removed`
abbrev pub removed : Steward → Bool
removed s = not (is_empty s.removed_at)

abbrev pub scan_steward : StewardRow → Steward
scan_steward r = record {
  id = r.id;
  user_oid = r.user_oid;
  user_upn = r.user_upn;
  promoted_at = r.promoted_at;
  promoted_by = r.promoted_by;
  removed_at = null_string r.removed_at;
  removed_by = null_string r.removed_by;
}

abbrev pub holds_oid : Text → StewardRow → Bool
holds_oid oid r = text_eq r.user_oid oid && is_null r.removed_at

abbrev pub holds_upn : Text → StewardRow → Bool
holds_upn upn r = text_eq (lower r.user_upn) (lower upn) && is_null r.removed_at

-- `SELECT COUNT(*) FROM stewards WHERE user_oid = ? AND removed_at IS NULL`
unfoldable pub is_active_steward : RowQueryer → Text → Action Bool
is_active_steward q oid = query_row q λ d. ok (ltb 0 (count_where (holds_oid oid) d.stewards.rows))

-- `… WHERE lower(user_upn) = lower(?) AND removed_at IS NULL`
unfoldable pub is_active_steward_by_upn : RowQueryer → Text → Action Bool
is_active_steward_by_upn q upn =
    query_row q λ d. ok (ltb 0 (count_where (holds_upn upn) d.stewards.rows))

-- `SELECT … FROM stewards WHERE id = ?`, removed or not
unfoldable pub get_steward : RowQueryer → ℕ → Action Steward
get_steward q id =
    query_row q λ d. scanned scan_steward (select_first (λ r. r.id == id) d.stewards.rows)

-- The row of a new steward.
abbrev pub new_steward : Text → Text → Text → Text → ℕ → StewardRow
new_steward oid upn promoted_by now id = record {
  id = id;
  user_oid = oid;
  user_upn = upn;
  promoted_at = now;
  promoted_by = promoted_by;
  removed_at = none;
  removed_by = none;
}

-- `INSERT INTO stewards (user_oid, user_upn, promoted_by) VALUES (?, ?, ?)`, under the UNIQUE index
-- on the object IDs of the rows that are not removed
unfoldable pub insert_steward : Text → Text → Text → Action ℕ
insert_steward oid upn promoted_by = exec λ now d.
    if ltb 0 (count_where (holds_oid oid) d.stewards.rows)
    then err constraint
    else inserted (λ t. record d { stewards = t })
        (insert_row (new_steward oid upn promoted_by now) d.stewards)

abbrev pub is_current : ℕ → StewardRow → Bool
is_current id r = r.id == id && is_null r.removed_at

abbrev pub set_removed : Text → Text → StewardRow → StewardRow
set_removed by now r = record r { removed_at = some now; removed_by = some by }

-- `UPDATE stewards SET removed_at = …, removed_by = ? WHERE id = ? AND removed_at IS NULL`
unfoldable pub demote_steward : ℕ → Text → Action ℕ
demote_steward id by = exec λ now d.
    let t = d.stewards in
    ok (
      count_where (is_current id) t.rows,
      record d {
        stewards = record t { rows = update_where (is_current id) (set_removed by now) t.rows };
      },
    )
