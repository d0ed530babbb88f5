-- ===== src/Store/PendingStewards.antt =====
-- store/pending_stewards.go: the statements on the table pending_stewards.
use xensus.Base.{ℕ, Bool, ◌==◌, ltb, Text, text_eq, lower, if◌then◌else◌}
use xensus.Sql.{insert_row, select_first, count_where, delete_where}
use xensus.Store.Schema.{PendingSteward}
use xensus.Store.Session.{
  Action, ok, err, constraint, exec, RowQueryer, query_row, scanned, inserted,
}

abbrev pub invites : Text → PendingSteward → Bool
invites upn p = text_eq (lower p.user_upn) (lower upn)

-- `SELECT … FROM pending_stewards WHERE lower(user_upn) = lower(?)`
unfoldable pub get_pending_steward_by_upn : RowQueryer → Text → Action PendingSteward
get_pending_steward_by_upn q upn =
    query_row q λ d. scanned (λ p. p) (select_first (invites upn) d.pending_stewards.rows)

-- `SELECT … FROM pending_stewards WHERE id = ?`
unfoldable pub get_pending_steward_by_id : RowQueryer → ℕ → Action PendingSteward
get_pending_steward_by_id q id =
    query_row q λ d. scanned (λ p. p) (select_first (λ p. p.id == id) d.pending_stewards.rows)

-- The row of a new invitation.
abbrev pub new_pending_steward : Text → Text → Text → ℕ → PendingSteward
new_pending_steward upn invited_by now id = record {
  id = id;
  user_upn = upn;
  invited_at = now;
  invited_by = invited_by;
}

abbrev pub same_upn : Text → PendingSteward → Bool
same_upn upn p = text_eq p.user_upn upn

-- `INSERT INTO pending_stewards (user_upn, invited_by) VALUES (?, ?)`, where user_upn is UNIQUE
unfoldable pub insert_pending_steward : Text → Text → Action ℕ
insert_pending_steward upn invited_by = exec λ now d.
    if ltb 0 (count_where (same_upn upn) d.pending_stewards.rows)
    then err constraint
    else inserted (λ t. record d { pending_stewards = t })
        (insert_row (new_pending_steward upn invited_by now) d.pending_stewards)

-- `DELETE FROM pending_stewards WHERE id = ?`, with the number of rows that it affects
unfoldable pub delete_pending_steward : ℕ → Action ℕ
delete_pending_steward id = exec λ now d.
    let hit = λ (p : PendingSteward). p.id == id in
    let t = d.pending_stewards in
    ok (
      count_where hit t.rows,
      record d { pending_stewards = record t { rows = delete_where hit t.rows } },
    )
