-- ===== src/Registry/Stewards.antt =====
-- Stewards: invited by UPN, promoted when they claim the invitation, demoted by another.
use xensus.Base.{
  ℕ, Bool, true, false, ◌||◌, Option, none, some, ◌==◌, ltb, Text, codes, is_empty, text_eq,
  trim_space, if◌then◌else◌,
}
use xensus.Sql.{insert_row, select_first, count_where, update_where, delete_where}
use xensus.Store.Schema.{StewardRow, PendingSteward, Database}
use xensus.Store.Session.{
  Result, ok, err, missing_argument, not_found, upn_required, already_steward, already_invited,
  self_removal,
}
use xensus.Store.Stewards.{
  Steward, removed, scan_steward, holds_oid, holds_upn, new_steward, is_current, set_removed,
}
use xensus.Store.PendingStewards.{invites, new_pending_steward}
use xensus.Core.Audit.{Actor}
use xensus.Core.Stewards.{invitation_entry, demote_entry, promote_entry}
use xensus.Registry.Change.{◌>>=◌, all_or_nothing, logged}

abbrev pub invite :
    Text → Text → Actor → Text → Database → Option PendingSteward → Result PendingSteward × Database
invite now at actor upn d (some p) = (err already_invited, d)
invite now at actor upn d none = all_or_nothing d do
  (id, t) ← insert_row (new_pending_steward upn actor.upn now) d.pending_stewards
  d' ←
      logged (invitation_entry actor (codes "steward.invite") upn) at
        (record d { pending_stewards = t })
  some (new_pending_steward upn actor.upn now id, d')

unfoldable pub promote_steward :
    Text → Text → Actor → Text → Database → Result PendingSteward × Database
promote_steward now at actor raw d =
    let upn = trim_space raw in
    if is_empty actor.oid
    then (err missing_argument, d)
    else if is_empty upn
    then (err upn_required, d)
    else if ltb 0 (count_where (holds_upn upn) d.stewards.rows)
    then (err already_steward, d)
    else invite now at actor upn d (select_first (invites upn) d.pending_stewards.rows)

abbrev pub with_id : ℕ → StewardRow → Bool
with_id id r = r.id == id

abbrev pub demote_found :
    Text → Text → Actor → ℕ → Database → Option StewardRow → Result Steward × Database
demote_found now at actor id d none = (err not_found, d)
demote_found now at actor id d (some r) =
    if removed (scan_steward r)
    then (err not_found, d)
    else if text_eq r.user_oid actor.oid
    then (err self_removal, d)
    else all_or_nothing d do
      let rows = update_where (is_current id) (set_removed actor.upn now) d.stewards.rows
      d' ←
          logged (demote_entry actor id r.user_oid r.user_upn) at
            (record d { stewards = record d.stewards { rows = rows } })
      some (scan_steward (if is_current id r then set_removed actor.upn now r else r), d')

unfoldable pub demote_steward : Text → Text → Actor → ℕ → Database → Result Steward × Database
demote_steward now at actor id d =
    if is_empty actor.oid
    then (err missing_argument, d)
    else demote_found now at actor id d (select_first (with_id id) d.stewards.rows)

abbrev pub pending_with_id : ℕ → PendingSteward → Bool
pending_with_id id p = p.id == id

-- The database without the invitation `id`.
abbrev pub without_invitation : ℕ → Database → Database
without_invitation id d =
    let rows = delete_where (pending_with_id id) d.pending_stewards.rows in
    record d { pending_stewards = record d.pending_stewards { rows = rows } }

abbrev pub cancel_found :
    Text → Actor → ℕ → Database → Option PendingSteward → Result (Unit {0}) × Database
cancel_found at actor id d none = (err not_found, d)
cancel_found at actor id d (some p) = all_or_nothing d do
  d' ←
      logged (invitation_entry actor (codes "steward.uninvite") p.user_upn) at
        (without_invitation id d)
  some (tt, d')

unfoldable pub cancel_steward_invite : Text → Actor → ℕ → Database → Result (Unit {0}) × Database
cancel_steward_invite at actor id d =
    if is_empty actor.oid
    then (err missing_argument, d)
    else cancel_found at actor id d (select_first (pending_with_id id) d.pending_stewards.rows)

abbrev pub claim_found :
    Text → Text → Actor → Database → Option PendingSteward → Result Bool × Database
claim_found now at actor d none = (ok false, d)
claim_found now at actor d (some p) =
    if ltb 0 (count_where (holds_oid actor.oid) d.stewards.rows)
    then (ok false, without_invitation p.id d)
    else all_or_nothing d do
      (id, t) ← insert_row (new_steward actor.oid actor.upn p.invited_by now) d.stewards
      d' ←
          logged (promote_entry actor id p.invited_by) at
            (without_invitation p.id (record d { stewards = t }))
      some (true, d')

unfoldable pub claim_pending_steward : Text → Text → Actor → Database → Result Bool × Database
claim_pending_steward now at actor d =
    if is_empty actor.oid || is_empty actor.upn
    then (err missing_argument, d)
    else claim_found now at actor d (select_first (invites actor.upn) d.pending_stewards.rows)
