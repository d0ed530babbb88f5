-- ===== src/Core/Stewards.antt =====
-- core/stewards.go.
use xensus.Base.{
  ℕ, Bool, true, false, ◌||◌, Option, none, some, [], ◌∷◌, Text, codes, is_empty, text_eq,
  trim_space, if◌then◌else◌,
}
use xensus.Store.Schema.{PendingSteward, text}
use xensus.Store.Session.{
  Action, tx, missing_argument, not_found, upn_required, already_steward, already_invited,
  self_removal, ◌>>=◌, ◌>>◌, raise, pure, begin_tx, commit, rollback, or_rollback, no_rows_as,
  row_or_none,
}
use xensus.Store.Stewards
use xensus.Store.Stewards.{
  Steward, removed, is_active_steward, is_active_steward_by_upn, get_steward, insert_steward,
}
use xensus.Store.PendingStewards.{
  get_pending_steward_by_upn, get_pending_steward_by_id, insert_pending_steward,
  delete_pending_steward,
}
use xensus.Core.Audit.{Actor, AuditEntry, write_audit}

-- The audit entry of an invitation, which has no entity ID.
abbrev pub invitation_entry : Actor → Text → Text → AuditEntry
invitation_entry actor action upn = record {
  actor = actor;
  action = action;
  entity_type = codes "steward";
  entity_id = 0;
  details = some ((codes "upn", text upn) ∷ []);
}

abbrev pub demote_entry : Actor → ℕ → Text → Text → AuditEntry
demote_entry actor steward_id oid upn = record {
  actor = actor;
  action = codes "steward.demote";
  entity_type = codes "steward";
  entity_id = steward_id;
  details = some ((codes "oid", text oid) ∷ (codes "upn", text upn) ∷ []);
}

abbrev pub promote_entry : Actor → ℕ → Text → AuditEntry
promote_entry actor steward_id invited_by = record {
  actor = actor;
  action = codes "steward.promote";
  entity_type = codes "steward";
  entity_id = steward_id;
  details = some (
      (codes "oid", text actor.oid)
      ∷ (codes "upn", text actor.upn)
      ∷ (codes "invited_by", text invited_by)
      ∷ []);
}

-- `PromoteSteward` behind the two checks for a duplicate
abbrev pub invite : Actor → Text → Action PendingSteward
invite actor upn = do
  insert_pending_steward upn actor.upn
  write_audit (invitation_entry actor (codes "steward.invite") upn)
  p ← get_pending_steward_by_upn tx upn
  commit
  pure p

abbrev invite_unless_pending : Actor → Text → Option PendingSteward → Action PendingSteward
invite_unless_pending actor upn (some p) = raise already_invited
invite_unless_pending actor upn none = invite actor upn

-- `PromoteSteward`
unfoldable pub promote_steward : Actor → Text → Action PendingSteward
promote_steward actor raw =
    let upn = trim_space raw in
    if is_empty actor.oid
    then raise missing_argument
    else if is_empty upn
    then raise upn_required
    else do
      begin_tx
      or_rollback do
        already ← is_active_steward_by_upn tx upn
        if already then raise already_steward else do
          pending ← row_or_none (get_pending_steward_by_upn tx upn)
          invite_unless_pending actor upn pending

-- `DemoteSteward` once the transaction is open and the steward read
abbrev demote_steward_body : Actor → ℕ → Steward → Action Steward
demote_steward_body actor steward_id current =
    if removed current
    then raise not_found
    else if text_eq current.user_oid actor.oid
    then raise self_removal
    else do
      Stewards.demote_steward steward_id actor.upn
      write_audit (demote_entry actor steward_id current.user_oid current.user_upn)
      s ← get_steward tx steward_id
      commit
      pure s

-- `DemoteSteward`
unfoldable pub demote_steward : Actor → ℕ → Action Steward
demote_steward actor steward_id = if is_empty actor.oid then raise missing_argument else do
  begin_tx
  or_rollback do
    current ← no_rows_as not_found (get_steward tx steward_id)
    demote_steward_body actor steward_id current

-- `CancelStewardInvite`
unfoldable pub cancel_steward_invite : Actor → ℕ → Action (Unit {0})
cancel_steward_invite actor pending_id = if is_empty actor.oid then raise missing_argument else do
  begin_tx
  or_rollback do
    pending ← no_rows_as not_found (get_pending_steward_by_id tx pending_id)
    delete_pending_steward pending_id
    write_audit (invitation_entry actor (codes "steward.uninvite") pending.user_upn)
    commit
    pure tt

-- `ClaimPendingSteward` for an invitation that was found
abbrev pub claim : Actor → PendingSteward → Bool → Action Bool
claim actor pending true = do delete_pending_steward pending.id; commit; pure false
claim actor pending false = do
  steward_id ← insert_steward actor.oid actor.upn pending.invited_by
  delete_pending_steward pending.id
  write_audit (promote_entry actor steward_id pending.invited_by)
  commit
  pure true

abbrev claim_if_pending : Actor → Option PendingSteward → Action Bool
claim_if_pending actor none = do rollback; pure false
claim_if_pending actor (some pending) = do
  active ← is_active_steward tx actor.oid
  claim actor pending active

-- `ClaimPendingSteward`
unfoldable pub claim_pending_steward : Actor → Action Bool
claim_pending_steward actor =
    if is_empty actor.oid || is_empty actor.upn then raise missing_argument else do
      begin_tx
      or_rollback do
        pending ← row_or_none (get_pending_steward_by_upn tx actor.upn)
        claim_if_pending actor pending
