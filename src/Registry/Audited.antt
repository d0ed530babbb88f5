-- ===== src/Registry/Audited.antt =====
-- The registry: changes and their audit rows.
use xensus.Base.{
  ◌<◌, ◌≡◌, some, false, ltb, is_empty, ==_refl, length, true, ◌⊎◌, List, [], ◌∷◌, Text, arith,
}
use xensus.Sql.{insert_row, select_first, count_where}
use xensus.Sql.Laws.{length-delete_where}
use xensus.Store.Stewards.{holds_oid}
use xensus.Store.PendingStewards.{invites}
use xensus.Store.Schema.{AuditLogRow, PendingSteward, Database}
use xensus.Core.Audit.{Actor}
use xensus.Registry.Change.{logged}
use xensus.Registry.Persons
use xensus.Registry.Systems
use xensus.Registry.Associations
use xensus.Registry.Stewards
use xensus.Registry.Tenant
use xensus.Registry.Requests.{
  Request, create_person, rename_person, create_system, rename_system, disable_system,
  enable_system, create_association, remove_association, promote_steward, demote_steward,
  cancel_steward_invite, claim_pending_steward, bootstrap, actor_of, Times, apply,
}

-- The new log is the old one behind one row that names the actor and the time.
abbrev pub HasNewRow : Actor → Text → List AuditLogRow → List AuditLogRow → Type 0
HasNewRow actor at old [] = ⊥
HasNewRow actor at old (r ∷ rows) =
    (rows ≡ old) × (r.actor_oid ≡ actor.oid) × (r.actor_upn ≡ actor.upn) × (r.occurred_at ≡ at)

-- The claim of a steward who holds the role already: nothing but the invitations has changed.
abbrev pub IsStaleClaim : Request → Database → Database → Type 0
IsStaleClaim (claim_pending_steward a) d d' =
    (0 < count_where (holds_oid a.oid) d.stewards.rows)
    × (d' ≡ record d { pending_stewards = d'.pending_stewards })
IsStaleClaim _ d d' = ⊥

-- Nothing has changed, or the log has one row more, or a stale invitation is gone.
abbrev pub IsAudited : Request → Text → Database → Database → Type 0
IsAudited r at d d' =
    (d' ≡ d) ⊎ (HasNewRow (actor_of r) at d.audit_log.rows d'.audit_log.rows ⊎ IsStaleClaim r d d')

-- Every request but the stale claim leaves an audit row of its actor with each change.
pub apply-IsAudited : (t : Times) (r : Request) (d : Database) → IsAudited r t.at d (apply t r d)
unfolding apply logged insert_row Persons.create_person Persons.rename_person Systems.create_system
    Systems.rename_system Systems.disable_system Systems.enable_system
    Associations.create_association Associations.remove_association Stewards.promote_steward
    Stewards.demote_steward Stewards.cancel_steward_invite Stewards.claim_pending_steward
    Tenant.bootstrap
apply-IsAudited t (create_person a name) d = ground arith
apply-IsAudited t (rename_person a id name) d = ground arith
apply-IsAudited t (create_system a name) d = ground arith
apply-IsAudited t (rename_system a id name) d = ground arith
apply-IsAudited t (disable_system a id) d = ground arith
apply-IsAudited t (enable_system a id) d = ground arith
apply-IsAudited t (create_association a p s foreign_id) d = ground arith
apply-IsAudited t (remove_association a p id) d = ground arith
apply-IsAudited t (promote_steward a upn) d = ground arith
apply-IsAudited t (demote_steward a id) d = ground arith
apply-IsAudited t (cancel_steward_invite a id) d = ground arith
apply-IsAudited t (claim_pending_steward a) d = ground arith
apply-IsAudited t (bootstrap c) d = ground arith

-- The steward's stale invitation is consumed, and the audit log does not say so.
pub stale_claim-unrecorded :
    (t : Times) (a : Actor) (d : Database) (p : PendingSteward)
    → is_empty a.oid ≡ false
    → is_empty a.upn ≡ false
    → ltb 0 (count_where (holds_oid a.oid) d.stewards.rows) ≡ true
    → select_first (invites a.upn) d.pending_stewards.rows ≡ some p
    → let d' = apply t (claim_pending_steward a) d in
      (d'.audit_log ≡ d.audit_log)
      × (length d'.pending_stewards.rows < length d.pending_stewards.rows)
unfolding apply Stewards.claim_pending_steward
stale_claim-unrecorded t a d p oid upn active found = ground (
  arith,
  length-delete_where (invites a.upn) (Stewards.pending_with_id p.id) d.pending_stewards.rows p
      found (==_refl p.id),
)
