-- ===== src/Core/Refinement/Claims.antt =====
-- core/stewards.go: the claim of an invitation.
use xensus.Base.{
  ℕ, suc, ◌≡◌, refl, Bool, true, false, ◌||◌, none, some, ltb, is_empty, arith, Bool-cases,
  Option-cases, inl, inr,
}
use xensus.Sql.{insert_row, select_first, count_where}
use xensus.Store.Session.{Driver, Session}
use xensus.Store.Schema.{PendingSteward, Database}
use xensus.Store.Stewards.{new_steward, holds_oid, is_active_steward, insert_steward}
use xensus.Store.PendingStewards.{invites, get_pending_steward_by_upn, delete_pending_steward}
use xensus.Registry.Stewards as Registry
use xensus.Registry.Stewards.{with_id, pending_with_id, without_invitation}
use xensus.Core.Audit.{Actor}
use xensus.Core.Stewards.{claim_pending_steward, promote_entry, claim}
use xensus.Core.Refinement.Statement.{Refines}
use xensus.Core.Refinement.Calls.{within}
use xensus.Core.Refinement.Transactions.{
  Ends, Ends-Refines, Ends-exec, Ends-query, Ends-optional, Ends-rollback, Ends-commit,
}
use xensus.Core.Refinement.Tails.{Ends-audit_commit}

-- The claim of an invitation that was found, to the end of the transaction.
claim-Ends :
    (actor : Actor) (p : PendingSteward) (active : Bool) (driver : Driver) (n : ℕ) (d : Database)
    → is_empty actor.oid ≡ false
    → ltb 0 (count_where (holds_oid actor.oid) d.stewards.rows) ≡ active
    → Ends driver d (claim actor p active (within driver n d d)) (
        Registry.claim_found (driver.strftime_now n) (driver.go_now (suc (suc n))) actor d (some p))
unfolding insert_steward delete_pending_steward
claim-Ends actor p true driver n d known active =
    rw active (Ends-exec _ _ (within _ _ _ _) refl (Ends-commit (within _ _ _ _) false refl))
claim-Ends actor p false driver n d known inactive =
    let make = new_steward actor.oid actor.upn p.invited_by (driver.strftime_now n) in
    rw inactive (
      Ends-exec _ _ (within _ _ _ _) refl (
        rw inactive (elim (Option-cases (insert_row make d.stewards)) [
          | inl full ↦ rw full refl
          | inr ((id, t), added) ↦ rw added (
              Ends-exec _ _ (within _ _ _ _) refl (
                Ends-audit_commit (promote_entry actor id p.invited_by) true (within _ _ _ _) _
                  known refl))
        ])))

-- With no transaction open before, `ClaimPendingSteward` leaves none open and keeps the driver. Its result and
-- the database are those of the registry's `claim_pending_steward` at the times of its calls, or some call of
-- the driver fails, the result is that failure and the database is the old one.
pub claim_pending_steward-Refines :
    (actor : Actor) (s : Session)
    → s.working ≡ none
    → Refines s (claim_pending_steward actor s) (
        Registry.claim_pending_steward
          (s.driver.strftime_now (suc (suc (suc s.tick))))
          (s.driver.go_now (suc (suc (suc (suc (suc s.tick))))))
          actor
          s.committed)
unfolding claim_pending_steward Registry.claim_pending_steward get_pending_steward_by_upn
    is_active_steward
claim_pending_steward-Refines actor s idle =
    elim (Bool-cases (is_empty actor.oid || is_empty actor.upn)) [
      | inl missing ↦ rw missing (idle, refl, inr (refl, refl))
      | inr known ↦ rw known (
          Ends-Refines _ s idle (
            Ends-optional _ _ _ refl
              (elim (Option-cases
                (select_first (invites actor.upn) s.committed.pending_stewards.rows)) [
                  | inl nothing ↦ rw nothing (Ends-rollback (within _ _ _ _) false)
                  | inr (p, found) ↦ rw found (
                      Ends-query _ _ (within _ _ _ _) refl
                        (claim-Ends actor p _ _ _ _ (ground arith) refl))
                ])))
    ]
