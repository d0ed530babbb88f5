-- ===== src/Core/History.antt =====
-- core/*.go: the audit log over requests.
use xensus.Base.{
  ℕ, ◌<◌, ◌≡◌, refl, ap, true, false, List, [], ◌∷◌, ◌++◌, none, some, Text, inl, inr, ltb,
  is_empty, length,
}
use xensus.Sql.{select_first, count_where}
use xensus.Store.Schema.{PendingSteward, AuditLogRow, Database}
use xensus.Store.Session.{Session}
use xensus.Store.Stewards.{holds_oid}
use xensus.Store.PendingStewards.{invites}
use xensus.Registry.Requests.{
  Request, Times, apply, actor_of, create_person, create_system, promote_steward, rename_person,
  rename_system, disable_system, enable_system, demote_steward, cancel_steward_invite,
  create_association, remove_association, claim_pending_steward, bootstrap,
}
use xensus.Registry.Audited.{
  HasNewRow, IsStaleClaim, IsAudited, apply-IsAudited, stale_claim-unrecorded,
}
use xensus.Core.Audit.{Actor}
use xensus.Core.Serve.{serve, serve-works, serve-Follows, serve_all, serve_all-keeps, times}

-- `new` is `old` behind further rows.
abbrev pub Extends : List AuditLogRow → List AuditLogRow → Type 0
Extends old new = (rows : List AuditLogRow) × (new ≡ rows ++ old)

one-more :
    (actor : Actor) (at : Text) (base old new : List AuditLogRow)
    → Extends base old
    → HasNewRow actor at old new
    → Extends base new
one-more actor at base old [] ext row = absurd row
one-more actor at base old (r ∷ rows) ext row = (r ∷ ext.0, rw (row.0, ext.1) refl)

IsStaleClaim-log :
    (r : Request) (d d' : Database) → IsStaleClaim r d d' → d'.audit_log ≡ d.audit_log
IsStaleClaim-log (claim_pending_steward a) d d' h = ap (λ x. x.audit_log) h.1
IsStaleClaim-log (create_person _ _) d d' h = absurd h
IsStaleClaim-log (create_system _ _) d d' h = absurd h
IsStaleClaim-log (promote_steward _ _) d d' h = absurd h
IsStaleClaim-log (rename_person _ _ _) d d' h = absurd h
IsStaleClaim-log (rename_system _ _ _) d d' h = absurd h
IsStaleClaim-log (disable_system _ _) d d' h = absurd h
IsStaleClaim-log (enable_system _ _) d d' h = absurd h
IsStaleClaim-log (demote_steward _ _) d d' h = absurd h
IsStaleClaim-log (cancel_steward_invite _ _) d d' h = absurd h
IsStaleClaim-log (create_association _ _ _ _) d d' h = absurd h
IsStaleClaim-log (remove_association _ _ _) d d' h = absurd h
IsStaleClaim-log (bootstrap _) d d' h = absurd h

pub apply-Extends :
    (base : List AuditLogRow) (t : Times) (r : Request) (d : Database)
    → Extends base d.audit_log.rows
    → Extends base (apply t r d).audit_log.rows
apply-Extends base t r d ext = elim (apply-IsAudited t r d) [
  | inl same ↦ rw same ext
  | inr (inl row) ↦
      one-more (actor_of r) t.at base d.audit_log.rows (apply t r d).audit_log.rows ext row
  | inr (inr stale) ↦ rw (IsStaleClaim-log r d (apply t r d) stale) ext
]

-- The audit log only grows: whatever is requested from where no transaction is open, the rows before
-- are the oldest of the rows after, unchanged.
pub serve_all-Extends :
    (rs : List Request) (s : Session)
    → s.working ≡ none
    → Extends s.committed.audit_log.rows (serve_all rs s).committed.audit_log.rows
serve_all-Extends rs s idle =
    serve_all-keeps (λ d. Extends s.committed.audit_log.rows d.audit_log.rows)
      (apply-Extends s.committed.audit_log.rows) rs s idle ([], refl)

-- Where no transaction is open, a request changes nothing, or adds exactly one audit row, with the actor who asked and the time,
-- or it is the claim of an invitation by someone who is a steward already, and then it changes the
-- invitations alone. That holds whichever calls of the driver fail.
pub serve-IsAudited :
    (r : Request) (s : Session)
    → s.working ≡ none
    → IsAudited r (times r s).at s.committed (serve r s).committed
serve-IsAudited r s idle = elim (serve-Follows r s idle).2 [
  | inl (_, same) ↦ inl same
  | inr new ↦ rw new (apply-IsAudited (times r s) r s.committed)
]

-- Where no transaction is open and no call of the driver fails, the claim by an active steward with
-- an invitation under the UPN takes the invitation away and leaves the audit log as it was.
pub stale_claim-IsUnrecorded :
    (a : Actor) (s : Session) (p : PendingSteward)
    → s.working ≡ none
    → ((n : ℕ) → s.driver.fails n ≡ false)
    → is_empty a.oid ≡ false
    → is_empty a.upn ≡ false
    → ltb 0 (count_where (holds_oid a.oid) s.committed.stewards.rows) ≡ true
    → select_first (invites a.upn) s.committed.pending_stewards.rows ≡ some p
    → let d' = (serve (claim_pending_steward a) s).committed in
      (d'.audit_log ≡ s.committed.audit_log)
      × (length d'.pending_stewards.rows < length s.committed.pending_stewards.rows)
stale_claim-IsUnrecorded a s p idle works oid upn active found =
    rw (serve-works (claim_pending_steward a) s idle works) (
      stale_claim-unrecorded (times (claim_pending_steward a) s) a s.committed p oid upn active
        found)
