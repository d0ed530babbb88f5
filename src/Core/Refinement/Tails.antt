-- ===== src/Core/Refinement/Tails.antt =====
-- The ends that the functions of core/*.go share: the audit row, the row read back, the commit.
use xensus.Base.{◌≡◌, refl, inl, inr, some, Option-cases}
use xensus.Store.Schema.{Database}
use xensus.Store.Session.{Session, Result, ok, Action, ◌>>=◌, ◌>>◌, pure, query_row, tx, commit}
use xensus.Core.Audit.{AuditEntry, write_audit}
use xensus.Registry.{◌>>=◌ as bind, all_or_nothing, logged}
use xensus.Core.Refinement.Calls.{within, IsComplete}
use xensus.Core.Refinement.Transactions.{Ends, Ends-audit, Ends-query, Ends-commit}

module _ {A : Type 0} (e : AuditEntry) (a : A) (s : Session) (d : Database) where
  -- The rest of a transaction that ends in the database `d` with one audit row more.
  abbrev pub Logs : Action A → Type 0
  Logs m =
      Ends s.driver s.committed (m s)
        (all_or_nothing s.committed (bind (logged e (s.driver.go_now s.tick) d) λ d'. some (a, d')))

  pub Ends-audit_commit :
      IsComplete e → s.working ≡ some d → Logs (write_audit e >> (commit >> pure a))
  Ends-audit_commit complete w = elim (Option-cases (logged e (s.driver.go_now s.tick) d)) [
    | inl full ↦ rw full (Ends-audit e _ s complete w (rw full))
    | inr (d', added) ↦
        rw added (Ends-audit e _ s complete w (rw added (Ends-commit (within _ _ _ _) a refl)))
  ]

  pub Ends-audit_read :
      (g : Database → Result A)
      → IsComplete e
      → s.working ≡ some d
      → ((d' : Database) → logged e (s.driver.go_now s.tick) d ≡ some d' → g d' ≡ ok a)
      → Logs (write_audit e >> (query_row tx g >>= λ p. commit >> pure p))
  Ends-audit_read g complete w back = elim (Option-cases (logged e (s.driver.go_now s.tick) d)) [
    | inl full ↦ rw full (Ends-audit e _ s complete w (rw full))
    | inr (d', added) ↦ rw added (
        Ends-audit e _ s complete w (
          rw added (
            Ends-query g _ (within _ _ _ _) refl
              (rw (back d' added) (Ends-commit (within _ _ _ _) a refl)))))
  ]
