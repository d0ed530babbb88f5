-- ===== src/Core/Refinement/Bootstrap.antt =====
-- core/bootstrap.go.
use xensus.Base.{
  ℕ, suc, ◌≡◌, refl, none, false, arith, Text, ltb, codes, is_empty, ◌||◌, not, Bool-cases,
  Option-cases, inl, inr,
}
use xensus.Sql.{insert_row, count_where}
use xensus.Store.Schema.{Database}
use xensus.Store.Session.{Driver, Session, ◌>>=◌, ◌>>◌, pure, commit}
use xensus.Core.Audit.{write_audit}
use xensus.Store.Systems.{null_string}
use xensus.Store.Stewards.{new_steward, holds_oid, insert_steward}
use xensus.Store.Tenant.{get_tenant_id, bind_tenant}
use xensus.Registry.Tenant as Registry
use xensus.Core.Bootstrap.{BootstrapClaim, bootstrap, bootstrap_entry}
use xensus.Core.Refinement.Statement.{Refines}
use xensus.Core.Refinement.Calls.{within, IsComplete}
use xensus.Core.Refinement.Transactions.{
  Ends, Ends-Refines, Ends-now, Ends-exec, Ends-query, Ends-raise,
}
use xensus.Core.Refinement.Tails.{Ends-audit_commit}

abbrev HasAll : BootstrapClaim → Type 0
HasAll c = (is_empty c.oid || is_empty c.upn || is_empty c.tid) ≡ false

complete : (c : BootstrapClaim) → HasAll c → (id : ℕ) → IsComplete (bootstrap_entry c id)
complete c known id = ground arith

-- The first steward, the audit row and the end of the transaction.
first_steward :
    (c : BootstrapClaim) (known : HasAll c) (driver : Driver) (n : ℕ) (at : Text) (d : Database)
    → Ends driver d
        ((insert_steward c.oid c.upn (codes "bootstrap") >>= λ id.
            write_audit (bootstrap_entry c id) >> (commit >> pure id))
          (within driver n d (Registry.bound c.tid at d)))
        (Registry.appointed c at (driver.strftime_now n) (driver.go_now (suc n)) d)
unfolding insert_steward
first_steward c known driver n at d =
    let make = new_steward c.oid c.upn (codes "bootstrap") (driver.strftime_now n) in
    Ends-exec _ _ (within _ _ _ _) refl
      (elim (Bool-cases (ltb 0 (count_where (holds_oid c.oid) d.stewards.rows))) [
        | inl active ↦ rw active refl
        | inr inactive ↦ rw inactive (elim (Option-cases (insert_row make d.stewards)) [
          | inl full ↦ rw full refl
          | inr ((id, t), added) ↦ rw added (
              Ends-audit_commit (bootstrap_entry c id) id (within _ _ _ _) _ (complete c known id)
                refl)
        ])
      ])

-- With no transaction open before, `Bootstrap` leaves none open and keeps the driver. Its result and
-- the database are those of the registry's `bootstrap` at the times of its calls, or some call of
-- the driver fails, the result is that failure and the database is the old one.
pub bootstrap-Refines :
    (c : BootstrapClaim) (s : Session)
    → s.working ≡ none
    → Refines s (bootstrap c s) (
        Registry.bootstrap
          (s.driver.go_now (suc (suc s.tick)))
          (s.driver.strftime_now (suc (suc (suc s.tick))))
          (s.driver.go_now (suc (suc (suc (suc s.tick)))))
          c
          s.committed)
unfolding bootstrap Registry.bootstrap get_tenant_id bind_tenant insert_steward
bootstrap-Refines c s idle =
    elim (Bool-cases (is_empty c.oid || is_empty c.upn || is_empty c.tid)) [
      | inl missing ↦ rw missing (idle, refl, inr (refl, refl))
      | inr known ↦ rw known (
          Ends-Refines _ s idle (
            Ends-query _ _ _ refl
              (elim (Bool-cases (not (is_empty (null_string s.committed.config.tenant_id)))) [
                | inl taken ↦ rw taken (Ends-raise (within _ _ _ _))
                | inr free ↦ rw free (
                    Ends-now _ (within _ _ _ _)
                      (Ends-exec _ _ (within _ _ _ _) refl (first_steward c known _ _ _ _)))
              ])))
    ]
