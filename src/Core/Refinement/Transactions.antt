-- ===== src/Core/Refinement/Transactions.antt =====
-- The rules by which a transaction is followed, statement by statement. A call of the driver may
-- fail at each of them.
use xensus.Base.{
  suc, ◌≡◌, refl, ◌⊎◌, inl, inr, true, none, some, Option, Option-cases, Bool-cases, Text, arith,
}
use xensus.Sql.{insert_row}
use xensus.Store.Schema.{Database}
use xensus.Store.Session.{
  Driver, Session, Result, ok, err, Error, driver_failure, table_full, Action, ◌>>=◌, ◌>>◌, pure,
  step, raise, exec, begin_tx, commit, rollback, or_rollback, no_rows_as, row_or_none, as_error,
  as_none, query_row, tx, time_now,
}
use xensus.Core.Audit.{AuditEntry, audit_log_row, write_audit}
use xensus.Registry.{logged}
use xensus.Core.Refinement.Statement.{CallFails, Refines}
use xensus.Core.Refinement.Calls.{
  within, bind-ok, bind-err, failed, commit-fails, commit-ok, exec-fails, exec-ok, query_row-fails,
  query_row-ok, write_audit-fails, write_audit-full, write_audit-ok, begin_tx-fails, begin_tx-ok,
  IsComplete,
}

abbrev Ending : {A : Type 0} → Driver → Database → Result A × Session → Result A × Database → Type 0
Ending driver base (ok a, s') t =
    (s'.driver ≡ driver) × (s'.working ≡ none) × (t ≡ (ok a, s'.committed))
Ending driver base (err e, s') t =
    (s'.driver ≡ driver)
    × (s'.committed ≡ base)
    × ((CallFails driver × (e ≡ driver_failure)) ⊎ (t ≡ (err e, base)))

-- The rest of a transaction over `base` ends as `t` says, unless a call of the driver fails.
pub record Ends {A : Type 0} (driver : Driver) (base : Database) (result : Result A × Session)
    (t : Result A × Database) : Type 0 where
  ending : Ending driver base result t

-- What is left to show behind a statement with this outcome, sent in `s`.
abbrev pub After :
    {A B : Type 0} → Session → (A → Action B) → Result (A × Database) → Result B × Database → Type 0
After s k (ok (a, d)) t =
    Ends s.driver s.committed (k a (within s.driver (suc s.tick) s.committed d)) t
After s k (err e) t = t ≡ (err e, s.committed)

module _ {A : Type 0} (s : Session) where
  pub Ends-raise : {e : Error} → Ends {A = A} s.driver s.committed (raise e s) (err e, s.committed)
  Ends-raise = record { ending = (refl, refl, inr refl) }

  pub Ends-rollback :
      (a : A) → Ends s.driver s.committed ((rollback >> pure a) s) (ok a, s.committed)
  unfolding ◌>>=◌ rollback
  Ends-rollback a = record { ending = (refl, refl, refl) }

  pub Ends-commit :
      (a : A) {d : Database}
      → s.working ≡ some d
      → Ends s.driver s.committed ((commit >> pure a) s) (ok a, d)
  Ends-commit a w = elim (Bool-cases (s.driver.fails s.tick)) [
    | inl fails ↦
        rw (bind-err commit _ s (commit-fails s fails))
          (record { ending = (refl, refl, inl ((s.tick, fails), refl)) })
    | inr works ↦
        rw (bind-ok commit _ s (commit-ok s works w)) (record { ending = (refl, refl, refl) })
  ]

module _ {A B : Type 0} where
  Ends-step :
      (r : Result (A × Database)) (k : A → Action B) (m : Action A) (s : Session)
      {t : Result B × Database}
      → m s ≡ step (record s { tick = suc s.tick }) r
      → After s k r t
      → Ends s.driver s.committed ((m >>= k) s) t
  Ends-step (ok (a, d)) k m s e h = rw (bind-ok m k s e) h
  Ends-step (err x) k m s e h = rw (bind-err m k s e) (record { ending = (refl, refl, inr h) })

  pub Ends-exec :
      (f : Text → Database → Result (A × Database)) (k : A → Action B) (s : Session) {d : Database}
      {t : Result B × Database}
      → s.working ≡ some d
      → After s k (f (s.driver.strftime_now s.tick) d) t
      → Ends s.driver s.committed ((exec f >>= k) s) t
  Ends-exec f k s {d} w h = elim (Bool-cases (s.driver.fails s.tick)) [
    | inl fails ↦
        rw (bind-err (exec f) k s (exec-fails f s fails))
          (record { ending = (refl, refl, inl ((s.tick, fails), refl)) })
    | inr works ↦ Ends-step _ k (exec f) s (exec-ok f s works w) h
  ]

-- What is left to show behind a query of `d` with this outcome.
abbrev pub AfterQuery :
    {A B : Type 0} → Session → (A → Action B) → Database → Result A → Result B × Database → Type 0
AfterQuery s k d (ok a) t =
    Ends s.driver s.committed (k a (within s.driver (suc s.tick) s.committed d)) t
AfterQuery s k d (err e) t = t ≡ (err e, s.committed)

module _ {A B : Type 0} (m : Action A) (k : A → Action B) (s : Session) where
  Ends-outcome :
      (r : Result A) {d : Database} {t : Result B × Database}
      → m s ≡ (r, within s.driver (suc s.tick) s.committed d)
      → AfterQuery s k d r t
      → Ends s.driver s.committed ((m >>= k) s) t
  Ends-outcome (ok a) e h = rw (bind-ok m k s e) h
  Ends-outcome (err x) e h = rw (bind-err m k s e) (record { ending = (refl, refl, inr h) })

  Ends-failed :
      {t : Result B × Database}
      → s.driver.fails s.tick ≡ true
      → m s ≡ failed s s.working
      → Ends s.driver s.committed ((m >>= k) s) t
  Ends-failed fails e =
      rw (bind-err m k s e) (record { ending = (refl, refl, inl ((s.tick, fails), refl)) })

module _ {A B : Type 0} (f : Database → Result A) where
  pub Ends-query :
      (k : A → Action B) (s : Session) {d : Database} {t : Result B × Database}
      → s.working ≡ some d
      → AfterQuery s k d (f d) t
      → Ends s.driver s.committed ((query_row tx f >>= k) s) t
  Ends-query k s w h = elim (Bool-cases (s.driver.fails s.tick)) [
    | inl fails ↦ Ends-failed _ k s fails (query_row-fails f s fails)
    | inr works ↦ Ends-outcome _ k s _ (query_row-ok f s works w) h
  ]

  pub Ends-required :
      (e : Error) (k : A → Action B) (s : Session) {d : Database} {t : Result B × Database}
      → s.working ≡ some d
      → AfterQuery s k d (as_error e (f d)) t
      → Ends s.driver s.committed ((no_rows_as e (query_row tx f) >>= k) s) t
  unfolding no_rows_as
  Ends-required e k s w h = elim (Bool-cases (s.driver.fails s.tick)) [
    | inl fails ↦ Ends-failed _ k s fails (rw (query_row-fails f s fails))
    | inr works ↦ Ends-outcome _ k s _ (rw (query_row-ok f s works w)) h
  ]

  pub Ends-optional :
      (k : Option A → Action B) (s : Session) {d : Database} {t : Result B × Database}
      → s.working ≡ some d
      → AfterQuery s k d (as_none (f d)) t
      → Ends s.driver s.committed ((row_or_none (query_row tx f) >>= k) s) t
  unfolding row_or_none
  Ends-optional k s w h = elim (Bool-cases (s.driver.fails s.tick)) [
    | inl fails ↦ Ends-failed _ k s fails (rw (query_row-fails f s fails))
    | inr works ↦ Ends-outcome _ k s _ (rw (query_row-ok f s works w)) h
  ]

-- What is left to show behind the writing of an audit row.
abbrev pub AfterAudit :
    {B : Type 0} → Session → (Unit {0} → Action B) → Option Database → Result B × Database → Type 0
AfterAudit s k none t = t ≡ (err table_full, s.committed)
AfterAudit s k (some d) t =
    Ends s.driver s.committed (k tt (within s.driver (suc s.tick) s.committed d)) t

module _ {B : Type 0} (e : AuditEntry) (k : Unit {0} → Action B) (s : Session) where
  pub Ends-audit :
      {d : Database} {t : Result B × Database}
      → IsComplete e
      → s.working ≡ some d
      → AfterAudit s k (logged e (s.driver.go_now s.tick) d) t
      → Ends s.driver s.committed ((write_audit e >>= k) s) t
  unfolding logged
  Ends-audit {d} complete w h = elim (Bool-cases (s.driver.fails s.tick)) [
    | inl fails ↦ Ends-failed _ k s fails (write_audit-fails e s complete fails)
    | inr works ↦
        elim (Option-cases (insert_row (audit_log_row e (s.driver.go_now s.tick)) d.audit_log)) [
          | inl full ↦
              rw (bind-err _ k s (write_audit-full e s complete works w full))
                (record { ending = (refl, refl, inr (rw full at h)) })
          | inr (row, added) ↦
              rw (bind-ok _ k s (write_audit-ok e s complete works w added)) (rw added at h)
        ]
  ]

Ending-Refines :
    {A : Type 0} (body : Action A) (s s' : Session) {t : Result A × Database}
    → Ends s.driver s.committed (body s') t
    → Refines s (or_rollback body s') t
unfolding or_rollback
Ending-Refines body s s' h = ground (arith, h.ending)

-- Opening the transaction, and the deferred rollback round the rest.
pub Ends-Refines :
    {A : Type 0} (body : Action A) (s : Session) {t : Result A × Database}
    → s.working ≡ none
    → Ends s.driver s.committed (body (within s.driver (suc s.tick) s.committed s.committed)) t
    → Refines s ((begin_tx >> or_rollback body) s) t
Ends-Refines body s idle h = elim (Bool-cases (s.driver.fails s.tick)) [
  | inl fails ↦
      rw (bind-err begin_tx _ s (begin_tx-fails s fails))
        (idle, refl, inl ((s.tick, fails), refl, refl))
  | inr works ↦ rw (bind-ok begin_tx _ s (begin_tx-ok s works)) (Ending-Refines body s _ h)
]

-- A reading of the clock is no call of the driver.
pub Ends-now :
    {A : Type 0} (k : Text → Action A) (s : Session) {t : Result A × Database}
    → Ends s.driver s.committed (k (s.driver.go_now s.tick) s) t
    → Ends s.driver s.committed ((time_now >>= k) s) t
unfolding ◌>>=◌
Ends-now k s h = h
