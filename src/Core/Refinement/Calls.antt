-- ===== src/Core/Refinement/Calls.antt =====
-- What each call of the driver does in a transaction, when it fails and when it does not.
use xensus.Base.{ℕ, suc, ◌≡◌, refl, true, false, ◌||◌, ◌∙◌, none, some, Option, is_empty, Text}
use xensus.Sql.{Table, insert_row}
use xensus.Store.Schema.{Database, AuditLogRow}
use xensus.Store.Session.{
  Driver, Session, Result, ok, err, Error, driver_failure, table_full, Action, ◌>>=◌, step, exec,
  begin_tx, commit, query_row, tx, keep,
}
use xensus.Core.Audit.{AuditEntry, audit_log_row, write_audit}

-- The session in a transaction: before its call `n`, with `base` committed and `d` in the making.
abbrev pub within : Driver → ℕ → Database → Database → Session
within driver n base d = record { driver = driver; tick = n; committed = base; working = some d }

module _ {A B : Type 0} (m : Action A) (k : A → Action B) (s : Session) {s' : Session} where
  pub bind-ok : {a : A} → m s ≡ (ok a, s') → (m >>= k) s ≡ k a s'
  unfolding ◌>>=◌
  bind-ok e = rw (◌>>=◌, e)

  pub bind-err : {e : Error} → m s ≡ (err e, s') → (m >>= k) s ≡ (err e, s')
  unfolding ◌>>=◌
  bind-err e = rw (◌>>=◌, e)

-- A call of the driver that fails.
abbrev pub failed : {A : Type 0} → Session → Option Database → Result A × Session
failed s w = (err driver_failure, record s { tick = suc s.tick; working = w })

pub commit-fails : (s : Session) → s.driver.fails s.tick ≡ true → commit s ≡ failed s none
unfolding commit
commit-fails s h = rw h

pub commit-ok :
    (s : Session) {d : Database}
    → s.driver.fails s.tick ≡ false
    → s.working ≡ some d
    → commit s ≡ (ok tt, record s { tick = suc s.tick; committed = d; working = none })
unfolding commit
commit-ok s h w = rw (h, w)

module _ {A : Type 0} (f : Text → Database → Result (A × Database)) (s : Session) where
  pub exec-fails : s.driver.fails s.tick ≡ true → exec f s ≡ failed s s.working
  unfolding exec
  exec-fails h = rw h

  pub exec-ok :
      {d : Database}
      → s.driver.fails s.tick ≡ false
      → s.working ≡ some d
      → exec f s ≡ step (record s { tick = suc s.tick }) (f (s.driver.strftime_now s.tick) d)
  unfolding exec
  exec-ok h w = rw (h, w)

module _ {A : Type 0} (f : Database → Result A) (s : Session) where
  pub query_row-fails : s.driver.fails s.tick ≡ true → query_row tx f s ≡ failed s s.working
  unfolding query_row
  query_row-fails h = exec-fails _ s h

  step-keep :
      (r : Result A) {d : Database}
      → s.working ≡ some d
      → step (record s { tick = suc s.tick }) (keep d r)
        ≡ (r, within s.driver (suc s.tick) s.committed d)
  step-keep (ok a) w = refl
  step-keep (err e) w = rw w

  pub query_row-ok :
      {d : Database}
      → s.driver.fails s.tick ≡ false
      → s.working ≡ some d
      → query_row tx f s ≡ (f d, within s.driver (suc s.tick) s.committed d)
  unfolding query_row
  query_row-ok {d} h w = exec-ok _ s h w ∙ step-keep (f d) w

-- An entry that `WriteAudit` accepts.
abbrev pub IsComplete : AuditEntry → Type 0
IsComplete e = (is_empty e.action || is_empty e.entity_type || is_empty e.actor.oid) ≡ false

module _ (e : AuditEntry) (s : Session) (complete : IsComplete e) where
  pub write_audit-fails : s.driver.fails s.tick ≡ true → write_audit e s ≡ failed s s.working
  unfolding write_audit ◌>>=◌
  write_audit-fails h = rw (complete, exec-fails _ s h)

  module _ {d : Database} (works : s.driver.fails s.tick ≡ false) (w : s.working ≡ some d) where
    pub write_audit-full :
        insert_row (audit_log_row e (s.driver.go_now s.tick)) d.audit_log ≡ none
        → write_audit e s ≡ (err table_full, within s.driver (suc s.tick) s.committed d)
    unfolding write_audit ◌>>=◌
    write_audit-full full = rw (complete, exec-ok _ s works w, full, w)

    pub write_audit-ok :
        {row : ℕ × Table AuditLogRow}
        → insert_row (audit_log_row e (s.driver.go_now s.tick)) d.audit_log ≡ some row
        → write_audit e s
          ≡ (ok tt, within s.driver (suc s.tick) s.committed (record d { audit_log = row.1 }))
    unfolding write_audit ◌>>=◌
    write_audit-ok added = rw (complete, exec-ok _ s works w, added)

pub begin_tx-fails : (s : Session) → s.driver.fails s.tick ≡ true → begin_tx s ≡ failed s s.working
unfolding begin_tx
begin_tx-fails s h = rw h

pub begin_tx-ok :
    (s : Session)
    → s.driver.fails s.tick ≡ false
    → begin_tx s ≡ (ok tt, within s.driver (suc s.tick) s.committed s.committed)
unfolding begin_tx
begin_tx-ok s h = rw h
