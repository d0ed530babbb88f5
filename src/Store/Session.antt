-- ===== src/Store/Session.antt =====
-- A database handle as core/*.go use it: the committed database, the transaction that is open, and
-- the driver with its clock. Every call of the driver may fail, and the driver decides which.
use xensus.Base.{ℕ, suc, Bool, Option, none, some, Text, if◌then◌else◌}
use xensus.Sql.{Table}
use xensus.Store.Schema.{Database}

-- What modernc.org/sqlite and the clocks answer to the n-th call of a session. `strftime_now` is
-- SQLite's strftime('…', 'now') and `go_now` Go's time.Now, each as the text that is stored.
pub record Driver : Type 0 where
  pub fails : ℕ → Bool
  pub strftime_now : ℕ → Text
  pub go_now : ℕ → Text

-- The sentinels of core/errors.go and sql.ErrNoRows, by which callers distinguish an error
-- (`errors.Is` looks through the wrapping of `%w`), and the others: a missing argument, a violated
-- constraint or a full table, a statement with no open transaction, a failure of the driver.
pub data Error : Type 0 where
  already_bound not_found name_required upn_required already_steward already_invited : Error
  self_removal no_rows missing_argument constraint table_full tx_done driver_failure : Error

pub data Result {ℓ} (A : Type ℓ) : Type ℓ where
  ok : A → Result A
  err : Error → Result A

pub record Session : Type 0 where
  pub driver : Driver
  pub tick : ℕ
  pub committed : Database
  pub working : Option Database

abbrev pub Action : Type 0 → Type 0
Action A = Session → Result A × Session

abbrev pub and_then : {A B : Type 0} → (A → Action B) → Result A × Session → Result B × Session
and_then f (ok a, s) = f a s
and_then f (err e, s) = (err e, s)

infixl 5 ◌>>=◌ ◌>>◌
unfoldable pub ◌>>=◌ : {A B : Type 0} → Action A → (A → Action B) → Action B
◌>>=◌ m f s = and_then f (m s)

abbrev pub ◌>>◌ : {A B : Type 0} → Action A → Action B → Action B
m >> k = m >>= λ _. k

module _ {A : Type 0} where
  abbrev pub pure : A → Action A
  pure a s = (ok a, s)

  abbrev pub raise : Error → Action A
  raise e s = (err e, s)

  -- A call of the driver that does not fail.
  abbrev pub or_driver_failure : Action A → Action A
  or_driver_failure m s =
      let s' = record s { tick = suc s.tick } in
      if s.driver.fails s.tick then (err driver_failure, s') else m s'

  abbrev pub step : Session → Result (A × Database) → Result A × Session
  step s (ok (a, db)) = (ok a, record s { working = some db })
  step s (err e) = (err e, s)

  abbrev pub on_working : (Database → Result (A × Database)) → Option Database → Action A
  on_working f none s = (err tx_done, s)
  on_working f (some db) s = step s (f db)

  -- `tx.ExecContext`: the statement sees the transaction's database and the clock's time.
  unfoldable pub exec : (Text → Database → Result (A × Database)) → Action A
  exec f s = or_driver_failure (λ s'. on_working (f (s.driver.strftime_now s.tick)) s'.working s') s

-- `Scan` of the row that `QueryRow` found
abbrev pub scanned : {R A : Type 0} → (R → A) → Option R → Result A
scanned scan none = err no_rows
scanned scan (some r) = ok (scan r)

-- The handle that a `rowQueryer` is.
pub data RowQueryer : Type 0 where
  db tx : RowQueryer

abbrev pub keep : {A : Type 0} → Database → Result A → Result (A × Database)
keep d (ok a) = ok (a, d)
keep d (err e) = err e

-- `QueryRowContext` with its `Scan`, on the committed database or in the transaction.
unfoldable pub query_row : {A : Type 0} → RowQueryer → (Database → Result A) → Action A
query_row db f = or_driver_failure (λ s. (f s.committed, s))
query_row tx f = exec (λ _ d. keep d (f d))

-- The id and the table of an `INSERT`.
abbrev pub inserted :
    {R : Type 0} → (Table R → Database) → Option (ℕ × Table R) → Result (ℕ × Database)
inserted set none = err table_full
inserted set (some (id, t)) = ok (id, set t)

-- `db.BeginTx`
unfoldable pub begin_tx : Action (Unit {0})
begin_tx = or_driver_failure (λ s. (ok tt, record s { working = some s.committed }))

-- `tx.Rollback`, whose result the program ignores
unfoldable pub rollback : Action (Unit {0})
rollback s = (ok tt, record s { working = none })

abbrev publish : Option Database → Action (Unit {0})
publish none s = (err tx_done, s)
publish (some d) s = (ok tt, record s { committed = d; working = none })

-- `tx.Commit`. When it fails, nothing is committed and the transaction is over.
unfoldable pub commit : Action (Unit {0})
commit s =
    let s' = record s { tick = suc s.tick } in
    if s.driver.fails s.tick
    then (err driver_failure, record s' { working = none })
    else publish s.working s'

abbrev pub rolled_back : {A : Type 0} → Result A × Session → Result A × Session
rolled_back (ok a, s) = (ok a, s)
rolled_back (err e, s) = (err e, (rollback s).1)

-- `defer func() { if err != nil { _ = tx.Rollback() } }()` in front of the rest of a function
unfoldable pub or_rollback : {A : Type 0} → Action A → Action A
unfolding rollback
or_rollback body s = rolled_back (body s)

abbrev pub as_error : {A : Type 0} → Error → Result A → Result A
as_error e (err no_rows) = err e
as_error e r = r

-- `if errors.Is(err, sql.ErrNoRows) { return …, e }` after a query
unfoldable pub no_rows_as : {A : Type 0} → Error → Action A → Action A
no_rows_as e m s = (as_error e (m s).0, (m s).1)

abbrev pub as_none : {A : Type 0} → Result A → Result (Option A)
as_none (ok a) = ok (some a)
as_none (err no_rows) = ok none
as_none (err e) = err e

-- A query whose missing row is no error to the caller.
unfoldable pub row_or_none : {A : Type 0} → Action A → Action (Option A)
row_or_none m s = (as_none (m s).0, (m s).1)

-- `time.Now().UTC().Format(…)`
abbrev pub time_now : Action Text
time_now s = (ok (s.driver.go_now s.tick), s)
