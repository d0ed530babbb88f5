-- ===== src/Registry/Change.antt =====
-- A change with its audit row.
use xensus.Base.{Option, none, some, Text}
use xensus.Sql.{insert_row}
use xensus.Store.Schema.{Database}
use xensus.Store.Session.{Result, ok, err, table_full}
use xensus.Core.Audit.{AuditEntry, audit_log_row}

infixl 5 ◌>>=◌
abbrev pub ◌>>=◌ {ℓ κ} : {A : Type ℓ} {B : Type κ} → Option A → (A → Option B) → Option B
none >>= f = none
some a >>= f = f a

-- The change, or nothing if one of the tables is full.
abbrev pub all_or_nothing : {A : Type 0} → Database → Option (A × Database) → Result A × Database
all_or_nothing d none = (err table_full, d)
all_or_nothing d (some (a, d')) = (ok a, d')

-- The database with one more row in its audit log.
unfoldable pub logged : AuditEntry → Text → Database → Option Database
logged e at d = do
  (_, t) ← insert_row (audit_log_row e at) d.audit_log
  some (record d { audit_log = t })
