-- ===== src/Registry/Logged.antt =====
-- The registry: the tables beside the audit log when a row is added to it.
use xensus.Base.{◌≡◌, some, Text, arith}
use xensus.Store.Schema.{Database}
use xensus.Core.Audit.{AuditEntry}
use xensus.Registry.Change.{logged}

-- All but the audit log.
pub record SameData (d d' : Database) : Type 0 where
  pub config : d'.config ≡ d.config
  pub persons : d'.persons ≡ d.persons
  pub systems : d'.systems ≡ d.systems
  pub associations : d'.associations ≡ d.associations
  pub stewards : d'.stewards ≡ d.stewards
  pub pending_stewards : d'.pending_stewards ≡ d.pending_stewards

pub logged-SameData :
    (e : AuditEntry) (at : Text) (d : Database) {d' : Database}
    → logged e at d ≡ some d'
    → SameData d d'
unfolding logged
logged-SameData e at d h = ground arith
