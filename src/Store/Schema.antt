-- ===== src/Store/Schema.antt =====
-- migrations/0001_initial.sql: a record for each table's rows, and the database. Columns that may
-- be NULL are options. The indexes that are not UNIQUE have no counterpart.
use xensus.Base.{ℕ, Option, List, Text}
use xensus.Sql.{Table}

pub record Config : Type 0 where
  pub tenant_id : Option Text
  pub schema_version : ℕ
  pub bootstrapped_at : Option Text

-- Also the struct `Person` of store/persons.go: no column may be NULL.
pub record Person : Type 0 where
  pub id : ℕ
  pub name : Text
  pub created_at : Text
  pub created_by : Text
  pub updated_at : Text
  pub updated_by : Text

pub record SystemRow : Type 0 where
  pub id : ℕ
  pub name : Text
  pub created_at : Text
  pub created_by : Text
  pub updated_at : Text
  pub updated_by : Text
  pub disabled_at : Option Text
  pub disabled_by : Option Text

pub record AssociationRow : Type 0 where
  pub id : ℕ
  pub person_id : ℕ
  pub system_id : ℕ
  pub foreign_id : Text
  pub created_at : Text
  pub created_by : Text

pub record StewardRow : Type 0 where
  pub id : ℕ
  pub user_oid : Text
  pub user_upn : Text
  pub promoted_at : Text
  pub promoted_by : Text
  pub removed_at : Option Text
  pub removed_by : Option Text

-- Also the struct `PendingSteward` of store/pending_stewards.go.
pub record PendingSteward : Type 0 where
  pub id : ℕ
  pub user_upn : Text
  pub invited_at : Text
  pub invited_by : Text

-- The values of the JSON object in the column `details`.
pub data Value : Type 0 where
  text : Text → Value
  number : ℕ → Value

abbrev pub Details : Type 0
Details = List (Text × Value)

pub record AuditLogRow : Type 0 where
  pub id : ℕ
  pub occurred_at : Text
  pub actor_oid : Text
  pub actor_upn : Text
  pub action : Text
  pub entity_type : Text
  pub entity_id : Option ℕ
  pub details : Option Details

pub record Database : Type 0 where
  pub config : Config
  pub persons : Table Person
  pub systems : Table SystemRow
  pub associations : Table AssociationRow
  pub stewards : Table StewardRow
  pub pending_stewards : Table PendingSteward
  pub audit_log : Table AuditLogRow
