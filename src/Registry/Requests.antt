-- ===== src/Registry/Requests.antt =====
-- The operations of package core as one type of requests, and what they make of the database.
use xensus.Base.{ℕ, Text}
use xensus.Store.Schema.{Database}
use xensus.Core.Audit.{Actor}
use xensus.Core.Bootstrap.{BootstrapClaim}
use xensus.Registry.Persons
use xensus.Registry.Systems
use xensus.Registry.Associations
use xensus.Registry.Stewards
use xensus.Registry.Tenant

pub data Request : Type 0 where
  create_person create_system promote_steward : Actor → Text → Request
  rename_person rename_system : Actor → ℕ → Text → Request
  disable_system enable_system demote_steward cancel_steward_invite : Actor → ℕ → Request
  create_association : Actor → ℕ → ℕ → Text → Request
  remove_association : Actor → ℕ → ℕ → Request
  claim_pending_steward : Actor → Request
  bootstrap : BootstrapClaim → Request

-- Who asks.
abbrev pub actor_of : Request → Actor
actor_of (create_person a _) = a
actor_of (create_system a _) = a
actor_of (promote_steward a _) = a
actor_of (rename_person a _ _) = a
actor_of (rename_system a _ _) = a
actor_of (disable_system a _) = a
actor_of (enable_system a _) = a
actor_of (demote_steward a _) = a
actor_of (cancel_steward_invite a _) = a
actor_of (create_association a _ _ _) = a
actor_of (remove_association a _ _) = a
actor_of (claim_pending_steward a) = a
actor_of (bootstrap c) = record { oid = c.oid; upn = c.upn }

-- The times that a request may write: of the binding, of the change, of the audit row.
pub record Times : Type 0 where
  pub bound_at : Text
  pub now : Text
  pub at : Text

-- The database after a request.
unfoldable pub apply : Times → Request → Database → Database
apply t (create_person a name) d = (Persons.create_person t.now t.at a name d).1
apply t (rename_person a id name) d = (Persons.rename_person t.now t.at a id name d).1
apply t (create_system a name) d = (Systems.create_system t.now t.at a name d).1
apply t (rename_system a id name) d = (Systems.rename_system t.now t.at a id name d).1
apply t (disable_system a id) d = (Systems.disable_system t.now t.at a id d).1
apply t (enable_system a id) d = (Systems.enable_system t.now t.at a id d).1
apply t (create_association a p s foreign_id) d =
    (Associations.create_association t.now t.at a p s foreign_id d).1
apply t (remove_association a p id) d = (Associations.remove_association t.at a p id d).1
apply t (promote_steward a upn) d = (Stewards.promote_steward t.now t.at a upn d).1
apply t (demote_steward a id) d = (Stewards.demote_steward t.now t.at a id d).1
apply t (cancel_steward_invite a id) d = (Stewards.cancel_steward_invite t.at a id d).1
apply t (claim_pending_steward a) d = (Stewards.claim_pending_steward t.now t.at a d).1
apply t (bootstrap c) d = (Tenant.bootstrap t.bound_at t.now t.at c d).1
