-- ===== src/Registry/Binding.antt =====
-- The registry: the row of the table config.
use xensus.Base.{◌≡◌, false, arith, is_empty}
use xensus.Sql.{insert_row}
use xensus.Store.Schema.{Database}
use xensus.Store.Systems.{null_string}
use xensus.Registry.Change.{logged}
use xensus.Registry.Persons
use xensus.Registry.Systems
use xensus.Registry.Associations
use xensus.Registry.Stewards
use xensus.Registry.Tenant
use xensus.Registry.Requests.{
  Request, create_person, rename_person, create_system, rename_system, disable_system,
  enable_system, create_association, remove_association, promote_steward, demote_steward,
  cancel_steward_invite, claim_pending_steward, bootstrap, Times, apply,
}

-- No request rebinds the tenant.
pub apply-tenant_id :
    (t : Times) (r : Request) (d : Database)
    → is_empty (null_string d.config.tenant_id) ≡ false
    → (apply t r d).config ≡ d.config
unfolding apply logged insert_row Persons.create_person Persons.rename_person Systems.create_system
    Systems.rename_system Systems.disable_system Systems.enable_system
    Associations.create_association Associations.remove_association Stewards.promote_steward
    Stewards.demote_steward Stewards.cancel_steward_invite Stewards.claim_pending_steward
    Tenant.bootstrap
apply-tenant_id t (create_person a name) d bound = ground arith
apply-tenant_id t (rename_person a id name) d bound = ground arith
apply-tenant_id t (create_system a name) d bound = ground arith
apply-tenant_id t (rename_system a id name) d bound = ground arith
apply-tenant_id t (disable_system a id) d bound = ground arith
apply-tenant_id t (enable_system a id) d bound = ground arith
apply-tenant_id t (create_association a p s foreign_id) d bound = ground arith
apply-tenant_id t (remove_association a p id) d bound = ground arith
apply-tenant_id t (promote_steward a upn) d bound = ground arith
apply-tenant_id t (demote_steward a id) d bound = ground arith
apply-tenant_id t (cancel_steward_invite a id) d bound = ground arith
apply-tenant_id t (claim_pending_steward a) d bound = ground arith
apply-tenant_id t (bootstrap c) d bound = ground arith
