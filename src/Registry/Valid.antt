-- ===== src/Registry/Valid.antt =====
-- The registry: the IDs of all tables.
use xensus.Base.{suc, arith}
use xensus.Sql.{insert_row}
use xensus.Store.Schema.{
  Person, SystemRow, AssociationRow, StewardRow, PendingSteward, AuditLogRow, Database,
}
use xensus.Registry.Change.{logged}
use xensus.Registry.Identity.{Falls, Falls-update_where, Falls-delete_where}
use xensus.Registry.Persons
use xensus.Registry.Systems
use xensus.Registry.Associations
use xensus.Registry.Stewards
use xensus.Registry.Tenant
use xensus.Registry.Requests.{
  Request, create_person, rename_person, create_system, rename_system, disable_system,
  enable_system, create_association, remove_association, promote_steward, demote_steward,
  cancel_steward_invite, claim_pending_steward, bootstrap, Times, apply,
}

-- Every table's IDs are distinct and at most its AUTOINCREMENT counter; newer rows have larger ones.
pub record HasIds (d : Database) : Type 0 where
  pub persons : Falls (λ (p : Person). p.id) (suc d.persons.seq) d.persons.rows
  pub systems : Falls (λ (r : SystemRow). r.id) (suc d.systems.seq) d.systems.rows
  pub associations :
      Falls (λ (a : AssociationRow). a.id) (suc d.associations.seq) d.associations.rows
  pub stewards : Falls (λ (r : StewardRow). r.id) (suc d.stewards.seq) d.stewards.rows
  pub pending_stewards :
      Falls (λ (p : PendingSteward). p.id) (suc d.pending_stewards.seq) d.pending_stewards.rows
  pub audit_log : Falls (λ (r : AuditLogRow). r.id) (suc d.audit_log.seq) d.audit_log.rows

pub apply-HasIds : (t : Times) (r : Request) (d : Database) → HasIds d → HasIds (apply t r d)
unfolding apply logged insert_row Persons.create_person Persons.rename_person Systems.create_system
    Systems.rename_system Systems.disable_system Systems.enable_system
    Associations.create_association Associations.remove_association Stewards.promote_steward
    Stewards.demote_steward Stewards.cancel_steward_invite Stewards.claim_pending_steward
    Tenant.bootstrap
apply-HasIds t (create_person a name) d h = ground arith
apply-HasIds t (rename_person a id name) d h = grind (arith, Falls-update_where)
apply-HasIds t (create_system a name) d h = ground arith
apply-HasIds t (rename_system a id name) d h = grind (arith, Falls-update_where)
apply-HasIds t (disable_system a id) d h = grind (arith, Falls-update_where)
apply-HasIds t (enable_system a id) d h = grind (arith, Falls-update_where)
apply-HasIds t (create_association a p s foreign_id) d h = ground arith
apply-HasIds t (remove_association a p id) d h = grind (arith, Falls-delete_where)
apply-HasIds t (promote_steward a upn) d h = ground arith
apply-HasIds t (demote_steward a id) d h = grind (arith, Falls-update_where)
apply-HasIds t (cancel_steward_invite a id) d h = grind (arith, Falls-delete_where)
apply-HasIds t (claim_pending_steward a) d h = grind (arith, Falls-delete_where)
apply-HasIds t (bootstrap c) d h = ground arith
