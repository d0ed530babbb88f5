-- ===== src/Registry/Admission.antt =====
-- The registry: what a binding and a claim make of a newcomer.
use xensus.Base.{
  ℕ, suc, ◌<◌, ◌≡◌, true, false, ◌||◌, some, Text, text_eq_refl, is_empty, ltb, arith,
}
use xensus.Sql.{insert_row, select_first, count_where, max_rowid}
use xensus.Store.Schema.{PendingSteward, Database}
use xensus.Store.Session.{ok}
use xensus.Store.Systems.{null_string}
use xensus.Store.Stewards.{holds_oid}
use xensus.Store.PendingStewards.{invites}
use xensus.Core.Audit.{Actor}
use xensus.Core.Bootstrap.{BootstrapClaim}
use xensus.Registry.Change.{logged}
use xensus.Registry.Stewards
use xensus.Registry.Tenant

-- A binding that succeeds binds the claimed tenant.
pub bootstrap-tenant_id :
    (b now at : Text) (c : BootstrapClaim) (d : Database) (id : ℕ)
    → (Tenant.bootstrap b now at c d).0 ≡ ok id
    → (Tenant.bootstrap b now at c d).1.config.tenant_id ≡ some c.tid
unfolding Tenant.bootstrap logged insert_row
bootstrap-tenant_id b now at c d id e = ground (arith, e)

-- The tables of stewards and of audit rows are not full.
pub record HasRoom (d : Database) : Type 0 where
  pub stewards : d.stewards.seq < max_rowid
  pub audit_log : d.audit_log.seq < max_rowid

-- The newcomer's names are given.
abbrev pub IsNamed : Text → Text → Type 0
IsNamed oid upn = (is_empty oid || is_empty upn) ≡ false

-- The first steward holds the role.
pub bootstrap-appoints :
    (b now at : Text) (c : BootstrapClaim) (d : Database)
    → (is_empty c.oid || is_empty c.upn || is_empty c.tid) ≡ false
    → is_empty (null_string d.config.tenant_id) ≡ true
    → ltb 0 (count_where (holds_oid c.oid) d.stewards.rows) ≡ false
    → HasRoom d
    → ((Tenant.bootstrap b now at c d).0 ≡ ok (suc d.stewards.seq))
      × (ltb 0 (count_where (holds_oid c.oid) (Tenant.bootstrap b now at c d).1.stewards.rows)
          ≡ true)
unfolding Tenant.bootstrap logged insert_row count_where
bootstrap-appoints b now at c d named unbound new room =
    let same = text_eq_refl c.oid in
    ground (arith, named, unbound, new, room.stewards, room.audit_log, same)

-- A claim leaves the config row alone.
pub claim-config :
    (now at : Text) (a : Actor) (d : Database)
    → (Stewards.claim_pending_steward now at a d).1.config ≡ d.config
unfolding Stewards.claim_pending_steward logged insert_row
claim-config now at a d = ground arith

-- Who claims an invitation holds the role.
pub claim-appoints :
    (now at : Text) (a : Actor) (d : Database) (p : PendingSteward)
    → IsNamed a.oid a.upn
    → select_first (invites a.upn) d.pending_stewards.rows ≡ some p
    → HasRoom d
    → ltb 0
        (count_where (holds_oid a.oid) (Stewards.claim_pending_steward now at a d).1.stewards.rows)
      ≡ true
unfolding Stewards.claim_pending_steward logged insert_row count_where
claim-appoints now at a d p named invited room =
    let same = text_eq_refl a.oid in
    ground (arith, named, invited, room.stewards, room.audit_log, same)

-- A claim takes the role from nobody.
pub claim-keeps :
    (now at : Text) (a : Actor) (oid : Text) (d : Database)
    → ltb 0 (count_where (holds_oid oid) d.stewards.rows) ≡ true
    → ltb 0
        (count_where (holds_oid oid) (Stewards.claim_pending_steward now at a d).1.stewards.rows)
      ≡ true
unfolding Stewards.claim_pending_steward logged insert_row count_where
claim-keeps now at a oid d active = ground (arith, active)
