-- ===== src/Registry/Governance.antt =====
-- The registry: whom the requests come from, and that a bound deployment has a steward.
use xensus.Base.{◌<◌, ◌≤◌, ◌≡◌, ◌⊎◌, inr, Bool, true, List, [], ◌∷◌, Text, is_empty, arith}
use xensus.Sql.{count_where, insert_row}
use xensus.Store.Schema.{StewardRow, Database}
use xensus.Store.Systems.{is_null, null_string}
use xensus.Store.Stewards.{holds_oid}
use xensus.Core.Audit.{Actor}
use xensus.Core.Bootstrap.{BootstrapClaim}
use xensus.Registry.Change.{logged}
use xensus.Registry.Stewards
use xensus.Registry.Tenant
use xensus.Registry.Requests.{Request, claim_pending_steward, bootstrap, actor_of, Times, apply}
use xensus.Registry.Valid.{HasIds}
use xensus.Registry.Stewardship.{active_rows, apply-active_rows}

abbrev pub is_active : StewardRow → Bool
is_active r = is_null r.removed_at

abbrev pub HasSteward : Database → Type 0
HasSteward d = 0 < count_where is_active d.stewards.rows

-- No tenant is bound yet, or there is a steward.
abbrev pub Governed : Database → Type 0
Governed d = (is_empty (null_string d.config.tenant_id) ≡ true) ⊎ HasSteward d

-- What a sign-in asks for, and what a steward asks for.
pub data Asks : Request → Database → Type 0 where
  signs_up : {c : BootstrapClaim} → {d : Database} → Asks (bootstrap c) d
  claims : {a : Actor} → {d : Database} → Asks (claim_pending_steward a) d
  stewards : {r : Request} → {d : Database} → 0 < active_rows (actor_of r).oid d → Asks r d

pub active_rows-le :
    (oid : Text) (rows : List StewardRow)
    → count_where (holds_oid oid) rows ≤ count_where is_active rows
unfolding count_where
active_rows-le oid [] = omega arith
active_rows-le oid (r ∷ rows) = ground (arith, active_rows-le oid rows)

bootstrap-Governed :
    (b now at : Text) (c : BootstrapClaim) (d : Database)
    → Governed d
    → Governed (Tenant.bootstrap b now at c d).1
unfolding Tenant.bootstrap logged insert_row count_where
bootstrap-Governed b now at c d g = ground (arith, g)

claim-Governed :
    (now at : Text) (a : Actor) (d : Database)
    → Governed d
    → Governed (Stewards.claim_pending_steward now at a d).1
unfolding Stewards.claim_pending_steward logged insert_row count_where
claim-Governed now at a d g = ground (arith, g)

-- A request of a sign-in or of a steward leaves no bound deployment without a steward.
pub apply-Governed :
    (t : Times) (r : Request) (d : Database)
    → HasIds d
    → Asks r d
    → Governed d
    → Governed (apply t r d)
unfolding apply
apply-Governed t (bootstrap c) d ids signs_up g = bootstrap-Governed t.bound_at t.now t.at c d g
apply-Governed t (claim_pending_steward a) d ids claims g = claim-Governed t.now t.at a d g
apply-Governed t r d ids (stewards h) g =
    let oid = (actor_of r).oid in
    let d' = apply t r d in
    inr (omega (arith, h, apply-active_rows t r d ids, active_rows-le oid d'.stewards.rows))
