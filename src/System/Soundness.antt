-- ===== src/System/Soundness.antt =====
-- core/*.go, auth/*.go, api/*.go and web/*.go together: what holds in every state of a deployment.
use xensus.Base.{◌≡◌, refl, ◌⊎◌, true, false, Bool-cases, inl, inr, some, [], is_empty}
use xensus.Store.Schema.{Database}
use xensus.Store.Systems.{null_string}
use xensus.Registry.Requests.{Request, Times, apply}
use xensus.Registry.Valid.{HasIds, apply-HasIds}
use xensus.Registry.Links.{HasLinks, apply-HasLinks}
use xensus.Registry.Roles.{HasUniqueRoles, apply-HasUniqueRoles}
use xensus.Registry.Governance.{Asks, Governed, HasSteward, apply-Governed}
use xensus.Core.History.{Extends, apply-Extends}
use xensus.Auth.World.{World}
use xensus.Auth.Binding.{Agrees}
use xensus.System.Moves.{Moves-keep}
use xensus.System.Agreement.{Moves-config, remembers, Reaches-Agrees}
use xensus.System.Steps.{Reaches}

-- The tables are well formed: IDs fall from the newest row, associations link what is
-- registered, no identity has two active roles and no UPN two invitations, and a bound deployment
-- has a steward.
pub record Sound (d : Database) : Type 0 where
  pub ids : HasIds d
  pub links : HasLinks d
  pub roles : HasUniqueRoles d
  pub governed : Governed d

apply-Sound : (t : Times) (r : Request) (d : Database) → Asks r d → Sound d → Sound (apply t r d)
apply-Sound t r d asks h = record {
  ids = apply-HasIds t r d h.ids;
  links = apply-HasLinks t r d h.links;
  roles = apply-HasUniqueRoles t r d h.roles;
  governed = apply-Governed t r d h.ids asks h.governed;
}

governs :
    (d : Database) → Governed d → is_empty (null_string d.config.tenant_id) ≡ false → HasSteward d
governs d (inl unbound) bound = absurd (let e = unbound in cc)
governs d (inr some_one) bound = some_one

-- Where no transaction is open, the process remembers no tenant or the one in the database, and the
-- tables are well formed: every table's IDs fall from the newest row, whose ID is at most the counter,
-- associations link what is registered, no identity has two active roles and no UPN two invitations,
-- and a bound deployment has a steward. Then the same holds after any sign-ins, requests to the API,
-- forms, pages, health checks and restarts, whatever the requests bring, the provider answers and the
-- driver fails at.
pub Reaches-IsSound :
    (w w' : World)
    → Agrees w
    → Sound w.session.committed
    → Reaches w w'
    → Agrees w' × Sound w'.session.committed
Reaches-IsSound w w' agrees sound reaches =
    let (agrees', moves) = Reaches-Agrees reaches agrees in
    (agrees', (Moves-keep Sound apply-Sound moves agrees.idle sound).1)

-- Where no transaction is open, the process remembers no tenant or the one in the database, the tables
-- have their IDs, links and unique roles and a bound deployment has a steward: a process that remembers
-- a tenant after any sign-ins, requests to the API, forms, pages, health checks and restarts has that
-- tenant in its database, and a steward.
pub Reaches-HasSteward :
    (w w' : World)
    → Agrees w
    → Sound w.session.committed
    → Reaches w w'
    → is_empty w'.tenant ≡ false
    → (w'.session.committed.config.tenant_id ≡ some w'.tenant) × HasSteward w'.session.committed
Reaches-HasSteward w w' agrees sound reaches bound =
    let (agrees', sound') = Reaches-IsSound w w' agrees sound reaches in
    let (known, e) = remembers w' agrees'.tenant bound in
    (e, governs w'.session.committed sound'.governed known)

-- Where no transaction is open and the process remembers no tenant or the one in the database, any
-- sign-ins, requests to the API, forms, pages, health checks and restarts leave the audit rows before
-- as the oldest of the rows after, unchanged, and the config row as it is unless no tenant was bound.
pub Reaches-IsPermanent :
    (w w' : World)
    → Agrees w
    → Reaches w w'
    → Extends w.session.committed.audit_log.rows w'.session.committed.audit_log.rows
      × ((is_empty (null_string w.session.committed.config.tenant_id) ≡ true)
          ⊎ (w'.session.committed.config ≡ w.session.committed.config))
Reaches-IsPermanent w w' agrees reaches =
    let base = w.session.committed.audit_log.rows in
    let (agrees', moves) = Reaches-Agrees reaches agrees in
    (
      (Moves-keep (λ d. Extends base d.audit_log.rows) (λ t r d _. apply-Extends base t r d) moves
          agrees.idle ([], refl)).1,
      elim (Bool-cases (is_empty (null_string w.session.committed.config.tenant_id))) [
        | inl unbound ↦ inl unbound
        | inr bound ↦ inr (Moves-config moves agrees.idle bound)
      ],
    )
