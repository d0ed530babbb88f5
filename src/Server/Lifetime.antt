-- ===== src/Server/Lifetime.antt =====
-- main.go, server.go: a process from its start to its end.
use xensus.Base.{
  ℕ, ◌≡◌, refl, ◌∙◌, ap, ◌⊎◌, inl, inr, Bool, true, false, Option, none, some, List, [], ◌∷◌, Text,
}
use xensus.Store.Schema.{Database}
use xensus.Store.Session.{Session, Driver, Result, ok, err}
use xensus.Store.Tenant.{bound_tenant_id}
use xensus.Config.{Config, ConfigError, require_oidc}
use xensus.Auth.World.{World}
use xensus.Auth.Known.{Same}
use xensus.Auth.Binding.{Agrees, bound_tenant_id-keeps}
use xensus.Auth.Startup.{Keys}
use xensus.Auth.Setup.{Provider, SetupError, Started, with_tenant, with_config, new, new-Agrees}
use xensus.System.Agreement.{health-Same}
use xensus.System.Steps.{opened}
use xensus.System.Soundness.{Sound}
use xensus.Server.Routes.{
  Site, Target, get_health, post_logout, get_static, get_login, get_callback, api_read, api_write,
  get_page, post_form, Arrival, dispatch_bare, dispatch, dispatch_all,
}
use xensus.Server.Running.{IsHealthy, dispatch_all-IsHealthy}
use xensus.Server.Run.{
  RunError, Ending, result_of, Process, Wiring, process_of, registered, ended, run,
}

with_tenant-keeps :
    (keys : Keys) (n : ℕ) (o : Option Provider) (cfg : Config) (x : Result Text × Session)
    → (with_tenant keys n o cfg x).1 ≡ x.1
with_tenant-keeps keys n o cfg (err e, s) = refl
with_tenant-keeps keys n o cfg (ok tid, s) = refl

with_config-Same :
    (keys : Keys) (n : ℕ) (o : Option Provider) (cfg : Config) (e : Option ConfigError)
    (s : Session)
    → Same s (with_config keys n o cfg e s).1
with_config-Same keys n o cfg (some e) s = (refl, refl)
with_config-Same keys n o cfg none s =
    rw (with_tenant-keeps keys n o cfg (bound_tenant_id s)) (bound_tenant_id-keeps s)

new-Same :
    (keys : Keys) (n : ℕ) (o : Option Provider) (cfg : Config) (s : Session)
    → Same s (new keys n o cfg s).1
unfolding new
new-Same keys n o cfg s = with_config-Same keys n o cfg (require_oidc cfg) s

-- A process that starts remembers no tenant or the one in the database, and finds the database as it was.
process_of-Agrees :
    (keys : Keys) (n : ℕ) (o : Option Provider) (cfg : Config) (wire : Wiring) (s : Session)
    (x : SetupError ⊎ Started)
    → s.working ≡ none
    → (new keys n o cfg s).0 ≡ x
    → let p = process_of wire (x, (new keys n o cfg s).1) in
      Agrees p.world × (p.world.session.committed ≡ s.committed)
process_of-Agrees keys n o cfg wire s (inl e) idle made =
    let same = new-Same keys n o cfg s in
    (record { idle = same.1 ∙ idle; tenant = inl refl }, same.0)
process_of-Agrees keys n o cfg wire s (inr st) idle made =
    let (_, agrees, kept) = new-Agrees keys n o cfg s st idle made in (agrees, kept)

-- A process that has come up is one that had started.
registered-Same :
    (parsed : Bool) (p : Process)
    → ((e : RunError) × (registered parsed p ≡ inl e)) ⊎ (registered parsed p ≡ inr p)
registered-Same parsed p = with_site parsed p p.site refl
  where
    with_site :
        (parsed : Bool) (p : Process) (site : Option Site)
        → p.site ≡ site
        → ((e : RunError) × (registered parsed p ≡ inl e)) ⊎ (registered parsed p ≡ inr p)
    with_site parsed p none e = rw e (inr refl)
    with_site true p (some site) e = rw e (inr refl)
    with_site false p (some site) e = rw e (inl (_, refl))

-- Where the tables of a database are well formed (every table's IDs fall from the newest row, whose ID
-- is at most the counter, associations link what is registered, no identity has two active roles and
-- no UPN two invitations, and a bound deployment has a steward), `Run` on it fails before it listens,
-- or it serves any requests one after the other, whatever they bring, the provider answers and the
-- driver fails at: it ends as the listener does, with well-formed tables, and the process remembers
-- no tenant, or it remembers the one in the database and there is a steward.
pub run-IsHealthy :
    (keys : Keys) (n : ℕ) (discovered : Option Provider) (cfg : Config) (wire : Wiring)
    (parsed : Bool) (driver : Driver) (d : Database) (rs : List Arrival) (ending : Ending)
    → Sound d
    → let done = run keys n discovered cfg wire parsed (inr (opened driver d)) rs ending in
      ((e : RunError) × (done ≡ (some e, none)))
      ⊎ ((w : World) × (done ≡ (result_of ending, some w)) × IsHealthy w)
unfolding run
run-IsHealthy keys n discovered cfg wire parsed driver d rs ending sound =
    let s = opened driver d in
    let p = process_of wire (new keys n discovered cfg s) in
    let (agrees, kept) =
      process_of-Agrees keys n discovered cfg wire s (new keys n discovered cfg s).0 refl refl in
    let sound' : Sound p.world.session.committed = rw kept sound in
    elim (registered-Same parsed p) [
      | inl (e, failed) ↦ inl (e, ap (ended ending rs) failed)
      | inr up ↦ inr (
        dispatch_all p.site rs p.world,
        ap (ended ending rs) up,
        dispatch_all-IsHealthy p.site rs p.world agrees sound',
      )
    ]

dispatch_bare-Same : (t : Target) (w : World) → Same w.session (dispatch_bare t w).1.session
dispatch_bare-Same get_health w = health-Same w.session
dispatch_bare-Same (get_static path) w = (refl, refl)
dispatch_bare-Same post_logout w = (refl, refl)
dispatch_bare-Same (get_login return_to) w = (refl, refl)
dispatch_bare-Same (get_callback q) w = (refl, refl)
dispatch_bare-Same (api_read r) w = (refl, refl)
dispatch_bare-Same (api_write r) w = (refl, refl)
dispatch_bare-Same (get_page p) w = (refl, refl)
dispatch_bare-Same (post_form p) w = (refl, refl)

dispatch_all-Same :
    (rs : List Arrival) (w : World) → Same w.session (dispatch_all none rs w).session
unfolding dispatch_all dispatch
dispatch_all-Same [] w = (refl, refl)
dispatch_all-Same (r ∷ rs) w =
    let first = dispatch_bare-Same r.target w in
    let rest = dispatch_all-Same rs (dispatch_bare r.target w).1 in
    (rest.0 ∙ first.0, rest.1 ∙ first.1)

-- Where no Authenticator can be made, `Run` listens all the same, whether or not the templates parse,
-- ends as the listener does, and leaves the database as it was, whatever is requested.
pub run-Degrades :
    (keys : Keys) (n : ℕ) (discovered : Option Provider) (cfg : Config) (wire : Wiring)
    (parsed : Bool) (s : Session) (rs : List Arrival) (ending : Ending) (e : SetupError)
    → (new keys n discovered cfg s).0 ≡ inl e
    → (w : World) × (run keys n discovered cfg wire parsed (inr s) rs ending
        ≡ (result_of ending, some w))
      × (w.session.committed ≡ s.committed)
unfolding run
run-Degrades keys n discovered cfg wire parsed s rs ending e failed =
    let s' = (new keys n discovered cfg s).1 in
    let w : World = record { tenant = []; session = s' } in
    (
      dispatch_all none rs w,
      ap (λ x. ended ending rs (registered parsed (process_of wire (x, s')))) failed,
      (dispatch_all-Same rs w).0 ∙ (new-Same keys n discovered cfg s).0,
    )
