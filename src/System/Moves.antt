-- ===== src/System/Moves.antt =====
-- auth/handlers.go, api/*.go and web/*.go: what a call from outside does to the database is a sequence
-- of requests to package core.
use xensus.Base.{
  ℕ, ◌≡◌, refl, ◌∙◌, true, Option, none, some, inl, inr, Bool-cases, Text, text_eq, is_empty, arith,
}
use xensus.Store.Schema.{Database}
use xensus.Store.Session.{Session, Result, ok, err, already_bound}
use xensus.Store.Tenant.{bound_tenant_id}
use xensus.Registry.Requests.{Request, claim_pending_steward, bootstrap, actor_of, Times, apply}
use xensus.Registry.Governance.{Asks, signs_up, claims, stewards}
use xensus.Core.Bootstrap.{BootstrapClaim}
use xensus.Core.Bootstrap
use xensus.Core.Serve.{serve, serve-Follows, times}
use xensus.Auth.{User}
use xensus.Auth.Cookies.{LoginData, Visit}
use xensus.Auth.Tokens.{Claims}
use xensus.Auth.World.{Authenticator, World, try_authenticate}
use xensus.Auth.Known.{Same, HasRole, try_authenticate-IsKnown}
use xensus.Auth.SignIn.{complete_sign_in, enter, bind_tenant, bootstrapped, reread}
use xensus.Auth.Binding.{bound_tenant_id-keeps}
use xensus.Api.Persons.{actor_from}
use xensus.Api.Routes.{Write, route}
use xensus.System.Requests.{serve_write, serve_post}
use xensus.System.Asked.{Asked, handler_of-Asked}
use xensus.Web.Routes.{Post}
use xensus.Web.Parity.{as_request, post_route-Agree}

-- Requests of sign-ins and of stewards, one after the other.
pub data Moves : Session → Session → Type 0 where
  rests : {s s' : Session} → Same s s' → Moves s s'
  serves : (r : Request) → {s s' : Session} → Asks r s.committed → s' ≡ serve r s → Moves s s'
  continues : {s t u : Session} → Moves s t → Moves t u → Moves s u

-- A property of the database that such requests keep holds after a move from where no transaction is
-- open, and none is open then.
pub Moves-keep :
    (P : Database → Type 0)
    → ((t : Times) (r : Request) (d : Database) → Asks r d → P d → P (apply t r d))
    → {s s' : Session} → Moves s s'
    → s.working ≡ none
    → P s.committed
    → (s'.working ≡ none) × P s'.committed
Moves-keep P keep (rests same) idle h = (same.1 ∙ idle, rw same.0 h)
Moves-keep P keep (serves r {s} {s'} asks e) idle h =
    let (idle', _, change) = serve-Follows r s idle in
    rw e (
      idle',
      elim change [
        | inl (_, same) ↦ rw same h
        | inr new ↦ rw new (keep (times r s) r s.committed asks h)
      ],
    )
Moves-keep P keep (continues m k) idle h =
    let (idle', h') = Moves-keep P keep m idle h in Moves-keep P keep k idle' h'

stays : (s : Session) → Moves s s
stays s = rests (refl, refl)

HasRole-Asks :
    (w : World) (u : User) (r : Request) (d : Database)
    → HasRole w u
    → actor_of r ≡ actor_from u
    → d ≡ w.session.committed
    → Asks r d
HasRole-Asks w u r d role same e = stewards (rw (same, e) (ground (arith, role)))

-- A steward's request, or nothing.
Asked-Moves :
    (w : World) (u : User) (s s' : Session)
    → HasRole w u
    → s.committed ≡ w.session.committed
    → Asked (actor_from u) s s'
    → Moves s s'
Asked-Moves w u s s' role kept (inl e) = rw e (stays s)
Asked-Moves w u s s' role kept (inr (r, same, e)) =
    serves r (HasRole-Asks w u r s.committed role same kept) e

route-Moves :
    (w : World) (r : Write) (user : Option User) (s : Session)
    → s.committed ≡ w.session.committed
    → ((u : User) → user ≡ some u → u.is_steward ≡ true → HasRole w u)
    → Moves s (route r user s).1
unfolding route
route-Moves w r none s kept known = stays s
route-Moves w r (some u) s kept known = elim (Bool-cases u.is_steward) [
  | inl role ↦ simp role (Asked-Moves w u s _ (known u refl role) kept (handler_of-Asked r u s))
  | inr other ↦ simp other (stays s)
]

pub serve_write-Moves :
    (a : Authenticator) (r : Write) (visit : Visit) (w : World)
    → Moves w.session (serve_write a r visit w).1.session
unfolding serve_write
serve_write-Moves a r visit w =
    let (same, known) = try_authenticate-IsKnown a visit w in
    continues (rests same) (
      route-Moves w r (try_authenticate a visit w).0 (try_authenticate a visit w).1.session same.0
        (λ u e. (known u e).1))

pub serve_post-Moves :
    (a : Authenticator) (escape : Text → Text) (uri : Text) (p : Post) (visit : Visit) (w : World)
    → Moves w.session (serve_post a escape uri p visit w).1.session
unfolding serve_post
serve_post-Moves a escape uri p visit w =
    let (same, known) = try_authenticate-IsKnown a visit w in
    let user = (try_authenticate a visit w).0 in
    let s = (try_authenticate a visit w).1.session in
    let like = (post_route-Agree escape uri p user s).session in
    continues {t = s} (rests same)
      (rw like (route-Moves w (as_request p) user s same.0 (λ u e. (known u e).1)))

reread-Same :
    (w : World) (s : Session) (x : Result Text × Session)
    → Same s x.1
    → Same s (reread w x).1.session
reread-Same w s (err e, s') same = same
reread-Same w s (ok tid, s') same = ground (arith, same)

bootstrapped-Same :
    (c : Claims) (w : World) (x : Result ℕ × Session) → Same x.1 (bootstrapped c w x).1.session
bootstrapped-Same c w (ok id, s) = (refl, refl)
bootstrapped-Same c w (err already_bound, s) =
    reread-Same w s (bound_tenant_id s) (bound_tenant_id-keeps s)
bootstrapped-Same c w (err e, s) = (refl, refl)

bind_tenant-Moves : (c : Claims) (w : World) → Moves w.session (bind_tenant c w).1.session
unfolding bind_tenant serve
bind_tenant-Moves c w = elim (Bool-cases (is_empty w.tenant)) [
  | inl unbound ↦
      let bound_to : BootstrapClaim = record { oid = c.oid; upn = c.upn; tid = c.tid } in
      simp unbound (
        continues (serves (bootstrap bound_to) signs_up refl)
          (rests (bootstrapped-Same c w (Bootstrap.bootstrap bound_to w.session))))
  | inr bound ↦ simp bound (stays w.session)
]

enter-Moves :
    (a : Authenticator) (n : ℕ) (r : Visit) (c : Claims) (ls : LoginData) (o : Option Text)
    (w : World)
    → Moves w.session (enter a n r c ls (o, w)).1.session
unfolding serve
enter-Moves a n r c ls none w = stays w.session
enter-Moves a n r c ls (some bound) w = elim (Bool-cases (text_eq c.tid bound)) [
  | inl same ↦
      simp same (serves (claim_pending_steward (record { oid = c.oid; upn = c.upn })) claims refl)
  | inr other ↦ simp other (stays w.session)
]

pub complete_sign_in-Moves :
    (a : Authenticator) (n : ℕ) (r : Visit) (c : Claims) (ls : LoginData) (w : World)
    → Moves w.session (complete_sign_in a n r c ls w).1.session
unfolding complete_sign_in
complete_sign_in-Moves a n r c ls w = elim (Bool-cases (text_eq c.nonce ls.nonce)) [
  | inl same ↦ simp same (
      continues (bind_tenant-Moves c w)
        (enter-Moves a n r c ls (bind_tenant c w).0 (bind_tenant c w).1))
  | inr other ↦ simp other (stays w.session)
]
