-- ===== src/System/Agreement.antt =====
-- auth/*.go, api/*.go and web/*.go: the tenant that the process remembers is the one in the database
-- whatever happens.
use xensus.Base.{
  ◌≡◌, refl, sym, ap, subst, ◌∙◌, ◌⊎◌, true, false, Bool-cases, inl, inr, Option, none, some, Text,
  is_empty, arith,
}
use xensus.Store.Schema.{Details}
use xensus.Config.{Access}
use xensus.Store.Session.{Session}
use xensus.Store.Systems.{null_string}
use xensus.Registry.Binding.{apply-tenant_id}
use xensus.Auth.Cookies.{SessionData, Visit, read_session}
use xensus.Auth.Tokens.{Claims, verify, extract_bearer}
use xensus.Auth.World.{Authenticator, World, try_authenticate, from_claims, from_session}
use xensus.Auth.Binding.{Agrees, complete_sign_in-Agrees}
use xensus.Api.Access.{serve_read-IsGated}
use xensus.Api.Gates.{Read, serve_read}
use xensus.Api.Routes.{Write}
use xensus.Web.Routes.{Post}
use xensus.Web.Rows.{Display}
use xensus.Web.Visits.{PageRead, serve_page}
use xensus.Web.Visitors.{serve_page-IsGated}
use xensus.Auth.Known.{Same}
use xensus.Auth.Setup.{new-Agrees}
use xensus.Server.Health.{health}
use xensus.System.Requests.{serve_write, serve_post}
use xensus.System.Moves.{
  Moves, rests, continues, Moves-keep, serve_write-Moves, serve_post-Moves, complete_sign_in-Moves,
}
use xensus.System.Steps.{
  Step, signs_in, writes, posts, reads, views, checks, restarts, opened, Reaches, here, next,
  callback-keeps,
}

-- A move leaves the config row of a bound deployment alone.
pub Moves-config :
    {s s' : Session}
    → Moves s s'
    → s.working ≡ none
    → is_empty (null_string s.committed.config.tenant_id) ≡ false
    → s'.committed.config ≡ s.committed.config
Moves-config {s} moves idle bound =
    (Moves-keep (λ d. d.config ≡ s.committed.config)
      (λ t r d _ same. apply-tenant_id t r d (rw same bound) ∙ same) moves idle refl).1

Moves-idle : {s s' : Session} → Moves s s' → s.working ≡ none → s'.working ≡ none
Moves-idle moves idle = (Moves-keep (λ _. Unit {0}) (λ _ _ _ _ _. tt) moves idle tt).0

pub remembers :
    (w : World)
    → (is_empty w.tenant ≡ true) ⊎ (w.session.committed.config.tenant_id ≡ some w.tenant)
    → is_empty w.tenant ≡ false
    → (is_empty (null_string w.session.committed.config.tenant_id) ≡ false)
      × (w.session.committed.config.tenant_id ≡ some w.tenant)
remembers w (inl unbound) bound = cc
remembers w (inr e) bound = (rw e bound, e)

Moves-Agrees :
    (w w' : World) → Agrees w → w'.tenant ≡ w.tenant → Moves w.session w'.session → Agrees w'
Moves-Agrees w w' agrees same moves = record {
  idle = Moves-idle moves agrees.idle;
  tenant = rw same (elim (Bool-cases (is_empty w.tenant)) [
    | inl unbound ↦ inl unbound
    | inr bound ↦
        let (known, e) = remembers w agrees.tenant bound in
        inr (ap (λ c. c.tenant_id) (Moves-config moves agrees.idle known) ∙ e)
  ]);
}

from_claims-tenant : (o : Option Claims) (w : World) → (from_claims o w).1.tenant ≡ w.tenant
from_claims-tenant none w = refl
from_claims-tenant (some c) w = ground arith

from_session-tenant : (o : Option SessionData) (w : World) → (from_session o w).1.tenant ≡ w.tenant
from_session-tenant none w = refl
from_session-tenant (some d) w = ground arith

try_authenticate-tenant :
    (a : Authenticator) (visit : Visit) (w : World)
    → (try_authenticate a visit w).1.tenant ≡ w.tenant
unfolding try_authenticate
try_authenticate-tenant a visit w = elim (Bool-cases (is_empty w.tenant)) [
  | inl unbound ↦ simp unbound refl
  | inr bound ↦ elim (Bool-cases (is_empty (extract_bearer visit.authorization))) [
    | inl cookie ↦ simp (bound, cookie) (from_session-tenant (read_session a.sessions visit) w)
    | inr bearer ↦
        simp (bound, bearer)
          (from_claims-tenant (verify a.inner (extract_bearer visit.authorization)) w)
  ]
]

serve_write-tenant :
    (a : Authenticator) (r : Write) (visit : Visit) (w : World)
    → (serve_write a r visit w).1.tenant ≡ w.tenant
unfolding serve_write
serve_write-tenant a r visit w = try_authenticate-tenant a visit w

serve_post-tenant :
    (a : Authenticator) (escape : Text → Text) (uri : Text) (p : Post) (visit : Visit) (w : World)
    → (serve_post a escape uri p visit w).1.tenant ≡ w.tenant
unfolding serve_post
serve_post-tenant a escape uri p visit w = try_authenticate-tenant a visit w

serve_read-tenant :
    (a : Authenticator) (access : Access) (marshal : Details → Text) (r : Read) (visit : Visit)
    (w : World)
    → (serve_read a access marshal r visit w).1.tenant ≡ w.tenant
unfolding serve_read
serve_read-tenant a access marshal r visit w = try_authenticate-tenant a visit w

serve_page-tenant :
    (a : Authenticator) (d : Display) (escape : Text → Text) (uri : Text) (access : Access)
    (p : PageRead) (visit : Visit) (w : World)
    → (serve_page a d escape uri access p visit w).1.tenant ≡ w.tenant
unfolding serve_page
serve_page-tenant a d escape uri access p visit w = try_authenticate-tenant a visit w

pub health-Same : (s : Session) → Same s (health s).1
unfolding health
health-Same s = elim (Bool-cases (s.driver.fails s.tick)) [
  | inl failed ↦ rw failed (refl, refl)
  | inr works ↦ rw works (refl, refl)
]

-- What happens keeps the two in agreement, and is a sequence of requests of sign-ins and stewards.
pub Step-Agrees : {w w' : World} → Step w w' → Agrees w → Agrees w' × Moves w.session w'.session
Step-Agrees {w} {w'} (signs_in a exchange n q r e) agrees =
    let P : World → Type 0 = λ v. Agrees v × Moves w.session v.session in
    subst P (sym e) (
      callback-keeps P a n r w exchange q (agrees, rests (refl, refl))
        (λ c ls.
          (complete_sign_in-Agrees a n r c ls w agrees, complete_sign_in-Moves a n r c ls w)))
Step-Agrees {w} {w'} (writes a r visit e) agrees =
    subst (λ v. Agrees v × Moves w.session v.session) (sym e)
      (let moves = serve_write-Moves a r visit w in
        (Moves-Agrees w _ agrees (serve_write-tenant a r visit w) moves, moves))
Step-Agrees {w} {w'} (posts a escape uri p visit e) agrees =
    subst (λ v. Agrees v × Moves w.session v.session) (sym e)
      (let moves = serve_post-Moves a escape uri p visit w in
        (Moves-Agrees w _ agrees (serve_post-tenant a escape uri p visit w) moves, moves))
Step-Agrees {w} {w'} (reads a access marshal r visit e) agrees =
    subst (λ v. Agrees v × Moves w.session v.session) (sym e)
      (let moves = rests ((serve_read-IsGated a access marshal r visit w).0) in
        (Moves-Agrees w _ agrees (serve_read-tenant a access marshal r visit w) moves, moves))
Step-Agrees {w} {w'} (views a d escape uri access p visit e) agrees =
    subst (λ v. Agrees v × Moves w.session v.session) (sym e)
      (let moves = rests ((serve_page-IsGated a d escape uri access p visit w).0) in
        (Moves-Agrees w _ agrees (serve_page-tenant a d escape uri access p visit w) moves, moves))
Step-Agrees {w} {w'} (checks e) agrees =
    subst (λ v. Agrees v × Moves w.session v.session) (sym e)
      (let moves = rests (health-Same w.session) in (Moves-Agrees w _ agrees refl moves, moves))
Step-Agrees {w} {w'} (restarts keys n o cfg driver st made e) agrees =
    let (_, agrees', kept) =
      new-Agrees keys n o cfg (opened driver w.session.committed) st refl made in
    subst (λ v. Agrees v × Moves w.session v.session) (sym e)
      (agrees', rests (kept, agrees'.idle ∙ sym agrees.idle))

pub Reaches-Agrees :
    {w w' : World} → Reaches w w' → Agrees w → Agrees w' × Moves w.session w'.session
Reaches-Agrees here agrees = (agrees, rests (refl, refl))
Reaches-Agrees (next step more) agrees =
    let (agrees', moves) = Step-Agrees step agrees in
    let (agrees'', moves') = Reaches-Agrees more agrees' in (agrees'', continues moves moves')
