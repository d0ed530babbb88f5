-- ===== src/Server/Routes.antt =====
-- router.go: the table of all routes. Which route a request matches is net/http's.
use xensus.Base.{ℕ, Option, none, some, List, [], ◌∷◌, Text, codes}
use xensus.Store.Schema.{Details}
use xensus.Config.{Access}
use xensus.Auth.Cookies.{Visit}
use xensus.Auth.World.{Authenticator, World}
use xensus.Auth.SignIn.{Reply, Query, Exchange, login, callback, logout}
use xensus.Api.Response.{Response, plain}
use xensus.Api.Reads.{Answer}
use xensus.Api.Gates.{Read, serve_read}
use xensus.Api.Routes.{Write}
use xensus.Web.Page.{Page}
use xensus.Web.Routes.{Post}
use xensus.Web.Rows.{Display}
use xensus.Web.Visits.{PageRead, serve_page}
use xensus.System.Requests.{stored, serve_write, serve_post}
use xensus.Server.Health.{health}

-- What the routes are wired with: the Authenticator with its OAuth2 client, the read policy, the
-- renderer of the pages, and what the library functions make of details, codes and addresses.
pub record Site : Type 0 where
  pub authenticator : Authenticator
  pub access : Access
  pub display : Display
  pub marshal : Details → Text
  pub exchange : Exchange
  pub auth_code_url : Text → Text → Text
  pub escape : Text → Text

-- A request that matches a route, with what the handler reads of its path, query string and body.
pub data Target : Type 0 where
  get_health post_logout : Target
  get_static get_login : Text → Target
  get_callback : Query → Target
  api_read : Read → Target
  api_write : Write → Target
  get_page : PageRead → Target
  post_form : Post → Target

-- A request: its address, how far crypto/rand was read before, and what `Authenticate` reads of it.
pub record Arrival : Type 0 where
  pub uri : Text
  pub reading : ℕ
  pub target : Target
  pub visit : Visit

pub data Output : Type 0 where
  file : Text → Output
  response : Response → Output
  answer : Answer → Output
  page : Page → Output
  reply : Reply → Output

abbrev pub given_by : {A : Type 0} → (A → Output) → A × World → Output × World
given_by f (a, w) = (f a, w)

-- The route behind `GET /health`.
abbrev pub check_health : World → Output × World
check_health w = given_by response (stored w (health w.session))

-- No route matches.
abbrev pub not_found : Output
not_found = response (plain 404 (codes "404 page not found"))

-- The routes that there are without an Authenticator.
abbrev pub dispatch_bare : Target → World → Output × World
dispatch_bare get_health w = check_health w
dispatch_bare (get_static path) w = (file path, w)
dispatch_bare post_logout w = (not_found, w)
dispatch_bare (get_login return_to) w = (not_found, w)
dispatch_bare (get_callback q) w = (not_found, w)
dispatch_bare (api_read r) w = (not_found, w)
dispatch_bare (api_write r) w = (not_found, w)
dispatch_bare (get_page p) w = (not_found, w)
dispatch_bare (post_form p) w = (not_found, w)

-- The routes that there are with one.
abbrev pub dispatch_full : Site → Text → ℕ → Target → Visit → World → Output × World
dispatch_full site uri n get_health visit w = check_health w
dispatch_full site uri n (get_static path) visit w = (file path, w)
dispatch_full site uri n post_logout visit w = (reply (logout site.authenticator.sessions visit), w)
dispatch_full site uri n (get_login return_to) visit w =
    (reply (login site.authenticator site.auth_code_url n return_to visit), w)
dispatch_full site uri n (get_callback q) visit w =
    given_by reply (callback site.authenticator site.exchange n q visit w)
dispatch_full site uri n (api_read r) visit w =
    given_by answer (serve_read site.authenticator site.access site.marshal r visit w)
dispatch_full site uri n (api_write r) visit w =
    given_by response (serve_write site.authenticator r visit w)
dispatch_full site uri n (get_page p) visit w =
    given_by page (serve_page site.authenticator site.display site.escape uri site.access p visit w)
dispatch_full site uri n (post_form p) visit w =
    given_by page (serve_post site.authenticator site.escape uri p visit w)

-- `registerRoutes`, for the Authenticator if there is one
unfoldable pub dispatch : Option Site → Arrival → World → Output × World
dispatch none r w = dispatch_bare r.target w
dispatch (some site) r w = dispatch_full site r.uri r.reading r.target r.visit w

-- The process after requests one after the other.
unfoldable pub dispatch_all : Option Site → List Arrival → World → World
dispatch_all site [] w = w
dispatch_all site (r ∷ rs) w = dispatch_all site rs (dispatch site r w).1
