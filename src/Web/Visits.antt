-- ===== src/Web/Visits.antt =====
-- web/router.go: the routes of the pages, behind `Authenticate` and the gate of their surface.
use xensus.Base.{Option, none, some, [], Text, codes}
use xensus.Store.Session.{Session}
use xensus.Config.{Access}
use xensus.Auth.{User}
use xensus.Auth.Cookies.{Visit}
use xensus.Auth.World.{Authenticator, World, try_authenticate}
use xensus.Web.Page.{Page, PageHandler}
use xensus.Web.Landing.{read_gate, landing_path}
use xensus.Web.Rows.{Display}
use xensus.Web.Pages.{
  Filter, show_persons, show_person, show_systems, show_disabled_systems, show_system,
  show_stewards, show_audit,
}

-- A request for a page, with its path value or its query string.
pub data PageRead : Type 0 where
  get_root get_disabled_systems get_stewards : PageRead
  get_persons get_person get_systems get_system : Text → PageRead
  get_audit : Filter → PageRead

-- The surface whose gate is in front of a page; the root has none.
abbrev pub surface_of : PageRead → Option Text
surface_of get_root = none
surface_of get_disabled_systems = some (codes "systems")
surface_of get_stewards = some (codes "stewards")
surface_of (get_persons q) = some (codes "persons")
surface_of (get_person path) = some (codes "persons")
surface_of (get_systems q) = some (codes "systems")
surface_of (get_system path) = some (codes "systems")
surface_of (get_audit q) = some (codes "audit")

-- `http.Redirect` with 302
abbrev pub found : Text → Page
found location = record { status = 302; location = location; message = []; html = [] }

abbrev pub page_of : Display → Access → PageRead → Option User → PageHandler
page_of w access get_root user s = (found (landing_path access user), s)
page_of w access get_disabled_systems user s = show_disabled_systems w access user s
page_of w access get_stewards user s = show_stewards w access user s
page_of w access (get_persons q) user s = show_persons w access q user s
page_of w access (get_person path) user s = show_person w access path user s
page_of w access (get_systems q) user s = show_systems w access q user s
page_of w access (get_system path) user s = show_system w access path user s
page_of w access (get_audit q) user s = show_audit w access q user s

abbrev pub page_gate :
    (Text → Text)
    → Text
    → Access
    → Option Text
    → (Option User → PageHandler)
    → Option User
    → PageHandler
page_gate escape uri access none next user = next user
page_gate escape uri access (some surface) next user =
    read_gate escape uri access surface (λ u. next (some u)) user

-- `Register`, for the user whom `Authenticate` found
unfoldable pub page_route :
    Display → (Text → Text) → Text → Access → PageRead → Option User → PageHandler
page_route w escape uri access p user =
    page_gate escape uri access (surface_of p) (page_of w access p) user

abbrev with_session : World → Page × Session → Page × World
with_session w (page, s) = (page, record w { session = s })

-- `Authenticate` and the route
unfoldable pub serve_page :
    Authenticator
    → Display
    → (Text → Text)
    → Text
    → Access
    → PageRead
    → Visit
    → World
    → Page × World
serve_page a w escape uri access p visit world =
    let (user, world') = try_authenticate a visit world in
    with_session world' (page_route w escape uri access p user world'.session)
