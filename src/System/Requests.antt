-- ===== src/System/Requests.antt =====
-- api/router.go and web/router.go: the routes that change the registry, with `Authenticate` before
-- them.
use xensus.Base.{Text}
use xensus.Store.Session.{Session}
use xensus.Auth.Cookies.{Visit}
use xensus.Auth.World.{Authenticator, World, try_authenticate}
use xensus.Api.Response.{Response}
use xensus.Api.Routes.{Write, route}
use xensus.Web.Page.{Page}
use xensus.Web.Routes.{Post, post_route}

abbrev pub stored : {A : Type 0} → World → A × Session → A × World
stored w (a, s) = (a, record w { session = s })

-- A request to the API that changes the registry.
unfoldable pub serve_write : Authenticator → Write → Visit → World → Response × World
serve_write a r visit w =
    let (user, w') = try_authenticate a visit w in stored w' (route r user w'.session)

-- A posted form, with url.QueryEscape as a parameter.
unfoldable pub serve_post :
    Authenticator → (Text → Text) → Text → Post → Visit → World → Page × World
serve_post a escape uri p visit w =
    let (user, w') = try_authenticate a visit w in
    stored w' (post_route escape uri p user w'.session)
