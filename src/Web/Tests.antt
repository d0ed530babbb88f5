-- ===== src/Web/Tests.antt =====
-- Forms and visitors at a concrete database.
use xensus.Base.{◌≡◌, refl, true, false, none, some, [], Text, codes, text_eq, if◌then◌else◌}
use xensus.Config.{Access}
use xensus.Auth.{User}
use xensus.Api.Routes as Api
use xensus.Web.Page.{failed}
use xensus.Web.Routes.{Post, post_person, post_route}
use xensus.Web.Agreement.{Agree}
use xensus.Web.Parity.{as_request, post_route-Agree}
use xensus.Web.Landing.{nav_view, can_read, landing_path}
use xensus.Web.Navigation.{may_read, first_shown, landing_path-IsShown}
use xensus.Auth.Known.{Same}
use xensus.Auth.TestData.{authenticator, returning, cookie, bound}
use xensus.Api.Gates.{reader_of, get_person_associations}
use xensus.Web.Views.{View, stewards, base}
use xensus.Web.Rows.{Display}
use xensus.Web.Render.{page_files, parse_pages, new_renderer, render, Answers, render-IsComplete}
use xensus.Web.Visits.{get_person, get_systems, page_of, page_route, serve_page}
use xensus.Web.Visitors.{Gated, serve_page-IsGated}
use xensus.Web.Twins.{links_twins, Match}
use xensus.Web.Mirror.{page_of-Mirrors}
use xensus.Core.TestData.{flaky, steady, alice, book, at_rest}

abbrev signed_in : User
signed_in = record { oid = alice.oid; upn = alice.upn; tid = codes "contoso"; is_steward = true }

abbrev visitor : User
visitor = record signed_in { is_steward = false }

abbrev renaming : Post
renaming = post_person (codes "X-000001") (some (codes "Ada L."))

post_route-Agree_example :
    Agree
      (post_route
        (λ s. s)
        (codes "/persons/X-000001")
        renaming
        (some signed_in)
        (at_rest flaky book))
      (Api.route (as_request renaming) (some signed_in) (at_rest flaky book))
post_route-Agree_example =
    post_route-Agree (λ s. s) (codes "/persons/X-000001") renaming (some signed_in)
      (at_rest flaky book)

abbrev locked_persons : Access
locked_persons = record { steward_only = λ s. text_eq s (codes "persons") }

-- A display of the views' names alone.
abbrev named : Display
named = record {
  format_time = λ s. none;
  marshal = λ d. [];
  encode = λ vs. [];
  show = render (λ t v. some t) page_files 200;
}

abbrev all_open : Access
all_open = record { steward_only = λ s. false }

page_of-Mirrors_example :
    Match named
      (codes "oid-alice")
      (reader_of
        (λ d. [])
        (get_person_associations (codes "X-000001"))
        (some signed_in)
        (at_rest steady book)).0
      (page_of named all_open
        (get_person (codes "X-000001"))
        (some signed_in)
        (at_rest steady book)).0
page_of-Mirrors_example =
    page_of-Mirrors named all_open (λ d. []) (get_person (codes "X-000001"))
      (get_person_associations (codes "X-000001")) (some signed_in) (at_rest steady book)
      (λ _. refl) (links_twins (codes "X-000001"))

serve_page-IsGated_example :
    Same bound.session
      (serve_page authenticator named
        (λ s. s)
        []
        locked_persons
        (get_systems [])
        (returning cookie.value)
        bound).1.session
    × Gated authenticator locked_persons
        (some (codes "systems"))
        (returning cookie.value)
        bound
        (serve_page authenticator named
          (λ s. s)
          []
          locked_persons
          (get_systems [])
          (returning cookie.value)
          bound).0
serve_page-IsGated_example =
    serve_page-IsGated authenticator named (λ s. s) [] locked_persons (get_systems [])
      (returning cookie.value) bound

all_parsed : new_renderer (λ file. some file) ≡ some page_files
unfolding parse_pages
all_parsed = refl

abbrev no_stewards : View
no_stewards =
    stewards (record {
      base = base all_open (some visitor) (codes "Stewards");
      stewards = [];
      pending = [];
    })

render-IsComplete_example :
    (t : Text) × (some (codes "templates/stewards.html") ≡ some t)
    × Answers 200 (some t) (render (λ t v. some t) page_files 200 no_stewards)
render-IsComplete_example =
    render-IsComplete (λ file. some file) (λ t v. some t) page_files 200 no_stewards all_parsed

landing_path-IsShown_example :
    let nav = nav_view locked_persons (some visitor) in
    (nav ≡ record {
      show_persons = may_read locked_persons visitor (codes "persons");
      show_systems = may_read locked_persons visitor (codes "systems");
      show_stewards = may_read locked_persons visitor (codes "stewards");
      show_audit = may_read locked_persons visitor (codes "audit");
    })
    × (page_route named
          (λ s. s)
          []
          locked_persons
          (get_systems [])
          (some visitor)
          (at_rest steady book)
        ≡ (if nav.show_systems
            then page_of named locked_persons (get_systems []) (some visitor) (at_rest steady book)
            else (failed 403 (codes "steward role required"), at_rest steady book)))
    × (landing_path locked_persons (some visitor) ≡ first_shown nav)
landing_path-IsShown_example =
    landing_path-IsShown named (λ s. s) [] locked_persons visitor (get_systems [])
      (at_rest steady book)

-- A visitor who may not read persons is led to the systems.
leads_to_systems : first_shown (nav_view locked_persons (some visitor)) ≡ codes "/systems"
unfolding can_read text_eq
leads_to_systems = refl
