-- ===== src/Web/Navigation.antt =====
-- web/router.go and web/view.go: the navigation, the gates behind it, and where the root leads.
use xensus.Base.{◌≡◌, refl, Bool, true, Bool-cases, inl, inr, some, Text, codes, if◌then◌else◌}
use xensus.Store.Session.{Session}
use xensus.Config.{Access}
use xensus.Auth.{User}
use xensus.Web.Page.{failed}
use xensus.Web.Rows.{Display}
use xensus.Web.Landing.{
  NavView, nav_view, can_read, first_readable, landing_path, read_gate-can_read,
}
use xensus.Web.Visits.{
  PageRead, get_root, get_disabled_systems, get_stewards, get_persons, get_person, get_systems,
  get_system, get_audit, page_of, page_route,
}

-- Whether the configuration lets a user read a surface.
abbrev pub may_read : Access → User → Text → Bool
may_read access u surface = if access.steward_only surface then u.is_steward else true

-- Whether the navigation has the part of a page; the root is everyone's.
abbrev pub shown : NavView → PageRead → Bool
shown nav get_root = true
shown nav (get_persons q) = nav.show_persons
shown nav (get_person path) = nav.show_persons
shown nav (get_systems q) = nav.show_systems
shown nav (get_system path) = nav.show_systems
shown nav get_disabled_systems = nav.show_systems
shown nav get_stewards = nav.show_stewards
shown nav (get_audit q) = nav.show_audit

-- The path of the first part that is shown, and that of persons where none is.
abbrev pub first_shown : NavView → Text
first_shown nav =
    if nav.show_persons
    then codes "/persons"
    else if nav.show_systems
    then codes "/systems"
    else if nav.show_stewards
    then codes "/stewards"
    else if nav.show_audit
    then codes "/audit"
    else codes "/persons"

can_read-may_read :
    (access : Access) (u : User) (surface : Text)
    → can_read access (some u) surface ≡ may_read access u surface
unfolding can_read
can_read-may_read access u surface = elim (Bool-cases (access.steward_only surface)) [
  | inl locked ↦
      rw locked
        (elim (Bool-cases u.is_steward) [ inl role ↦ rw role refl | inr plain ↦ rw plain refl ])
  | inr free ↦
      rw free
        (elim (Bool-cases u.is_steward) [ inl role ↦ rw role refl | inr plain ↦ rw plain refl ])
]

module _ (w : Display) (escape : Text → Text) (uri : Text) (access : Access) (u : User) where
  page_route-opens :
      (p : PageRead) (s : Session)
      → page_route w escape uri access p (some u) s ≡ (
          if shown (nav_view access (some u)) p
          then page_of w access p (some u) s
          else (failed 403 (codes "steward role required"), s))
  unfolding page_route
  page_route-opens get_root s = refl
  page_route-opens (get_persons q) s = read_gate-can_read escape uri access (codes "persons") _ u s
  page_route-opens (get_person path) s =
      read_gate-can_read escape uri access (codes "persons") _ u s
  page_route-opens (get_systems q) s = read_gate-can_read escape uri access (codes "systems") _ u s
  page_route-opens (get_system path) s =
      read_gate-can_read escape uri access (codes "systems") _ u s
  page_route-opens get_disabled_systems s =
      read_gate-can_read escape uri access (codes "systems") _ u s
  page_route-opens get_stewards s = read_gate-can_read escape uri access (codes "stewards") _ u s
  page_route-opens (get_audit q) s = read_gate-can_read escape uri access (codes "audit") _ u s

landing_path-first_shown :
    (access : Access) (u : User)
    → landing_path access (some u) ≡ first_shown (nav_view access (some u))
unfolding first_readable can_read
landing_path-first_shown access u = refl

-- For a signed-in user, the navigation shows the parts persons, systems, stewards and audit exactly
-- where the user is a steward or the configuration does not lock the surface of that name; the route
-- of a page opens it exactly where the navigation shows its part, as everyone may open the root, and
-- answers 403 "steward role required" with the session as it was otherwise; the pages of one person,
-- of one system and of the disabled systems are in the parts persons and systems. The root leads to
-- the path of the first part that is shown, of /persons, /systems, /stewards and /audit in this order,
-- and to /persons where none is.
pub landing_path-IsShown :
    (w : Display) (escape : Text → Text) (uri : Text) (access : Access) (u : User) (p : PageRead)
    (s : Session)
    → let nav = nav_view access (some u) in
      (nav ≡ record {
        show_persons = may_read access u (codes "persons");
        show_systems = may_read access u (codes "systems");
        show_stewards = may_read access u (codes "stewards");
        show_audit = may_read access u (codes "audit");
      })
      × (page_route w escape uri access p (some u) s ≡ (
          if shown nav p
          then page_of w access p (some u) s
          else (failed 403 (codes "steward role required"), s)))
      × (landing_path access (some u) ≡ first_shown nav)
landing_path-IsShown w escape uri access u p s = (
  λ i. record {
    show_persons = can_read-may_read access u (codes "persons") i;
    show_systems = can_read-may_read access u (codes "systems") i;
    show_stewards = can_read-may_read access u (codes "stewards") i;
    show_audit = can_read-may_read access u (codes "audit") i;
  },
  page_route-opens w escape uri access u p s,
  landing_path-first_shown access u,
)
