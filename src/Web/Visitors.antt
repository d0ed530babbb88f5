-- ===== src/Web/Visitors.antt =====
-- web/router.go: whom a page is shown to.
use xensus.Base.{
  ◌≡◌, ◌≤◌, refl, ◌∙◌, ◌⊎◌, true, false, Bool-cases, inl, inr, Option, none, some, Text, arith,
}
use xensus.Store.Session.{Session}
use xensus.Config.{Access}
use xensus.Auth.{User}
use xensus.Auth.Cookies.{Visit}
use xensus.Auth.World.{Authenticator, World, try_authenticate}
use xensus.Auth.Known.{Same, HasRole, try_authenticate-IsKnown}
use xensus.Web.Page.{Page, PageHandler}
use xensus.Web.Landing.{read_gate}
use xensus.Web.Rows.{Display}
use xensus.Web.Visits.{
  PageRead, get_root, get_disabled_systems, get_stewards, get_persons, get_person, get_systems,
  get_system, get_audit, surface_of, page_of, page_gate, page_route, serve_page,
}
use xensus.Web.Showing.{Keeps, page_of-Keeps}

-- A user whom the gate of a page lets in.
abbrev Passes : Access → Text → Option User → Type 0
Passes access surface user =
    (u : User) × (user ≡ some u) × ((access.steward_only surface ≡ false) ⊎ (u.is_steward ≡ true))

-- What a gate does: it keeps the session, and answers a redirect or an error to whom it does not let in.
abbrev Gates : Access → Text → Option User → Session → Page × Session → Type 0
Gates access surface user s answer =
    Same s answer.1 × ((300 ≤ answer.0.status) ⊎ Passes access surface user)

read_gate-Gates :
    (escape : Text → Text) (uri : Text) (access : Access) (surface : Text)
    (next : User → PageHandler) (user : Option User) (s : Session)
    → ((u : User) → Keeps (next u))
    → Gates access surface user s (read_gate escape uri access surface next user s)
unfolding read_gate
read_gate-Gates escape uri access surface next none s k =
    elim (Bool-cases (access.steward_only surface)) [
      | inl locked ↦ rw locked ((refl, refl), inl (omega arith))
      | inr free ↦ rw free ((refl, refl), inl (omega arith))
    ]
read_gate-Gates escape uri access surface next (some u) s k =
    elim (Bool-cases (access.steward_only surface)) [
      | inl locked ↦ elim (Bool-cases u.is_steward) [
        | inl role ↦ simp (locked, role) (k u s, inr (u, refl, inr role))
        | inr plain ↦ simp (locked, plain) ((refl, refl), inl (omega arith))
      ]
      | inr free ↦ simp free (k u s, inr (u, refl, inl refl))
    ]

-- The user whom a request stands for, of the tenant that the process remembers, and with the role in the
-- database where the configuration locks the page's surface.
abbrev pub IsShown : Authenticator → Access → Text → Visit → World → Type 0
IsShown a access surface visit world =
    (u : User) × ((try_authenticate a visit world).0 ≡ some u)
    × (u.tid ≡ world.tenant)
    × ((access.steward_only surface ≡ false) ⊎ HasRole world u)

Passes-IsShown :
    (a : Authenticator) (access : Access) (surface : Text) (visit : Visit) (world : World)
    (user : Option User)
    → (try_authenticate a visit world).0 ≡ user
    → ((u : User)
        → user ≡ some u
        → (u.tid ≡ world.tenant) × (u.is_steward ≡ true → HasRole world u))
    → Passes access surface user
    → IsShown a access surface visit world
Passes-IsShown a access surface visit world user is known passes = (
  passes.0,
  is ∙ passes.1,
  (known passes.0 passes.1).0,
  elim passes.2 [ inl free ↦ inl free | inr role ↦ inr ((known passes.0 passes.1).1 role) ],
)

-- Whom the gate of a page lets in; the root redirects everyone.
abbrev pub Gated : Authenticator → Access → Option Text → Visit → World → Page → Type 0
Gated a access none visit world page = page.status ≡ 302
Gated a access (some surface) visit world page =
    (300 ≤ page.status) ⊎ IsShown a access surface visit world

page_gate-Gated :
    (a : Authenticator) (escape : Text → Text) (uri : Text) (access : Access)
    (surface : Option Text) (next : Option User → PageHandler) (user : Option User) (s : Session)
    (visit : Visit) (world : World)
    → (try_authenticate a visit world).0 ≡ user
    → ((u : User)
        → user ≡ some u
        → (u.tid ≡ world.tenant) × (u.is_steward ≡ true → HasRole world u))
    → ((user : Option User) → Keeps (next user))
    → (surface ≡ none → (next user s).0.status ≡ 302)
    → Same s (page_gate escape uri access surface next user s).1
      × Gated a access surface visit world (page_gate escape uri access surface next user s).0
page_gate-Gated a escape uri access none next user s visit world is known k root =
    (k user s, root refl)
page_gate-Gated a escape uri access (some surface) next user s visit world is known k root =
    let (kept, outcome) =
      read_gate-Gates escape uri access surface (λ u. next (some u)) user s (λ u. k (some u)) in
    (
      kept,
      elim outcome [
        | inl refused ↦ inl refused
        | inr passes ↦ inr (Passes-IsShown a access surface visit world user is known passes)
      ],
    )

root-redirects :
    (w : Display) (access : Access) (p : PageRead) (user : Option User) (s : Session)
    → surface_of p ≡ none
    → (page_of w access p user s).0.status ≡ 302
root-redirects w access get_root user s e = refl
root-redirects w access get_disabled_systems user s e = absurd (let e' = e in cc)
root-redirects w access get_stewards user s e = absurd (let e' = e in cc)
root-redirects w access (get_persons q) user s e = absurd (let e' = e in cc)
root-redirects w access (get_person path) user s e = absurd (let e' = e in cc)
root-redirects w access (get_systems q) user s e = absurd (let e' = e in cc)
root-redirects w access (get_system path) user s e = absurd (let e' = e in cc)
root-redirects w access (get_audit q) user s e = absurd (let e' = e in cc)

-- A request for a page leaves the database and the open transaction as they were. The root answers a
-- redirect. Any other page answers a redirect or an error, or the request stands for a user of the
-- tenant that the process remembers, who holds the role of a steward in the database where the
-- configuration locks the page's surface.
pub serve_page-IsGated :
    (a : Authenticator) (w : Display) (escape : Text → Text) (uri : Text) (access : Access)
    (p : PageRead) (visit : Visit) (world : World)
    → Same world.session (serve_page a w escape uri access p visit world).1.session
      × Gated a access (surface_of p) visit world (serve_page a w escape uri access p visit world).0
unfolding serve_page page_route
serve_page-IsGated a w escape uri access p visit world =
    let (same, known) = try_authenticate-IsKnown a visit world in
    let (kept, gated) =
      page_gate-Gated a escape uri access (surface_of p) (page_of w access p)
        (try_authenticate a visit world).0 (try_authenticate a visit world).1.session visit world
        refl known (page_of-Keeps w access p)
        (root-redirects w access p (try_authenticate a visit world).0
          (try_authenticate a visit world).1.session) in
    ((kept.0 ∙ same.0, kept.1 ∙ same.1), gated)
