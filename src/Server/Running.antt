-- ===== src/Server/Running.antt =====
-- main.go, server.go and router.go: what holds while a process serves requests.
use xensus.Base.{
  ℕ, ◌≡◌, refl, ◌⊎◌, inl, inr, Option, none, some, List, [], ◌∷◌, Text, true, is_empty, Bool-cases,
}
use xensus.Registry.Governance.{HasSteward}
use xensus.Auth.World.{World}
use xensus.Auth.Cookies.{Visit}
use xensus.Auth.Binding.{Agrees}
use xensus.System.Steps.{Step, signs_in, writes, posts, reads, views, checks, Reaches, here, next}
use xensus.System.Soundness.{Sound, Reaches-IsSound, Reaches-HasSteward}
use xensus.Server.Routes.{
  Site, Target, get_health, post_logout, get_static, get_login, get_callback, api_read, api_write,
  get_page, post_form, Arrival, dispatch_bare, dispatch_full, dispatch, dispatch_all,
}

-- A request that is served changes nothing, or is a step of the deployment.
abbrev Steps : World → World → Type 0
Steps w w' = (w' ≡ w) ⊎ Step w w'

dispatch_bare-Steps : (t : Target) (w : World) → Steps w (dispatch_bare t w).1
dispatch_bare-Steps get_health w = inr (checks refl)
dispatch_bare-Steps (get_static path) w = inl refl
dispatch_bare-Steps post_logout w = inl refl
dispatch_bare-Steps (get_login return_to) w = inl refl
dispatch_bare-Steps (get_callback q) w = inl refl
dispatch_bare-Steps (api_read r) w = inl refl
dispatch_bare-Steps (api_write r) w = inl refl
dispatch_bare-Steps (get_page p) w = inl refl
dispatch_bare-Steps (post_form p) w = inl refl

dispatch_full-Steps :
    (site : Site) (uri : Text) (n : ℕ) (t : Target) (visit : Visit) (w : World)
    → Steps w (dispatch_full site uri n t visit w).1
dispatch_full-Steps site uri n get_health visit w = inr (checks refl)
dispatch_full-Steps site uri n (get_static path) visit w = inl refl
dispatch_full-Steps site uri n post_logout visit w = inl refl
dispatch_full-Steps site uri n (get_login return_to) visit w = inl refl
dispatch_full-Steps site uri n (get_callback q) visit w =
    inr (signs_in site.authenticator site.exchange n q visit refl)
dispatch_full-Steps site uri n (api_read r) visit w =
    inr (reads site.authenticator site.access site.marshal r visit refl)
dispatch_full-Steps site uri n (api_write r) visit w = inr (writes site.authenticator r visit refl)
dispatch_full-Steps site uri n (get_page p) visit w =
    inr (views site.authenticator site.display site.escape uri site.access p visit refl)
dispatch_full-Steps site uri n (post_form p) visit w =
    inr (posts site.authenticator site.escape uri p visit refl)

dispatch-Steps : (site : Option Site) (r : Arrival) (w : World) → Steps w (dispatch site r w).1
unfolding dispatch
dispatch-Steps none r w = dispatch_bare-Steps r.target w
dispatch-Steps (some site) r w = dispatch_full-Steps site r.uri r.reading r.target r.visit w

pub dispatch_all-Reaches :
    (site : Option Site) (rs : List Arrival) (w : World) → Reaches w (dispatch_all site rs w)
unfolding dispatch_all
dispatch_all-Reaches site [] w = here
dispatch_all-Reaches site (r ∷ rs) w = elim (dispatch-Steps site r w) [
  | inl same ↦ rw same (dispatch_all-Reaches site rs w)
  | inr step ↦ next step (dispatch_all-Reaches site rs (dispatch site r w).1)
]

-- What holds of a process between requests: its tables are well formed, and it remembers no tenant, or
-- the one in its database, and there is a steward.
pub record IsHealthy (w : World) : Type 0 where
  pub sound : Sound w.session.committed
  pub governed :
      (is_empty w.tenant ≡ true)
      ⊎ ((w.session.committed.config.tenant_id ≡ some w.tenant) × HasSteward w.session.committed)

pub dispatch_all-IsHealthy :
    (site : Option Site) (rs : List Arrival) (w : World)
    → Agrees w
    → Sound w.session.committed
    → IsHealthy (dispatch_all site rs w)
dispatch_all-IsHealthy site rs w agrees sound =
    let w' = dispatch_all site rs w in
    let reaches = dispatch_all-Reaches site rs w in
    record {
      sound = (Reaches-IsSound w w' agrees sound reaches).1;
      governed = elim (Bool-cases (is_empty w'.tenant)) [
        | inl unbound ↦ inl unbound
        | inr bound ↦ inr (Reaches-HasSteward w w' agrees sound reaches bound)
      ];
    }
