-- ===== src/Web/Landing.antt =====
-- web/router.go and web/view.go: which surfaces a visitor is shown, and where the root sends them.
use xensus.Base.{
  ◌≡◌, refl, inl, inr, Bool, true, false, not, ◌||◌, Option, none, some, List, [], ◌∷◌, Text, codes,
  Bool-cases, if◌then◌else◌,
}
use xensus.Store.Session.{Session}
use xensus.Config.{Access}
use xensus.Auth.{User}
use xensus.Web.Page.{PageHandler, failed}
use xensus.Web.Routes.{to_sign_in, require_steward}

-- `requireUser`
abbrev pub require_user : (Text → Text) → Text → (User → PageHandler) → Option User → PageHandler
require_user escape uri next none s = (to_sign_in escape uri, s)
require_user escape uri next (some u) s = next u s

-- The closure `read` of `Register`
unfoldable pub read_gate :
    (Text → Text) → Text → Access → Text → (User → PageHandler) → Option User → PageHandler
read_gate escape uri access surface next user =
    if access.steward_only surface
    then require_steward escape uri next user
    else require_user escape uri next user

abbrev pub is_steward : Option User → Bool
is_steward none = false
is_steward (some u) = u.is_steward

-- The closure `canRead` of `base`
unfoldable pub can_read : Access → Option User → Text → Bool
can_read access user surface = is_steward user || not (access.steward_only surface)

-- The struct `navView`
pub record NavView : Type 0 where
  pub show_persons : Bool
  pub show_systems : Bool
  pub show_stewards : Bool
  pub show_audit : Bool

-- The field `Nav` of `base`
abbrev pub nav_view : Access → Option User → NavView
nav_view access user = record {
  show_persons = can_read access user (codes "persons");
  show_systems = can_read access user (codes "systems");
  show_stewards = can_read access user (codes "stewards");
  show_audit = can_read access user (codes "audit");
}

-- The surfaces with their paths, in the order of `landingPath`.
abbrev pub surfaces : List (Text × Text)
surfaces =
    (codes "persons", codes "/persons")
    ∷ (codes "systems", codes "/systems")
    ∷ (codes "stewards", codes "/stewards")
    ∷ (codes "audit", codes "/audit")
    ∷ []

unfoldable pub first_readable : Access → Option User → List (Text × Text) → Text
first_readable access user [] = codes "/persons"
first_readable access user ((surface, path) ∷ rest) =
    let later = first_readable access user rest in
    if is_steward user || not (access.steward_only surface) then path else later

-- `landingPath`
abbrev pub landing_path : Access → Option User → Text
landing_path access user = first_readable access user surfaces

locked_if :
    {A : Type 0} (role : Bool) (x y : A)
    → (if role then x else y) ≡ (if role || false then x else y)
locked_if true x y = refl
locked_if false x y = refl

unlocked_if : {A : Type 0} (role : Bool) (x y : A) → x ≡ (if role || true then x else y)
unlocked_if true x y = refl
unlocked_if false x y = refl

pub read_gate-can_read :
    (escape : Text → Text) (uri : Text) (access : Access) (surface : Text)
    (next : User → PageHandler) (u : User) (s : Session)
    → read_gate escape uri access surface next (some u) s ≡ (
        if can_read access (some u) surface
        then next u s
        else (failed 403 (codes "steward role required"), s))
unfolding read_gate can_read
read_gate-can_read escape uri access surface next u s =
    elim (Bool-cases (access.steward_only surface)) [
      | inl locked ↦
          rw locked
            (locked_if u.is_steward (next u s) (failed 403 (codes "steward role required"), s))
      | inr unlocked ↦
          rw unlocked
            (unlocked_if u.is_steward (next u s) (failed 403 (codes "steward role required"), s))
    ]
