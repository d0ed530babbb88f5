-- ===== src/Auth.antt =====
-- Package auth: the gates of auth/middleware.go, and one module for each other part of auth/*.go.
pub mod Cookies
pub mod Tokens
pub mod World
pub mod Known
pub mod SignIn
pub mod Sealing
pub mod Entry
pub mod Binding
pub mod Arrival
pub mod Return
pub mod Journey
pub mod Founding
pub mod Startup
pub mod Setup
pub mod TestCrypto
pub mod TestData
mod Tests
use xensus.Base.{Bool, Option, none, some, Text, codes, if◌then◌else◌}
use xensus.Api.Response.{Handler, plain}

-- The struct `User` of auth/authenticator.go.
pub record User : Type 0 where
  pub oid : Text
  pub upn : Text
  pub tid : Text
  pub is_steward : Bool

-- `RequireUser`
abbrev pub require_user : (User → Handler) → Option User → Handler
require_user next none s = (plain 401 (codes "unauthorized"), s)
require_user next (some u) s = next u s

-- `RequireSteward`
abbrev pub require_steward : (User → Handler) → Option User → Handler
require_steward next none s = (plain 401 (codes "unauthorized"), s)
require_steward next (some u) s =
    if u.is_steward then next u s else (plain 403 (codes "steward role required"), s)
