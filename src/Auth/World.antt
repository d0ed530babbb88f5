-- ===== src/Auth/World.antt =====
-- auth/authenticator.go and auth/middleware.go: what a process keeps, and who makes a request.
use xensus.Base.{Bool, false, not, Option, none, some, Text, text_eq, is_empty, if◌then◌else◌}
use xensus.Store.Session.{Session, Result, ok, err, db}
use xensus.Store.Stewards.{is_active_steward}
use xensus.Auth.{User}
use xensus.Auth.Cookies.{SessionStore, SessionData, Visit, read_session}
use xensus.Auth.Tokens.{Claims, Inner, verify, extract_bearer}

-- The `Authenticator`, without what changes.
pub record Authenticator : Type 0 where
  pub sessions : SessionStore
  pub inner : Inner

-- What changes: the field `tenantID`, empty until a tenant is bound, and the database.
pub record World : Type 0 where
  pub tenant : Text
  pub session : Session

-- `isSteward, _ :=`
abbrev pub or_false : Result Bool × Session → Bool × Session
or_false (ok b, s) = (b, s)
or_false (err e, s) = (false, s)

-- A user with the steward bit read now.
abbrev pub user_now : Text → Text → Text → World → Option User × World
user_now oid upn tid w =
    let (is_steward, s) = or_false (is_active_steward db oid w.session) in
    (
      some (record { oid = oid; upn = upn; tid = tid; is_steward = is_steward }),
      record w { session = s },
    )

abbrev pub from_claims : Option Claims → World → Option User × World
from_claims none w = (none, w)
from_claims (some c) w = if text_eq c.tid w.tenant then user_now c.oid c.upn c.tid w else (none, w)

abbrev pub from_session : Option SessionData → World → Option User × World
from_session none w = (none, w)
from_session (some d) w = if text_eq d.tid w.tenant then user_now d.oid d.upn d.tid w else (none, w)

-- `tryAuthenticate`
unfoldable pub try_authenticate : Authenticator → Visit → World → Option User × World
try_authenticate a r w =
    let raw = extract_bearer r.authorization in
    if is_empty w.tenant
    then (none, w)
    else if not (is_empty raw)
    then from_claims (verify a.inner raw) w
    else from_session (read_session a.sessions r) w
