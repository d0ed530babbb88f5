-- ===== src/Auth/SignIn.antt =====
-- auth/handlers.go: the sign-in.
use xensus.Base.{
  ℕ, ◌+◌, Bool, false, not, ◌||◌, ◌&&◌, ◌==◌, Option, none, some, List, [], ◌∷◌, ◌++◌, Text, codes,
  text_eq, is_empty, if◌then◌else◌,
}
use xensus.Registry.{◌>>=◌}
use xensus.Store.Session.{Session, Result, ok, err, already_bound}
use xensus.Store.Tenant.{bound_tenant_id}
use xensus.Core.Bootstrap.{bootstrap}
use xensus.Core.Stewards.{claim_pending_steward}
use xensus.Auth.Cookies.{
  LoginData, Visit, SetCookie, SessionStore, session_max_age, login_max_age, write_session,
  write_login_state, read_login_state, clear_cookie, login_cookie_name, session_cookie_name,
}
use xensus.Auth.Tokens.{Claims, verify}
use xensus.Auth.World.{Authenticator, World}

-- The answer of a page: a redirect has the address given to http.Redirect, and an error a message.
pub record Reply : Type 0 where
  pub status : ℕ
  pub location : Text
  pub message : Text
  pub cookies : List SetCookie

-- `http.Error`
abbrev pub error_reply : ℕ → Text → Reply
error_reply status message = record {
  status = status;
  location = [];
  message = message;
  cookies = [];
}

-- `http.Redirect` with 302
abbrev pub redirect : Text → Reply
redirect location = record { status = 302; location = location; message = []; cookies = [] }

abbrev pub with_cookie : SetCookie → Reply → Reply
with_cookie c r = record r { cookies = c ∷ r.cookies }

abbrev pub starts_with_slash : Text → Bool
starts_with_slash [] = false
starts_with_slash (c ∷ s) = c == b'/'

abbrev pub starts_with_slashes : Text → Bool
starts_with_slashes [] = false
starts_with_slashes (c ∷ s) = c == b'/' && starts_with_slash s

-- The address that `Login` keeps.
unfoldable pub checked_return_to : Text → Text
checked_return_to s =
    if is_empty s || not (starts_with_slash s) || starts_with_slashes s then codes "/" else s

abbrev pub login_redirect : (Text → Text → Text) → LoginData → Option SetCookie → Reply
login_redirect auth_code_url d none = error_reply 500 (codes "login init failed")
login_redirect auth_code_url d (some c) = with_cookie c (redirect (auth_code_url d.state d.nonce))

abbrev pub login_with :
    Authenticator → (Text → Text → Text) → ℕ → Text → Visit → Option Text → Option Text → Reply
login_with a auth_code_url n return_to r (some state) (some nonce) =
    let d : LoginData = record {
      state = state;
      nonce = nonce;
      return_to = checked_return_to return_to;
      exp = r.now + login_max_age;
    } in
    login_redirect auth_code_url d (write_login_state a.sessions n r d)
login_with a auth_code_url n return_to r _ _ = error_reply 500 (codes "login init failed")

-- `randomToken`, for the `n`-th reading of crypto/rand
abbrev pub random_token : SessionStore → ℕ → Option Text
random_token store n = do b ← store.crypto.random 32 n; some (store.crypto.encode b)

-- `Login`, with oauth2's AuthCodeURL as a parameter
unfoldable pub login : Authenticator → (Text → Text → Text) → ℕ → Text → Visit → Reply
login a auth_code_url n return_to r =
    login_with a auth_code_url (n + 2) return_to r (random_token a.sessions n)
      (random_token a.sessions (n + 1))

-- The tenant that `BoundTenantID` reads after a lost race.
abbrev pub reread : World → Result Text × Session → Option Text × World
reread w (err e, s) = (none, record w { session = s })
reread w (ok tid, s) =
    if is_empty tid
    then (none, record w { session = s })
    else (some tid, record { tenant = tid; session = s })

abbrev pub bootstrapped : Claims → World → Result ℕ × Session → Option Text × World
bootstrapped c w (ok id, s) = (some c.tid, record { tenant = c.tid; session = s })
bootstrapped c w (err already_bound, s) = reread w (bound_tenant_id s)
bootstrapped c w (err e, s) = (none, record w { session = s })

-- The tenant that is bound once `completeSignIn` has tried to bind one.
unfoldable pub bind_tenant : Claims → World → Option Text × World
bind_tenant c w =
    let first =
      bootstrapped c w (bootstrap (record { oid = c.oid; upn = c.upn; tid = c.tid }) w.session) in
    if is_empty w.tenant then first else (some w.tenant, w)

abbrev pub claim_invitation : Claims → World → World
claim_invitation c w = record w {
  session = (claim_pending_steward (record { oid = c.oid; upn = c.upn }) w.session).1;
}

abbrev pub session_reply : LoginData → Option SetCookie → Reply
session_reply ls none = error_reply 500 (codes "session write failed")
session_reply ls (some c) = with_cookie c (redirect ls.return_to)

-- The rest of `completeSignIn` once a tenant is bound.
abbrev pub enter :
    Authenticator → ℕ → Visit → Claims → LoginData → Option Text × World → Reply × World
enter a n r c ls (none, w) = (error_reply 500 (codes "bootstrap failed"), w)
enter a n r c ls (some bound, w) =
    if not (text_eq c.tid bound)
    then (error_reply 403 (codes "this Xensus deployment is bound to a different tenant"), w)
    else (
      session_reply ls (
          write_session a.sessions n r
            (record { oid = c.oid; upn = c.upn; tid = c.tid; exp = r.now + session_max_age })),
      claim_invitation c w,
    )

-- `completeSignIn`
unfoldable pub complete_sign_in :
    Authenticator → ℕ → Visit → Claims → LoginData → World → Reply × World
complete_sign_in a n r c ls w =
    if not (text_eq c.nonce ls.nonce)
    then (error_reply 401 (codes "nonce mismatch"), w)
    else enter a n r c ls (bind_tenant c w)

-- The parameters of the redirect from the provider.
pub record Query : Type 0 where
  pub state : Text
  pub error : Text
  pub code : Text

-- oauth2's exchange of a code: an error, or a response with or without the string id_token
abbrev pub Exchange : Type 0
Exchange = Text → Option (Option Text)

abbrev pub verified : Authenticator → ℕ → Visit → LoginData → Option Claims → World → Reply × World
verified a n r ls none w = (error_reply 401 (codes "id token verification failed"), w)
verified a n r ls (some c) w = complete_sign_in a n r c ls w

abbrev pub exchanged :
    Authenticator → ℕ → Visit → LoginData → Option (Option Text) → World → Reply × World
exchanged a n r ls none w = (error_reply 400 (codes "code exchange failed"), w)
exchanged a n r ls (some none) w = (error_reply 400 (codes "no id_token in token response"), w)
exchanged a n r ls (some (some raw)) w =
    if is_empty raw
    then (error_reply 400 (codes "no id_token in token response"), w)
    else verified a n r ls (verify a.inner raw) w

abbrev pub clearing : SetCookie → Reply × World → Reply × World
clearing c (reply, w) = (with_cookie c reply, w)

abbrev pub callback_with :
    Authenticator → Exchange → ℕ → Query → Visit → Option LoginData → World → Reply × World
callback_with a exchange n q r none w =
    (error_reply 400 (codes "missing or invalid login state — start over at /auth/login"), w)
callback_with a exchange n q r (some ls) w =
    clearing (clear_cookie a.sessions r login_cookie_name) (
      if not (text_eq q.state ls.state)
      then (error_reply 400 (codes "state mismatch"), w)
      else if not (is_empty q.error)
      then (error_reply 400 (codes "sign-in failed: " ++ q.error), w)
      else if is_empty q.code
      then (error_reply 400 (codes "missing code"), w)
      else exchanged a n r ls (exchange q.code) w)

-- `Callback`
unfoldable pub callback : Authenticator → Exchange → ℕ → Query → Visit → World → Reply × World
callback a exchange n q r w = callback_with a exchange n q r (read_login_state a.sessions r) w

-- `Logout`
abbrev pub logout : SessionStore → Visit → Reply
logout store r = with_cookie (clear_cookie store r session_cookie_name) (redirect (codes "/"))
