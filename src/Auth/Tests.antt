-- ===== src/Auth/Tests.antt =====
-- Concrete sign-ins.
use xensus.Base.{
  ltb, ◌≡◌, refl, ◌⊎◌, true, false, none, some, [], ◌∷◌, ◌++◌, Text, codes, text_eq, lower, arith,
}
use xensus.Sql.{select_first, count_where}
use xensus.Store.PendingStewards.{invites}
use xensus.Core.TestData.{blank, book, bob, stale_invitation}
use xensus.Registry.Admission.{HasRoom}
use xensus.Auth.Cookies.{
  LoginData, decode_login, field, open_sealed, read_login_state, SetCookie, take, drop, seal,
  write_cookie, write_session, write_login_state, login_cookie_name, login_fields, login_max_age,
}
use xensus.Auth.Tokens.{extract_bearer, verify}
use xensus.Auth.World.{try_authenticate}
use xensus.Auth.SignIn.{
  complete_sign_in, bind_tenant, login, callback, session_reply, checked_return_to,
}
use xensus.Auth.TestData.{
  claims_of_bob, authenticator, visit, login_of_bob, cookie, login_cookie, returning, bound,
  unbound, bound-Agrees, unbound-Agrees, answer, coming_back,
}
use xensus.Auth.TestCrypto.{toy, zeros, toy-IsSound}
use xensus.Auth.Entry.{Carries, user_of, try_authenticate-Knows, login_cookie-IsNoSession}
use xensus.Auth.Arrival.{session_of, Admission, complete_sign_in-Admits, invited-BecomesSteward}
use xensus.Auth.Founding.{first-BecomesSteward}
use xensus.Store.Stewards.{holds_oid}
use xensus.Auth.Return.{Remembers, login-Remembers}
use xensus.Auth.Journey.{only_deletes, Journey, callback-Journey}

written :
    write_session authenticator.sessions 0 visit (session_of visit claims_of_bob) ≡ some cookie
unfolding write_session seal
written = refl

login_written : write_login_state authenticator.sessions 0 visit login_of_bob ≡ some login_cookie
unfolding write_login_state seal
login_written = refl

carries : (value : Text) → Carries value (returning value)
unfolding extract_bearer
carries value = record { cookie = refl; no_bearer = refl }

complete_sign_in-Admits_example :
    ((complete_sign_in authenticator 0 visit claims_of_bob login_of_bob unbound).0.cookies ≡ [])
    ⊎ Admission authenticator 0 visit claims_of_bob login_of_bob
        (complete_sign_in authenticator 0 visit claims_of_bob login_of_bob unbound)
complete_sign_in-Admits_example =
    complete_sign_in-Admits authenticator 0 visit claims_of_bob login_of_bob unbound unbound-Agrees
      refl

book-HasRoom : HasRoom book
book-HasRoom = record { stewards = omega arith; audit_log = omega arith }

bob-IsInvited : select_first (invites bob.upn) book.pending_stewards.rows ≡ some stale_invitation
unfolding select_first text_eq lower
bob-IsInvited = refl

invited-BecomesSteward_example :
    ((complete_sign_in authenticator 0 visit claims_of_bob login_of_bob bound).0
      ≡ session_reply login_of_bob (some cookie))
    × ((try_authenticate authenticator
          (returning cookie.value)
          (complete_sign_in authenticator 0 visit claims_of_bob login_of_bob bound).1).0
        ≡ some (record {
          oid = claims_of_bob.oid;
          upn = claims_of_bob.upn;
          tid = claims_of_bob.tid;
          is_steward = true;
        }))
invited-BecomesSteward_example =
    invited-BecomesSteward authenticator 0 visit (returning cookie.value) claims_of_bob login_of_bob
      bound stale_invitation cookie toy-IsSound refl (λ _. refl) book-HasRoom refl refl refl refl
      bob-IsInvited written (carries cookie.value) (omega arith)

try_authenticate-Knows_example :
    (try_authenticate authenticator (returning cookie.value) bound).0
    ≡ some (user_of (session_of visit claims_of_bob) book)
try_authenticate-Knows_example =
    try_authenticate-Knows authenticator 0 visit (returning cookie.value)
      (session_of visit claims_of_bob) cookie bound toy-IsSound written (carries cookie.value)
      (omega arith) refl refl refl

login_cookie-IsNoSession_example :
    (try_authenticate authenticator (returning login_cookie.value) bound).0 ≡ none
login_cookie-IsNoSession_example =
    login_cookie-IsNoSession authenticator 0 visit (returning login_cookie.value) login_of_bob
      login_cookie bound toy-IsSound login_written (carries login_cookie.value)

abbrev to_provider : Text → Text → Text
to_provider state nonce = codes "https://login.example/?state=" ++ state ++ nonce

-- Random tokens of the toy are zeros.
abbrev started : LoginData
started = record { state = zeros 32; nonce = zeros 32; return_to = codes "/systems"; exp = 400 }

abbrev started_cookie : SetCookie
started_cookie =
    write_cookie authenticator.sessions visit login_cookie_name
      (0 ∷ 0 ∷ toy.marshal (login_fields started)) login_max_age

login-started :
    (login authenticator to_provider 0 (codes "/systems") visit).cookies ≡ started_cookie ∷ []
unfolding login write_login_state seal checked_return_to
login-started = refl

login-Remembers_example :
    (d : LoginData) × Remembers authenticator to_provider
      (login authenticator to_provider 0 (codes "/systems") visit)
      (record visit { login_cookie = some started_cookie.value; now = 200 })
      d
login-Remembers_example =
    login-Remembers authenticator to_provider 0 (codes "/systems") visit
      (record visit { login_cookie = some started_cookie.value; now = 200 }) started_cookie
      toy-IsSound login-started refl (omega arith)

-- The sign-in of an invited person sets the session cookie.
callback_bob :
    only_deletes
      (callback authenticator (λ _. some (some (codes "jwt"))) 0 answer coming_back bound).0.cookies
    ≡ false
unfolding callback read_login_state open_sealed take drop decode_login field verify complete_sign_in
    bind_tenant write_session seal text_eq
callback_bob = refl

callback-Journey_example :
    (only_deletes
        (callback authenticator
          (λ _. some (some (codes "jwt")))
          0
          answer
          coming_back
          bound).0.cookies
      ≡ true)
    ⊎ Journey authenticator
        (λ _. some (some (codes "jwt")))
        0
        answer
        coming_back
        (callback authenticator
          (λ _. some (some (codes "jwt")))
          0
          answer
          coming_back
          bound).0.cookies
        (callback authenticator (λ _. some (some (codes "jwt"))) 0 answer coming_back bound).1
callback-Journey_example =
    callback-Journey authenticator (λ _. some (some (codes "jwt"))) 0 answer coming_back bound
      bound-Agrees

-- An address that begins with a slash and a backslash passes the test.
checked_return_to_backslash : checked_return_to (codes "/\\host") ≡ codes "/\\host"
unfolding checked_return_to
checked_return_to_backslash = refl

blank-HasRoom : HasRoom blank
blank-HasRoom = record { stewards = omega arith; audit_log = omega arith }

no_stewards : ltb 0 (count_where (holds_oid claims_of_bob.oid) blank.stewards.rows) ≡ false
unfolding count_where
no_stewards = refl

first-BecomesSteward_example :
    ((complete_sign_in authenticator 0 visit claims_of_bob login_of_bob unbound).0
      ≡ session_reply login_of_bob (some cookie))
    × ((try_authenticate authenticator
          (returning cookie.value)
          (complete_sign_in authenticator 0 visit claims_of_bob login_of_bob unbound).1).0
        ≡ some (record {
          oid = claims_of_bob.oid;
          upn = claims_of_bob.upn;
          tid = claims_of_bob.tid;
          is_steward = true;
        }))
first-BecomesSteward_example =
    first-BecomesSteward authenticator 0 visit (returning cookie.value) claims_of_bob login_of_bob
      unbound cookie toy-IsSound refl (λ _. refl) blank-HasRoom refl refl no_stewards refl refl
      written (carries cookie.value) (omega arith)
