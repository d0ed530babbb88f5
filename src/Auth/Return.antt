-- ===== src/Auth/Return.antt =====
-- auth/handlers.go: what a login leaves for the callback.
use xensus.Base.{
  ℕ, ◌+◌, ◌≤◌, ◌≡◌, refl, ap, ◌∙◌, true, false, Option, none, some, inl, inr, [], ◌∷◌, Text,
  text_eq, Bool-cases, ltb, arith,
}
use xensus.Auth.Cookies.{
  LoginData, Visit, SetCookie, SessionStore, login_fields, field, decode_login, login_max_age,
  write_login_state, read_login_state,
}
use xensus.Auth.World.{Authenticator}
use xensus.Auth.SignIn.{
  Reply, starts_with_slash, starts_with_slashes, checked_return_to, login_redirect, login_with,
  random_token, login,
}
use xensus.Auth.Sealing.{IsSound, open_sealed-seal}
use xensus.Auth.Entry.{write_login_state-Seals}

decode_login-login_fields : (d : LoginData) → decode_login (login_fields d) ≡ some d
unfolding decode_login field text_eq
decode_login-login_fields d = refl

read_login_state-write_login_state :
    (store : SessionStore) (n : ℕ) (r r' : Visit) (d : LoginData) (c : SetCookie)
    → IsSound store.crypto
    → write_login_state store n r d ≡ some c
    → r'.login_cookie ≡ some c.value
    → r'.now ≤ d.exp
    → read_login_state store r' ≡ some d
unfolding read_login_state
read_login_state-write_login_state store n r r' d c sound written cookie fresh =
    let unexpired : ltb d.exp r'.now ≡ false = ground (arith, fresh) in
    rw
      (
        cookie,
        open_sealed-seal store.crypto sound n (login_fields d) c.value
            (write_login_state-Seals store n r d c written),
        decode_login-login_fields d,
        unexpired,
      )
      refl

-- A path on this server, as the program tests it.
abbrev pub IsLocal : Text → Type 0
IsLocal s = (starts_with_slash s ≡ true) × (starts_with_slashes s ≡ false)

checked_return_to-IsLocal : (s : Text) → IsLocal (checked_return_to s)
unfolding checked_return_to
checked_return_to-IsLocal [] = (refl, refl)
checked_return_to-IsLocal (c ∷ s) = elim (Bool-cases (starts_with_slash (c ∷ s))) [
  | inr other ↦ rw other (refl, refl)
  | inl slash ↦ elim (Bool-cases (starts_with_slash s)) [
    | inl two ↦ rw (slash, two) (refl, refl)
    | inr one ↦ rw (slash, one) (slash, rw slash one)
  ]
]

-- What the callback reads of a login.
abbrev pub Remembers : Authenticator → (Text → Text → Text) → Reply → Visit → LoginData → Type 0
Remembers a auth_code_url reply r' d =
    (read_login_state a.sessions r' ≡ some d)
    × (reply.location ≡ auth_code_url d.state d.nonce)
    × IsLocal d.return_to

login_redirect-Remembers :
    (a : Authenticator) (url : Text → Text → Text) (n : ℕ) (r r' : Visit) (d : LoginData)
    (o : Option SetCookie) (c : SetCookie)
    → IsSound a.sessions.crypto
    → write_login_state a.sessions n r d ≡ o
    → d.exp ≡ r.now + login_max_age
    → IsLocal d.return_to
    → (login_redirect url d o).cookies ≡ c ∷ []
    → r'.login_cookie ≡ some c.value
    → r'.now ≤ r.now + login_max_age
    → (d' : LoginData) × Remembers a url (login_redirect url d o) r' d'
login_redirect-Remembers a url n r r' d none c sound written lasts here set brought fresh =
    absurd (let e = set in cc)
login_redirect-Remembers a url n r r' d (some c') c sound written lasts here set brought fresh =
    let same : c' ≡ c = ground (arith, set) in
    (
      d,
      (
        read_login_state-write_login_state a.sessions n r r' d c sound (written ∙ ap some same)
            brought (rw lasts fresh),
        refl,
        here,
      ),
    )

login_with-Remembers :
    (a : Authenticator) (url : Text → Text → Text) (n : ℕ) (return_to : Text) (r r' : Visit)
    (state nonce : Option Text) (c : SetCookie)
    → IsSound a.sessions.crypto
    → (login_with a url n return_to r state nonce).cookies ≡ c ∷ []
    → r'.login_cookie ≡ some c.value
    → r'.now ≤ r.now + login_max_age
    → (d : LoginData) × Remembers a url (login_with a url n return_to r state nonce) r' d
login_with-Remembers a url n return_to r r' none drawn c sound set brought fresh =
    absurd (let e = set in cc)
login_with-Remembers a url n return_to r r' (some state) none c sound set brought fresh =
    absurd (let e = set in cc)
login_with-Remembers a url n return_to r r' (some state) (some drawn) c sound set brought fresh =
    login_redirect-Remembers a url n r r' _ _ c sound refl refl
      (checked_return_to-IsLocal return_to) set brought fresh

-- A login that sets a cookie, with sound cryptography: whoever brings the cookie back within the five
-- minutes is read as a login whose state and nonce are those sent to the provider, and whose address to
-- return to begins with one slash and not with two.
pub login-Remembers :
    (a : Authenticator) (url : Text → Text → Text) (n : ℕ) (return_to : Text) (r r' : Visit)
    (c : SetCookie)
    → IsSound a.sessions.crypto
    → (login a url n return_to r).cookies ≡ c ∷ []
    → r'.login_cookie ≡ some c.value
    → r'.now ≤ r.now + login_max_age
    → (d : LoginData) × Remembers a url (login a url n return_to r) r' d
unfolding login
login-Remembers a url n return_to r r' c sound set brought fresh =
    login_with-Remembers a url (n + 2) return_to r r' (random_token a.sessions n)
      (random_token a.sessions (n + 1)) c sound set brought fresh
