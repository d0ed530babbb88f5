-- ===== src/Auth/Entry.antt =====
-- auth/*.go: from the cookie of a sign-in to the user of a later request.
use xensus.Base.{
  ℕ, ◌≤◌, ◌≡◌, refl, ◌∙◌, true, false, none, some, Option-cases, inl, inr, [], ◌∷◌, Text, ltb,
  text_eq, text_eq_refl, is_empty, Bool-cases, arith, if◌then◌else◌,
}
use xensus.Sql.{count_where}
use xensus.Store.Schema.{Details, Database}
use xensus.Store.Session.{query_row}
use xensus.Store.Stewards.{is_active_steward, holds_oid}
use xensus.Auth.{User}
use xensus.Auth.Cookies.{
  Crypto, seal, SessionData, LoginData, session_fields, login_fields, field, decode_session,
  SessionStore, Visit, SetCookie, write_session, write_login_state, read_session,
}
use xensus.Auth.Tokens.{extract_bearer}
use xensus.Auth.World.{Authenticator, World, try_authenticate}
use xensus.Auth.Sealing.{IsSound, open_sealed-seal}

-- A request with this session cookie and no bearer token.
pub record Carries (value : Text) (r : Visit) : Type 0 where
  pub cookie : r.session_cookie ≡ some value
  pub no_bearer : is_empty (extract_bearer r.authorization) ≡ true

-- What a cookie's value was sealed from.
abbrev pub Seals : Crypto → ℕ → Details → Text → Type 0
Seals crypto n v value = seal crypto n v ≡ some value

write_session-Seals :
    (store : SessionStore) (n : ℕ) (r : Visit) (d : SessionData) (c : SetCookie)
    → write_session store n r d ≡ some c
    → Seals store.crypto n (session_fields d) c.value
unfolding write_session
write_session-Seals store n r d c e = elim (Option-cases (seal store.crypto n (session_fields d))) [
  | inl dry ↦ absurd (let e' = (rw dry at e) in cc)
  | inr (blob, sealed) ↦ let e' = (rw sealed at e) in sealed ∙ ground (arith, e')
]

decode_session-session_fields : (d : SessionData) → decode_session (session_fields d) ≡ some d
unfolding decode_session field text_eq
decode_session-session_fields d = refl

decode_session-login_fields :
    (d : LoginData)
    → decode_session (login_fields d) ≡ some (record { oid = []; upn = []; tid = []; exp = d.exp })
unfolding decode_session field text_eq
decode_session-login_fields d = refl

read_session-seal :
    (store : SessionStore) (n : ℕ) (r : Visit) (v : Details) (d : SessionData) (value : Text)
    → IsSound store.crypto
    → Seals store.crypto n v value
    → decode_session v ≡ some d
    → r.session_cookie ≡ some value
    → read_session store r ≡ (if ltb d.exp r.now then none else some d)
unfolding read_session
read_session-seal store n r v d value sound sealed decoded cookie =
    rw (cookie, open_sealed-seal store.crypto sound n v value sealed, decoded) refl

pub write_login_state-Seals :
    (store : SessionStore) (n : ℕ) (r : Visit) (d : LoginData) (c : SetCookie)
    → write_login_state store n r d ≡ some c
    → Seals store.crypto n (login_fields d) c.value
unfolding write_login_state
write_login_state-Seals store n r d c e =
    elim (Option-cases (seal store.crypto n (login_fields d))) [
      | inl dry ↦ absurd (let e' = (rw dry at e) in cc)
      | inr (blob, sealed) ↦ let e' = (rw sealed at e) in sealed ∙ ground (arith, e')
    ]

-- The user whom a request stands for, with the steward bit of the database.
abbrev pub user_of : SessionData → Database → User
user_of d db = record {
  oid = d.oid;
  upn = d.upn;
  tid = d.tid;
  is_steward = ltb 0 (count_where (holds_oid d.oid) db.stewards.rows);
}

-- With sound cryptography: the cookie of a session, brought back without a bearer token before it
-- expires, to a process that remembers the session's tenant, a named one, while the driver's call
-- does not fail: the request is authenticated, and its steward bit is the one of the database as it
-- is then.
pub try_authenticate-Knows :
    (a : Authenticator) (n : ℕ) (r r' : Visit) (d : SessionData) (c : SetCookie) (w : World)
    → IsSound a.sessions.crypto
    → write_session a.sessions n r d ≡ some c
    → Carries c.value r'
    → r'.now ≤ d.exp
    → is_empty d.tid ≡ false
    → w.tenant ≡ d.tid
    → w.session.driver.fails w.session.tick ≡ false
    → (try_authenticate a r' w).0 ≡ some (user_of d w.session.committed)
unfolding try_authenticate is_active_steward query_row
try_authenticate-Knows a n r r' d c w sound written carries fresh named bound works =
    let read =
      read_session-seal a.sessions n r' (session_fields d) d c.value sound
        (write_session-Seals a.sessions n r d c written) (decode_session-session_fields d)
        carries.cookie in
    let unexpired : ltb d.exp r'.now ≡ false = ground (arith, fresh) in
    rw (bound, named, carries.no_bearer, read, unexpired, text_eq_refl d.tid, works) refl

nonempty : (s : Text) → is_empty s ≡ false → text_eq [] s ≡ false
unfolding text_eq
nonempty [] e = cc
nonempty (c ∷ s) e = refl

-- With sound cryptography, a login cookie, which is sealed with the same key, lets nobody in when
-- it is brought as a session cookie without a bearer token.
pub login_cookie-IsNoSession :
    (a : Authenticator) (n : ℕ) (r r' : Visit) (d : LoginData) (c : SetCookie) (w : World)
    → IsSound a.sessions.crypto
    → write_login_state a.sessions n r d ≡ some c
    → Carries c.value r'
    → (try_authenticate a r' w).0 ≡ none
unfolding try_authenticate
login_cookie-IsNoSession a n r r' d c w sound written carries =
    let read =
      read_session-seal a.sessions n r' (login_fields d) _ c.value sound
        (write_login_state-Seals a.sessions n r d c written) (decode_session-login_fields d)
        carries.cookie in
    elim (Bool-cases (is_empty w.tenant)) [
      | inl unbound ↦ rw unbound refl
      | inr bound ↦ elim (Bool-cases (ltb d.exp r'.now)) [
        | inl expired ↦ rw (bound, carries.no_bearer, read, expired) refl
        | inr fresh ↦ rw (bound, carries.no_bearer, read, fresh, nonempty w.tenant bound) refl
      ]
    ]
