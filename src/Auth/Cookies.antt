-- ===== src/Auth/Cookies.antt =====
-- auth/session.go: the two cookies, sealed with one key. What crypto, encoding and the clock do is a
-- parameter.
use xensus.Base.{
  ℕ, ◌*◌, zero, suc, Bool, true, ◌&&◌, Option, none, some, [], ◌∷◌, ◌++◌, Text, codes, text_eq,
  length, ltb, if◌then◌else◌,
}
use xensus.Registry.{◌>>=◌}
use xensus.Store.Schema.{Value, text, number, Details}

-- crypto/rand, the AEAD under the key of the process, base64.RawURLEncoding, and encoding/json of an
-- object. `random k n` is the n-th reading, of k bytes.
pub record Crypto : Type 0 where
  pub random : ℕ → ℕ → Option Text
  pub nonce_size : ℕ
  pub aead_seal : Text → Text → Text
  pub aead_open : Text → Text → Option Text
  pub encode : Text → Text
  pub decode : Text → Option Text
  pub marshal : Details → Text
  pub unmarshal : Text → Option Details

-- `s[:n]`
unfoldable pub take : ℕ → Text → Text
take zero s = []
take (suc n) [] = []
take (suc n) (c ∷ s) = c ∷ take n s

-- `s[n:]`
unfoldable pub drop : ℕ → Text → Text
drop zero s = s
drop (suc n) [] = []
drop (suc n) (c ∷ s) = drop n s

-- `seal`, with the nonce of the `n`-th reading
unfoldable pub seal : Crypto → ℕ → Details → Option Text
seal crypto n v = do
  nonce ← crypto.random crypto.nonce_size n
  some (crypto.encode (nonce ++ crypto.aead_seal nonce (crypto.marshal v)))

abbrev pub open_raw : Crypto → Text → Option Details
open_raw crypto raw = if ltb (length raw) crypto.nonce_size then none else do
  plaintext ← crypto.aead_open (take crypto.nonce_size raw) (drop crypto.nonce_size raw)
  crypto.unmarshal plaintext

-- `open`, up to the decoding into a struct
unfoldable pub open_sealed : Crypto → Text → Option Details
open_sealed crypto blob = do raw ← crypto.decode blob; open_raw crypto raw

pub record SessionData : Type 0 where
  pub oid : Text
  pub upn : Text
  pub tid : Text
  pub exp : ℕ

pub record LoginData : Type 0 where
  pub state : Text
  pub nonce : Text
  pub return_to : Text
  pub exp : ℕ

abbrev pub session_fields : SessionData → Details
session_fields d =
    (codes "oid", text d.oid)
    ∷ (codes "upn", text d.upn)
    ∷ (codes "tid", text d.tid)
    ∷ (codes "exp", number d.exp)
    ∷ []

abbrev pub login_fields : LoginData → Details
login_fields d =
    (codes "state", text d.state)
    ∷ (codes "nonce", text d.nonce)
    ∷ (codes "r", text d.return_to)
    ∷ (codes "exp", number d.exp)
    ∷ []

abbrev pub as_text : Value → Option Text
as_text (text s) = some s
as_text (number n) = none

abbrev pub as_number : Value → Option ℕ
as_number (text s) = none
as_number (number n) = some n

-- How encoding/json decodes a field: a missing one is the zero value, and one of another type an
-- error.
unfoldable pub field : {A : Type 0} → (Value → Option A) → A → Text → Details → Option A
field read zero_value key [] = some zero_value
field read zero_value key ((k, v) ∷ rest) =
    let later = field read zero_value key rest in if text_eq k key then read v else later

unfoldable pub decode_session : Details → Option SessionData
decode_session v = do
  oid ← field as_text [] (codes "oid") v
  upn ← field as_text [] (codes "upn") v
  tid ← field as_text [] (codes "tid") v
  exp ← field as_number 0 (codes "exp") v
  some (record { oid = oid; upn = upn; tid = tid; exp = exp })

unfoldable pub decode_login : Details → Option LoginData
decode_login v = do
  state ← field as_text [] (codes "state") v
  nonce ← field as_text [] (codes "nonce") v
  return_to ← field as_text [] (codes "r") v
  exp ← field as_number 0 (codes "exp") v
  some (record { state = state; nonce = nonce; return_to = return_to; exp = exp })

-- 8 hours and 5 minutes, in seconds
abbrev pub session_max_age : ℕ
session_max_age = 8 * 3600

abbrev pub login_max_age : ℕ
login_max_age = 5 * 60

-- What a request carries of interest here: its cookies, its header Authorization, whether it came
-- over TLS, its header X-Forwarded-Proto, and the Unix time at which it is read.
pub record Visit : Type 0 where
  pub session_cookie : Option Text
  pub login_cookie : Option Text
  pub authorization : Text
  pub tls : Bool
  pub forwarded_proto : Text
  pub now : ℕ

-- `isSecure`
abbrev pub is_secure : Bool → Visit → Bool
is_secure trust_proxy r =
    if r.tls then true else trust_proxy && text_eq r.forwarded_proto (codes "https")

-- A cookie that the answer sets: `max_age` is `none` for -1, which deletes it. Path, HttpOnly and
-- SameSite are the same for all.
pub record SetCookie : Type 0 where
  pub name : Text
  pub value : Text
  pub secure : Bool
  pub max_age : Option ℕ

abbrev pub session_cookie_name : Text
session_cookie_name = codes "xensus_session"

abbrev pub login_cookie_name : Text
login_cookie_name = codes "xensus_login"

-- The `SessionStore`
pub record SessionStore : Type 0 where
  pub crypto : Crypto
  pub trust_proxy : Bool

-- `writeCookie`
abbrev pub write_cookie : SessionStore → Visit → Text → Text → ℕ → SetCookie
write_cookie store r name value max_age = record {
  name = name;
  value = value;
  secure = is_secure store.trust_proxy r;
  max_age = some max_age;
}

-- `clearCookie`
abbrev pub clear_cookie : SessionStore → Visit → Text → SetCookie
clear_cookie store r name = record {
  name = name;
  value = [];
  secure = is_secure store.trust_proxy r;
  max_age = none;
}

-- `WriteSession`
unfoldable pub write_session : SessionStore → ℕ → Visit → SessionData → Option SetCookie
write_session store n r d = do
  blob ← seal store.crypto n (session_fields d)
  some (write_cookie store r session_cookie_name blob session_max_age)

-- `WriteLoginState`
unfoldable pub write_login_state : SessionStore → ℕ → Visit → LoginData → Option SetCookie
write_login_state store n r d = do
  blob ← seal store.crypto n (login_fields d)
  some (write_cookie store r login_cookie_name blob login_max_age)

-- `ReadSession`, whose missing cookie and errors callers do not distinguish
unfoldable pub read_session : SessionStore → Visit → Option SessionData
read_session store r = do
  blob ← r.session_cookie
  fields ← open_sealed store.crypto blob
  d ← decode_session fields
  if ltb d.exp r.now then none else some d

-- `ReadLoginState`
unfoldable pub read_login_state : SessionStore → Visit → Option LoginData
read_login_state store r = do
  blob ← r.login_cookie
  fields ← open_sealed store.crypto blob
  d ← decode_login fields
  if ltb d.exp r.now then none else some d
