-- ===== src/Auth/Setup.antt =====
-- auth/authenticator.go: what a process starts with, or why it starts without sign-in. What go-oidc
-- discovers is a parameter.
use xensus.Base.{
  ℕ, ◌≡◌, refl, ap, Bool, Option, none, some, ◌⊎◌, inl, inr, List, [], ◌∷◌, Text, codes,
}
use xensus.Store.Session.{Session, Result, ok, err, Error}
use xensus.Store.Tenant.{bound_tenant_id}
use xensus.Config.{Config, ConfigError, require_oidc}
use xensus.Auth.Cookies.{SessionStore}
use xensus.Auth.Tokens.{Inner}
use xensus.Auth.World.{Authenticator, World}
use xensus.Auth.Binding.{Agrees}
use xensus.Auth.Startup.{Keys, new_session_store, started, start, start-Agrees}

-- The discovered provider: its endpoint, and its verifier for a client ID, which does not check the
-- issuer.
pub record Provider : Type 0 where
  pub endpoint : Text
  pub verifier : Text → Inner

-- The struct `oauth2.Config`
pub record Oauth2 : Type 0 where
  pub client_id : Text
  pub client_secret : Text
  pub redirect_url : Text
  pub endpoint : Text
  pub scopes : List Text

pub data SetupError : Type 0 where
  not_configured : ConfigError → SetupError
  store_failed : Error → SetupError
  no_provider bad_session_key : SetupError

-- The struct `Authenticator` with what changes, and the flag of `SessionKeyGenerated`.
pub record Started : Type 0 where
  pub authenticator : Authenticator
  pub oauth2 : Oauth2
  pub key_generated : Bool
  pub world : World

abbrev pub client_of : Config → Provider → Oauth2
client_of cfg p = record {
  client_id = cfg.oidc_client_id;
  client_secret = cfg.oidc_client_secret;
  redirect_url = cfg.oidc_redirect_url;
  endpoint = p.endpoint;
  scopes = codes "openid" ∷ codes "profile" ∷ codes "email" ∷ [];
}

abbrev pub with_sessions :
    Config → Provider → World → Option (SessionStore × Bool) → SetupError ⊎ Started
with_sessions cfg p w none = inl bad_session_key
with_sessions cfg p w (some (sessions, is_new)) = inr (record {
  authenticator = record { sessions = sessions; inner = p.verifier cfg.oidc_client_id };
  oauth2 = client_of cfg p;
  key_generated = is_new;
  world = w;
})

abbrev pub with_provider : Keys → ℕ → Config → World → Option Provider → SetupError ⊎ Started
with_provider keys n cfg w none = inl no_provider
with_provider keys n cfg w (some p) =
    with_sessions cfg p w (new_session_store keys n cfg.session_key cfg.trust_proxy)

abbrev pub with_tenant :
    Keys → ℕ → Option Provider → Config → Result Text × Session → (SetupError ⊎ Started) × Session
with_tenant keys n discovered cfg (err e, s) = (inl (store_failed e), s)
with_tenant keys n discovered cfg (ok tid, s) =
    (with_provider keys n cfg (record { tenant = tid; session = s }) discovered, s)

abbrev pub with_config :
    Keys
    → ℕ
    → Option Provider
    → Config
    → Option ConfigError
    → Session
    → (SetupError ⊎ Started) × Session
with_config keys n discovered cfg (some e) s = (inl (not_configured e), s)
with_config keys n discovered cfg none s = with_tenant keys n discovered cfg (bound_tenant_id s)

-- `New`, with the `n`-th reading of crypto/rand and what the discovery gives
unfoldable pub new :
    Keys → ℕ → Option Provider → Config → Session → (SetupError ⊎ Started) × Session
new keys n discovered cfg s = with_config keys n discovered cfg (require_oidc cfg) s

with_sessions-world :
    (cfg : Config) (p : Provider) (w : World) (o : Option (SessionStore × Bool)) (st : Started)
    → with_sessions cfg p w o ≡ inr st
    → w ≡ st.world
with_sessions-world cfg p w none st e = absurd (let e' = e in cc)
with_sessions-world cfg p w (some (sessions, is_new)) st e = let e' = e in cc

with_provider-world :
    (keys : Keys) (n : ℕ) (cfg : Config) (w : World) (o : Option Provider) (st : Started)
    → with_provider keys n cfg w o ≡ inr st
    → w ≡ st.world
with_provider-world keys n cfg w none st e = absurd (let e' = e in cc)
with_provider-world keys n cfg w (some p) st e =
    with_sessions-world cfg p w (new_session_store keys n cfg.session_key cfg.trust_proxy) st e

with_tenant-starts :
    (keys : Keys) (n : ℕ) (o : Option Provider) (cfg : Config) (x : Result Text × Session)
    (st : Started)
    → (with_tenant keys n o cfg x).0 ≡ inr st
    → (started x).0 ≡ some st.world
with_tenant-starts keys n o cfg (err e, s) st h = absurd (let h' = h in cc)
with_tenant-starts keys n o cfg (ok tid, s) st h =
    ap some (with_provider-world keys n cfg (record { tenant = tid; session = s }) o st h)

with_config-starts :
    (keys : Keys) (n : ℕ) (o : Option Provider) (cfg : Config) (e : Option ConfigError)
    (s : Session) (st : Started)
    → (with_config keys n o cfg e s).0 ≡ inr st
    → (e ≡ none) × ((start s).0 ≡ some st.world)
unfolding start
with_config-starts keys n o cfg (some e) s st h = absurd (let h' = h in cc)
with_config-starts keys n o cfg none s st h =
    (refl, with_tenant-starts keys n o cfg (bound_tenant_id s) st h)

pub new-starts :
    (keys : Keys) (n : ℕ) (o : Option Provider) (cfg : Config) (s : Session) (st : Started)
    → (new keys n o cfg s).0 ≡ inr st
    → (require_oidc cfg ≡ none) × ((start s).0 ≡ some st.world)
unfolding new
new-starts keys n o cfg s st h = with_config-starts keys n o cfg (require_oidc cfg) s st h

-- An Authenticator that is made while no transaction is open comes from a configuration with its three
-- OIDC values, remembers the tenant of the database, or none where the database has none, and leaves
-- the database as it was.
pub new-Agrees :
    (keys : Keys) (n : ℕ) (o : Option Provider) (cfg : Config) (s : Session) (st : Started)
    → s.working ≡ none
    → (new keys n o cfg s).0 ≡ inr st
    → (require_oidc cfg ≡ none) × Agrees st.world × (st.world.session.committed ≡ s.committed)
new-Agrees keys n o cfg s st idle h =
    let (configured, began) = new-starts keys n o cfg s st h in
    let (agrees, kept) = start-Agrees s st.world idle began in (configured, agrees, kept)
