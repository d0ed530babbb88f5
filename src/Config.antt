-- ===== src/Config.antt =====
-- config/config.go: the configuration that the environment gives. `to_lower` stands for
-- strings.ToLower, and `getenv` for os.Getenv.
pub mod Policy
mod Tests
use xensus.Base.{
  ℕ, Bool, true, false, not, ◌&&◌, ◌||◌, Option, none, some, ◌⊎◌, inl, inr, List, [], ◌∷◌, Text,
  codes, text_eq, is_empty, trim_space, ◌==◌, if◌then◌else◌,
}

-- `Access`: whether a surface is in the map.
pub record Access : Type 0 where
  -- `StewardOnly`
  pub steward_only : Text → Bool

-- `accessSurfaces`
abbrev pub access_surfaces : List Text
access_surfaces = codes "persons" ∷ codes "systems" ∷ codes "stewards" ∷ codes "audit" ∷ []

-- `slices.Contains`
unfoldable pub contains : List Text → Text → Bool
contains [] s = false
contains (x ∷ xs) s = text_eq x s || contains xs s

-- The parts of a text with `c` in front of the first.
abbrev prepend : ℕ → List Text → List Text
prepend c [] = []
prepend c (part ∷ parts) = (c ∷ part) ∷ parts

-- `strings.Split(s, ",")`
unfoldable pub split_commas : Text → List Text
split_commas [] = [] ∷ []
split_commas (c ∷ s) =
    let parts = split_commas s in if c == b',' then [] ∷ parts else prepend c parts

unfoldable pub restricted_among : Access → List Text → List Text
restricted_among a [] = []
restricted_among a (s ∷ ss) =
    let rest = restricted_among a ss in if a.steward_only s then s ∷ rest else rest

-- `Restricted`
abbrev pub restricted : Access → List Text
restricted a = restricted_among a access_surfaces

pub data ConfigError : Type 0 where
  unknown_surface invalid_listen : Text → ConfigError
  no_data_dir : ConfigError
  missing_oidc : List Text → ConfigError

abbrev pub set_true : Text → Access → Access
set_true name a = record { steward_only = λ s. text_eq name s || a.steward_only s }

module _ (to_lower : Text → Text) where
  abbrev pub surface_name : Text → Text
  surface_name field = to_lower (trim_space field)

  -- The loop of `parseAccess`.
  unfoldable pub parse_fields : List Text → Access → ConfigError ⊎ Access
  parse_fields [] a = inr a
  parse_fields (field ∷ fields) a =
      let name = surface_name field in
      let skipped = parse_fields fields a in
      let taken = parse_fields fields (set_true name a) in
      if is_empty name
      then skipped
      else if contains access_surfaces name
      then taken
      else inl (unknown_surface name)

  -- `parseAccess`
  abbrev pub parse_access : Text → ConfigError ⊎ Access
  parse_access raw = parse_fields (split_commas raw) (record { steward_only = λ _. false })

  -- `parseBool`
  abbrev pub parse_bool : Text → Bool
  parse_bool s =
      contains (codes "1" ∷ codes "true" ∷ codes "yes" ∷ codes "on" ∷ []) (to_lower (trim_space s))

pub record Config : Type 0 where
  pub listen : Text
  pub data_dir : Text
  pub oidc_client_id : Text
  pub oidc_client_secret : Text
  pub oidc_redirect_url : Text
  pub session_key : Text
  pub trust_proxy : Bool
  pub access : Access

-- `envOrDefault`
abbrev pub env_or_default : (Text → Text) → Text → Text → Text
env_or_default getenv key default = if not (is_empty (getenv key)) then getenv key else default

unfoldable pub has_colon : Text → Bool
has_colon [] = false
has_colon (c ∷ s) = c == b':' || has_colon s

abbrev with_access : (Access → Config) → ConfigError ⊎ Access → ConfigError ⊎ Config
with_access make (inl e) = inl e
with_access make (inr a) = inr (make a)

-- `FromEnv`
unfoldable pub from_env : (Text → Text) → (Text → Text) → ConfigError ⊎ Config
from_env to_lower getenv =
    let listen = env_or_default getenv (codes "XENSUS_LISTEN") (codes ":8080") in
    let data_dir = getenv (codes "XENSUS_DATA_DIR") in
    if is_empty data_dir
    then inl no_data_dir
    else if not (has_colon listen)
    then inl (invalid_listen listen)
    else with_access
        (λ a. record {
          listen = listen;
          data_dir = data_dir;
          oidc_client_id = getenv (codes "XENSUS_OIDC_CLIENT_ID");
          oidc_client_secret = getenv (codes "XENSUS_OIDC_CLIENT_SECRET");
          oidc_redirect_url = getenv (codes "XENSUS_OIDC_REDIRECT_URL");
          session_key = getenv (codes "XENSUS_SESSION_KEY");
          trust_proxy = parse_bool to_lower (getenv (codes "XENSUS_TRUST_PROXY"));
          access = a;
        })
        (parse_access to_lower (getenv (codes "XENSUS_STEWARD_ONLY")))

abbrev pub named_if : Bool → Text → List Text → List Text
named_if true name names = name ∷ names
named_if false name names = names

abbrev refused : List Text → Option ConfigError
refused [] = none
refused (name ∷ names) = some (missing_oidc (name ∷ names))

-- `RequireOIDC`, where `none` is no error
abbrev pub require_oidc : Config → Option ConfigError
require_oidc c = refused (
    named_if (is_empty c.oidc_client_id) (codes "XENSUS_OIDC_CLIENT_ID") (
      named_if (is_empty c.oidc_client_secret) (codes "XENSUS_OIDC_CLIENT_SECRET")
        (named_if (is_empty c.oidc_redirect_url) (codes "XENSUS_OIDC_REDIRECT_URL") [])))
