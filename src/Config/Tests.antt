-- ===== src/Config/Tests.antt =====
-- config/config.go on concrete variables.
use xensus.Base.{
  ◌≡◌, refl, ◌∷◌, [], inr, true, Text, codes, text_eq, lower, lower_char, trim_space, trim_left,
  is_space, is_empty, if◌then◌else◌, Bool,
}
use xensus.Config.{
  Access, Config, from_env, has_colon, parse_access, parse_fields, split_commas, contains,
  restricted, restricted_among, set_true, access_surfaces,
}
use xensus.Config.Policy.{names, parse_access-Locks, from_env-IsChecked}

abbrev audit_only : Access
audit_only = set_true (codes "audit") (record { steward_only = λ _. Bool.false })

audit-parsed : parse_access lower (codes "Audit") ≡ inr audit_only
unfolding parse_fields split_commas contains text_eq lower lower_char trim_space trim_left is_space
audit-parsed = refl

audit-restricted : restricted audit_only ≡ codes "audit" ∷ []
unfolding restricted_among text_eq
audit-restricted = refl

parse_access-Locks_example :
    (audit_only.steward_only (codes "audit")
      ≡ names lower (split_commas (codes "Audit")) (codes "audit"))
    × (names lower (split_commas (codes "Audit")) (codes "audit") ≡ true
        → contains access_surfaces (codes "audit") ≡ true)
parse_access-Locks_example =
    parse_access-Locks lower (codes "Audit") audit_only audit-parsed (codes "audit")

-- An environment with a data directory and nothing else.
abbrev data_only : Text → Text
data_only key = if text_eq key (codes "XENSUS_DATA_DIR") then codes "/var/lib/xensus" else []

abbrev data_only_config : Config
data_only_config = record {
  listen = codes ":8080";
  data_dir = codes "/var/lib/xensus";
  oidc_client_id = [];
  oidc_client_secret = [];
  oidc_redirect_url = [];
  session_key = [];
  trust_proxy = Bool.false;
  access = record { steward_only = λ _. Bool.false };
}

data_only-read : from_env lower data_only ≡ inr data_only_config
unfolding from_env has_colon parse_fields split_commas contains text_eq lower lower_char trim_space
    trim_left is_space
data_only-read = refl

from_env-IsChecked_example :
    (is_empty data_only_config.data_dir ≡ Bool.false)
    × (has_colon data_only_config.listen ≡ true)
    × (parse_access lower (data_only (codes "XENSUS_STEWARD_ONLY")) ≡ inr data_only_config.access)
from_env-IsChecked_example = from_env-IsChecked lower data_only data_only_config data_only-read
