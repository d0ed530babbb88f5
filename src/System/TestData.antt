-- ===== src/System/TestData.antt =====
-- A configuration, and a database in use whose tables are well formed.
use xensus.Base.{refl, inl, none, inr, false, some, [], codes, arith}
use xensus.Sql.{count_where}
use xensus.Registry.Governance.{HasSteward}
use xensus.Core.TestData.{blank, book, book-HasIds, book-HasLinks, book-HasUniqueRoles}
use xensus.Registry.Links.{Linked}
use xensus.Auth.SignIn.{Exchange}
use xensus.Auth.Startup.{Keys}
use xensus.Auth.Setup.{Provider}
use xensus.Auth.TestCrypto.{toy, zeros}
use xensus.Config.{Config}
use xensus.Auth.TestData.{authenticator}
use xensus.System.Soundness.{Sound}

abbrev pub exchange : Exchange
exchange = λ _. some (some (codes "jwt"))

abbrev pub keys : Keys
keys = record { random = λ size n. some (zeros size); decode = λ s. none; crypto = λ key. toy }

abbrev pub config : Config
config = record {
  listen = codes ":8080";
  data_dir = codes "/data";
  oidc_client_id = codes "client";
  oidc_client_secret = codes "secret";
  oidc_redirect_url = codes "https://xensus.example/auth/callback";
  session_key = [];
  trust_proxy = false;
  access = record { steward_only = λ _. false };
}

abbrev pub provider : Provider
provider = record { endpoint = codes "https://login.example"; verifier = λ _. authenticator.inner }

pub book-HasSteward : HasSteward book
unfolding count_where
book-HasSteward = omega arith

pub book-Sound : Sound book
book-Sound = record {
  ids = book-HasIds;
  links = book-HasLinks;
  roles = book-HasUniqueRoles;
  governed = inr (book-HasSteward);
}

-- A database that the migrations have just made.
pub blank-Sound : Sound blank
unfolding count_where Linked
blank-Sound = record {
  ids = record {
    persons = tt;
    systems = tt;
    associations = tt;
    stewards = tt;
    pending_stewards = tt;
    audit_log = tt;
  };
  links = tt;
  roles = record { active = λ x. omega arith; invited = λ x. omega arith };
  governed = inl refl;
}
