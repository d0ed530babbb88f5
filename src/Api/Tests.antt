-- ===== src/Api/Tests.antt =====
-- Routes at concrete requests.
use xensus.Base.{◌≡◌, ◌<◌, ◌≤◌, ◌⊎◌, none, some, true, false, List, [], Text, codes, refl}
use xensus.Auth.{User}
use xensus.Api.Response.{decoded}
use xensus.Api.Routes.{Write, patch_person, route}
use xensus.Config.{Access}
use xensus.Auth.Cookies.{Visit}
use xensus.Auth.World.{Authenticator, World}
use xensus.Auth.TestCrypto.{toy}
use xensus.Api.Records.{Record}
use xensus.Api.Reads.{shown, zip}
use xensus.Api.AuditLog.{export_registry}
use xensus.Api.Files.{Holds}
use xensus.Api.Export.{export_registry-Holds}
use xensus.Api.Safety.{route-IsSafe, IsSteward}
use xensus.Core.TestData.{flaky, steady, alice, book, at_rest}

abbrev signed_in : User
signed_in = record { oid = alice.oid; upn = alice.upn; tid = codes "contoso"; is_steward = true }

abbrev renaming : Write
renaming = patch_person (codes "X-000001") (decoded (codes "Ada L."))

route-IsSafe_example :
    let (response, s') = route renaming (some signed_in) (at_rest flaky book) in
    (s'.working ≡ none)
    × ((IsSteward (some signed_in) × (response.status < 400))
        ⊎ ((400 ≤ response.status) × (s'.committed ≡ book)))
route-IsSafe_example = route-IsSafe renaming (some signed_in) (at_rest flaky book) refl

abbrev bearer : Authenticator
bearer = record {
  sessions = record { crypto = toy; trust_proxy = false };
  inner =
      λ _. some (record { oid = alice.oid; upn = alice.upn; tid = codes "contoso"; nonce = [] });
}

abbrev with_token : Visit
with_token = record {
  session_cookie = none;
  login_cookie = none;
  authorization = codes "bearer jwt";
  tls = true;
  forwarded_proto = [];
  now = 100;
}

abbrev unlocked : Access
unlocked = record { steward_only = λ _. false }

abbrev world : World
world = record { tenant = codes "contoso"; session = at_rest steady book }

export_registry-Holds_example :
    (files : List (Text × List Record)) × ((export_registry (λ _. []) (at_rest steady book)).0
      ≡ shown (zip files))
    × Holds (λ _. []) book files
export_registry-Holds_example = export_registry-Holds (λ _. []) (at_rest steady book) (λ _. refl)
