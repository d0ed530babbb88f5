-- ===== src/Server/TestData.antt =====
-- Bytes, a build, and a process with the requests of its first day.
use xensus.Base.{none, some, List, [], ◌∷◌, codes, arith, ℕ}
use xensus.Core.TestData.{blank, steady}
use xensus.Auth.World.{World}
use xensus.Auth.TestData.{authenticator, visit, returning, cookie, coming_back, answer}
use xensus.Api.Routes.{delete_steward}
use xensus.Web.Page.{missing}
use xensus.System.TestData.{exchange, config}
use xensus.System.Steps.{opened}
use xensus.Server.RequestId.{Bytes, AreBytes}
use xensus.Server.Middleware.{Call, write_header, write, Context, Handling}
use xensus.Server.Version.{BuildInfo}
use xensus.Server.Routes.{dispatch_all, Arrival, get_health, get_callback, api_write}
use xensus.Server.Run.{Wiring}

abbrev pub sample : Bytes
sample = record {
  b0 = 0;
  b1 = 255;
  b2 = 16;
  b3 = 1;
  b4 = 170;
  b5 = 187;
  b6 = 204;
  b7 = 221;
  b8 = 238;
  b9 = 15;
  b10 = 2;
  b11 = 3;
  b12 = 4;
  b13 = 5;
  b14 = 6;
  b15 = 7;
}

pub sample-AreBytes : AreBytes sample
sample-AreBytes = record {
  b0 = omega arith;
  b1 = omega arith;
  b2 = omega arith;
  b3 = omega arith;
  b4 = omega arith;
  b5 = omega arith;
  b6 = omega arith;
  b7 = omega arith;
  b8 = omega arith;
  b9 = omega arith;
  b10 = omega arith;
  b11 = omega arith;
  b12 = omega arith;
  b13 = omega arith;
  b14 = omega arith;
  b15 = omega arith;
}

-- The status that a writer sends.
abbrev pub first_status : List Call → ℕ
first_status [] = 200
first_status (write_header code ∷ calls) = code
first_status (write body ∷ calls) = 200

abbrev pub answering : Context → Handling
answering ctx = record {
  calls = write_header 404 ∷ write (codes "404 page not found") ∷ [];
  logs = record { message = codes "looking"; attrs = [] } ∷ [];
}

abbrev pub fetched : BuildInfo
fetched = record { settings = codes "CGO_ENABLED" ∷ []; main_version = codes "v1.8.0" }

abbrev pub wire : Wiring
wire a = record {
  authenticator = a;
  access = config.access;
  display = record {
    format_time = λ s. none;
    marshal = λ d. [];
    encode = λ vs. [];
    show = λ v. missing;
  };
  marshal = λ d. [];
  exchange = exchange;
  auth_code_url = λ state nonce. codes "https://login.example";
  escape = λ s. s;
}

-- The health check, a sign-in, and the demotion of the first steward.
abbrev pub requests : List Arrival
requests =
    record { uri = codes "/health"; reading = 0; target = get_health; visit = visit }
    ∷ record {
      uri = codes "/auth/callback";
      reading = 0;
      target = get_callback answer;
      visit = coming_back;
    }
    ∷ record {
      uri = codes "/api/v1/stewards/1";
      reading = 1;
      target = api_write (delete_steward (codes "1"));
      visit = returning cookie.value;
    }
    ∷ []

-- The first sign-in binds the tenant, and the first steward is not demoted by themselves.
abbrev pub evening : World
evening =
    dispatch_all (some (wire authenticator)) requests
      (record { tenant = []; session = opened steady blank })
