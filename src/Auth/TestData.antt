-- ===== src/Auth/TestData.antt =====
-- A visitor with an invitation, and a process that they visit.
use xensus.Base.{refl, inl, inr, true, false, none, some, [], ◌∷◌, Text, codes}
use xensus.Core.TestData.{book, blank, steady, bob, at_rest}
use xensus.Auth.Cookies.{
  LoginData, Visit, SetCookie, write_cookie, session_cookie_name, login_cookie_name, session_fields,
  login_fields, session_max_age, login_max_age,
}
use xensus.Auth.Tokens.{Claims}
use xensus.Auth.World.{Authenticator, World}
use xensus.Auth.SignIn.{Query}
use xensus.Auth.TestCrypto.{toy}
use xensus.Auth.Binding.{Agrees}
use xensus.Auth.Arrival.{session_of}

abbrev pub claims_of_bob : Claims
claims_of_bob = record {
  oid = codes "oid-bobby";
  upn = bob.upn;
  tid = codes "contoso";
  nonce = codes "n";
}

abbrev pub authenticator : Authenticator
authenticator = record {
  sessions = record { crypto = toy; trust_proxy = false };
  inner = λ _. some claims_of_bob;
}

abbrev pub visit : Visit
visit = record {
  session_cookie = none;
  login_cookie = none;
  authorization = [];
  tls = true;
  forwarded_proto = [];
  now = 100;
}

abbrev pub login_of_bob : LoginData
login_of_bob = record {
  state = codes "s";
  nonce = codes "n";
  return_to = codes "/persons";
  exp = 400;
}

abbrev pub sealed : Text
sealed = 0 ∷ 0 ∷ toy.marshal (session_fields (session_of visit claims_of_bob))

abbrev pub cookie : SetCookie
cookie = write_cookie authenticator.sessions visit session_cookie_name sealed session_max_age

abbrev pub login_cookie : SetCookie
login_cookie =
    write_cookie authenticator.sessions visit login_cookie_name
      (0 ∷ 0 ∷ toy.marshal (login_fields login_of_bob)) login_max_age

-- The same visitor later, with a cookie.
abbrev pub returning : Text → Visit
returning value = record visit { session_cookie = some value; now = 7200 }

abbrev pub bound : World
bound = record { tenant = codes "contoso"; session = at_rest steady book }

abbrev pub unbound : World
unbound = record { tenant = []; session = at_rest steady blank }

pub bound-Agrees : Agrees bound
bound-Agrees = record { idle = refl; tenant = inr refl }

pub unbound-Agrees : Agrees unbound
unbound-Agrees = record { idle = refl; tenant = inl refl }

abbrev pub answer : Query
answer = record { state = codes "s"; error = []; code = codes "code" }

abbrev pub coming_back : Visit
coming_back = record visit { login_cookie = some login_cookie.value }
