-- ===== src/Web/Agreement.antt =====
-- web/*.go and api/*.go: when an answer of a page agrees with one of the API.
use xensus.Base.{ℕ, ◌≡◌, refl, true, Option, none, some, [], arith, Text, ltb, ◌==◌}
use xensus.Store.Session.{Session, Result, ok, err, Error}
use xensus.Id.{Parsed, id, invalid}
use xensus.Api.Response.{
  Response, Handler, Decoding, decoded, malformed, http_error, respond, write_json, Body,
  with_input,
}
use xensus.Api.Persons.{with_person_id, actor_from, to_person_dto}
use xensus.Api.Persons as ApiPersons
use xensus.Api.Systems.{with_row_id, parse_row_id, positive, to_system_dto}
use xensus.Api.Systems as ApiSystems
use xensus.Web.Page.{
  Page, PageHandler, answered, any_error, row_error, name_error, rename_error, invite_error,
  demote_error, with_form, with_person, with_row, see_other,
}

-- A form as the body of a request: one that does not parse is malformed.
abbrev pub as_body : {A B : Type 0} → (A → B) → Option A → Decoding B
as_body f none = malformed []
as_body f (some a) = decoded (f a)

-- The page redirects when the API's answer is a success, and the session is the same.
pub record Agree (x : Page × Session) (y : Response × Session) : Type 0 where
  pub session : x.1 ≡ y.1
  pub status : (x.0.status == 303) ≡ ltb y.0.status 300

abbrev pub AllAgree : PageHandler → Handler → Type 0
AllAgree h k = (s : Session) → Agree (h s) (k s)

abbrev pub Refuses : (Error → Page) → Type 0
Refuses refuse = (e : Error) → ((refuse e).status == 303) ≡ ltb (http_error e).status 300

pub any_error-Refuses : Refuses any_error
any_error-Refuses e = ground arith

pub row_error-Refuses : Refuses row_error
row_error-Refuses e = ground arith

pub name_error-Refuses : Refuses name_error
name_error-Refuses e = ground arith

pub rename_error-Refuses : Refuses rename_error
rename_error-Refuses e = ground arith

pub invite_error-Refuses : Refuses invite_error
invite_error-Refuses e = ground arith

pub demote_error-Refuses : Refuses demote_error
demote_error-Refuses e = ground arith

pub answered-Agree :
    {A : Type 0} (refuse : Error → Page) (location : A → Text) (status : ℕ) (body : A → Body)
    (x : Result A × Session)
    → Refuses refuse
    → true ≡ ltb status 300
    → Agree
        (answered refuse (λ a. see_other (location a)) x)
        (respond (λ a. write_json status (body a)) x)
answered-Agree refuse location status body (ok a, s) refuses success = record {
  session = refl;
  status = success;
}
answered-Agree refuse location status body (err e, s) refuses success = record {
  session = refl;
  status = refuses e;
}

pub with_form-Agree :
    {A B : Type 0} (f : A → B) (empty : B) (form : Option A) (h : A → PageHandler) (k : B → Handler)
    → ((a : A) → AllAgree (h a) (k (f a)))
    → AllAgree (with_form form h) (with_input empty (as_body f form) k)
with_form-Agree f empty none h k agree s = record { session = refl; status = refl }
with_form-Agree f empty (some a) h k agree s = agree a s

pub with_person-Agree :
    (path : Text) (p : Parsed) (h : ℕ → PageHandler) (k : ℕ → Handler)
    → ((n : ℕ) → AllAgree (h n) (k n))
    → AllAgree (with_person p h) (ApiPersons.checked_id path p k)
with_person-Agree path (id n) h k agree s = agree n s
with_person-Agree path (invalid e) h k agree s = record { session = refl; status = refl }

pub with_row-Agree :
    (path : Text) (o : Option ℕ) (h : ℕ → PageHandler) (k : ℕ → Handler)
    → ((n : ℕ) → AllAgree (h n) (k n))
    → AllAgree (with_row o h) (ApiSystems.checked_id path o k)
with_row-Agree path (some n) h k agree s = agree n s
with_row-Agree path none h k agree s = record { session = refl; status = refl }
