-- ===== src/Web/Page.antt =====
-- web/*.go: answers of the pages.
use xensus.Base.{ℕ, Option, none, some, Text, [], codes}
use xensus.Store.Session.{
  Session, Result, ok, err, Error, not_found, name_required, upn_required, already_steward,
  already_invited, self_removal,
}
use xensus.Id.{Parsed, id, invalid}

-- An answer: a redirect has the address given to http.Redirect, an error a message, and a page the text
-- that its template makes.
pub record Page : Type 0 where
  pub status : ℕ
  pub location : Text
  pub message : Text
  pub html : Text

abbrev pub PageHandler : Type 0
PageHandler = Session → Page × Session

-- `http.Error`
abbrev pub failed : ℕ → Text → Page
failed status message = record { status = status; location = []; message = message; html = [] }

-- `http.NotFound`
abbrev pub missing : Page
missing = failed 404 (codes "404 page not found")

abbrev pub internal : Page
internal = failed 500 (codes "internal error")

-- `http.Redirect` with 303
abbrev pub see_other : Text → Page
see_other location = record { status = 303; location = location; message = []; html = [] }

-- The answer to the result of a call of package core.
abbrev pub answered :
    {A : Type 0} → (Error → Page) → (A → Page) → Result A × Session → Page × Session
answered refuse show (ok a, s) = (show a, s)
answered refuse show (err e, s) = (refuse e, s)

-- The errors that the handlers tell apart.
abbrev pub any_error : Error → Page
any_error e = internal

abbrev pub row_error : Error → Page
row_error not_found = missing
row_error e = internal

abbrev pub name_error : Error → Page
name_error name_required = failed 400 (codes "system name is required")
name_error e = internal

abbrev pub rename_error : Error → Page
rename_error not_found = missing
rename_error name_required = failed 400 (codes "system name is required")
rename_error e = internal

abbrev pub invite_error : Error → Page
invite_error upn_required = failed 400 (codes "a UPN is required")
invite_error already_steward = failed 409 (codes "that user is already a steward")
invite_error already_invited = failed 409 (codes "that user already has a pending invitation")
invite_error e = internal

abbrev pub demote_error : Error → Page
demote_error not_found = missing
demote_error self_removal =
    failed 409 (codes "you cannot remove yourself — promote a successor first")
demote_error e = internal

-- What `r.ParseForm` gives of the fields that a handler reads: nothing when it fails.
abbrev pub with_form : {A : Type 0} → Option A → (A → PageHandler) → PageHandler
with_form none next s = (failed 400 (codes "invalid form"), s)
with_form (some a) next s = next a s

-- A handler behind `id.Parse` of a path value.
abbrev pub with_person : Parsed → (ℕ → PageHandler) → PageHandler
with_person (id n) next s = next n s
with_person (invalid e) next s = (missing, s)

-- A handler behind the parsing of another ID in the path.
abbrev pub with_row : Option ℕ → (ℕ → PageHandler) → PageHandler
with_row none next s = (missing, s)
with_row (some n) next s = next n s
