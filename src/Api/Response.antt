-- ===== src/Api/Response.antt =====
-- api/errors.go, and the JSON shapes of the answers.
use xensus.Base.{ℕ, Text, codes}
use xensus.Store.Session.{
  Session, Result, ok, err, Error, already_bound, not_found, name_required, upn_required,
  already_steward, already_invited, self_removal, no_rows, missing_argument, constraint, table_full,
  tx_done, driver_failure,
}
use xensus.Id.{IdError}

pub record PersonDto : Type 0 where
  pub id : Text
  pub name : Text
  pub created_at : Text
  pub created_by : Text
  pub updated_at : Text
  pub updated_by : Text

-- An empty `disabled_at` or `disabled_by` is left out of the JSON.
pub record SystemDto : Type 0 where
  pub id : ℕ
  pub name : Text
  pub created_at : Text
  pub created_by : Text
  pub updated_at : Text
  pub updated_by : Text
  pub disabled_at : Text
  pub disabled_by : Text

pub record AssociationDto : Type 0 where
  pub id : ℕ
  pub person_id : Text
  pub system_id : ℕ
  pub system : Text
  pub foreign_id : Text
  pub created_at : Text
  pub created_by : Text

pub record PendingStewardDto : Type 0 where
  pub id : ℕ
  pub upn : Text
  pub invited_at : Text
  pub invited_by : Text

-- The body of an answer. The messages that quote the request keep what they quote.
pub data Body : Type 0 where
  no_body : Body
  text_body error_body invalid_body invalid_id : Text → Body
  invalid_person_id : IdError → Text → Body
  person_body : PersonDto → Body
  system_body : SystemDto → Body
  association_body : AssociationDto → Body
  pending_steward_body : PendingStewardDto → Body

pub record Response : Type 0 where
  pub status : ℕ
  pub body : Body

abbrev pub Handler : Type 0
Handler = Session → Response × Session

-- `http.Error`
abbrev pub plain : ℕ → Text → Response
plain status message = record { status = status; body = text_body message }

-- `writeJSON`
abbrev pub write_json : ℕ → Body → Response
write_json status body = record { status = status; body = body }

-- `writeError`
abbrev pub write_error : ℕ → Text → Response
write_error status message = write_json status (error_body message)

-- `httpError`
abbrev pub http_error : Error → Response
http_error not_found = write_error 404 (codes "not found")
http_error name_required = write_error 400 (codes "name is required")
http_error upn_required = write_error 400 (codes "upn is required")
http_error already_steward = write_error 409 (codes "already a steward")
http_error already_invited = write_error 409 (codes "already invited")
http_error self_removal = write_error 409 (codes "a steward cannot remove themselves")
http_error already_bound = write_error 409 (codes "tenant already bound")
http_error no_rows = write_error 500 (codes "internal error")
http_error missing_argument = write_error 500 (codes "internal error")
http_error constraint = write_error 500 (codes "internal error")
http_error table_full = write_error 500 (codes "internal error")
http_error tx_done = write_error 500 (codes "internal error")
http_error driver_failure = write_error 500 (codes "internal error")

-- The answer to the result of a call of package core.
abbrev pub respond : {A : Type 0} → (A → Response) → Result A × Session → Response × Session
respond f (ok a, s) = (f a, s)
respond f (err e, s) = (http_error e, s)

-- What the JSON decoder makes of a body: a value, `io.EOF` or another error.
pub data Decoding (A : Type 0) : Type 0 where
  decoded : A → Decoding A
  end_of_body : Decoding A
  malformed : Text → Decoding A

-- A handler behind the decoding of its body, where an empty body reads as `zero`.
abbrev pub with_input : {A : Type 0} → A → Decoding A → (A → Handler) → Handler
with_input zero (decoded a) next s = next a s
with_input zero end_of_body next s = next zero s
with_input zero (malformed message) next s = (write_json 400 (invalid_body message), s)
