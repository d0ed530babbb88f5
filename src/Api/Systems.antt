-- ===== src/Api/Systems.antt =====
-- api/systems.go: the handlers that change systems.
use xensus.Base.{ℕ, zero, suc, ℤ, pos, negsuc, Option, none, some, Text, [], trim_space, parse_int}
use xensus.Store.Systems.{System}
use xensus.Core.Systems as Core
use xensus.Auth.{User}
use xensus.Api.Response.{
  SystemDto, Handler, Decoding, write_json, respond, with_input, system_body, invalid_id,
}
use xensus.Api.Persons.{actor_from}

-- `toSystemDTO`
abbrev pub to_system_dto : System → SystemDto
to_system_dto s = record {
  id = s.id;
  name = s.name;
  created_at = s.created_at;
  created_by = s.created_by;
  updated_at = s.updated_at;
  updated_by = s.updated_by;
  disabled_at = s.disabled_at;
  disabled_by = s.disabled_by;
}

abbrev pub positive : Option ℤ → Option ℕ
positive none = none
positive (some (negsuc n)) = none
positive (some (pos zero)) = none
positive (some (pos (suc n))) = some (suc n)

-- `parseSystemID`, and `parseStewardID` and `parseAssociationID` with it
abbrev pub parse_row_id : Text → Option ℕ
parse_row_id path = positive (parse_int (trim_space path))

abbrev pub checked_id : Text → Option ℕ → (ℕ → Handler) → Handler
checked_id path (some n) next s = next n s
checked_id path none next s = (write_json 400 (invalid_id path), s)

abbrev pub with_row_id : Text → (ℕ → Handler) → Handler
with_row_id path next = checked_id path (parse_row_id path) next

-- `CreateSystem`
abbrev pub create_system : Decoding Text → User → Handler
create_system input u = with_input [] input λ name s.
    respond (λ y. write_json 201 (system_body (to_system_dto y)))
      (Core.create_system (actor_from u) name s)

-- `RenameSystem`
abbrev pub rename_system : Text → Decoding Text → User → Handler
rename_system path input u = with_row_id path λ sid. with_input [] input λ name s.
    respond (λ y. write_json 200 (system_body (to_system_dto y)))
      (Core.rename_system (actor_from u) sid name s)

-- `DisableSystem`
abbrev pub disable_system : Text → User → Handler
disable_system path u = with_row_id path λ sid s.
    respond (λ y. write_json 200 (system_body (to_system_dto y)))
      (Core.disable_system (actor_from u) sid s)

-- `EnableSystem`
abbrev pub enable_system : Text → User → Handler
enable_system path u = with_row_id path λ sid s.
    respond (λ y. write_json 200 (system_body (to_system_dto y)))
      (Core.enable_system (actor_from u) sid s)
