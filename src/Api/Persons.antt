-- ===== src/Api/Persons.antt =====
-- api/persons.go: the handlers that change persons.
use xensus.Base.{ℕ, pos, Text, []}
use xensus.Store.Schema.{Person}
use xensus.Id.{format, parse, Parsed, id, invalid}
use xensus.Core.Audit.{Actor}
use xensus.Core.Persons as Core
use xensus.Auth.{User}
use xensus.Api.Response.{
  PersonDto, Handler, Decoding, write_json, respond, with_input, person_body, invalid_person_id,
}

-- `actorFrom`
abbrev pub actor_from : User → Actor
actor_from u = record { oid = u.oid; upn = u.upn }

-- `toPersonDTO`
abbrev pub to_person_dto : Person → PersonDto
to_person_dto p = record {
  id = format (pos p.id);
  name = p.name;
  created_at = p.created_at;
  created_by = p.created_by;
  updated_at = p.updated_at;
  updated_by = p.updated_by;
}

-- A handler behind `id.Parse` of a path value.
abbrev pub checked_id : Text → Parsed → (ℕ → Handler) → Handler
checked_id path (id n) next s = next n s
checked_id path (invalid e) next s = (write_json 400 (invalid_person_id e path), s)

abbrev pub with_person_id : Text → (ℕ → Handler) → Handler
with_person_id path next = checked_id path (parse path) next

-- `CreatePerson`, with the decoded field `name`
abbrev pub create_person : Decoding Text → User → Handler
create_person input u = with_input [] input λ name s.
    respond (λ p. write_json 201 (person_body (to_person_dto p)))
      (Core.create_person (actor_from u) name s)

-- `RenamePerson`
abbrev pub rename_person : Text → Decoding Text → User → Handler
rename_person path input u = with_person_id path λ pid. with_input [] input λ name s.
    respond (λ p. write_json 200 (person_body (to_person_dto p)))
      (Core.rename_person (actor_from u) pid name s)
