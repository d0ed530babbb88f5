-- ===== src/Api/Associations.antt =====
-- api/associations.go: the handlers that change associations.
use xensus.Base.{ℕ, zero, suc, ℤ, pos, negsuc, Text, codes, []}
use xensus.Store.Associations.{Association}
use xensus.Id.{format}
use xensus.Core.Associations as Core
use xensus.Auth.{User}
use xensus.Api.Response.{
  AssociationDto, Handler, Decoding, write_json, write_error, respond, with_input, association_body,
  no_body,
}
use xensus.Api.Persons.{actor_from, with_person_id}
use xensus.Api.Systems.{with_row_id}

-- `toAssociationDTO`
abbrev pub to_association_dto : Association → AssociationDto
to_association_dto a = record {
  id = a.id;
  person_id = format (pos a.person_id);
  system_id = a.system_id;
  system = a.system_name;
  foreign_id = a.foreign_id;
  created_at = a.created_at;
  created_by = a.created_by;
}

pub record AssociationInput : Type 0 where
  pub system_id : ℤ
  pub foreign_id : Text

-- `CreateAssociation` once the path and the body are read
abbrev pub create_checked : ℕ → ℤ → Text → User → Handler
create_checked pid (negsuc n) foreign_id u s = (write_error 400 (codes "system_id is required"), s)
create_checked pid (pos zero) foreign_id u s = (write_error 400 (codes "system_id is required"), s)
create_checked pid (pos (suc n)) foreign_id u s =
    respond (λ a. write_json 201 (association_body (to_association_dto a)))
      (Core.create_association (actor_from u) pid (suc n) foreign_id s)

-- `CreateAssociation`
abbrev pub create_association : Text → Decoding AssociationInput → User → Handler
create_association path input u = with_person_id path λ pid.
    with_input (record { system_id = pos 0; foreign_id = [] }) input
      λ i. create_checked pid i.system_id i.foreign_id u

-- `RemoveAssociation`
abbrev pub remove_association : Text → Text → User → Handler
remove_association path assoc_path u = with_person_id path λ pid. with_row_id assoc_path λ aid s.
    respond (λ _. write_json 204 no_body) (Core.remove_association (actor_from u) pid aid s)
