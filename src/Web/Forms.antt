-- ===== src/Web/Forms.antt =====
-- web/persons.go, web/systems.go, web/associations.go and web/stewards.go: the handlers of forms.
use xensus.Base.{ℕ, pos, ◌++◌, Option, none, some, Text, codes, decimal}
use xensus.Store.Session.{Action}
use xensus.Store.Systems.{System}
use xensus.Id.{parse, format}
use xensus.Core.Audit.{Actor}
use xensus.Core.Persons
use xensus.Core.Systems
use xensus.Core.Associations
use xensus.Core.Stewards
use xensus.Auth.{User}
use xensus.Api.Persons.{actor_from}
use xensus.Api.Systems.{parse_row_id}
use xensus.Web.Page.{
  PageHandler, failed, see_other, answered, any_error, row_error, name_error, rename_error,
  invite_error, demote_error, with_form, with_person, with_row,
}

abbrev pub person_page : ℕ → Text
person_page pid = codes "/persons/" ++ format (pos pid)

abbrev pub system_page : ℕ → Text
system_page sid = codes "/systems/" ++ decimal sid

-- `CreatePerson`, with the field `name`
abbrev pub create_person : Option Text → User → PageHandler
create_person form u = with_form form λ name s.
    answered any_error (λ p. see_other (person_page p.id))
      (Persons.create_person (actor_from u) name s)

-- `RenamePerson`
abbrev pub rename_person : Text → Option Text → User → PageHandler
rename_person path form u = with_person (parse path) λ pid. with_form form λ name s.
    answered row_error (λ _. see_other (person_page pid))
      (Persons.rename_person (actor_from u) pid name s)

-- `AddAssociation`, with the fields `system_id` and `foreign_id`
abbrev pub add_checked : ℕ → Option ℕ → Text → User → PageHandler
add_checked pid none foreign_id u s = (failed 400 (codes "a system is required"), s)
add_checked pid (some sid) foreign_id u s =
    answered row_error (λ _. see_other (person_page pid))
      (Associations.create_association (actor_from u) pid sid foreign_id s)

abbrev pub add_association : Text → Option (Text × Text) → User → PageHandler
add_association path form u =
    with_person (parse path) λ pid. with_form form λ f. add_checked pid (parse_row_id f.0) f.1 u

-- `RemoveAssociation`
abbrev pub remove_association : Text → Text → User → PageHandler
remove_association path assoc_path u = with_person (parse path) λ pid.
    with_row (parse_row_id assoc_path) λ aid s.
      answered row_error (λ _. see_other (person_page pid))
        (Associations.remove_association (actor_from u) pid aid s)

-- `CreateSystem`
abbrev pub create_system : Option Text → User → PageHandler
create_system form u = with_form form λ name s.
    answered name_error (λ y. see_other (system_page y.id))
      (Systems.create_system (actor_from u) name s)

-- `RenameSystem`
abbrev pub rename_system : Text → Option Text → User → PageHandler
rename_system path form u = with_row (parse_row_id path) λ sid. with_form form λ name s.
    answered rename_error (λ _. see_other (system_page sid))
      (Systems.rename_system (actor_from u) sid name s)

-- `toggleSystem`
abbrev pub toggle_system : (Actor → ℕ → Action System) → Text → User → PageHandler
toggle_system toggle path u =
    with_row (parse_row_id path)
      λ sid s. answered row_error (λ _. see_other (system_page sid)) (toggle (actor_from u) sid s)

-- `DisableSystem`
abbrev pub disable_system : Text → User → PageHandler
disable_system = toggle_system Systems.disable_system

-- `EnableSystem`
abbrev pub enable_system : Text → User → PageHandler
enable_system = toggle_system Systems.enable_system

-- `AddSteward`, with the field `upn`
abbrev pub add_steward : Option Text → User → PageHandler
add_steward form u = with_form form λ upn s.
    answered invite_error (λ _. see_other (codes "/stewards"))
      (Stewards.promote_steward (actor_from u) upn s)

-- `RemoveSteward`
abbrev pub remove_steward : Text → User → PageHandler
remove_steward path u = with_row (parse_row_id path) λ sid s.
    answered demote_error (λ _. see_other (codes "/stewards"))
      (Stewards.demote_steward (actor_from u) sid s)

-- `CancelInvite`
abbrev pub cancel_invite : Text → User → PageHandler
cancel_invite path u = with_row (parse_row_id path) λ pid s.
    answered row_error (λ _. see_other (codes "/stewards"))
      (Stewards.cancel_steward_invite (actor_from u) pid s)
