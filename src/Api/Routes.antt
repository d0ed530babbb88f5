-- ===== src/Api/Routes.antt =====
-- router.go: the routes that change the registry, each behind the gate for stewards.
use xensus.Base.{Option, Text}
use xensus.Auth.{User, require_steward}
use xensus.Api.Response.{Handler, Decoding}
use xensus.Api.Associations.{AssociationInput}
use xensus.Api.Persons
use xensus.Api.Systems
use xensus.Api.Associations
use xensus.Api.Stewards

-- A request to such a route, with its path values and what its body decodes to.
pub data Write : Type 0 where
  post_persons post_systems post_stewards : Decoding Text → Write
  patch_person patch_system : Text → Decoding Text → Write
  post_associations : Text → Decoding AssociationInput → Write
  delete_association : Text → Text → Write
  post_disable post_enable delete_steward delete_pending : Text → Write

abbrev pub handler_of : Write → User → Handler
handler_of (post_persons input) = Persons.create_person input
handler_of (patch_person path input) = Persons.rename_person path input
handler_of (post_associations path input) = Associations.create_association path input
handler_of (delete_association path assoc_path) = Associations.remove_association path assoc_path
handler_of (post_systems input) = Systems.create_system input
handler_of (patch_system path input) = Systems.rename_system path input
handler_of (post_disable path) = Systems.disable_system path
handler_of (post_enable path) = Systems.enable_system path
handler_of (post_stewards input) = Stewards.promote_steward input
handler_of (delete_steward path) = Stewards.demote_steward path
handler_of (delete_pending path) = Stewards.cancel_invite path

-- `registerRoutes`, for the user whom `Authenticate` found
unfoldable pub route : Write → Option User → Handler
route w = require_steward (handler_of w)
