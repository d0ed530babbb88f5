-- ===== src/Web/Routes.antt =====
-- web/router.go: the routes of the forms, behind the gate of the pages.
use xensus.Base.{Option, none, some, Text, codes, [], ◌++◌, if◌then◌else◌}
use xensus.Auth.{User}
use xensus.Web.Page.{Page, PageHandler, failed}
use xensus.Web.Forms

-- A posted form, with its path values and the fields that the handler reads.
pub data Post : Type 0 where
  post_persons post_systems post_stewards : Option Text → Post
  post_person post_system : Text → Option Text → Post
  post_associations : Text → Option (Text × Text) → Post
  post_association_remove : Text → Text → Post
  post_system_disable post_system_enable post_steward_remove post_pending_cancel : Text → Post

abbrev pub form_of : Post → User → PageHandler
form_of (post_persons form) = Forms.create_person form
form_of (post_person path form) = Forms.rename_person path form
form_of (post_associations path form) = Forms.add_association path form
form_of (post_association_remove path assoc_path) = Forms.remove_association path assoc_path
form_of (post_stewards form) = Forms.add_steward form
form_of (post_steward_remove path) = Forms.remove_steward path
form_of (post_pending_cancel path) = Forms.cancel_invite path
form_of (post_systems form) = Forms.create_system form
form_of (post_system path form) = Forms.rename_system path form
form_of (post_system_disable path) = Forms.disable_system path
form_of (post_system_enable path) = Forms.enable_system path

-- The way to the sign-in and back to `uri`, with url.QueryEscape as a parameter.
abbrev pub to_sign_in : (Text → Text) → Text → Page
to_sign_in escape uri = record {
  status = 302;
  location = codes "/auth/login?return_to=" ++ escape uri;
  message = [];
  html = [];
}

-- `requireSteward`
abbrev pub require_steward : (Text → Text) → Text → (User → PageHandler) → Option User → PageHandler
require_steward escape uri next none s = (to_sign_in escape uri, s)
require_steward escape uri next (some u) s =
    if u.is_steward then next u s else (failed 403 (codes "steward role required"), s)

-- `Register`, for the user whom `Authenticate` found
unfoldable pub post_route : (Text → Text) → Text → Post → Option User → PageHandler
post_route escape uri p = require_steward escape uri (form_of p)
