-- ===== src/Api/Gates.antt =====
-- router.go: the routes that read, each behind the gate that the configuration chooses.
use xensus.Base.{Option, none, some, Text, codes, if◌then◌else◌}
use xensus.Store.Schema.{Details}
use xensus.Store.Session.{Session}
use xensus.Config.{Access}
use xensus.Auth.{User}
use xensus.Auth.Cookies.{Visit}
use xensus.Auth.World.{Authenticator, World, try_authenticate}
use xensus.Api.Response.{plain}
use xensus.Api.Reads.{
  Answer, Reader, refused, show_me, list_all_persons, show_person, export_csv, list_associations,
  list_active_systems, export_systems_csv, list_disabled, show_system, list_stewards,
}
use xensus.Api.AuditLog.{Params, list_events, export_audit_csv, export_registry}

-- A request to such a route, with its path value or the parameters of its query string.
pub data Read : Type 0 where
  get_me get_systems_disabled get_export get_stewards : Read
  get_persons get_persons_csv get_person get_person_associations get_systems get_systems_csv
        get_system :
      Text → Read
  get_audit get_audit_csv : Params → Read

-- Who may read: anyone, whom the surface's setting lets in, or stewards.
pub data Gate : Type 0 where
  open_gate steward_gate : Gate
  surface_gate : Text → Gate

abbrev pub gate_of : Read → Gate
gate_of get_me = open_gate
gate_of (get_persons q) = surface_gate (codes "persons")
gate_of (get_persons_csv q) = surface_gate (codes "persons")
gate_of (get_person path) = surface_gate (codes "persons")
gate_of (get_person_associations path) = surface_gate (codes "persons")
gate_of (get_systems q) = surface_gate (codes "systems")
gate_of (get_systems_csv q) = surface_gate (codes "systems")
gate_of get_systems_disabled = surface_gate (codes "systems")
gate_of (get_system path) = surface_gate (codes "systems")
gate_of (get_audit q) = surface_gate (codes "audit")
gate_of (get_audit_csv q) = surface_gate (codes "audit")
gate_of get_export = steward_gate
gate_of get_stewards = surface_gate (codes "stewards")

abbrev pub reader_of : (Details → Text) → Read → Option User → Reader
reader_of marshal get_me user = show_me user
reader_of marshal (get_persons q) user = list_all_persons q
reader_of marshal (get_persons_csv q) user = export_csv q
reader_of marshal (get_person path) user = show_person path
reader_of marshal (get_person_associations path) user = list_associations path
reader_of marshal (get_systems q) user = list_active_systems q
reader_of marshal (get_systems_csv q) user = export_systems_csv q
reader_of marshal get_systems_disabled user = list_disabled
reader_of marshal (get_system path) user = show_system path
reader_of marshal (get_audit q) user = list_events q
reader_of marshal (get_audit_csv q) user = export_audit_csv marshal q
reader_of marshal get_export user = export_registry marshal
reader_of marshal get_stewards user = list_stewards

-- `RequireUser` before a handler that reads
abbrev pub user_gated : Option User → Reader → Reader
user_gated none next s = (refused (plain 401 (codes "unauthorized")), s)
user_gated (some u) next s = next s

-- `RequireSteward` before a handler that reads
abbrev pub steward_gated : Option User → Reader → Reader
steward_gated none next s = (refused (plain 401 (codes "unauthorized")), s)
steward_gated (some u) next s =
    if u.is_steward then next s else (refused (plain 403 (codes "steward role required")), s)

-- The closures `read`, `user` and `steward`
abbrev pub gated : Access → Gate → Option User → Reader → Reader
gated access open_gate user next = next
gated access steward_gate user next = steward_gated user next
gated access (surface_gate name) user next =
    if access.steward_only name then steward_gated user next else user_gated user next

unfoldable pub read_route : Access → (Details → Text) → Read → Option User → Reader
read_route access marshal r user = gated access (gate_of r) user (reader_of marshal r user)

abbrev pub with_world : World → Answer × Session → Answer × World
with_world w (answer, s) = (answer, record w { session = s })

-- `Authenticate` and the route
unfoldable pub serve_read :
    Authenticator → Access → (Details → Text) → Read → Visit → World → Answer × World
serve_read a access marshal r visit w =
    let (user, w') = try_authenticate a visit w in
    with_world w' (read_route access marshal r user w'.session)
