-- ===== src/Api/Stewards.antt =====
-- api/stewards.go: the handlers that change the stewards.
use xensus.Base.{Text, []}
use xensus.Store.Schema.{PendingSteward}
use xensus.Core.Stewards as Core
use xensus.Auth.{User}
use xensus.Api.Response.{
  PendingStewardDto, Handler, Decoding, write_json, respond, with_input, pending_steward_body,
  no_body,
}
use xensus.Api.Persons.{actor_from}
use xensus.Api.Systems.{with_row_id}

-- `toPendingStewardDTO`
abbrev pub to_pending_steward_dto : PendingSteward → PendingStewardDto
to_pending_steward_dto p = record {
  id = p.id;
  upn = p.user_upn;
  invited_at = p.invited_at;
  invited_by = p.invited_by;
}

-- `PromoteSteward`, with the decoded field `upn`
abbrev pub promote_steward : Decoding Text → User → Handler
promote_steward input u = with_input [] input λ upn s.
    respond (λ p. write_json 201 (pending_steward_body (to_pending_steward_dto p)))
      (Core.promote_steward (actor_from u) upn s)

-- `DemoteSteward`
abbrev pub demote_steward : Text → User → Handler
demote_steward path u =
    with_row_id path
      λ sid s. respond (λ _. write_json 204 no_body) (Core.demote_steward (actor_from u) sid s)

-- `CancelInvite`
abbrev pub cancel_invite : Text → User → Handler
cancel_invite path u =
    with_row_id path λ pid s.
      respond (λ _. write_json 204 no_body) (Core.cancel_steward_invite (actor_from u) pid s)
