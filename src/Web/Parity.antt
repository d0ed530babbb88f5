-- ===== src/Web/Parity.antt =====
-- web/*.go and api/*.go: a form does what the same request to the API does.
use xensus.Base.{
  ℕ, zero, suc, ℤ, pos, negsuc, ◌<◌, ◌≡◌, refl, Bool, true, false, Option, none, some, [], arith,
  Text, codes, parse_int, trim_space, if◌then◌else◌,
}
use xensus.Store.Session.{Session}
use xensus.Id.{parse}
use xensus.Auth.{User}
use xensus.Api.Response.{
  Handler, plain, no_body, person_body, system_body, association_body, pending_steward_body,
}
use xensus.Api.Persons.{actor_from, to_person_dto}
use xensus.Api.Systems.{parse_row_id, positive, to_system_dto}
use xensus.Api.Associations.{AssociationInput, to_association_dto}
use xensus.Api.Associations as ApiAssociations
use xensus.Api.Stewards.{to_pending_steward_dto}
use xensus.Api.Routes as Api
use xensus.Core.Persons
use xensus.Core.Systems
use xensus.Core.Associations
use xensus.Core.Stewards
use xensus.Web.Page.{
  PageHandler, any_error, row_error, name_error, rename_error, invite_error, demote_error, failed,
}
use xensus.Web.Forms.{add_checked, person_page, system_page}
use xensus.Web.Agreement.{
  as_body, Agree, AllAgree, any_error-Refuses, row_error-Refuses, name_error-Refuses,
  rename_error-Refuses, invite_error-Refuses, demote_error-Refuses, answered-Agree, with_form-Agree,
  with_person-Agree, with_row-Agree,
}
use xensus.Web.Routes.{
  Post, post_persons, post_systems, post_stewards, post_person, post_system, post_associations,
  post_association_remove, post_system_disable, post_system_enable, post_steward_remove,
  post_pending_cancel, form_of, post_route,
}

abbrev as_id : Option ℕ → ℕ
as_id none = 0
as_id (some n) = n

abbrev as_association : Text × Text → AssociationInput
as_association (system_id, foreign_id) = record {
  system_id = pos (as_id (parse_row_id system_id));
  foreign_id = foreign_id;
}

-- The request to the API that a form stands for.
abbrev pub as_request : Post → Api.Write
as_request (post_persons form) = Api.post_persons (as_body (λ s. s) form)
as_request (post_systems form) = Api.post_systems (as_body (λ s. s) form)
as_request (post_stewards form) = Api.post_stewards (as_body (λ s. s) form)
as_request (post_person path form) = Api.patch_person path (as_body (λ s. s) form)
as_request (post_system path form) = Api.patch_system path (as_body (λ s. s) form)
as_request (post_associations path form) = Api.post_associations path (as_body as_association form)
as_request (post_association_remove path assoc_path) = Api.delete_association path assoc_path
as_request (post_system_disable path) = Api.post_disable path
as_request (post_system_enable path) = Api.post_enable path
as_request (post_steward_remove path) = Api.delete_steward path
as_request (post_pending_cancel path) = Api.delete_pending path

positive-suc : (o : Option ℤ) (n : ℕ) → positive o ≡ some n → 0 < n
positive-suc none n e = absurd (let e' = e in cc)
positive-suc (some (negsuc k)) n e = absurd (let e' = e in cc)
positive-suc (some (pos zero)) n e = absurd (let e' = e in cc)
positive-suc (some (pos (suc k))) n e =
    let same : suc k ≡ n = ground (arith, e) in omega (arith, same)

add_checked-Agree :
    (pid : ℕ) (o : Option ℕ) (foreign_id : Text) (u : User)
    → ((n : ℕ) → o ≡ some n → 0 < n)
    → AllAgree
        (add_checked pid o foreign_id u)
        (ApiAssociations.create_checked pid (pos (as_id o)) foreign_id u)
add_checked-Agree pid none foreign_id u above s = record { session = refl; status = refl }
add_checked-Agree pid (some zero) foreign_id u above s =
    absurd (let low = above 0 refl in omega (arith, low))
add_checked-Agree pid (some (suc n)) foreign_id u above s =
    answered-Agree row_error (λ _. person_page pid) 201
      (λ a. association_body (to_association_dto a))
      (Associations.create_association (actor_from u) pid (suc n) foreign_id s) row_error-Refuses
      refl

form-Agree : (p : Post) (u : User) → AllAgree (form_of p u) (Api.handler_of (as_request p) u)
form-Agree (post_persons form) u =
    with_form-Agree (λ s. s) [] form _ _
      λ name s.
        answered-Agree any_error (λ p. person_page p.id) 201 (λ p. person_body (to_person_dto p))
          (Persons.create_person (actor_from u) name s) any_error-Refuses refl
form-Agree (post_person path form) u = with_person-Agree path (parse path) _ _ λ pid.
    with_form-Agree (λ s. s) [] form _ _
      λ name s.
        answered-Agree row_error (λ _. person_page pid) 200 (λ p. person_body (to_person_dto p))
          (Persons.rename_person (actor_from u) pid name s) row_error-Refuses refl
form-Agree (post_associations path form) u = with_person-Agree path (parse path) _ _ λ pid.
    with_form-Agree as_association (record { system_id = pos 0; foreign_id = [] }) form _ _
      λ f.
        add_checked-Agree pid (parse_row_id f.0) f.1 u (positive-suc (parse_int (trim_space f.0)))
form-Agree (post_association_remove path assoc_path) u =
    with_person-Agree path (parse path) _ _ λ pid.
      with_row-Agree assoc_path (parse_row_id assoc_path) _ _ λ aid s.
        answered-Agree row_error (λ _. person_page pid) 204 (λ _. no_body)
          (Associations.remove_association (actor_from u) pid aid s) row_error-Refuses refl
form-Agree (post_stewards form) u =
    with_form-Agree (λ s. s) [] form _ _
      λ upn s.
        answered-Agree invite_error (λ _. codes "/stewards") 201
          (λ p. pending_steward_body (to_pending_steward_dto p))
          (Stewards.promote_steward (actor_from u) upn s) invite_error-Refuses refl
form-Agree (post_steward_remove path) u = with_row-Agree path (parse_row_id path) _ _ λ sid s.
    answered-Agree demote_error (λ _. codes "/stewards") 204 (λ _. no_body)
      (Stewards.demote_steward (actor_from u) sid s) demote_error-Refuses refl
form-Agree (post_pending_cancel path) u = with_row-Agree path (parse_row_id path) _ _ λ sid s.
    answered-Agree row_error (λ _. codes "/stewards") 204 (λ _. no_body)
      (Stewards.cancel_steward_invite (actor_from u) sid s) row_error-Refuses refl
form-Agree (post_systems form) u =
    with_form-Agree (λ s. s) [] form _ _
      λ name s.
        answered-Agree name_error (λ y. system_page y.id) 201 (λ y. system_body (to_system_dto y))
          (Systems.create_system (actor_from u) name s) name_error-Refuses refl
form-Agree (post_system path form) u = with_row-Agree path (parse_row_id path) _ _ λ sid.
    with_form-Agree (λ s. s) [] form _ _
      λ name s.
        answered-Agree rename_error (λ _. system_page sid) 200 (λ y. system_body (to_system_dto y))
          (Systems.rename_system (actor_from u) sid name s) rename_error-Refuses refl
form-Agree (post_system_disable path) u = with_row-Agree path (parse_row_id path) _ _ λ sid s.
    answered-Agree row_error (λ _. system_page sid) 200 (λ y. system_body (to_system_dto y))
      (Systems.disable_system (actor_from u) sid s) row_error-Refuses refl
form-Agree (post_system_enable path) u = with_row-Agree path (parse_row_id path) _ _ λ sid s.
    answered-Agree row_error (λ _. system_page sid) 200 (λ y. system_body (to_system_dto y))
      (Systems.enable_system (actor_from u) sid s) row_error-Refuses refl

gated-Agree :
    (b : Bool) (h : PageHandler) (k : Handler) (s : Session)
    → Agree (h s) (k s)
    → Agree
        (if b then h s else (failed 403 (codes "steward role required"), s))
        (if b then k s else (plain 403 (codes "steward role required"), s))
gated-Agree true h k s agree = agree
gated-Agree false h k s agree = record { session = refl; status = refl }

-- A posted form leaves the session, and so the database, as the request to the API that it stands for
-- does, whoever asks; and its answer is the redirect with 303 exactly where the API's is a success.
pub post_route-Agree :
    (escape : Text → Text) (uri : Text) (p : Post) (user : Option User) (s : Session)
    → Agree (post_route escape uri p user s) (Api.route (as_request p) user s)
unfolding post_route Api.route
post_route-Agree escape uri p none s = record { session = refl; status = refl }
post_route-Agree escape uri p (some u) s =
    gated-Agree u.is_steward (form_of p u) (Api.handler_of (as_request p) u) s (form-Agree p u s)
