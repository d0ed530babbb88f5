-- ===== src/Api/Safety.antt =====
-- router.go and api/*.go: the statuses of the answers, and what the database is then.
use xensus.Base.{
  ℕ, zero, suc, ◌<◌, ◌≤◌, ◌≡◌, refl, ◌⊎◌, inl, inr, true, Option, none, some, ℤ, pos, negsuc, Text,
  [], arith, Bool-cases,
}
use xensus.Store.Schema.{Database}
use xensus.Store.Session.{
  Session, Result, ok, err, Error, already_bound, not_found, name_required, upn_required,
  already_steward, already_invited, self_removal, no_rows, missing_argument, constraint, table_full,
  tx_done, driver_failure,
}
use xensus.Id.{parse, Parsed, id, invalid}
use xensus.Registry.Errors
use xensus.Registry.Errors.{KeepsOnError}
use xensus.Core.Refinement
use xensus.Core.Refinement.{Refines}
use xensus.Auth.{User}
use xensus.Api.Response.{
  Response, Handler, Decoding, decoded, end_of_body, malformed, http_error, respond, with_input,
  Body,
}
use xensus.Api.Persons
use xensus.Api.Systems
use xensus.Api.Persons.{with_person_id, actor_from}
use xensus.Api.Systems.{with_row_id, parse_row_id}
use xensus.Api.Associations.{create_checked}
use xensus.Api.Routes.{
  Write, post_persons, post_systems, post_stewards, patch_person, patch_system, post_associations,
  delete_association, post_disable, post_enable, delete_steward, delete_pending, handler_of, route,
}

-- The answer is a success, or an error that comes with the old database; no transaction is open.
pub record IsSafe (s : Session) (answer : Response × Session) : Type 0 where
  pub idle : answer.1.working ≡ none
  pub outcome :
      (answer.0.status < 400) ⊎ ((400 ≤ answer.0.status) × (answer.1.committed ≡ s.committed))

http_error-status : (e : Error) → 400 ≤ (http_error e).status
http_error-status already_bound = omega arith
http_error-status not_found = omega arith
http_error-status name_required = omega arith
http_error-status upn_required = omega arith
http_error-status already_steward = omega arith
http_error-status already_invited = omega arith
http_error-status self_removal = omega arith
http_error-status no_rows = omega arith
http_error-status missing_argument = omega arith
http_error-status constraint = omega arith
http_error-status table_full = omega arith
http_error-status tx_done = omega arith
http_error-status driver_failure = omega arith

respond-IsSafe :
    {A : Type 0} (f : A → Response) (s : Session) (x : Result A × Session) (y : Result A × Database)
    → ((a : A) → (f a).status < 400)
    → Refines s x y
    → KeepsOnError s.committed y
    → IsSafe s (respond f x)
respond-IsSafe f s (ok a, s') y success h keeps = record { idle = h.0; outcome = inl (success a) }
respond-IsSafe f s (err e, s') (ok b, d') success h keeps = record {
  idle = h.0;
  outcome = inr (http_error-status e, ground (arith, h));
}
respond-IsSafe f s (err e, s') (err e', d') success h keeps = record {
  idle = h.0;
  outcome = inr (http_error-status e, ground (arith, h, keeps));
}

-- What every handler does in a session where no transaction is open.
abbrev Safe : Handler → Type 0
Safe h = (s : Session) → s.working ≡ none → IsSafe s (h s)

refused :
    (status : ℕ) (body : Body) (s : Session)
    → 400 ≤ status
    → s.working ≡ none
    → IsSafe s (record { status = status; body = body }, s)
refused status body s le idle = record { idle = idle; outcome = inr (le, refl) }

with_input-Safe :
    {A : Type 0} (zero_input : A) (input : Decoding A) (next : A → Handler)
    → ((a : A) → Safe (next a))
    → Safe (with_input zero_input input next)
with_input-Safe zero_input (decoded a) next h s idle = h a s idle
with_input-Safe zero_input end_of_body next h s idle = h zero_input s idle
with_input-Safe zero_input (malformed m) next h s idle = refused 400 _ s (omega arith) idle

with_person_id-Safe :
    (path : Text) (p : Parsed) (next : ℕ → Handler)
    → ((n : ℕ) → Safe (next n))
    → Safe (Persons.checked_id path p next)
with_person_id-Safe path (id n) next h s idle = h n s idle
with_person_id-Safe path (invalid e) next h s idle = refused 400 _ s (omega arith) idle

with_row_id-Safe :
    (path : Text) (o : Option ℕ) (next : ℕ → Handler)
    → ((n : ℕ) → Safe (next n))
    → Safe (Systems.checked_id path o next)
with_row_id-Safe path (some n) next h s idle = h n s idle
with_row_id-Safe path none next h s idle = refused 400 _ s (omega arith) idle

create_checked-Safe :
    (pid : ℕ) (system_id : ℤ) (foreign_id : Text) (u : User)
    → Safe (create_checked pid system_id foreign_id u)
create_checked-Safe pid (negsuc n) foreign_id u s idle = refused 400 _ s (omega arith) idle
create_checked-Safe pid (pos zero) foreign_id u s idle = refused 400 _ s (omega arith) idle
create_checked-Safe pid (pos (suc n)) foreign_id u s idle =
    respond-IsSafe _ s _ _ (λ _. omega arith)
      (Refinement.Associations.create_association-Refines (actor_from u) pid (suc n) foreign_id s
        idle)
      (Errors.create_association-KeepsOnError _ _ _ _ _ _ _)

handler_of-Safe : (w : Write) (u : User) → Safe (handler_of w u)
handler_of-Safe (post_persons input) u = with_input-Safe [] input _ λ name s idle.
    respond-IsSafe _ s _ _ (λ _. omega arith)
      (Refinement.Persons.create_person-Refines (actor_from u) name s idle)
      (Errors.create_person-KeepsOnError _ _ _ _ _)
handler_of-Safe (patch_person path input) u = with_person_id-Safe path (parse path) _ λ n.
    with_input-Safe [] input _ λ name s idle.
      respond-IsSafe _ s _ _ (λ _. omega arith)
        (Refinement.Persons.rename_person-Refines (actor_from u) n name s idle)
        (Errors.rename_person-KeepsOnError _ _ _ _ _ _)
handler_of-Safe (post_associations path input) u =
    with_person_id-Safe path (parse path) _
      λ n. with_input-Safe _ input _ λ i. create_checked-Safe n i.system_id i.foreign_id u
handler_of-Safe (delete_association path assoc_path) u =
    with_person_id-Safe path (parse path) _ λ n.
      with_row_id-Safe assoc_path (parse_row_id assoc_path) _ λ m s idle.
        respond-IsSafe _ s _ _ (λ _. omega arith)
          (Refinement.Associations.remove_association-Refines (actor_from u) n m s idle)
          (Errors.remove_association-KeepsOnError _ _ _ _ _)
handler_of-Safe (post_systems input) u = with_input-Safe [] input _ λ name s idle.
    respond-IsSafe _ s _ _ (λ _. omega arith)
      (Refinement.Systems.create_system-Refines (actor_from u) name s idle)
      (Errors.create_system-KeepsOnError _ _ _ _ _)
handler_of-Safe (patch_system path input) u = with_row_id-Safe path (parse_row_id path) _ λ n.
    with_input-Safe [] input _ λ name s idle.
      respond-IsSafe _ s _ _ (λ _. omega arith)
        (Refinement.Systems.rename_system-Refines (actor_from u) n name s idle)
        (Errors.rename_system-KeepsOnError _ _ _ _ _ _)
handler_of-Safe (post_disable path) u = with_row_id-Safe path (parse_row_id path) _ λ n s idle.
    respond-IsSafe _ s _ _ (λ _. omega arith)
      (Refinement.Systems.disable_system-Refines (actor_from u) n s idle)
      (Errors.disable_system-KeepsOnError _ _ _ _ _)
handler_of-Safe (post_enable path) u = with_row_id-Safe path (parse_row_id path) _ λ n s idle.
    respond-IsSafe _ s _ _ (λ _. omega arith)
      (Refinement.Systems.enable_system-Refines (actor_from u) n s idle)
      (Errors.enable_system-KeepsOnError _ _ _ _ _)
handler_of-Safe (post_stewards input) u = with_input-Safe [] input _ λ name s idle.
    respond-IsSafe _ s _ _ (λ _. omega arith)
      (Refinement.Stewards.promote_steward-Refines (actor_from u) name s idle)
      (Errors.promote_steward-KeepsOnError _ _ _ _ _)
handler_of-Safe (delete_steward path) u = with_row_id-Safe path (parse_row_id path) _ λ n s idle.
    respond-IsSafe _ s _ _ (λ _. omega arith)
      (Refinement.Stewards.demote_steward-Refines (actor_from u) n s idle)
      (Errors.demote_steward-KeepsOnError _ _ _ _ _)
handler_of-Safe (delete_pending path) u = with_row_id-Safe path (parse_row_id path) _ λ n s idle.
    respond-IsSafe _ s _ _ (λ _. omega arith)
      (Refinement.Stewards.cancel_steward_invite-Refines (actor_from u) n s idle)
      (Errors.cancel_steward_invite-KeepsOnError _ _ _ _)

-- Whoever sent the request is a signed-in steward.
abbrev pub IsSteward : Option User → Type 0
IsSteward none = ⊥
IsSteward (some u) = u.is_steward ≡ true

-- Where no transaction is open, a route that changes the registry leaves none open. It answers a
-- steward with a success, or it answers an error, and then the database is the old one: so a caller
-- who is no steward changes nothing, and neither does a request that fails.
pub route-IsSafe :
    (w : Write) (user : Option User) (s : Session)
    → s.working ≡ none
    → let (response, s') = route w user s in
      (s'.working ≡ none)
      × ((IsSteward user × (response.status < 400))
          ⊎ ((400 ≤ response.status) × (s'.committed ≡ s.committed)))
unfolding route
route-IsSafe w none s idle = (idle, inr (omega arith, refl))
route-IsSafe w (some u) s idle = elim (Bool-cases u.is_steward) [
  | inl steward ↦
      let safe = handler_of-Safe w (record u { is_steward = true }) s idle in
      rw steward (
        safe.idle,
        elim safe.outcome [ inl success ↦ inl (refl, success) | inr failure ↦ inr failure ],
      )
  | inr other ↦ rw other (idle, inr (omega arith, refl))
]
