-- ===== src/System/Asked.antt =====
-- api/*.go and web/*.go: a handler asks package core for one operation at most.
use xensus.Base.{
  ℕ, zero, suc, ℤ, pos, negsuc, ◌≡◌, refl, sym, ◌∙◌, ◌⊎◌, inl, inr, Option, none, some, Text, [],
}
use xensus.Store.Session.{Session, Result, ok, err}
use xensus.Id.{parse, Parsed, id, invalid}
use xensus.Registry.Requests.{
  Request, actor_of, create_person, rename_person, create_system, rename_system, disable_system,
  enable_system, create_association, remove_association, promote_steward, demote_steward,
  cancel_steward_invite,
}
use xensus.Core.Audit.{Actor}
use xensus.Core.Serve.{serve}
use xensus.Auth.{User}
use xensus.Api.Response.{
  Response, Handler, Decoding, decoded, end_of_body, malformed, respond, with_input,
}
use xensus.Api.Persons
use xensus.Api.Systems
use xensus.Api.Persons.{actor_from}
use xensus.Api.Systems.{parse_row_id}
use xensus.Api.Associations.{create_checked}
use xensus.Api.Routes.{
  Write, post_persons, post_systems, post_stewards, patch_person, patch_system, post_associations,
  delete_association, post_disable, post_enable, delete_steward, delete_pending, handler_of,
}

-- Nothing was asked for, or one request was served, in the name of the actor.
abbrev pub Asked : Actor → Session → Session → Type 0
Asked a s s' = (s' ≡ s) ⊎ ((r : Request) × (actor_of r ≡ a) × (s' ≡ serve r s))

abbrev AllAsked : Actor → Handler → Type 0
AllAsked a h = (s : Session) → Asked a s (h s).1

with_input-Asked :
    {A : Type 0} (a : Actor) (zero_input : A) (input : Decoding A) (next : A → Handler)
    → ((x : A) → AllAsked a (next x))
    → AllAsked a (with_input zero_input input next)
with_input-Asked a zero_input (decoded x) next h s = h x s
with_input-Asked a zero_input end_of_body next h s = h zero_input s
with_input-Asked a zero_input (malformed m) next h s = inl refl

with_person_id-Asked :
    (a : Actor) (path : Text) (p : Parsed) (next : ℕ → Handler)
    → ((n : ℕ) → AllAsked a (next n))
    → AllAsked a (Persons.checked_id path p next)
with_person_id-Asked a path (id n) next h s = h n s
with_person_id-Asked a path (invalid e) next h s = inl refl

with_row_id-Asked :
    (a : Actor) (path : Text) (o : Option ℕ) (next : ℕ → Handler)
    → ((n : ℕ) → AllAsked a (next n))
    → AllAsked a (Systems.checked_id path o next)
with_row_id-Asked a path (some n) next h s = h n s
with_row_id-Asked a path none next h s = inl refl

respond-session : {A : Type 0} (f : A → Response) (x : Result A × Session) → (respond f x).1 ≡ x.1
respond-session f (ok a, s) = refl
respond-session f (err e, s) = refl

-- The answer to a call of package core that serves `r`.
respond-Asked :
    {A : Type 0} (f : A → Response) (r : Request) (s : Session) (x : Result A × Session)
    → serve r s ≡ x.1
    → Asked (actor_of r) s (respond f x).1
respond-Asked f r s x e = inr (r, refl, respond-session f x ∙ sym e)

create_checked-Asked :
    (pid : ℕ) (system_id : ℤ) (foreign_id : Text) (u : User)
    → AllAsked (actor_from u) (create_checked pid system_id foreign_id u)
unfolding serve
create_checked-Asked pid (negsuc n) foreign_id u s = inl refl
create_checked-Asked pid (pos zero) foreign_id u s = inl refl
create_checked-Asked pid (pos (suc n)) foreign_id u s =
    respond-Asked _ (create_association (actor_from u) pid (suc n) foreign_id) s _ refl

-- Every handler serves one request of the user at most.
pub handler_of-Asked : (w : Write) (u : User) → AllAsked (actor_from u) (handler_of w u)
unfolding serve
handler_of-Asked (post_persons input) u =
    with_input-Asked _ [] input _
      λ name s. respond-Asked _ (create_person (actor_from u) name) s _ refl
handler_of-Asked (patch_person path input) u = with_person_id-Asked _ path (parse path) _ λ n.
    with_input-Asked _ [] input _
      λ name s. respond-Asked _ (rename_person (actor_from u) n name) s _ refl
handler_of-Asked (post_associations path input) u =
    with_person_id-Asked _ path (parse path) _
      λ n. with_input-Asked _ _ input _ λ i. create_checked-Asked n i.system_id i.foreign_id u
handler_of-Asked (delete_association path assoc_path) u =
    with_person_id-Asked _ path (parse path) _ λ n.
      with_row_id-Asked _ assoc_path (parse_row_id assoc_path) _
        λ m s. respond-Asked _ (remove_association (actor_from u) n m) s _ refl
handler_of-Asked (post_systems input) u =
    with_input-Asked _ [] input _
      λ name s. respond-Asked _ (create_system (actor_from u) name) s _ refl
handler_of-Asked (patch_system path input) u = with_row_id-Asked _ path (parse_row_id path) _ λ n.
    with_input-Asked _ [] input _
      λ name s. respond-Asked _ (rename_system (actor_from u) n name) s _ refl
handler_of-Asked (post_disable path) u =
    with_row_id-Asked _ path (parse_row_id path) _
      λ n s. respond-Asked _ (disable_system (actor_from u) n) s _ refl
handler_of-Asked (post_enable path) u =
    with_row_id-Asked _ path (parse_row_id path) _
      λ n s. respond-Asked _ (enable_system (actor_from u) n) s _ refl
handler_of-Asked (post_stewards input) u =
    with_input-Asked _ [] input _
      λ upn s. respond-Asked _ (promote_steward (actor_from u) upn) s _ refl
handler_of-Asked (delete_steward path) u =
    with_row_id-Asked _ path (parse_row_id path) _
      λ n s. respond-Asked _ (demote_steward (actor_from u) n) s _ refl
handler_of-Asked (delete_pending path) u =
    with_row_id-Asked _ path (parse_row_id path) _
      λ n s. respond-Asked _ (cancel_steward_invite (actor_from u) n) s _ refl
