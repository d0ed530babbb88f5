-- ===== src/Core/Serve.antt =====
-- The functions of package core as the handling of a request.
use xensus.Base.{ℕ, suc, ◌≡◌, false, ◌⊎◌, none, inl, inr, List, [], ◌∷◌, arith}
use xensus.Store.Schema.{Database}
use xensus.Store.Session.{Session, Result}
use xensus.Registry.Requests.{
  Request, create_person, rename_person, create_system, rename_system, disable_system,
  enable_system, create_association, remove_association, promote_steward, demote_steward,
  cancel_steward_invite, claim_pending_steward, bootstrap, Times, apply,
}
use xensus.Registry.Valid.{HasIds, apply-HasIds}
use xensus.Core.Persons
use xensus.Core.Systems
use xensus.Core.Associations
use xensus.Core.Stewards
use xensus.Core.Bootstrap
use xensus.Core.Refinement

-- The session after a request.
unfoldable pub serve : Request → Session → Session
serve (create_person a name) s = (Persons.create_person a name s).1
serve (rename_person a id name) s = (Persons.rename_person a id name s).1
serve (create_system a name) s = (Systems.create_system a name s).1
serve (rename_system a id name) s = (Systems.rename_system a id name s).1
serve (disable_system a id) s = (Systems.disable_system a id s).1
serve (enable_system a id) s = (Systems.enable_system a id s).1
serve (create_association a p y foreign_id) s =
    (Associations.create_association a p y foreign_id s).1
serve (remove_association a p id) s = (Associations.remove_association a p id s).1
serve (promote_steward a upn) s = (Stewards.promote_steward a upn s).1
serve (demote_steward a id) s = (Stewards.demote_steward a id s).1
serve (cancel_steward_invite a id) s = (Stewards.cancel_steward_invite a id s).1
serve (claim_pending_steward a) s = (Stewards.claim_pending_steward a s).1
serve (bootstrap c) s = (Bootstrap.bootstrap c s).1

-- The times at the given calls of a session.
abbrev at_calls : ℕ → ℕ → ℕ → Session → Times
at_calls bound now at s = record {
  bound_at = s.driver.go_now bound;
  now = s.driver.strftime_now now;
  at = s.driver.go_now at;
}

-- The times that the driver gives to a request, by the calls that write them.
abbrev pub times : Request → Session → Times
times (create_person _ _) s = let n = suc s.tick in at_calls n n (suc n) s
times (create_system _ _) s = let n = suc s.tick in at_calls n n (suc n) s
times (create_association _ _ _ _) s = let n = suc (suc (suc s.tick)) in at_calls n n (suc n) s
times (promote_steward _ _) s = let n = suc (suc (suc s.tick)) in at_calls n n (suc n) s
times (claim_pending_steward _) s = let n = suc (suc (suc s.tick)) in at_calls n n (suc (suc n)) s
times (bootstrap _) s = let n = suc (suc s.tick) in at_calls n (suc n) (suc (suc n)) s
times _ s = let n = suc (suc s.tick) in at_calls n n (suc n) s

-- How a request ends: no transaction is open, and the database is the old one or the registry's.
abbrev pub Follows : Session → Session → Database → Type 0
Follows s s' d =
    (s'.working ≡ none)
    × (s'.driver ≡ s.driver)
    × (Refinement.CallFails s.driver × (s'.committed ≡ s.committed) ⊎ (s'.committed ≡ d))

Refines-Follows :
    {A : Type 0} (s : Session) (x : Result A × Session) (y : Result A × Database)
    → Refinement.Refines s x y
    → Follows s x.1 y.1
Refines-Follows s x y h = ground arith

-- Every request, served with no transaction open, leaves none open and keeps the driver, and the
-- database is what the registry makes of it at the times of its calls, or the old one if some call
-- of the driver fails.
pub serve-Follows :
    (r : Request) (s : Session)
    → s.working ≡ none
    → Follows s (serve r s) (apply (times r s) r s.committed)
unfolding serve apply
serve-Follows (create_person a name) s idle =
    Refines-Follows s (Persons.create_person a name s) _
      (Refinement.Persons.create_person-Refines a name s idle)
serve-Follows (rename_person a id name) s idle =
    Refines-Follows s (Persons.rename_person a id name s) _
      (Refinement.Persons.rename_person-Refines a id name s idle)
serve-Follows (create_system a name) s idle =
    Refines-Follows s (Systems.create_system a name s) _
      (Refinement.Systems.create_system-Refines a name s idle)
serve-Follows (rename_system a id name) s idle =
    Refines-Follows s (Systems.rename_system a id name s) _
      (Refinement.Systems.rename_system-Refines a id name s idle)
serve-Follows (disable_system a id) s idle =
    Refines-Follows s (Systems.disable_system a id s) _
      (Refinement.Systems.disable_system-Refines a id s idle)
serve-Follows (enable_system a id) s idle =
    Refines-Follows s (Systems.enable_system a id s) _
      (Refinement.Systems.enable_system-Refines a id s idle)
serve-Follows (create_association a p y f) s idle =
    Refines-Follows s (Associations.create_association a p y f s) _
      (Refinement.Associations.create_association-Refines a p y f s idle)
serve-Follows (remove_association a p id) s idle =
    Refines-Follows s (Associations.remove_association a p id s) _
      (Refinement.Associations.remove_association-Refines a p id s idle)
serve-Follows (promote_steward a upn) s idle =
    Refines-Follows s (Stewards.promote_steward a upn s) _
      (Refinement.Stewards.promote_steward-Refines a upn s idle)
serve-Follows (demote_steward a id) s idle =
    Refines-Follows s (Stewards.demote_steward a id s) _
      (Refinement.Stewards.demote_steward-Refines a id s idle)
serve-Follows (cancel_steward_invite a id) s idle =
    Refines-Follows s (Stewards.cancel_steward_invite a id s) _
      (Refinement.Stewards.cancel_steward_invite-Refines a id s idle)
serve-Follows (claim_pending_steward a) s idle =
    Refines-Follows s (Stewards.claim_pending_steward a s) _
      (Refinement.Claims.claim_pending_steward-Refines a s idle)
serve-Follows (bootstrap c) s idle =
    Refines-Follows s (Bootstrap.bootstrap c s) _ (Refinement.Bootstrap.bootstrap-Refines c s idle)

pub serve-HasIds :
    (r : Request) (s : Session)
    → s.working ≡ none
    → HasIds s.committed
    → HasIds (serve r s).committed
serve-HasIds r s idle ids = elim (serve-Follows r s idle).2 [
  | inl (_, same) ↦ rw same ids
  | inr new ↦ rw new (apply-HasIds (times r s) r s.committed ids)
]

-- With a driver of which no call fails, a request does what the registry says.
pub serve-works :
    (r : Request) (s : Session)
    → s.working ≡ none
    → ((n : ℕ) → s.driver.fails n ≡ false)
    → (serve r s).committed ≡ apply (times r s) r s.committed
serve-works r s idle works = elim (serve-Follows r s idle).2 [
  | inl ((n, fails), _) ↦ let w = works n in cc
  | inr new ↦ new
]

-- Requests one after the other, each in a transaction of its own.
unfoldable pub serve_all : List Request → Session → Session
serve_all [] s = s
serve_all (r ∷ rs) s = serve_all rs (serve r s)

pub serve_all-idle :
    (rs : List Request) (s : Session) → s.working ≡ none → (serve_all rs s).working ≡ none
unfolding serve_all
serve_all-idle [] s idle = idle
serve_all-idle (r ∷ rs) s idle = serve_all-idle rs (serve r s) (serve-Follows r s idle).0

-- A property of the database that every request of the registry keeps holds after any requests.
pub serve_all-keeps :
    (P : Database → Type 0)
    → ((t : Times) (r : Request) (d : Database) → P d → P (apply t r d))
    → (rs : List Request) (s : Session) → s.working ≡ none
    → P s.committed
    → P (serve_all rs s).committed
unfolding serve_all
serve_all-keeps P keep [] s idle h = h
serve_all-keeps P keep (r ∷ rs) s idle h =
    let (idle', _, change) = serve-Follows r s idle in
    serve_all-keeps P keep rs (serve r s) idle' (elim change [
      | inl (_, same) ↦ rw same h
      | inr new ↦ rw new (keep (times r s) r s.committed h)
    ])
