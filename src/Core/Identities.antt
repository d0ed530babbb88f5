-- ===== src/Core/Identities.antt =====
-- core/*.go: IDs, persons and associations over requests.
use xensus.Base.{ℕ, suc, ◌<◌, ◌≡◌, List, none, Text, All, All-mono, arith}
use xensus.Sql.{insert_row}
use xensus.Store.Schema.{Person, AssociationRow, Database}
use xensus.Store.Session.{Session, Result, ok}
use xensus.Store.Associations.{Association}
use xensus.Registry.{logged}
use xensus.Registry.Requests.{Request, apply}
use xensus.Registry.Identity.{Falls-below}
use xensus.Registry.Valid.{HasIds, apply-HasIds}
use xensus.Registry.Permanence.{Counted, apply-Counted, Registered, apply-Registered}
use xensus.Registry.Links.{HasLinks, apply-HasLinks}
use xensus.Registry.Persons as RegistryPersons
use xensus.Registry.Associations as RegistryAssociations
use xensus.Core.Audit.{Actor}
use xensus.Core.Persons.{create_person}
use xensus.Core.Associations.{create_association}
use xensus.Core.Refinement.{Refines}
use xensus.Core.Refinement.Persons.{create_person-Refines}
use xensus.Core.Refinement.Associations.{create_association-Refines}
use xensus.Core.Serve.{serve_all, serve_all-keeps, serve_all-idle}

-- A result that is no error is the registry's.
Refines-ok :
    {A : Type 0} (s : Session) (x : Result A × Session) (y : Result A × Database) (a : A)
    → Refines s x y
    → x.0 ≡ ok a
    → y.0 ≡ ok a
Refines-ok s x y a h e = ground arith

create_person-id :
    (now at : Text) (actor : Actor) (name : Text) (d : Database) (p : Person)
    → (RegistryPersons.create_person now at actor name d).0 ≡ ok p
    → p.id ≡ suc d.persons.seq
unfolding RegistryPersons.create_person insert_row logged
create_person-id now at actor name d p e = ground arith

create_association-id :
    (now at : Text) (actor : Actor) (p y : ℕ) (foreign_id : Text) (d : Database) (a : Association)
    → (RegistryAssociations.create_association now at actor p y foreign_id d).0 ≡ ok a
    → a.id ≡ suc d.associations.seq
unfolding RegistryAssociations.create_association insert_row logged
create_association-id now at actor p y foreign_id d a e = ground arith

Counted-trans : (d e f : Database) → Counted d e → Counted e f → Counted d f
Counted-trans d e f h k = record {
  persons = omega (arith, h.persons, k.persons);
  systems = omega (arith, h.systems, k.systems);
  associations = omega (arith, h.associations, k.associations);
  stewards = omega (arith, h.stewards, k.stewards);
  pending_stewards = omega (arith, h.pending_stewards, k.pending_stewards);
  audit_log = omega (arith, h.audit_log, k.audit_log);
}

Counted-refl : (d : Database) → Counted d d
Counted-refl d = record {
  persons = omega arith;
  systems = omega arith;
  associations = omega arith;
  stewards = omega arith;
  pending_stewards = omega arith;
  audit_log = omega arith;
}

serve_all-Counted :
    (rs : List Request) (s : Session)
    → s.working ≡ none
    → Counted s.committed (serve_all rs s).committed
serve_all-Counted rs s idle =
    serve_all-keeps (Counted s.committed)
      (λ t r d h. Counted-trans s.committed d (apply t r d) h (apply-Counted t r d)) rs s idle
      (Counted-refl s.committed)

-- Where every table's IDs fall from the newest row, whose ID is at most the counter, to the oldest
-- and no transaction is open, a person created after any requests, whichever calls of the driver
-- failed, has an ID above those of all the persons before the requests.
pub create_person-IsFresh :
    (rs : List Request) (actor : Actor) (name : Text) (s : Session) (p : Person)
    → s.working ≡ none
    → HasIds s.committed
    → (create_person actor name (serve_all rs s)).0 ≡ ok p
    → All (λ (q : Person). q.id < p.id) s.committed.persons.rows
create_person-IsFresh rs actor name s p idle ids e =
    let s' = serve_all rs s in
    let new = create_person-id _ _ actor name s'.committed p (
      Refines-ok s' (create_person actor name s') _ p
        (create_person-Refines actor name s' (serve_all-idle rs s idle)) e) in
    let grown = (serve_all-Counted rs s idle).persons in
    All-mono s.committed.persons.rows (λ q h. omega (arith, h, new, grown))
      (Falls-below (λ (q : Person). q.id) _ _ ids.persons)

-- Where every table's IDs fall from the newest row, whose ID is at most the counter, to the oldest
-- and no transaction is open, an association created after any requests has an ID above those of
-- all the associations before them, also of those that were removed meanwhile.
pub create_association-IsFresh :
    (rs : List Request) (actor : Actor) (person_id system_id : ℕ) (foreign_id : Text) (s : Session)
    (a : Association)
    → s.working ≡ none
    → HasIds s.committed
    → (create_association actor person_id system_id foreign_id (serve_all rs s)).0 ≡ ok a
    → All (λ (b : AssociationRow). b.id < a.id) s.committed.associations.rows
create_association-IsFresh rs actor person_id system_id foreign_id s a idle ids e =
    let s' = serve_all rs s in
    let new = create_association-id _ _ actor person_id system_id foreign_id s'.committed a (
      Refines-ok s' (create_association actor person_id system_id foreign_id s') _ a
        (create_association-Refines actor person_id system_id foreign_id s'
          (serve_all-idle rs s idle))
        e) in
    let grown = (serve_all-Counted rs s idle).associations in
    All-mono s.committed.associations.rows (λ b h. omega (arith, h, new, grown))
      (Falls-below (λ (b : AssociationRow). b.id) _ _ ids.associations)

-- Where no transaction is open, the IDs of a table that fall from the newest row, whose ID is at
-- most the counter, to the oldest stay so, whatever is requested and whichever calls of the driver
-- fail.
pub serve_all-HasIds :
    (rs : List Request) (s : Session)
    → s.working ≡ none
    → HasIds s.committed
    → HasIds (serve_all rs s).committed
serve_all-HasIds = serve_all-keeps HasIds apply-HasIds

-- Where every table's IDs fall from the newest row, whose ID is at most the counter, to the oldest
-- and no transaction is open, a registered person is registered after any requests, under the same
-- ID and with the same creation time and creator.
pub serve_all-Registered :
    (p : Person) (rs : List Request) (s : Session)
    → s.working ≡ none
    → HasIds s.committed
    → Registered p s.committed
    → Registered p (serve_all rs s).committed
serve_all-Registered p rs s idle ids reg =
    (serve_all-keeps (λ d. HasIds d × Registered p d)
      (λ t r d h. (apply-HasIds t r d h.0, apply-Registered p t r d h.0 h.1)) rs s idle
      (ids, reg)).1

-- Where no transaction is open and every association's person and system are registered, so they
-- are after any requests.
pub serve_all-HasLinks :
    (rs : List Request) (s : Session)
    → s.working ≡ none
    → HasLinks s.committed
    → HasLinks (serve_all rs s).committed
serve_all-HasLinks = serve_all-keeps HasLinks apply-HasLinks
