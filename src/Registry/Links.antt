-- ===== src/Registry/Links.antt =====
-- The registry: the persons and systems of associations.
use xensus.Base.{
  ◌≡◌, Bool, List, [], ◌∷◌, some, arith, Option-cases, Bool-cases, inl, inr, trim_space, suc,
}
use xensus.Sql.{insert_row, select_first, delete_where}
use xensus.Store.Schema.{Person, SystemRow, AssociationRow, Database}
use xensus.Store.Associations.{new_association}
use xensus.Registry.Change.{logged}
use xensus.Registry.Persons
use xensus.Registry.Systems
use xensus.Registry.Associations
use xensus.Registry.Stewards
use xensus.Registry.Tenant
use xensus.Registry.Included.{HasPerson, HasSystem, Includes, apply-Includes}
use xensus.Registry.Requests.{
  Request, create_person, rename_person, create_system, rename_system, disable_system,
  enable_system, create_association, remove_association, promote_steward, demote_steward,
  cancel_steward_invite, claim_pending_steward, bootstrap, Times, apply,
}

-- Every row's person and system are in `d`.
unfoldable pub Linked : Database → List AssociationRow → Type 0
Linked d [] = Unit
Linked d (a ∷ rows) = HasPerson d a.person_id × HasSystem d a.system_id × Linked d rows

-- Every association's person and system are registered.
abbrev pub HasLinks : Database → Type 0
HasLinks d = Linked d d.associations.rows

Linked-delete_where :
    (d : Database) (hit : AssociationRow → Bool) (rs : List AssociationRow)
    → Linked d rs
    → Linked d (delete_where hit rs)
unfolding Linked delete_where
Linked-delete_where d hit [] h = tt
Linked-delete_where d hit (r ∷ rs) h = elim (Bool-cases (hit r)) [
  | inl gone ↦ rw gone (Linked-delete_where d hit rs h.2)
  | inr kept ↦ rw kept (h.0, h.1, Linked-delete_where d hit rs h.2)
]

Linked-insert :
    (d : Database) (a : AssociationRow) (p : Person) (r : SystemRow)
    → Linked d d.associations.rows
    → select_first (Persons.with_id a.person_id) d.persons.rows ≡ some p
    → select_first (Systems.with_id a.system_id) d.systems.rows ≡ some r
    → Linked d (a ∷ d.associations.rows)
unfolding Linked
Linked-insert d a p r h found found' = (rw found tt, rw found' tt, h)

-- The rows `rows` keep their persons and systems.
links-kept :
    (d d' : Database) (rows : List AssociationRow) → Includes d d' → Linked d rows → Linked d' rows
unfolding Linked
links-kept d d' [] inc h = tt
links-kept d d' (a ∷ rows) inc h =
    (inc.persons a.person_id h.0, inc.systems a.system_id h.1, links-kept d d' rows inc h.2)

-- The associations of `d'` are in `d`, or new with a person and a system of `d`.
apply-links :
    (t : Times) (r : Request) (d : Database) → HasLinks d → Linked d (apply t r d).associations.rows
unfolding apply logged insert_row Persons.create_person Persons.rename_person Systems.create_system
    Systems.rename_system Systems.disable_system Systems.enable_system
    Associations.create_association Associations.remove_association Stewards.promote_steward
    Stewards.demote_steward Stewards.cancel_steward_invite Stewards.claim_pending_steward
    Tenant.bootstrap
apply-links t (create_person a name) d h = ground (arith, h)
apply-links t (rename_person a id name) d h = ground (arith, h)
apply-links t (create_system a name) d h = ground (arith, h)
apply-links t (rename_system a id name) d h = ground (arith, h)
apply-links t (disable_system a id) d h = ground (arith, h)
apply-links t (enable_system a id) d h = ground (arith, h)
apply-links t (create_association a p s foreign_id) d h =
    elim (Option-cases (select_first (Persons.with_id p) d.persons.rows)) [
      | inl missing ↦ ground (arith, h)
      | inr (q, found) ↦ elim (Option-cases (select_first (Systems.with_id s) d.systems.rows)) [
        | inl missing ↦ ground (arith, h)
        | inr (r, found') ↦ ground (
          arith,
          h,
          Linked-insert d
              (new_association p s (trim_space foreign_id) a.upn t.now (suc d.associations.seq)) q r
              h found found',
        )
      ]
    ]
apply-links t (remove_association a p id) d h =
    ground (arith, Linked-delete_where d (Associations.with_id id) d.associations.rows h)
apply-links t (promote_steward a upn) d h = ground (arith, h)
apply-links t (demote_steward a id) d h = ground (arith, h)
apply-links t (cancel_steward_invite a id) d h = ground (arith, h)
apply-links t (claim_pending_steward a) d h = ground (arith, h)
apply-links t (bootstrap c) d h = ground (arith, h)

-- Requests keep the links.
pub apply-HasLinks : (t : Times) (r : Request) (d : Database) → HasLinks d → HasLinks (apply t r d)
apply-HasLinks t r d h =
    links-kept d (apply t r d) (apply t r d).associations.rows (apply-Includes t r d)
      (apply-links t r d h)
