-- ===== src/Registry/Permanence.antt =====
-- The registry: persons and counters from one database to the next.
use xensus.Base.{
  ℕ, suc, ◌≤◌, ◌≡◌, refl, some, none, Text, arith, Option, List, ◌∷◌, trim_space, Option-cases,
  Bool-cases, inl, inr,
}
use xensus.Sql.{insert_row, select_first, update_where}
use xensus.Sql.Laws.{select_first-update_where}
use xensus.Store.Schema.{Person, Database}
use xensus.Store.Persons.{set_name, new_person}
use xensus.Registry.Identity.{Falls, select_first-below}
use xensus.Registry.Valid.{HasIds}
use xensus.Registry.Change.{logged}
use xensus.Registry.Persons
use xensus.Registry.Systems
use xensus.Registry.Associations
use xensus.Registry.Stewards
use xensus.Registry.Tenant
use xensus.Registry.Requests.{
  Request, create_person, rename_person, create_system, rename_system, disable_system,
  enable_system, create_association, remove_association, promote_steward, demote_steward,
  cancel_steward_invite, claim_pending_steward, bootstrap, Times, apply,
}

-- No AUTOINCREMENT counter of `d` is above its counterpart of `d'`.
pub record Counted (d d' : Database) : Type 0 where
  pub persons : d.persons.seq ≤ d'.persons.seq
  pub systems : d.systems.seq ≤ d'.systems.seq
  pub associations : d.associations.seq ≤ d'.associations.seq
  pub stewards : d.stewards.seq ≤ d'.stewards.seq
  pub pending_stewards : d.pending_stewards.seq ≤ d'.pending_stewards.seq
  pub audit_log : d.audit_log.seq ≤ d'.audit_log.seq

pub apply-Counted : (t : Times) (r : Request) (d : Database) → Counted d (apply t r d)
unfolding apply logged insert_row Persons.create_person Persons.rename_person Systems.create_system
    Systems.rename_system Systems.disable_system Systems.enable_system
    Associations.create_association Associations.remove_association Stewards.promote_steward
    Stewards.demote_steward Stewards.cancel_steward_invite Stewards.claim_pending_steward
    Tenant.bootstrap
apply-Counted t (create_person a name) d = ground arith
apply-Counted t (rename_person a id name) d = ground arith
apply-Counted t (create_system a name) d = ground arith
apply-Counted t (rename_system a id name) d = ground arith
apply-Counted t (disable_system a id) d = ground arith
apply-Counted t (enable_system a id) d = ground arith
apply-Counted t (create_association a p s foreign_id) d = ground arith
apply-Counted t (remove_association a p id) d = ground arith
apply-Counted t (promote_steward a upn) d = ground arith
apply-Counted t (demote_steward a id) d = ground arith
apply-Counted t (cancel_steward_invite a id) d = ground arith
apply-Counted t (claim_pending_steward a) d = ground arith
apply-Counted t (bootstrap c) d = ground arith

-- The person is found, perhaps under another name.
abbrev pub IsSame : Person → Option Person → Type 0
IsSame p none = ⊥
IsSame p (some q) = (q.id ≡ p.id) × (q.created_at ≡ p.created_at) × (q.created_by ≡ p.created_by)

-- The person `p` is registered under its ID.
abbrev pub Registered : Person → Database → Type 0
Registered p d = IsSame p (select_first (Persons.with_id p.id) d.persons.rows)

IsSame-insert :
    (p q : Person) (seq : ℕ) (rows : List Person)
    → Falls (λ (x : Person). x.id) (suc seq) rows
    → q.id ≡ suc seq
    → IsSame p (select_first (Persons.with_id p.id) rows)
    → IsSame p (select_first (Persons.with_id p.id) (q ∷ rows))
unfolding select_first
IsSame-insert p q seq rows falls new reg =
    elim (Option-cases (select_first (Persons.with_id p.id) rows)) [
      | inl missing ↦ absurd (rw missing at reg)
      | inr (r, found) ↦ ground (
        arith,
        select_first-below (λ (x : Person). x.id) (Persons.with_id p.id) (suc seq) rows r falls
            found,
      )
    ]

IsSame-set_name :
    (p : Person) (id : ℕ) (name by now : Text) (rows : List Person)
    → IsSame p (select_first (Persons.with_id p.id) rows)
    → IsSame p (
        select_first
          (Persons.with_id p.id)
          (update_where (Persons.with_id id) (set_name name by now) rows))
IsSame-set_name p id name by now rows reg =
    elim (Option-cases (select_first (Persons.with_id p.id) rows)) [
      | inl missing ↦ absurd (rw missing at reg)
      | inr (r, found) ↦
          let same : IsSame p (some r) = rw found at reg in
          rw
            (select_first-update_where (Persons.with_id p.id) (Persons.with_id id)
              (set_name name by now) (λ _ _. refl) rows r found)
            (elim (Bool-cases (Persons.with_id id r)) [
              | inl hit ↦ rw hit same
              | inr miss ↦ rw miss same
            ])
    ]

-- A registered person stays so, under the same ID and with the same origin.
pub apply-Registered :
    (p : Person) (t : Times) (r : Request) (d : Database)
    → HasIds d
    → Registered p d
    → Registered p (apply t r d)
unfolding apply logged insert_row Persons.create_person Persons.rename_person Systems.create_system
    Systems.rename_system Systems.disable_system Systems.enable_system
    Associations.create_association Associations.remove_association Stewards.promote_steward
    Stewards.demote_steward Stewards.cancel_steward_invite Stewards.claim_pending_steward
    Tenant.bootstrap
apply-Registered p t (create_person a name) d h reg = ground (
  arith,
  IsSame-insert p (new_person (trim_space name) a.upn t.now (suc d.persons.seq)) d.persons.seq
      d.persons.rows h.persons refl,
)
apply-Registered p t (rename_person a id name) d h reg =
    ground (arith, IsSame-set_name p id (trim_space name) a.upn t.now d.persons.rows reg)
apply-Registered p t (create_system a name) d h reg = ground arith
apply-Registered p t (rename_system a id name) d h reg = ground arith
apply-Registered p t (disable_system a id) d h reg = ground arith
apply-Registered p t (enable_system a id) d h reg = ground arith
apply-Registered p t (create_association a q s foreign_id) d h reg = ground arith
apply-Registered p t (remove_association a q id) d h reg = ground arith
apply-Registered p t (promote_steward a upn) d h reg = ground arith
apply-Registered p t (demote_steward a id) d h reg = ground arith
apply-Registered p t (cancel_steward_invite a id) d h reg = ground arith
apply-Registered p t (claim_pending_steward a) d h reg = ground arith
apply-Registered p t (bootstrap c) d h reg = ground arith
