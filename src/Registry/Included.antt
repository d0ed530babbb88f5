-- ===== src/Registry/Included.antt =====
-- The registry: a person or a system that is registered stays so.
use xensus.Base.{
  ℕ, ◌≡◌, refl, Bool, true, List, ◌∷◌, Option, some, none, arith, Option-cases, Bool-cases, inl,
  inr, trim_space, suc,
}
use xensus.Sql.{insert_row, select_first, update_where}
use xensus.Sql.Laws.{select_first-update_where}
use xensus.Store.Schema.{Database}
use xensus.Store.Persons.{set_name, new_person}
use xensus.Store.Systems as Columns
use xensus.Registry.Change.{logged}
use xensus.Registry.Persons
use xensus.Registry.Systems
use xensus.Registry.Associations
use xensus.Registry.Stewards
use xensus.Registry.Tenant
use xensus.Registry.Requests.{
  Request, create_person, rename_person, create_system, rename_system, disable_system,
  enable_system, create_association, remove_association, promote_steward, demote_steward,
  cancel_steward_invite, claim_pending_steward, bootstrap, Times, apply,
}

abbrev pub IsFound : {R : Type 0} → Option R → Type 0
IsFound none = ⊥
IsFound (some r) = Unit

abbrev pub HasPerson : Database → ℕ → Type 0
HasPerson d id = IsFound (select_first (Persons.with_id id) d.persons.rows)

abbrev pub HasSystem : Database → ℕ → Type 0
HasSystem d id = IsFound (select_first (Systems.with_id id) d.systems.rows)

-- Finding a row survives a new row.
IsFound-insert :
    {R : Type 0} (test : R → Bool) (r : R) (rs : List R)
    → IsFound (select_first test rs)
    → IsFound (select_first test (r ∷ rs))
unfolding select_first
IsFound-insert test r rs h = elim (Bool-cases (test r)) [
  | inl hit ↦ rw hit tt
  | inr miss ↦ rw miss h
]

-- And an update that does not change which rows are looked for.
IsFound-update_where :
    {R : Type 0} (test hit : R → Bool) (set : R → R)
    → ((r : R) → hit r ≡ true → test (set r) ≡ test r)
    → (rs : List R) → IsFound (select_first test rs)
    → IsFound (select_first test (update_where hit set rs))
IsFound-update_where test hit set same rs h = elim (Option-cases (select_first test rs)) [
  | inl missing ↦ absurd (rw missing at h)
  | inr (r, found) ↦ rw (select_first-update_where test hit set same rs r found) tt
]

-- The persons and systems of `d` are also in `d'`.
pub record Includes (d d' : Database) : Type 0 where
  pub persons : (id : ℕ) → HasPerson d id → HasPerson d' id
  pub systems : (id : ℕ) → HasSystem d id → HasSystem d' id

pub apply-Includes : (t : Times) (r : Request) (d : Database) → Includes d (apply t r d)
unfolding apply logged insert_row Persons.create_person Persons.rename_person Systems.create_system
    Systems.rename_system Systems.disable_system Systems.enable_system
    Associations.create_association Associations.remove_association Stewards.promote_steward
    Stewards.demote_steward Stewards.cancel_steward_invite Stewards.claim_pending_steward
    Tenant.bootstrap
apply-Includes t (create_person a name) d = record {
  persons = λ i h. ground (
    arith,
    h,
    IsFound-insert (Persons.with_id i)
        (new_person (trim_space name) a.upn t.now (suc d.persons.seq)) d.persons.rows h,
  );
  systems = λ i h. ground (arith, h);
}
apply-Includes t (rename_person a id name) d = record {
  persons = λ i h. ground (
    arith,
    h,
    IsFound-update_where (Persons.with_id i) (Persons.with_id id)
        (set_name (trim_space name) a.upn t.now) (λ _ _. refl) d.persons.rows h,
  );
  systems = λ i h. ground (arith, h);
}
apply-Includes t (create_system a name) d = record {
  persons = λ i h. ground (arith, h);
  systems = λ i h. ground (
    arith,
    h,
    IsFound-insert (Systems.with_id i)
        (Columns.new_system (trim_space name) a.upn t.now (suc d.systems.seq)) d.systems.rows h,
  );
}
apply-Includes t (rename_system a id name) d = record {
  persons = λ i h. ground (arith, h);
  systems = λ i h. ground (
    arith,
    h,
    IsFound-update_where (Systems.with_id i) (Columns.is_active id)
        (Columns.set_name (trim_space name) a.upn t.now) (λ _ _. refl) d.systems.rows h,
  );
}
apply-Includes t (disable_system a id) d = record {
  persons = λ i h. ground (arith, h);
  systems = λ i h. ground (
    arith,
    h,
    IsFound-update_where (Systems.with_id i) (Columns.is_active id)
        (Columns.set_disabled a.upn t.now) (λ _ _. refl) d.systems.rows h,
  );
}
apply-Includes t (enable_system a id) d = record {
  persons = λ i h. ground (arith, h);
  systems = λ i h. ground (
    arith,
    h,
    IsFound-update_where (Systems.with_id i) (Columns.is_inactive id) (Columns.set_enabled t.now)
        (λ _ _. refl) d.systems.rows h,
  );
}
apply-Includes t (create_association a p s foreign_id) d = record {
  persons = λ i h. ground (arith, h);
  systems = λ i h. ground (arith, h);
}
apply-Includes t (remove_association a p id) d = record {
  persons = λ i h. ground (arith, h);
  systems = λ i h. ground (arith, h);
}
apply-Includes t (promote_steward a upn) d = record {
  persons = λ i h. ground (arith, h);
  systems = λ i h. ground (arith, h);
}
apply-Includes t (demote_steward a id) d = record {
  persons = λ i h. ground (arith, h);
  systems = λ i h. ground (arith, h);
}
apply-Includes t (cancel_steward_invite a id) d = record {
  persons = λ i h. ground (arith, h);
  systems = λ i h. ground (arith, h);
}
apply-Includes t (claim_pending_steward a) d = record {
  persons = λ i h. ground (arith, h);
  systems = λ i h. ground (arith, h);
}
apply-Includes t (bootstrap c) d = record {
  persons = λ i h. ground (arith, h);
  systems = λ i h. ground (arith, h);
}
