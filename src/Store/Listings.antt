-- ===== src/Store/Listings.antt =====
-- store/*.go: the queries that return many rows. One failure stands for those of the query, of a scan
-- and of the iteration. Where an ORDER BY leaves rows tied, SQLite promises no order.
use xensus.Base.{
  ℕ, Bool, true, not, ◌&&◌, ◌||◌, ◌+◌, ltb, leb, ◌++◌, ◌==◌, List, [], ◌∷◌, Text, trim_space,
  is_empty, if◌then◌else◌,
}
use xensus.Sql.{select_where, count_where}
use xensus.Sql.Order.{text_lt, nocase_lt, by_then, by_number, order_by}
use xensus.Sql.Like.{like_query}
use xensus.Store.Schema.{Person, SystemRow, AssociationRow, StewardRow, PendingSteward, Database}
use xensus.Store.Session.{Action, ok, db, query_row}
use xensus.Store.Systems.{System, scan_system, null_string, is_null}
use xensus.Store.Associations.{Association, scan_association}
use xensus.Store.Stewards.{Steward, scan_steward}

-- `db.QueryContext` with the loop over its rows
abbrev pub query_rows : {A : Type 0} → (Database → A) → Action A
query_rows f = query_row db λ d. ok (f d)

-- `rows.Scan` of each row
unfoldable pub scan_all : {R A : Type 0} → (R → A) → List R → List A
scan_all scan [] = []
scan_all scan (r ∷ rs) = scan r ∷ scan_all scan rs

-- `ORDER BY name COLLATE NOCASE, id`
abbrev pub by_name {ℓ} : {R : Type ℓ} → (R → Text) → (R → ℕ) → R → R → Bool
by_name name id = by_then nocase_lt name (by_number id)

-- The condition of a search, when there is one.
abbrev pub searched : Text → Text → Bool
searched query name =
    if is_empty (trim_space query) then true else like_query (trim_space query) name

-- `ListPersons`
unfoldable pub list_persons : Text → Action (List Person)
list_persons query = query_rows λ d.
    order_by (by_name (λ (p : Person). p.name) (λ p. p.id))
      (select_where (λ p. searched query p.name) d.persons.rows)

-- `ListSystems`
unfoldable pub list_systems : Text → Action (List System)
list_systems query = query_rows λ d. scan_all scan_system (
    order_by (by_name (λ (r : SystemRow). r.name) (λ r. r.id))
      (select_where (λ r. is_null r.disabled_at && searched query r.name) d.systems.rows))

-- `ORDER BY disabled_at DESC, name COLLATE NOCASE`
abbrev pub latest_disabled : SystemRow → SystemRow → Bool
latest_disabled a b =
    by_then (λ s t. text_lt t s) (λ (r : SystemRow). null_string r.disabled_at)
      (by_then nocase_lt (λ r. r.name) (λ _ _. true)) a b

-- `ListDisabledSystems`
unfoldable pub list_disabled_systems : Action (List System)
list_disabled_systems = query_rows λ d.
    scan_all scan_system
      (order_by latest_disabled (select_where (λ r. not (is_null r.disabled_at)) d.systems.rows))

-- `CountDisabledSystems`
unfoldable pub count_disabled_systems : Action ℕ
count_disabled_systems =
    query_rows λ d. count_where (λ (r : SystemRow). not (is_null r.disabled_at)) d.systems.rows

-- `ListActiveStewards`
unfoldable pub list_active_stewards : Action (List Steward)
list_active_stewards = query_rows λ d. scan_all scan_steward (
    order_by (by_name (λ (r : StewardRow). r.user_upn) (λ r. r.id))
      (select_where (λ r. is_null r.removed_at) d.stewards.rows))

-- `ListPendingStewards`
unfoldable pub list_pending_stewards : Action (List PendingSteward)
list_pending_stewards =
    query_rows λ d.
      order_by (by_name (λ (p : PendingSteward). p.user_upn) (λ p. p.id)) d.pending_stewards.rows

-- `FROM associations a JOIN systems s ON s.id = a.system_id`, all pairs
unfoldable pub pairs_with : AssociationRow → List SystemRow → List Association
pairs_with a [] = []
pairs_with a (s ∷ ss) =
    let rest = pairs_with a ss in if s.id == a.system_id then scan_association a s ∷ rest else rest

unfoldable pub joined_rows : List AssociationRow → List SystemRow → List Association
joined_rows [] ss = []
joined_rows (a ∷ rest) ss = pairs_with a ss ++ joined_rows rest ss

abbrev pub person_then_id : Association → Association → Bool
person_then_id a b = ltb a.person_id b.person_id || (a.person_id == b.person_id && leb a.id b.id)

-- `ListAllAssociations`: `ORDER BY a.person_id, a.id`
unfoldable pub list_all_associations : Action (List Association)
list_all_associations =
    query_rows λ d. order_by person_then_id (joined_rows d.associations.rows d.systems.rows)

-- `ListAssociationsForPerson`
unfoldable pub list_associations_for_person : ℕ → Action (List Association)
list_associations_for_person person_id = query_rows λ d.
    order_by (by_name (λ (a : Association). a.system_name) (λ a. a.id)) (
      select_where (λ a. a.person_id == person_id) (joined_rows d.associations.rows d.systems.rows))

-- `IsRegistryEmpty`
unfoldable pub is_registry_empty : Action Bool
is_registry_empty =
    query_rows
      λ d. count_where (λ _. true) d.persons.rows + count_where (λ _. true) d.systems.rows == 0
