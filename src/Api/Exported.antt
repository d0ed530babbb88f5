-- ===== src/Api/Exported.antt =====
-- api/export.go: the rows that the export reads, and their columns.
use xensus.Base.{
  Bool, ◌∙◌, ℕ, zero, suc, pos, ◌≡◌, refl, true, not, ◌&&◌, Option, none, some, List, [], ◌∷◌, Text,
  decimal, trim_space, trim_left, arith,
}
use xensus.Id.{format}
use xensus.Sql.{count_where, select_where}
use xensus.Sql.Order.{
  IsSorted, order_by-IsSorted, count_where-order_by, text_lt, nocase_lt, by_then, order_by, IsOrder,
  IsWeak, by_then-IsOrder, text_lt-IsWeak, nocase_lt-IsWeak,
}
use xensus.Sql.Selected.{IsListing, order_by-IsListing}
use xensus.Store.Schema.{Person, SystemRow, StewardRow, AuditLogRow, Details, Database}
use xensus.Store.Systems.{is_null, null_string}
use xensus.Store.Associations.{Association}
use xensus.Store.Listings.{by_name, searched, latest_disabled, person_then_id, joined_rows}
use xensus.Store.Listed.{select_where-ext, by_name-IsOrder, newest_first-IsOrder}
use xensus.Store.Days.{day_lower_bound, day_upper_bound, parse_day}
use xensus.Store.Audit.{newest_first, meets}
use xensus.Api.Records.{Record}
use xensus.Api.Linked.{count_links, count_where-joined_rows}
use xensus.Api.AuditLog.{everything}

-- The columns of a row of each table, as texts.
abbrev pub person_columns : Person → Record
person_columns r =
    format (pos r.id) ∷ r.name ∷ r.created_at ∷ r.created_by ∷ r.updated_at ∷ r.updated_by ∷ []

abbrev pub system_columns : SystemRow → Record
system_columns r =
    decimal r.id
    ∷ r.name
    ∷ r.created_at
    ∷ r.created_by
    ∷ r.updated_at
    ∷ r.updated_by
    ∷ null_string r.disabled_at
    ∷ null_string r.disabled_by
    ∷ []

abbrev pub association_columns : Association → Record
association_columns r =
    decimal r.id
    ∷ format (pos r.person_id)
    ∷ decimal r.system_id
    ∷ r.system_name
    ∷ r.foreign_id
    ∷ r.created_at
    ∷ r.created_by
    ∷ []

abbrev pub steward_columns : StewardRow → Record
steward_columns r = decimal r.id ∷ r.user_oid ∷ r.user_upn ∷ r.promoted_at ∷ r.promoted_by ∷ []

-- No text where there is no ID.
abbrev pub id_column : Option ℕ → Text
id_column none = []
id_column (some zero) = []
id_column (some (suc n)) = decimal (suc n)

abbrev pub details_column : (Details → Text) → Option Details → Text
details_column marshal none = []
details_column marshal (some d) = marshal d

abbrev pub event_columns : (Details → Text) → AuditLogRow → Record
event_columns marshal r =
    decimal r.id
    ∷ r.occurred_at
    ∷ r.actor_oid
    ∷ r.actor_upn
    ∷ r.action
    ∷ r.entity_type
    ∷ id_column r.entity_id
    ∷ details_column marshal r.details
    ∷ []

abbrev pub persons_of : Database → List Person
persons_of d =
    order_by (by_name (λ (p : Person). p.name) (λ p. p.id))
      (select_where (λ p. searched [] p.name) d.persons.rows)

abbrev pub active_of : Database → List SystemRow
active_of d =
    order_by (by_name (λ (r : SystemRow). r.name) (λ r. r.id))
      (select_where (λ r. is_null r.disabled_at && searched [] r.name) d.systems.rows)

abbrev pub disabled_of : Database → List SystemRow
disabled_of d =
    order_by latest_disabled (select_where (λ r. not (is_null r.disabled_at)) d.systems.rows)

abbrev pub associations_of : Database → List Association
associations_of d = order_by person_then_id (joined_rows d.associations.rows d.systems.rows)

abbrev pub stewards_of : Database → List StewardRow
stewards_of d =
    order_by (by_name (λ (r : StewardRow). r.user_upn) (λ r. r.id))
      (select_where (λ r. is_null r.removed_at) d.stewards.rows)

abbrev pub events_of : Database → List AuditLogRow
events_of d = order_by newest_first (select_where (meets everything) d.audit_log.rows)

descending-IsWeak : IsWeak (λ s t. text_lt t s)
descending-IsWeak = record {
  trans = λ s t u h k. text_lt-IsWeak.trans u t s k h;
  weak = λ s t u h. ground (arith, text_lt-IsWeak.weak t s u h);
}

latest_disabled-IsOrder : IsOrder latest_disabled
latest_disabled-IsOrder =
    by_then-IsOrder (λ s t. text_lt t s) (λ (r : SystemRow). null_string r.disabled_at)
      (by_then nocase_lt (λ r. r.name) (λ _ _. true)) descending-IsWeak
      (by_then-IsOrder nocase_lt (λ (r : SystemRow). r.name) (λ _ _. true) nocase_lt-IsWeak
        (record { total = λ _ _ _. refl; trans = λ _ _ _ _ _. refl }))

person_then_id-IsOrder : IsOrder person_then_id
person_then_id-IsOrder = record { total = λ a b h. ground arith; trans = λ a b c h k. ground arith }

module _ (d : Database) where
  pub persons_of-IsListing :
      IsListing
        (λ _. true)
        (by_name (λ (p : Person). p.name) (λ p. p.id))
        d.persons.rows
        (persons_of d)
  unfolding trim_space trim_left
  persons_of-IsListing =
      order_by-IsListing (λ _. true) (by_name (λ (p : Person). p.name) (λ p. p.id)) d.persons.rows
        (by_name-IsOrder (λ (p : Person). p.name) (λ p. p.id))

  pub active_of-IsListing :
      IsListing
        (λ r. is_null r.disabled_at)
        (by_name (λ (r : SystemRow). r.name) (λ r. r.id))
        d.systems.rows
        (active_of d)
  unfolding trim_space trim_left
  active_of-IsListing =
      let same =
        select_where-ext (λ (r : SystemRow). is_null r.disabled_at && true)
          (λ r. is_null r.disabled_at) d.systems.rows (λ r. ground arith) in
      rw same (
        order_by-IsListing (λ r. is_null r.disabled_at)
          (by_name (λ (r : SystemRow). r.name) (λ r. r.id)) d.systems.rows
          (by_name-IsOrder (λ (r : SystemRow). r.name) (λ r. r.id)))

  pub disabled_of-IsListing :
      IsListing (λ r. not (is_null r.disabled_at)) latest_disabled d.systems.rows (disabled_of d)
  disabled_of-IsListing =
      order_by-IsListing (λ r. not (is_null r.disabled_at)) latest_disabled d.systems.rows
        latest_disabled-IsOrder

  pub associations_of-IsSorted : IsSorted person_then_id (associations_of d)
  associations_of-IsSorted =
      order_by-IsSorted person_then_id (joined_rows d.associations.rows d.systems.rows)
        person_then_id-IsOrder

  pub count_where-associations_of :
      (test : Association → Bool)
      → count_where test (associations_of d) ≡ count_links test d.associations.rows d.systems.rows
  count_where-associations_of test =
      count_where-order_by person_then_id test (joined_rows d.associations.rows d.systems.rows)
      ∙ count_where-joined_rows test d.associations.rows d.systems.rows

  pub stewards_of-IsListing :
      IsListing
        (λ r. is_null r.removed_at)
        (by_name (λ (r : StewardRow). r.user_upn) (λ r. r.id))
        d.stewards.rows
        (stewards_of d)
  stewards_of-IsListing =
      order_by-IsListing (λ r. is_null r.removed_at)
        (by_name (λ (r : StewardRow). r.user_upn) (λ r. r.id)) d.stewards.rows
        (by_name-IsOrder (λ (r : StewardRow). r.user_upn) (λ r. r.id))

  pub events_of-IsListing : IsListing (λ _. true) newest_first d.audit_log.rows (events_of d)
  unfolding trim_space trim_left day_lower_bound day_upper_bound parse_day
  events_of-IsListing =
      order_by-IsListing (λ _. true) newest_first d.audit_log.rows newest_first-IsOrder
