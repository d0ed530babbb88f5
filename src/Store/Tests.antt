-- ===== src/Store/Tests.antt =====
-- Concrete listings and days.
use xensus.Base.{
  ◌++◌, ℕ, pos, negsuc, ◌<◌, ◌≤◌, ◌≡◌, refl, inl, true, false, not, ◌&&◌, Option, none, some, List,
  [], ◌∷◌, Text, codes, length, trim_space, lower_char, text_eq, arith,
}
use xensus.Sql.Order.{text_lt, insert, order_by, limit}
use xensus.Sql.Like.{
  tokens, matches, some_end, escape_like, like_query, contains, like_query-contains,
}
use xensus.Sql.Selected.{IsListing}
use xensus.Store.Schema.{Person, SystemRow, AuditLogRow}
use xensus.Store.Session.{Session}
use xensus.Store.Systems.{scan_system, is_null}
use xensus.Store.Listings.{scan_all, by_name, list_persons, list_systems}
use xensus.Store.Days.{Day, day_upper_bound, parse_day, next_day, format_day, all_digits}
use xensus.Store.DayOrder.{day_lt}
use xensus.Store.DayBounds.{meets-Inclusive}
use xensus.Store.Audit.{
  AuditQuery, meets, newest_first, scan_audit_event, audit_limit, max_audit_limit, list_audit,
}
use xensus.Store.Listed.{
  Reads, sought, list_persons-Finds, list_systems-Finds, list_audit-IsBounded,
}
use xensus.Store.Migrations.{
  Engine, name_version, collect, current_schema_version, apply_all, run_migrations,
}
use xensus.Store.Opening.{Platform, Opens, open_database, open_database-Upgrades}
use xensus.Core.TestData.{book, steady, at_rest}

abbrev steady_book : Session
steady_book = at_rest steady book

list_persons-Finds_example :
    (rows : List Person) × Reads steady_book (list_persons (codes " aD ") steady_book) rows
    × IsListing
        (λ (p : Person). sought (codes " aD ") p.name)
        (by_name (λ (p : Person). p.name) (λ p. p.id))
        book.persons.rows
        rows
list_persons-Finds_example = list_persons-Finds (codes " aD ") steady_book

list_systems-Finds_example :
    (rows : List SystemRow) × Reads steady_book
      (list_systems [] steady_book)
      (scan_all scan_system rows)
    × IsListing
        (λ (r : SystemRow). is_null r.disabled_at && sought [] r.name)
        (by_name (λ (r : SystemRow). r.name) (λ r. r.id))
        book.systems.rows
        rows
list_systems-Finds_example = list_systems-Finds [] steady_book

like_percent : like_query (codes "%") (codes "ada") ≡ false
unfolding like_query tokens matches some_end escape_like lower_char
like_percent = refl

like_query-contains_example :
    like_query (codes "D%") (codes "add%") ≡ contains (codes "D%") (codes "add%")
like_query-contains_example = like_query-contains (codes "D%") (codes "add%")

abbrev first_week : AuditQuery
first_week = record {
  entity_type = [];
  entity_id = pos 0;
  actor = codes " ";
  from = codes "2026-01-01";
  to = codes "2026-01-07";
  limit = negsuc 0;
}

abbrev entry : AuditLogRow
entry = record {
  id = 1;
  occurred_at = codes "2026-01-07T23:59:59.5Z";
  actor_oid = codes "oid-alice";
  actor_upn = codes "alice@example.com";
  action = codes "created";
  entity_type = codes "person";
  entity_id = some 1;
  details = none;
}

abbrev new_year : Day
new_year = record { year = 2026; month = 1; day = 1 }

abbrev seventh : Day
seventh = record { year = 2026; month = 1; day = 7 }

from_read : parse_day (trim_space first_week.from) ≡ some new_year
unfolding parse_day trim_space all_digits
from_read = refl

to_read : parse_day (trim_space first_week.to) ≡ some seventh
unfolding parse_day trim_space all_digits
to_read = refl

actor_blank : trim_space first_week.actor ≡ []
unfolding trim_space
actor_blank = refl

type_blank : trim_space first_week.entity_type ≡ []
unfolding trim_space
type_blank = refl

meets-Inclusive_example :
    meets first_week entry ≡ (not (day_lt seventh new_year) && not (day_lt seventh seventh))
meets-Inclusive_example =
    meets-Inclusive first_week entry new_year seventh seventh (codes "T23:59:59.5Z")
      (rw type_blank refl) (rw actor_blank refl) from_read to_read (inl (omega arith)) refl refl

list_audit-IsBounded_example :
    (all : List AuditLogRow) × IsListing (meets first_week) newest_first book.audit_log.rows all
    × Reads steady_book
        (list_audit first_week steady_book)
        (scan_all scan_audit_event (limit (audit_limit first_week.limit) all))
    × (0 < audit_limit first_week.limit)
    × (length (scan_all scan_audit_event (limit (audit_limit first_week.limit) all))
        ≤ max_audit_limit)
list_audit-IsBounded_example = list_audit-IsBounded first_week steady_book

-- The day after the last one of the year 9999 sorts before every day of this century.
last_day : day_upper_bound (codes "9999-12-31") ≡ codes "10000-01-01"
unfolding day_upper_bound parse_day trim_space all_digits next_day format_day
last_day = refl

last_day_hides : text_lt (codes "2026-01-07T23:59:59Z") (codes "10000-01-01") ≡ false
unfolding text_lt
last_day_hides = refl

-- The later of two times has the smaller text, where the earlier one lost its trailing zeros.
trimmed_zeros : text_lt (codes "2026-01-07T00:00:00.51Z") (codes "2026-01-07T00:00:00.5Z") ≡ true
unfolding text_lt
trimmed_zeros = refl

-- A disk that only holds the version, once the table is there.
abbrev configured : Option ℕ → Option ℕ
configured none = some 0
configured (some v) = some v

abbrev count_of : Option ℕ → Option ℕ
count_of none = some 0
count_of (some v) = some 1

abbrev small_engine : Engine
small_engine = record {
  Disk = Option ℕ;
  run_script = λ _ d. (true, configured d);
  record_version = λ v d. (true, some v);
  count_config = count_of;
  read_version = λ d. d;
}

abbrev files : Option (List (Text × Option Text))
files = some ((codes "README.md", none) ∷ (codes "0001_initial.sql", some (codes "CREATE")) ∷ [])

first_start : run_migrations small_engine files none ≡ (true, some 1)
unfolding run_migrations collect name_version all_digits current_schema_version order_by insert
    apply_all text_eq
first_start = refl

abbrev platform : Platform small_engine
platform = record {
  mkdir_all = λ path. true;
  join = λ dir name. dir ++ codes "/" ++ name;
  sql_open = λ name. some none;
  ping = λ d. true;
}

open_database-Upgrades_example :
    Opens small_engine files platform
      (codes "/data")
      (open_database small_engine files platform (codes "/data"))
open_database-Upgrades_example = open_database-Upgrades small_engine files platform (codes "/data")

opens :
    open_database small_engine files platform (codes "/data")
    ≡ record { failure = none; is_open = true; disk = some (some 1) }
unfolding open_database
opens = rw first_start refl
