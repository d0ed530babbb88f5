-- ===== src/Store/Listed.antt =====
-- store/*.go: what the queries that return many rows find.
use xensus.Base.{
  ℕ, zero, suc, ℤ, pos, negsuc, ◌≤◌, ◌<◌, ◌≡◌, refl, ap, ◌⊎◌, inl, inr, Bool, true, false, ◌&&◌,
  ◌||◌, List, [], ◌∷◌, Text, trim_space, is_empty, length, Bool-cases, arith,
}
use xensus.Sql.{select_where}
use xensus.Sql.Order.{
  text_lt, nocase_lt, by_number, order_by, limit, IsOrder, by_then-IsOrder, by_number-IsOrder,
  desc-IsOrder, text_lt-IsWeak, nocase_lt-IsWeak,
}
use xensus.Sql.Selected.{IsListing, order_by-IsListing, length-limit_le}
use xensus.Sql.Like.{contains, like_query-contains}
use xensus.Store.Schema.{Person, SystemRow, AuditLogRow, Database}
use xensus.Store.Session.{Session, Result, ok, err, driver_failure, query_row}
use xensus.Store.Systems.{scan_system, is_null}
use xensus.Store.Listings.{query_rows, scan_all, by_name, searched, list_persons, list_systems}
use xensus.Store.Audit.{
  AuditQuery, meets, newest_first, scan_audit_event, audit_limit, max_audit_limit, list_audit,
}

-- A read that changes nothing: it fails with the driver, or its result is the one given.
abbrev pub Reads : {A : Type 0} → Session → Result A × Session → A → Type 0
Reads s (r, s') a =
    (s'.committed ≡ s.committed)
    × (s'.working ≡ s.working)
    × (((s.driver.fails s.tick ≡ true) × (r ≡ err driver_failure))
        ⊎ ((s.driver.fails s.tick ≡ false) × (r ≡ ok a)))

pub query_rows-Reads :
    {A : Type 0} (f : Database → A) (s : Session) → Reads s (query_rows f s) (f s.committed)
unfolding query_row
query_rows-Reads f s = elim (Bool-cases (s.driver.fails s.tick)) [
  | inl failed ↦ rw failed (refl, refl, inl (refl, refl))
  | inr works ↦ rw works (refl, refl, inr (refl, refl))
]

pub select_where-ext {ℓ} :
    {R : Type ℓ} (f g : R → Bool) (rs : List R)
    → ((r : R) → f r ≡ g r)
    → select_where f rs ≡ select_where g rs
unfolding select_where
select_where-ext f g [] same = refl
select_where-ext f g (r ∷ rs) same = rw (same r, select_where-ext f g rs same) refl

pub by_name-IsOrder {ℓ} : {R : Type ℓ} (name : R → Text) (id : R → ℕ) → IsOrder (by_name name id)
by_name-IsOrder name id =
    by_then-IsOrder nocase_lt name (by_number id) nocase_lt-IsWeak (by_number-IsOrder id)

-- What a search looks for: anything, or the query without the spaces around it, the case of ASCII letters
-- aside.
abbrev pub sought : Text → Text → Bool
sought query name = is_empty (trim_space query) || contains (trim_space query) name

searched-sought : (query name : Text) → searched query name ≡ sought query name
searched-sought query name = elim (Bool-cases (is_empty (trim_space query))) [
  | inl blank ↦ rw blank refl
  | inr given ↦ rw given (like_query-contains (trim_space query) name)
]

-- Unless the driver fails, `ListPersons` returns the persons of the database whose names are sought, each
-- as often as it is there, in the order of their names, the case of ASCII letters aside, and IDs; and it
-- changes nothing.
pub list_persons-Finds :
    (query : Text) (s : Session)
    → (rows : List Person) × Reads s (list_persons query s) rows
      × IsListing
          (λ (p : Person). sought query p.name)
          (by_name (λ (p : Person). p.name) (λ p. p.id))
          s.committed.persons.rows
          rows
unfolding list_persons
list_persons-Finds query s =
    let before = by_name (λ (p : Person). p.name) (λ p. p.id) in
    let same =
      select_where-ext (λ (p : Person). searched query p.name) (λ p. sought query p.name)
        s.committed.persons.rows (λ p. searched-sought query p.name) in
    (
      order_by before (select_where (λ p. searched query p.name) s.committed.persons.rows),
      query_rows-Reads
          (λ d.
            order_by before (select_where (λ (p : Person). searched query p.name) d.persons.rows))
          s,
      rw same (
          order_by-IsListing (λ p. sought query p.name) before s.committed.persons.rows
            (by_name-IsOrder (λ (p : Person). p.name) (λ p. p.id))),
    )

-- Unless the driver fails, `ListSystems` returns the systems of the database that are not disabled and
-- whose names are sought, each as often as it is there, in the order of their names, the case of ASCII
-- letters aside, and IDs; and it changes nothing.
pub list_systems-Finds :
    (query : Text) (s : Session)
    → (rows : List SystemRow) × Reads s (list_systems query s) (scan_all scan_system rows)
      × IsListing
          (λ (r : SystemRow). is_null r.disabled_at && sought query r.name)
          (by_name (λ (r : SystemRow). r.name) (λ r. r.id))
          s.committed.systems.rows
          rows
unfolding list_systems
list_systems-Finds query s =
    let before = by_name (λ (r : SystemRow). r.name) (λ r. r.id) in
    let test : SystemRow → Bool = λ r. is_null r.disabled_at && searched query r.name in
    let same =
      select_where-ext test (λ r. is_null r.disabled_at && sought query r.name)
        s.committed.systems.rows
        (λ r. ap (is_null r.disabled_at &&◌) (searched-sought query r.name)) in
    (
      order_by before (select_where test s.committed.systems.rows),
      query_rows-Reads
          (λ d. scan_all scan_system (order_by before (select_where test d.systems.rows))) s,
      rw same (
          order_by-IsListing (λ r. is_null r.disabled_at && sought query r.name) before
            s.committed.systems.rows (by_name-IsOrder (λ (r : SystemRow). r.name) (λ r. r.id))),
    )

pub length-scan_all :
    {R A : Type 0} (scan : R → A) (rs : List R) → length (scan_all scan rs) ≡ length rs
unfolding scan_all
length-scan_all scan [] = refl
length-scan_all scan (r ∷ rs) = ap suc (length-scan_all scan rs)

audit_limit-bounds : (n : ℤ) → (0 < audit_limit n) × (audit_limit n ≤ max_audit_limit)
unfolding audit_limit
audit_limit-bounds (pos zero) = (omega arith, omega arith)
audit_limit-bounds (pos (suc n)) = ground arith
audit_limit-bounds (negsuc n) = (omega arith, omega arith)

pub newest_first-IsOrder : IsOrder newest_first
newest_first-IsOrder = desc-IsOrder _ (
    by_then-IsOrder text_lt (λ (r : AuditLogRow). r.occurred_at) (by_number (λ r. r.id))
      text_lt-IsWeak (by_number-IsOrder (λ r. r.id)))

-- Unless the driver fails, `ListAudit` returns the first of the rows that meet the query, latest texts of
-- `occurred_at` first and then highest IDs, as many as the limit of the query allows: a limit that is positive,
-- and at most 5000; and it changes nothing.
pub list_audit-IsBounded :
    (q : AuditQuery) (s : Session)
    → (all : List AuditLogRow) × IsListing (meets q) newest_first s.committed.audit_log.rows all
      × Reads s (list_audit q s) (scan_all scan_audit_event (limit (audit_limit q.limit) all))
      × (0 < audit_limit q.limit)
      × (length (scan_all scan_audit_event (limit (audit_limit q.limit) all)) ≤ max_audit_limit)
unfolding list_audit
list_audit-IsBounded q s =
    let all = order_by newest_first (select_where (meets q) s.committed.audit_log.rows) in
    let bounds = audit_limit-bounds q.limit in
    (
      all,
      order_by-IsListing (meets q) newest_first s.committed.audit_log.rows newest_first-IsOrder,
      query_rows-Reads
          (λ d. scan_all scan_audit_event (
            limit (audit_limit q.limit)
              (order_by newest_first (select_where (meets q) d.audit_log.rows))))
          s,
      bounds.0,
      omega (
        arith,
        length-scan_all scan_audit_event (limit (audit_limit q.limit) all),
        length-limit_le (audit_limit q.limit) all,
        bounds.1,
      ),
    )
