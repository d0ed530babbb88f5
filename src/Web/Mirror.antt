-- ===== src/Web/Mirror.antt =====
-- web/*.go and api/*.go: a page and the API show the same.
use xensus.Base.{
  ℕ, suc, ◌≡◌, refl, sym, ap, false, ◌&&◌, Bool-cases, inl, inr, Option, Option-cases, List, [],
  ◌==◌, ◌∷◌, Text, is_empty, trim_space, arith,
}
use xensus.Sql.{select_first}
use xensus.Store.Schema.{Details, Person, SystemRow}
use xensus.Store.Session.{Session, query_row}
use xensus.Store.Persons as StorePersons
use xensus.Store.Systems as StoreSystems
use xensus.Store.Listings.{
  scan_all, list_persons, list_systems, list_disabled_systems, count_disabled_systems,
  list_active_stewards, list_pending_stewards, list_associations_for_person, is_registry_empty,
}
use xensus.Store.Audit.{list_audit_for_entity, list_audit, list_audit_actors, audit_limit}
use xensus.Config.{Access}
use xensus.Auth.{User}
use xensus.Id.{parse, Parsed, id, invalid}
use xensus.Api.Systems.{parse_row_id}
use xensus.Api.Gates.{Read, reader_of}
use xensus.Api.Gates
use xensus.Api.AuditLog.{audit_query_from}
use xensus.Web.Landing.{is_steward}
use xensus.Web.Rows.{Display}
use xensus.Web.Pages.{self_oid, Filter}
use xensus.Web.Visits.{PageRead, page_of}
use xensus.Web.Visits
use xensus.Web.Twins.{
  Twins, persons_twins, person_twins, links_twins, systems_twins, disabled_twins, system_twins,
  stewards_twins, audit_twins, as_params, Match,
}

scan_all-scan_all :
    {A B C : Type 0} (f : B → C) (g : A → B) (xs : List A)
    → scan_all f (scan_all g xs) ≡ scan_all (λ x. f (g x)) xs
unfolding scan_all
scan_all-scan_all f g [] = refl
scan_all-scan_all f g (x ∷ xs) = ap (λ ys. f (g x) ∷ ys) (scan_all-scan_all f g xs)

disabled-Match :
    (w : Display) (access : Access) (marshal : Details → Text) (user : Option User) (s : Session)
    → ((n : ℕ) → s.driver.fails n ≡ false)
    → Match w
        (self_oid user)
        (reader_of marshal Gates.get_systems_disabled user s).0
        (page_of w access Visits.get_disabled_systems user s).0
unfolding list_disabled_systems query_row
disabled-Match w access marshal user s works =
    rw (works s.tick) (inr (_, _, refl, refl, sym (scan_all-scan_all _ _ _)))

systems-Match :
    (w : Display) (access : Access) (marshal : Details → Text) (q : Text) (user : Option User)
    (s : Session)
    → ((n : ℕ) → s.driver.fails n ≡ false)
    → Match w
        (self_oid user)
        (reader_of marshal (Gates.get_systems q) user s).0
        (page_of w access (Visits.get_systems q) user s).0
unfolding list_systems count_disabled_systems query_row
systems-Match w access marshal q user s works =
    rw (works s.tick, works (suc s.tick)) (inr (_, _, refl, refl, sym (scan_all-scan_all _ _ _)))

stewards-Match :
    (w : Display) (access : Access) (marshal : Details → Text) (user : Option User) (s : Session)
    → ((n : ℕ) → s.driver.fails n ≡ false)
    → Match w
        (self_oid user)
        (reader_of marshal Gates.get_stewards user s).0
        (page_of w access Visits.get_stewards user s).0
unfolding list_active_stewards list_pending_stewards query_row
stewards-Match w access marshal user s works =
    rw (works s.tick, works (suc s.tick))
      (inr (_, _, refl, refl, (sym (scan_all-scan_all _ _ _), sym (scan_all-scan_all _ _ _))))

persons-Match :
    (w : Display) (access : Access) (marshal : Details → Text) (q : Text) (user : Option User)
    (s : Session)
    → ((n : ℕ) → s.driver.fails n ≡ false)
    → Match w
        (self_oid user)
        (reader_of marshal (Gates.get_persons q) user s).0
        (page_of w access (Visits.get_persons q) user s).0
unfolding list_persons is_registry_empty query_row
persons-Match w access marshal q user s works = elim (Bool-cases (is_steward user && is_empty q)) [
  | inl asks ↦
      rw (asks, works s.tick, works (suc s.tick))
        (inr (_, _, refl, refl, sym (scan_all-scan_all _ _ _)))
  | inr not_asked ↦
      rw (not_asked, works s.tick) (inr (_, _, refl, refl, sym (scan_all-scan_all _ _ _)))
]

audit-Match :
    (w : Display) (access : Access) (marshal : Details → Text) (q : Filter) (user : Option User)
    (s : Session)
    → ((n : ℕ) → s.driver.fails n ≡ false)
    → Match w
        (self_oid user)
        (reader_of marshal (Gates.get_audit (as_params q)) user s).0
        (page_of w access (Visits.get_audit q) user s).0
unfolding list_audit list_audit_actors audit_query_from audit_limit query_row trim_space
audit-Match w access marshal q user s works =
    rw (works s.tick, works (suc s.tick)) (inr (_, _, refl, refl, sym (scan_all-scan_all _ _ _)))

person_found-Match :
    (w : Display) (access : Access) (marshal : Details → Text) (path : Text) (user : Option User)
    (s : Session) (n : ℕ)
    → ((n : ℕ) → s.driver.fails n ≡ false)
    → parse path ≡ id n
    → Match w
        (self_oid user)
        (reader_of marshal (Gates.get_person path) user s).0
        (page_of w access (Visits.get_person path) user s).0
      × Match w
          (self_oid user)
          (reader_of marshal (Gates.get_person_associations path) user s).0
          (page_of w access (Visits.get_person path) user s).0
unfolding StorePersons.get_person list_associations_for_person list_systems list_audit_for_entity
    query_row
person_found-Match w access marshal path user s n works parsed =
    let n1 = suc s.tick in
    elim (Option-cases (select_first (λ (p : Person). p.id == n) s.committed.persons.rows)) [
      | inl nobody ↦
          rw (parsed, works s.tick, nobody) (inl (omega arith, refl), inl (omega arith, refl))
      | inr (p, found) ↦
          rw (parsed, works s.tick, found, works n1, works (suc n1), works (suc (suc n1)))
            (inr (_, _, refl, refl, refl), inr (_, _, refl, refl, sym (scan_all-scan_all _ _ _)))
    ]

person-Match :
    (w : Display) (access : Access) (marshal : Details → Text) (path : Text) (user : Option User)
    (s : Session) (x : Parsed)
    → ((n : ℕ) → s.driver.fails n ≡ false)
    → parse path ≡ x
    → Match w
        (self_oid user)
        (reader_of marshal (Gates.get_person path) user s).0
        (page_of w access (Visits.get_person path) user s).0
      × Match w
          (self_oid user)
          (reader_of marshal (Gates.get_person_associations path) user s).0
          (page_of w access (Visits.get_person path) user s).0
person-Match w access marshal path user s (id n) works parsed =
    person_found-Match w access marshal path user s n works parsed
person-Match w access marshal path user s (invalid e) works parsed =
    rw parsed (inl (omega arith, refl), inl (omega arith, refl))

system-Match :
    (w : Display) (access : Access) (marshal : Details → Text) (path : Text) (user : Option User)
    (s : Session)
    → ((n : ℕ) → s.driver.fails n ≡ false)
    → Match w
        (self_oid user)
        (reader_of marshal (Gates.get_system path) user s).0
        (page_of w access (Visits.get_system path) user s).0
unfolding StoreSystems.get_system list_audit_for_entity query_row
system-Match w access marshal path user s works = elim (Option-cases (parse_row_id path)) [
  | inl bad ↦ rw bad (inl (omega arith, refl))
  | inr (n, parsed) ↦
      elim (Option-cases (select_first (λ (r : SystemRow). r.id == n) s.committed.systems.rows)) [
        | inl nothing ↦ rw (parsed, works s.tick, nothing) (inl (omega arith, refl))
        | inr (r, found) ↦
            rw (parsed, works s.tick, found, works (suc s.tick)) (inr (_, _, refl, refl, refl))
      ]
]

-- Where no call of the driver fails, a page beside a route of the API that reads the same: the API
-- answers an error and the page is missing, or the page is the rendering of a view whose rows are
-- the API's, one for one and in the same order.
pub page_of-Mirrors :
    (w : Display) (access : Access) (marshal : Details → Text) (p : PageRead) (r : Read)
    (user : Option User) (s : Session)
    → ((n : ℕ) → s.driver.fails n ≡ false)
    → Twins p r
    → Match w (self_oid user) (reader_of marshal r user s).0 (page_of w access p user s).0
page_of-Mirrors w access marshal p r user s works (persons_twins q) =
    persons-Match w access marshal q user s works
page_of-Mirrors w access marshal p r user s works (person_twins path) =
    (person-Match w access marshal path user s (parse path) works refl).0
page_of-Mirrors w access marshal p r user s works (links_twins path) =
    (person-Match w access marshal path user s (parse path) works refl).1
page_of-Mirrors w access marshal p r user s works (systems_twins q) =
    systems-Match w access marshal q user s works
page_of-Mirrors w access marshal p r user s works disabled_twins =
    disabled-Match w access marshal user s works
page_of-Mirrors w access marshal p r user s works (system_twins path) =
    system-Match w access marshal path user s works
page_of-Mirrors w access marshal p r user s works stewards_twins =
    stewards-Match w access marshal user s works
page_of-Mirrors w access marshal p r user s works (audit_twins q) =
    audit-Match w access marshal q user s works
