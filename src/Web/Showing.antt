-- ===== src/Web/Showing.antt =====
-- web/*.go: a page that shows changes nothing.
use xensus.Base.{
  ℕ, refl, Bool, false, ◌&&◌, Bool-cases, inl, inr, Option, none, some, Text, is_empty,
}
use xensus.Store.Schema.{Database}
use xensus.Store.Session.{Session, Result, ok, err, no_rows, db, query_row}
use xensus.Store.Persons as StorePersons
use xensus.Store.Systems as StoreSystems
use xensus.Store.Listings.{
  query_rows, list_persons, list_systems, list_disabled_systems, count_disabled_systems,
  list_active_stewards, list_pending_stewards, list_associations_for_person, is_registry_empty,
}
use xensus.Store.Audit.{list_audit_for_entity, list_audit, list_audit_actors}
use xensus.Config.{Access}
use xensus.Id.{parse, Parsed, id, invalid}
use xensus.Auth.{User}
use xensus.Auth.Known.{Same}
use xensus.Api.Systems.{parse_row_id}
use xensus.Api.Reading.{query_row-Queries, Same-trans}
use xensus.Web.Page.{PageHandler, with_person, with_row}
use xensus.Web.Landing.{is_steward}
use xensus.Web.Rows.{Display}
use xensus.Web.Pages.{after, reading, after_row, reading_row, welcome}
use xensus.Web.Visits.{
  PageRead, get_root, get_disabled_systems, get_stewards, get_persons, get_person, get_systems,
  get_system, get_audit, page_of,
}

abbrev pub Keeps : PageHandler → Type 0
Keeps h = (s : Session) → Same s (h s).1

after-Keeps :
    {A : Type 0} (next : A → PageHandler) (s : Session) (x : Result A × Session)
    → Same s x.1
    → ((a : A) → Keeps (next a))
    → Same s (after next x).1
after-Keeps next s (ok a, t) h k = Same-trans s t (next a t).1 h (k a t)
after-Keeps next s (err e, t) h k = h

after_row-Keeps :
    {A : Type 0} (next : A → PageHandler) (s : Session) (x : Result A × Session)
    → Same s x.1
    → ((a : A) → Keeps (next a))
    → Same s (after_row next x).1
after_row-Keeps next s (ok a, t) h k = Same-trans s t (next a t).1 h (k a t)
after_row-Keeps next s (err no_rows, t) h k = h
after_row-Keeps next s (err e, t) h k = h

reading-Keeps :
    {A : Type 0} (f : Database → A) (next : A → PageHandler)
    → ((a : A) → Keeps (next a))
    → Keeps (reading (query_rows f) next)
reading-Keeps f next k s =
    after-Keeps next s (query_rows f s) (query_row-Queries (λ d. ok (f d)) s) k

reading_row-Keeps :
    {A : Type 0} (f : Database → Result A) (next : A → PageHandler)
    → ((a : A) → Keeps (next a))
    → Keeps (reading_row (query_row db f) next)
reading_row-Keeps f next k s = after_row-Keeps next s (query_row db f s) (query_row-Queries f s) k

with_person-Keeps :
    (p : Parsed) (next : ℕ → PageHandler) → ((n : ℕ) → Keeps (next n)) → Keeps (with_person p next)
with_person-Keeps (id n) next k s = k n s
with_person-Keeps (invalid e) next k s = (refl, refl)

with_row-Keeps :
    (o : Option ℕ) (next : ℕ → PageHandler) → ((n : ℕ) → Keeps (next n)) → Keeps (with_row o next)
with_row-Keeps (some n) next k s = k n s
with_row-Keeps none next k s = (refl, refl)

welcome-Keeps :
    (user : Option User) (q : Text) (next : Bool → PageHandler)
    → ((b : Bool) → Keeps (next b))
    → Keeps (welcome user q next)
unfolding is_registry_empty
welcome-Keeps user q next k s = elim (Bool-cases (is_steward user && is_empty q)) [
  | inl asks ↦ rw asks (reading-Keeps _ next k s)
  | inr not_asked ↦ rw not_asked (k false s)
]

pub page_of-Keeps :
    (w : Display) (access : Access) (p : PageRead) (user : Option User)
    → Keeps (page_of w access p user)
unfolding StorePersons.get_person StoreSystems.get_system list_persons list_systems
    list_disabled_systems count_disabled_systems list_active_stewards list_pending_stewards
    list_associations_for_person list_audit_for_entity list_audit list_audit_actors
page_of-Keeps w access get_root user s = (refl, refl)
page_of-Keeps w access get_disabled_systems user s = reading-Keeps _ _ (λ _ _. (refl, refl)) s
page_of-Keeps w access get_stewards user s =
    reading-Keeps _ _ (λ _. reading-Keeps _ _ (λ _ _. (refl, refl))) s
page_of-Keeps w access (get_persons q) user s =
    reading-Keeps _ _ (λ _. welcome-Keeps user q _ (λ _ _. (refl, refl))) s
page_of-Keeps w access (get_person path) user s =
    with_person-Keeps (parse path) _
      (λ n. reading_row-Keeps _ _ (λ _.
        reading-Keeps _ _ (λ _. reading-Keeps _ _ (λ _. reading-Keeps _ _ (λ _ _. (refl, refl))))))
      s
page_of-Keeps w access (get_systems q) user s =
    reading-Keeps _ _ (λ _. reading-Keeps _ _ (λ _ _. (refl, refl))) s
page_of-Keeps w access (get_system path) user s =
    with_row-Keeps (parse_row_id path) _
      (λ n. reading_row-Keeps _ _ (λ _. reading-Keeps _ _ (λ _ _. (refl, refl)))) s
page_of-Keeps w access (get_audit q) user s =
    reading-Keeps _ _ (λ _. reading-Keeps _ _ (λ _ _. (refl, refl))) s
