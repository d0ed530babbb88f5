-- ===== src/Api/Reading.antt =====
-- api/*.go: reading changes nothing.
use xensus.Base.{ℕ, refl, ◌∙◌, inl, inr, Option, none, some, Bool-cases, Text}
use xensus.Store.Schema.{Details, Database}
use xensus.Store.Session.{Session, Action, Result, ok, err, no_rows, db, query_row}
use xensus.Store.Persons.{get_person}
use xensus.Store.Systems.{get_system}
use xensus.Store.Listings.{
  query_rows, list_persons, list_systems, list_disabled_systems, list_active_stewards,
  list_pending_stewards, list_all_associations, list_associations_for_person,
}
use xensus.Store.Audit.{list_audit}
use xensus.Id.{parse, Parsed, id, invalid}
use xensus.Auth.{User}
use xensus.Auth.Known.{Same}
use xensus.Api.Systems.{parse_row_id}
use xensus.Api.Reads.{
  Reader, after, reading, after_row, reading_row, parsed_person, parsed_row, show_me,
}
use xensus.Api.Gates.{
  Read, Gate, open_gate, steward_gate, surface_gate, get_me, get_systems_disabled, get_export,
  get_stewards, get_persons, get_persons_csv, get_person_associations, get_systems, get_systems_csv,
  get_audit, get_audit_csv, gate_of, reader_of, user_gated, steward_gated, gated, read_route,
  serve_read,
}
use xensus.Api.Gates as Gates

abbrev pub Keeps : Reader → Type 0
Keeps r = (s : Session) → Same s (r s).1

abbrev pub Queries : {A : Type 0} → Action A → Type 0
Queries action = (s : Session) → Same s (action s).1

pub query_row-Queries : {A : Type 0} (f : Database → Result A) → Queries (query_row db f)
unfolding query_row
query_row-Queries f s = elim (Bool-cases (s.driver.fails s.tick)) [
  | inl failed ↦ rw failed (refl, refl)
  | inr works ↦ rw works (refl, refl)
]

pub Same-trans : (s t u : Session) → Same s t → Same t u → Same s u
Same-trans s t u h k = (k.0 ∙ h.0, k.1 ∙ h.1)

after-Keeps :
    {A : Type 0} (next : A → Reader) (s : Session) (x : Result A × Session)
    → Same s x.1
    → ((a : A) → Keeps (next a))
    → Same s (after next x).1
after-Keeps next s (ok a, t) h k = Same-trans s t (next a t).1 h (k a t)
after-Keeps next s (err e, t) h k = h

after_row-Keeps :
    {A : Type 0} (next : A → Reader) (s : Session) (x : Result A × Session)
    → Same s x.1
    → ((a : A) → Keeps (next a))
    → Same s (after_row next x).1
after_row-Keeps next s (ok a, t) h k = Same-trans s t (next a t).1 h (k a t)
after_row-Keeps next s (err no_rows, t) h k = h
after_row-Keeps next s (err e, t) h k = h

reading-Keeps :
    {A : Type 0} (f : Database → A) (next : A → Reader)
    → ((a : A) → Keeps (next a))
    → Keeps (reading (query_rows f) next)
reading-Keeps f next k s =
    after-Keeps next s (query_rows f s) (query_row-Queries (λ d. ok (f d)) s) k

reading_row-Keeps :
    {A : Type 0} (f : Database → Result A) (next : A → Reader)
    → ((a : A) → Keeps (next a))
    → Keeps (reading_row (query_row db f) next)
reading_row-Keeps f next k s = after_row-Keeps next s (query_row db f s) (query_row-Queries f s) k

parsed_person-Keeps :
    (path : Text) (p : Parsed) (next : ℕ → Reader)
    → ((n : ℕ) → Keeps (next n))
    → Keeps (parsed_person path p next)
parsed_person-Keeps path (id n) next k s = k n s
parsed_person-Keeps path (invalid e) next k s = (refl, refl)

parsed_row-Keeps :
    (path : Text) (o : Option ℕ) (next : ℕ → Reader)
    → ((n : ℕ) → Keeps (next n))
    → Keeps (parsed_row path o next)
parsed_row-Keeps path (some n) next k s = k n s
parsed_row-Keeps path none next k s = (refl, refl)

show_me-Keeps : (user : Option User) → Keeps (show_me user)
show_me-Keeps none s = (refl, refl)
show_me-Keeps (some u) s = (refl, refl)

pub reader_of-Keeps :
    (marshal : Details → Text) (r : Read) (user : Option User) → Keeps (reader_of marshal r user)
unfolding get_person get_system list_persons list_systems list_disabled_systems list_active_stewards
    list_pending_stewards list_all_associations list_associations_for_person list_audit
reader_of-Keeps marshal get_me user = show_me-Keeps user
reader_of-Keeps marshal (get_persons q) user = reading-Keeps _ _ (λ _ _. (refl, refl))
reader_of-Keeps marshal (get_persons_csv q) user = reading-Keeps _ _ (λ _ _. (refl, refl))
reader_of-Keeps marshal (Gates.get_person path) user =
    parsed_person-Keeps path (parse path) _ (λ n. reading_row-Keeps _ _ (λ _ _. (refl, refl)))
reader_of-Keeps marshal (get_person_associations path) user =
    parsed_person-Keeps path (parse path) _
      (λ n. reading_row-Keeps _ _ (λ _. reading-Keeps _ _ (λ _ _. (refl, refl))))
reader_of-Keeps marshal (get_systems q) user = reading-Keeps _ _ (λ _ _. (refl, refl))
reader_of-Keeps marshal (get_systems_csv q) user = reading-Keeps _ _ (λ _ _. (refl, refl))
reader_of-Keeps marshal get_systems_disabled user = reading-Keeps _ _ (λ _ _. (refl, refl))
reader_of-Keeps marshal (Gates.get_system path) user =
    parsed_row-Keeps path (parse_row_id path) _ (λ n. reading_row-Keeps _ _ (λ _ _. (refl, refl)))
reader_of-Keeps marshal (get_audit q) user = reading-Keeps _ _ (λ _ _. (refl, refl))
reader_of-Keeps marshal (get_audit_csv q) user = reading-Keeps _ _ (λ _ _. (refl, refl))
reader_of-Keeps marshal get_export user = reading-Keeps _ _ (λ _. reading-Keeps _ _ (λ _.
    reading-Keeps _ _ (λ _.
      reading-Keeps _ _ (λ _. reading-Keeps _ _ (λ _. reading-Keeps _ _ (λ _ _. (refl, refl)))))))
reader_of-Keeps marshal get_stewards user =
    reading-Keeps _ _ (λ _. reading-Keeps _ _ (λ _ _. (refl, refl)))
