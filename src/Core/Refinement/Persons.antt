-- ===== src/Core/Refinement/Persons.antt =====
-- core/persons.go.
use xensus.Base.{
  ℕ, suc, ◌≡◌, refl, none, Text, trim_space, is_empty, text_eq, ==_refl, Bool-cases, Option-cases,
  inl, inr,
}
use xensus.Sql.{insert_row, select_first, update_where}
use xensus.Sql.Laws.{select_first-test, select_first-update_found, select_first-insert_row}
use xensus.Store.Session.{Session}
use xensus.Store.Persons.{new_person, set_name, insert_person, update_person_name, get_person}
use xensus.Registry.Logged.{logged-SameData}
use xensus.Registry.Persons as Registry
use xensus.Registry.Persons.{with_id}
use xensus.Core.Audit.{Actor}
use xensus.Core.Persons.{create_person, rename_person, create_entry, rename_entry}
use xensus.Core.Refinement.Statement.{Refines}
use xensus.Core.Refinement.Calls.{within}
use xensus.Core.Refinement.Transactions.{Ends-Refines, Ends-exec, Ends-required, Ends-rollback}
use xensus.Core.Refinement.Tails.{Ends-audit_read}

-- With no transaction open before, `CreatePerson` leaves none open and keeps the driver. Its result and
-- the database are those of the registry's `create_person` at the times of its calls, or some call of
-- the driver fails, the result is that failure and the database is the old one.
pub create_person-Refines :
    (actor : Actor) (raw : Text) (s : Session)
    → s.working ≡ none
    → Refines s (create_person actor raw s) (
        Registry.create_person
          (s.driver.strftime_now (suc s.tick))
          (s.driver.go_now (suc (suc s.tick)))
          actor
          raw
          s.committed)
unfolding create_person Registry.create_person insert_person get_person
create_person-Refines actor raw s idle = elim (Bool-cases (is_empty actor.oid)) [
  | inl missing ↦ rw missing (idle, refl, inr (refl, refl))
  | inr known ↦
      let name = trim_space raw in
      let make = new_person name actor.upn (s.driver.strftime_now (suc s.tick)) in
      rw known (
        Ends-Refines _ s idle (
          Ends-exec _ _ _ refl (elim (Option-cases (insert_row make s.committed.persons)) [
            | inl full ↦ rw full refl
            | inr ((id, t), added) ↦ rw added (
                Ends-audit_read (create_entry actor id name) (make id) (within _ _ _ _)
                  (record s.committed { persons = t }) _ known refl
                  (λ d' e. rw (
                    (logged-SameData _ _ _ e).persons,
                    select_first-insert_row make with_id s.committed.persons t id added
                        (==_refl id),
                  )))
          ])))
]

-- With no transaction open before, `RenamePerson` leaves none open and keeps the driver. Its result and
-- the database are those of the registry's `rename_person` at the times of its calls, or some call of
-- the driver fails, the result is that failure and the database is the old one.
pub rename_person-Refines :
    (actor : Actor) (id : ℕ) (raw : Text) (s : Session)
    → s.working ≡ none
    → Refines s (rename_person actor id raw s) (
        Registry.rename_person
          (s.driver.strftime_now (suc (suc s.tick)))
          (s.driver.go_now (suc (suc (suc s.tick))))
          actor
          id
          raw
          s.committed)
unfolding rename_person Registry.rename_person update_person_name get_person
rename_person-Refines actor id raw s idle = elim (Bool-cases (is_empty actor.oid)) [
  | inl missing ↦ rw missing (idle, refl, inr (refl, refl))
  | inr known ↦
      let name = trim_space raw in
      let rows = s.committed.persons.rows in
      rw known (
        Ends-Refines _ s idle (
          Ends-required _ _ _ _ refl (elim (Option-cases (select_first (with_id id) rows)) [
            | inl missing ↦ rw missing refl
            | inr (p, found) ↦ rw found (elim (Bool-cases (text_eq p.name name)) [
              | inl same ↦ rw same (Ends-rollback (within _ _ _ _) p)
              | inr new ↦
                  let set = set_name name actor.upn (s.driver.strftime_now (suc (suc s.tick))) in
                  let d = record s.committed {
                    persons = record s.committed.persons {
                      rows = update_where (with_id id) set rows;
                    };
                  } in
                  rw new (
                    Ends-exec _ _ _ refl (
                      Ends-audit_read (rename_entry actor id p.name name) (set p) (within _ _ _ _) d
                        _ known refl
                        (λ d' e. rw (
                          (logged-SameData _ _ _ e).persons,
                          select_first-update_found (with_id id) (with_id id) set (λ r h. refl) rows
                              p found (select_first-test (with_id id) rows p found),
                        ))))
            ])
          ])))
]
