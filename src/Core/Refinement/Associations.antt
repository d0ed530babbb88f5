-- ===== src/Core/Refinement/Associations.antt =====
-- core/associations.go.
use xensus.Base.{
  ℕ, suc, ◌≡◌, refl, none, Text, codes, trim_space, is_empty, ◌==◌, not, ==_refl, Bool-cases,
  Option-cases, inl, inr,
}
use xensus.Sql.{insert_row, select_first}
use xensus.Sql.Laws.{select_first-insert_row}
use xensus.Store.Session.{Session}
use xensus.Store.Persons.{get_person}
use xensus.Store.Systems.{get_system}
use xensus.Store.Associations.{
  new_association, scan_association, joined, insert_association, get_association,
  delete_association,
}
use xensus.Registry.Logged.{logged-SameData}
use xensus.Registry.Persons
use xensus.Registry.Systems
use xensus.Registry.Associations as Registry
use xensus.Registry.Associations.{with_id}
use xensus.Core.Audit.{Actor}
use xensus.Core.Associations.{create_association, remove_association, association_entry}
use xensus.Core.Refinement.Statement.{Refines}
use xensus.Core.Refinement.Calls.{within}
use xensus.Core.Refinement.Transactions.{Ends-Refines, Ends-exec, Ends-required, Ends-raise}
use xensus.Core.Refinement.Tails.{Ends-audit_read, Ends-audit_commit}

-- With no transaction open before, `CreateAssociation` leaves none open and keeps the driver. Its result and
-- the database are those of the registry's `create_association` at the times of its calls, or some call of
-- the driver fails, the result is that failure and the database is the old one.
pub create_association-Refines :
    (actor : Actor) (person_id system_id : ℕ) (raw : Text) (s : Session)
    → s.working ≡ none
    → Refines s (create_association actor person_id system_id raw s) (
        Registry.create_association
          (s.driver.strftime_now (suc (suc (suc s.tick))))
          (s.driver.go_now (suc (suc (suc (suc s.tick)))))
          actor
          person_id
          system_id
          raw
          s.committed)
unfolding create_association Registry.create_association get_person get_system insert_association
    get_association
create_association-Refines actor person_id system_id raw s idle =
    elim (Bool-cases (is_empty actor.oid)) [
      | inl missing ↦ rw missing (idle, refl, inr (refl, refl))
      | inr known ↦ rw known (
          Ends-Refines _ s idle (
            Ends-required _ _ _ _ refl
              (elim (Option-cases
                (select_first (Persons.with_id person_id) s.committed.persons.rows)) [
                  | inl nobody ↦ rw nobody refl
                  | inr (p, person) ↦ rw person (
                      Ends-required _ _ _ (within _ _ _ _) refl
                        (elim (Option-cases
                          (select_first (Systems.with_id system_id) s.committed.systems.rows)) [
                            | inl nothing ↦ rw nothing refl
                            | inr (r, system) ↦
                                let make =
                                  new_association person_id system_id (trim_space raw) actor.upn
                                    (s.driver.strftime_now (suc (suc (suc s.tick)))) in
                                rw system (
                                  Ends-exec _ _ (within _ _ _ _) refl (
                                    rw (person, system)
                                      (elim (Option-cases
                                        (insert_row make s.committed.associations)) [
                                          | inl full ↦ rw full refl
                                          | inr ((id, t), added) ↦ rw added (
                                              Ends-audit_read
                                                (association_entry actor
                                                  (codes "association.create") person_id id
                                                  system_id r.name (trim_space raw))
                                                (scan_association (make id) r) (within _ _ _ _)
                                                (record s.committed { associations = t }) _ known
                                                refl
                                                (λ d' e. rw (
                                                  (logged-SameData _ _ _ e).associations,
                                                  (logged-SameData _ _ _ e).systems,
                                                  select_first-insert_row make with_id
                                                      s.committed.associations t id added
                                                      (==_refl id),
                                                  system,
                                                )))
                                        ])))
                          ]))
                ])))
    ]

-- With no transaction open before, `RemoveAssociation` leaves none open and keeps the driver. Its result and
-- the database are those of the registry's `remove_association` at the times of its calls, or some call of
-- the driver fails, the result is that failure and the database is the old one.
pub remove_association-Refines :
    (actor : Actor) (person_id assoc_id : ℕ) (s : Session)
    → s.working ≡ none
    → Refines s (remove_association actor person_id assoc_id s) (
        Registry.remove_association
          (s.driver.go_now (suc (suc (suc s.tick))))
          actor
          person_id
          assoc_id
          s.committed)
unfolding remove_association Registry.remove_association get_association delete_association
remove_association-Refines actor person_id assoc_id s idle =
    elim (Bool-cases (is_empty actor.oid)) [
      | inl missing ↦ rw missing (idle, refl, inr (refl, refl))
      | inr known ↦
          let rows = s.committed.associations.rows in
          rw known (
            Ends-Refines _ s idle (
              Ends-required _ _ _ _ refl
                (elim (Option-cases (joined s.committed (select_first (with_id assoc_id) rows))) [
                  | inl missing ↦ rw missing refl
                  | inr (a, found) ↦ rw found (elim (Bool-cases (not (a.person_id == person_id))) [
                    | inl another ↦ rw another (Ends-raise (within _ _ _ _))
                    | inr own ↦ rw own (
                        Ends-exec _ _ (within _ _ _ _) refl (
                          Ends-audit_commit
                            (association_entry actor (codes "association.remove") person_id assoc_id
                              a.system_id a.system_name a.foreign_id)
                            tt (within _ _ _ _) _ known refl))
                  ])
                ])))
    ]
