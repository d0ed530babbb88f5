-- ===== src/Core/Refinement/Systems.antt =====
-- core/systems.go.
use xensus.Base.{
  ℕ, suc, ◌≡◌, refl, Bool, none, some, Text, codes, trim_space, is_empty, text_eq, not, ==_refl,
  Bool-cases, Option-cases, inl, inr,
}
use xensus.Sql.{insert_row, select_first, update_where}
use xensus.Sql.Laws.{select_first-update_where, select_first-insert_row}
use xensus.Store.Session.{Driver, Session, ◌>>=◌, ◌>>◌, tx, commit, pure}
use xensus.Store.Schema.{SystemRow, Database}
use xensus.Store.Systems
use xensus.Store.Systems.{
  scan_system, disabled, new_system, set_name, set_disabled, set_enabled, is_active, is_inactive,
  insert_system, update_system_name, update_systems, get_system,
}
use xensus.Registry.Logged.{logged-SameData}
use xensus.Registry.Systems as Registry
use xensus.Registry.Systems.{with_id, set_system}
use xensus.Core.Audit.{Actor, AuditEntry, write_audit}
use xensus.Core.Systems.{
  create_system, rename_system, disable_system, enable_system, system_entry, rename_entry,
}
use xensus.Core.Refinement.Statement.{Refines}
use xensus.Core.Refinement.Calls.{IsComplete, within}
use xensus.Core.Refinement.Transactions.{
  Ends, Ends-Refines, Ends-exec, Ends-required, Ends-raise, Ends-rollback,
}
use xensus.Core.Refinement.Tails.{Ends-audit_read}

-- With no transaction open before, `CreateSystem` leaves none open and keeps the driver. Its result and
-- the database are those of the registry's `create_system` at the times of its calls, or some call of
-- the driver fails, the result is that failure and the database is the old one.
pub create_system-Refines :
    (actor : Actor) (raw : Text) (s : Session)
    → s.working ≡ none
    → Refines s (create_system actor raw s) (
        Registry.create_system
          (s.driver.strftime_now (suc s.tick))
          (s.driver.go_now (suc (suc s.tick)))
          actor
          raw
          s.committed)
unfolding create_system Registry.create_system insert_system get_system
create_system-Refines actor raw s idle = elim (Bool-cases (is_empty actor.oid)) [
  | inl missing ↦ rw missing (idle, refl, inr (refl, refl))
  | inr known ↦ elim (Bool-cases (is_empty (trim_space raw))) [
    | inl blank ↦ rw (known, blank) (idle, refl, inr (refl, refl))
    | inr named ↦
        let name = trim_space raw in
        let make = new_system name actor.upn (s.driver.strftime_now (suc s.tick)) in
        rw (known, named)
          (Ends-Refines _ s idle (
            Ends-exec _ _ _ refl (elim (Option-cases (insert_row make s.committed.systems)) [
              | inl full ↦ rw full refl
              | inr ((id, t), added) ↦ rw added (
                  Ends-audit_read (system_entry actor (codes "system.create") id name)
                    (scan_system (make id)) (within _ _ _ _) (record s.committed { systems = t }) _
                    known refl
                    (λ d' e. rw (
                      (logged-SameData _ _ _ e).systems,
                      select_first-insert_row make with_id s.committed.systems t id added
                          (==_refl id),
                    )))
            ])))
  ]
]

-- The update of a found system, its audit row and the end of the transaction.
Ends-set_system :
    (hit : SystemRow → Bool) (set : Text → SystemRow → SystemRow) (e : AuditEntry) (id : ℕ)
    (r : SystemRow) (driver : Driver) (n : ℕ) (d : Database)
    → IsComplete e
    → select_first (with_id id) d.systems.rows ≡ some r
    → ((now : Text) (x : SystemRow) → with_id id (set now x) ≡ with_id id x)
    → Ends driver d
        ((update_systems hit set >> (write_audit e >> (get_system tx id >>= λ s. commit >> pure s)))
          (within driver n d d))
        (set_system hit (set (driver.strftime_now n)) e (driver.go_now (suc n)) r d)
unfolding get_system
Ends-set_system hit set e id r driver n d complete found same = Ends-exec _ _ _ refl (
    Ends-audit_read e _ (within _ _ _ _)
      (record d {
        systems = record d.systems {
          rows = update_where hit (set (driver.strftime_now n)) d.systems.rows;
        };
      })
      _ complete refl
      (λ d' added. rw (
        (logged-SameData _ _ _ added).systems,
        select_first-update_where (with_id id) hit (set (driver.strftime_now n)) (λ x h. same _ x)
            d.systems.rows r found,
      )))

-- With no transaction open before, `RenameSystem` leaves none open and keeps the driver. Its result and
-- the database are those of the registry's `rename_system` at the times of its calls, or some call of
-- the driver fails, the result is that failure and the database is the old one.
pub rename_system-Refines :
    (actor : Actor) (id : ℕ) (raw : Text) (s : Session)
    → s.working ≡ none
    → Refines s (rename_system actor id raw s) (
        Registry.rename_system
          (s.driver.strftime_now (suc (suc s.tick)))
          (s.driver.go_now (suc (suc (suc s.tick))))
          actor
          id
          raw
          s.committed)
unfolding rename_system Registry.rename_system update_system_name get_system
rename_system-Refines actor id raw s idle = elim (Bool-cases (is_empty actor.oid)) [
  | inl missing ↦ rw missing (idle, refl, inr (refl, refl))
  | inr known ↦ elim (Bool-cases (is_empty (trim_space raw))) [
    | inl blank ↦ rw (known, blank) (idle, refl, inr (refl, refl))
    | inr named ↦
        rw (known, named)
          (Ends-Refines _ s idle (
            Ends-required _ _ _ _ refl
              (elim (Option-cases (select_first (with_id id) s.committed.systems.rows)) [
                | inl missing ↦ rw missing refl
                | inr (r, found) ↦ rw found (elim (Bool-cases (disabled (scan_system r))) [
                  | inl frozen ↦ rw frozen (Ends-raise (within _ _ _ _))
                  | inr active ↦ rw active (elim (Bool-cases (text_eq r.name (trim_space raw))) [
                    | inl same ↦ rw same (Ends-rollback (within _ _ _ _) (scan_system r))
                    | inr new ↦ rw new (
                        Ends-set_system (is_active id) (set_name (trim_space raw) actor.upn)
                          (rename_entry actor id r.name (trim_space raw)) id r _ _ _ known found
                          (λ _ _. refl))
                  ])
                ])
              ])))
  ]
]

-- With no transaction open before, `DisableSystem` leaves none open and keeps the driver. Its result and
-- the database are those of the registry's `disable_system` at the times of its calls, or some call of
-- the driver fails, the result is that failure and the database is the old one.
pub disable_system-Refines :
    (actor : Actor) (id : ℕ) (s : Session)
    → s.working ≡ none
    → Refines s (disable_system actor id s) (
        Registry.disable_system
          (s.driver.strftime_now (suc (suc s.tick)))
          (s.driver.go_now (suc (suc (suc s.tick))))
          actor
          id
          s.committed)
unfolding disable_system Registry.disable_system Systems.disable_system get_system
disable_system-Refines actor id s idle = elim (Bool-cases (is_empty actor.oid)) [
  | inl missing ↦ rw missing (idle, refl, inr (refl, refl))
  | inr known ↦ rw known (
      Ends-Refines _ s idle (
        Ends-required _ _ _ _ refl
          (elim (Option-cases (select_first (with_id id) s.committed.systems.rows)) [
            | inl missing ↦ rw missing refl
            | inr (r, found) ↦ rw found (elim (Bool-cases (disabled (scan_system r))) [
              | inl already ↦ rw already (Ends-rollback (within _ _ _ _) (scan_system r))
              | inr active ↦ rw active (
                  Ends-set_system (is_active id) (set_disabled actor.upn)
                    (system_entry actor (codes "system.disable") id r.name) id r _ _ _ known found
                    (λ _ _. refl))
            ])
          ])))
]

-- With no transaction open before, `EnableSystem` leaves none open and keeps the driver. Its result and
-- the database are those of the registry's `enable_system` at the times of its calls, or some call of
-- the driver fails, the result is that failure and the database is the old one.
pub enable_system-Refines :
    (actor : Actor) (id : ℕ) (s : Session)
    → s.working ≡ none
    → Refines s (enable_system actor id s) (
        Registry.enable_system
          (s.driver.strftime_now (suc (suc s.tick)))
          (s.driver.go_now (suc (suc (suc s.tick))))
          actor
          id
          s.committed)
unfolding enable_system Registry.enable_system Systems.enable_system get_system
enable_system-Refines actor id s idle = elim (Bool-cases (is_empty actor.oid)) [
  | inl missing ↦ rw missing (idle, refl, inr (refl, refl))
  | inr known ↦ rw known (
      Ends-Refines _ s idle (
        Ends-required _ _ _ _ refl
          (elim (Option-cases (select_first (with_id id) s.committed.systems.rows)) [
            | inl missing ↦ rw missing refl
            | inr (r, found) ↦ rw found (elim (Bool-cases (not (disabled (scan_system r)))) [
              | inl already ↦ rw already (Ends-rollback (within _ _ _ _) (scan_system r))
              | inr inactive ↦ rw inactive (
                  Ends-set_system (is_inactive id) set_enabled
                    (system_entry actor (codes "system.enable") id r.name) id r _ _ _ known found
                    (λ _ _. refl))
            ])
          ])))
]
