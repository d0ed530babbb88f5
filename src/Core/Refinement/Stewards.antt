-- ===== src/Core/Refinement/Stewards.antt =====
-- core/stewards.go.
use xensus.Base.{
  ℕ, suc, ◌≡◌, refl, true, false, none, ltb, Text, codes, lower, trim_space, is_empty, text_eq,
  text_eq_refl, text_eq_sound, Bool-cases, Option-cases, inl, inr,
}
use xensus.Sql.{insert_row, select_first, count_where, update_where}
use xensus.Sql.Laws.{select_first-update_where, select_first-insert_row, count_where_of_none}
use xensus.Store.Session.{Driver, Session}
use xensus.Store.Schema.{PendingSteward, Database}
use xensus.Store.Stewards
use xensus.Store.Stewards.{
  new_steward, holds_oid, holds_upn, is_current, set_removed, scan_steward, removed,
  is_active_steward, is_active_steward_by_upn, get_steward, insert_steward,
}
use xensus.Store.PendingStewards.{
  invites, same_upn, new_pending_steward, get_pending_steward_by_upn, get_pending_steward_by_id,
  insert_pending_steward, delete_pending_steward,
}
use xensus.Registry.Logged.{logged-SameData}
use xensus.Registry.Stewards as Registry
use xensus.Registry.Stewards.{with_id, pending_with_id, without_invitation}
use xensus.Core.Audit.{Actor}
use xensus.Core.Stewards.{
  promote_steward, demote_steward, cancel_steward_invite, invitation_entry, demote_entry, invite,
}
use xensus.Core.Refinement.Statement.{Refines}
use xensus.Core.Refinement.Calls.{within}
use xensus.Core.Refinement.Transactions.{
  Ends, Ends-Refines, Ends-exec, Ends-query, Ends-required, Ends-optional, Ends-raise,
}
use xensus.Core.Refinement.Tails.{Ends-audit_read, Ends-audit_commit}

-- An invitation of the very same UPN is one that `lower` matches.
same_upn-invites : (upn : Text) (p : PendingSteward) → same_upn upn p ≡ true → invites upn p ≡ true
same_upn-invites upn p h = rw (text_eq_sound _ _ h) (text_eq_refl (lower upn))

-- The invitation of a UPN that has none, its audit row and the end of the transaction.
invite-Ends :
    (actor : Actor) (upn : Text) (driver : Driver) (n : ℕ) (d : Database)
    → is_empty actor.oid ≡ false
    → select_first (invites upn) d.pending_stewards.rows ≡ none
    → Ends driver d
        (invite actor upn (within driver n d d))
        (Registry.invite (driver.strftime_now n) (driver.go_now (suc n)) actor upn d none)
unfolding insert_pending_steward get_pending_steward_by_upn
invite-Ends actor upn driver n d known new =
    let make = new_pending_steward upn actor.upn (driver.strftime_now n) in
    Ends-exec _ _ (within _ _ _ _) refl (
      rw
        (count_where_of_none (invites upn) (same_upn upn) (same_upn-invites upn)
          d.pending_stewards.rows new)
        (elim (Option-cases (insert_row make d.pending_stewards)) [
          | inl full ↦ rw full refl
          | inr ((id, t), added) ↦ rw added (
              Ends-audit_read (invitation_entry actor (codes "steward.invite") upn) (make id)
                (within _ _ _ _) (record d { pending_stewards = t }) _ known refl
                (λ d' e. rw (
                  (logged-SameData _ _ _ e).pending_stewards,
                  select_first-insert_row make (λ _. invites upn) d.pending_stewards t id added
                      (text_eq_refl (lower upn)),
                )))
        ]))

-- With no transaction open before, `PromoteSteward` leaves none open and keeps the driver. Its result and
-- the database are those of the registry's `promote_steward` at the times of its calls, or some call of
-- the driver fails, the result is that failure and the database is the old one.
pub promote_steward-Refines :
    (actor : Actor) (raw : Text) (s : Session)
    → s.working ≡ none
    → Refines s (promote_steward actor raw s) (
        Registry.promote_steward
          (s.driver.strftime_now (suc (suc (suc s.tick))))
          (s.driver.go_now (suc (suc (suc (suc s.tick)))))
          actor
          raw
          s.committed)
unfolding promote_steward Registry.promote_steward is_active_steward_by_upn
    get_pending_steward_by_upn
promote_steward-Refines actor raw s idle = elim (Bool-cases (is_empty actor.oid)) [
  | inl missing ↦ rw missing (idle, refl, inr (refl, refl))
  | inr known ↦
      let upn = trim_space raw in
      elim (Bool-cases (is_empty (trim_space raw))) [
        | inl blank ↦ rw (known, blank) (idle, refl, inr (refl, refl))
        | inr named ↦
            rw (known, named)
              (Ends-Refines _ s idle (
                Ends-query _ _ _ refl
                  (elim (Bool-cases
                    (ltb 0 (count_where (holds_upn upn) s.committed.stewards.rows))) [
                      | inl active ↦ rw active (Ends-raise (within _ _ _ _))
                      | inr inactive ↦ rw inactive (
                          Ends-optional _ _ (within _ _ _ _) refl
                            (elim (Option-cases
                              (select_first (invites upn) s.committed.pending_stewards.rows)) [
                                | inl new ↦ rw new (invite-Ends actor upn _ _ _ known new)
                                | inr (p, old) ↦ rw old (Ends-raise (within _ _ _ _))
                              ]))
                    ])))
      ]
]

-- With no transaction open before, `DemoteSteward` leaves none open and keeps the driver. Its result and
-- the database are those of the registry's `demote_steward` at the times of its calls, or some call of
-- the driver fails, the result is that failure and the database is the old one.
pub demote_steward-Refines :
    (actor : Actor) (id : ℕ) (s : Session)
    → s.working ≡ none
    → Refines s (demote_steward actor id s) (
        Registry.demote_steward
          (s.driver.strftime_now (suc (suc s.tick)))
          (s.driver.go_now (suc (suc (suc s.tick))))
          actor
          id
          s.committed)
unfolding demote_steward Registry.demote_steward Stewards.demote_steward get_steward
demote_steward-Refines actor id s idle = elim (Bool-cases (is_empty actor.oid)) [
  | inl missing ↦ rw missing (idle, refl, inr (refl, refl))
  | inr known ↦
      let rows = s.committed.stewards.rows in
      let set = set_removed actor.upn (s.driver.strftime_now (suc (suc s.tick))) in
      rw known (
        Ends-Refines _ s idle (
          Ends-required _ _ _ _ refl (elim (Option-cases (select_first (with_id id) rows)) [
            | inl missing ↦ rw missing refl
            | inr (r, found) ↦ rw found (elim (Bool-cases (removed (scan_steward r))) [
              | inl gone ↦ rw gone (Ends-raise (within _ _ _ _))
              | inr active ↦ rw active (elim (Bool-cases (text_eq r.user_oid actor.oid)) [
                | inl self ↦ rw self (Ends-raise (within _ _ _ _))
                | inr another ↦ rw another (
                    Ends-exec _ _ (within _ _ _ _) refl (
                      Ends-audit_read (demote_entry actor id r.user_oid r.user_upn) _
                        (within _ _ _ _)
                        (record s.committed {
                          stewards = record s.committed.stewards {
                            rows = update_where (is_current id) set rows;
                          };
                        })
                        _ known refl
                        (λ d' e. rw (
                          (logged-SameData _ _ _ e).stewards,
                          select_first-update_where (with_id id) (is_current id) set (λ _ _. refl)
                              rows r found,
                        ))))
              ])
            ])
          ])))
]

-- With no transaction open before, `CancelStewardInvite` leaves none open and keeps the driver. Its result and
-- the database are those of the registry's `cancel_steward_invite` at the times of its calls, or some call of
-- the driver fails, the result is that failure and the database is the old one.
pub cancel_steward_invite-Refines :
    (actor : Actor) (id : ℕ) (s : Session)
    → s.working ≡ none
    → Refines s (cancel_steward_invite actor id s) (
        Registry.cancel_steward_invite
          (s.driver.go_now (suc (suc (suc s.tick))))
          actor
          id
          s.committed)
unfolding cancel_steward_invite Registry.cancel_steward_invite get_pending_steward_by_id
    delete_pending_steward
cancel_steward_invite-Refines actor id s idle = elim (Bool-cases (is_empty actor.oid)) [
  | inl missing ↦ rw missing (idle, refl, inr (refl, refl))
  | inr known ↦ rw known (
      Ends-Refines _ s idle (
        Ends-required _ _ _ _ refl
          (elim (Option-cases
            (select_first (pending_with_id id) s.committed.pending_stewards.rows)) [
              | inl missing ↦ rw missing refl
              | inr (p, found) ↦ rw found (
                  Ends-exec _ _ (within _ _ _ _) refl (
                    Ends-audit_commit (invitation_entry actor (codes "steward.uninvite") p.user_upn)
                      tt (within _ _ _ _) _ known refl))
            ])))
]
