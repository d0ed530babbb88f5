-- ===== src/Registry/Roles.antt =====
-- The registry: how many steward rows an identity has, and how many invitations a UPN.
use xensus.Base.{
  ℕ, suc, ◌≤◌, ◌≡◌, Bool, true, false, List, [], ◌∷◌, none, Text, ltb, lower, text_eq,
  text_eq_sound, arith, Option-cases, Bool-cases, inl, inr, trim_space, codes, subst,
}
use xensus.Sql.{insert_row, select_first, count_where, update_where, delete_where}
use xensus.Sql.Laws.{count_where_of_none}
use xensus.Store.Schema.{StewardRow, PendingSteward, Database}
use xensus.Store.Stewards.{holds_oid, is_current, set_removed, new_steward}
use xensus.Store.PendingStewards.{invites, new_pending_steward}
use xensus.Registry.Change.{logged}
use xensus.Registry.Persons
use xensus.Registry.Systems
use xensus.Registry.Associations
use xensus.Registry.Stewards
use xensus.Registry.Tenant
use xensus.Registry.Requests.{
  Request, create_person, rename_person, create_system, rename_system, disable_system,
  enable_system, create_association, remove_association, promote_steward, demote_steward,
  cancel_steward_invite, claim_pending_steward, bootstrap, Times, apply,
}

-- At most one row of `rows` passes each test of the family.
abbrev pub AtMostOne : {R : Type 0} → (Text → R → Bool) → List R → Type 0
AtMostOne test rows = (x : Text) → count_where (test x) rows ≤ 1

pub record HasUniqueRoles (d : Database) : Type 0 where
  pub active : AtMostOne holds_oid d.stewards.rows
  pub invited : AtMostOne invites d.pending_stewards.rows

holds_oid-insert :
    (rows : List StewardRow) (oid upn by now : Text) (id : ℕ)
    → AtMostOne holds_oid rows
    → (x : Text) → ltb 0 (count_where (holds_oid oid) rows) ≡ false
    → count_where (holds_oid x) (new_steward oid upn by now id ∷ rows) ≤ 1
unfolding count_where
holds_oid-insert rows oid upn by now id one x free = elim (Bool-cases (text_eq oid x)) [
  | inl same ↦
      let free' : ltb 0 (count_where (holds_oid x) rows) ≡ false =
        subst (λ y. ltb 0 (count_where (holds_oid y) rows) ≡ false) (text_eq_sound oid x same)
          free in
      ground arith
  | inr other ↦ ground (arith, one x)
]

invites-insert :
    (rows : List PendingSteward) (upn by now : Text) (id : ℕ)
    → AtMostOne invites rows
    → (x : Text) → select_first (invites upn) rows ≡ none
    → count_where (invites x) (new_pending_steward upn by now id ∷ rows) ≤ 1
unfolding count_where
invites-insert rows upn by now id one x free = elim (Bool-cases (text_eq (lower upn) (lower x))) [
  | inl same ↦ ground (
    arith,
    count_where_of_none (invites upn) (invites x) (λ p h. rw (text_eq_sound _ _ same) h) rows free,
  )
  | inr other ↦ ground (arith, one x)
]

module _ {R : Type 0} (test : R → Bool) where
  -- An update that makes no row pass the test.
  count_where-update_where :
      (hit : R → Bool) (set : R → R)
      → ((r : R) → test (set r) ≡ true → test r ≡ true)
      → (rows : List R) → count_where test (update_where hit set rows) ≤ count_where test rows
  unfolding count_where update_where
  count_where-update_where hit set keep [] = omega arith
  count_where-update_where hit set keep (r ∷ rows) =
      ground (arith, keep r, count_where-update_where hit set keep rows)

  count_where-delete_where :
      (hit : R → Bool) (rows : List R)
      → count_where test (delete_where hit rows) ≤ count_where test rows
  unfolding count_where delete_where
  count_where-delete_where hit [] = omega arith
  count_where-delete_where hit (r ∷ rows) = ground (arith, count_where-delete_where hit rows)

removed-holds_oid :
    (by now oid : Text) (r : StewardRow)
    → holds_oid oid (set_removed by now r) ≡ true
    → holds_oid oid r ≡ true
removed-holds_oid by now oid r h = ground arith

demoted-AtMostOne :
    (id : ℕ) (by now : Text) (rows : List StewardRow)
    → AtMostOne holds_oid rows
    → AtMostOne holds_oid (update_where (is_current id) (set_removed by now) rows)
demoted-AtMostOne id by now rows one x = omega (
  arith,
  one x,
  count_where-update_where (holds_oid x) (is_current id) (set_removed by now)
      (removed-holds_oid by now x) rows,
)

withdrawn-AtMostOne :
    (hit : PendingSteward → Bool) (rows : List PendingSteward)
    → AtMostOne invites rows
    → AtMostOne invites (delete_where hit rows)
withdrawn-AtMostOne hit rows one x =
    omega (arith, one x, count_where-delete_where (invites x) hit rows)

-- No identity has two active rows, and no UPN two invitations.
pub apply-HasUniqueRoles :
    (t : Times) (r : Request) (d : Database) → HasUniqueRoles d → HasUniqueRoles (apply t r d)
unfolding apply logged insert_row Persons.create_person Persons.rename_person Systems.create_system
    Systems.rename_system Systems.disable_system Systems.enable_system
    Associations.create_association Associations.remove_association Stewards.promote_steward
    Stewards.demote_steward Stewards.cancel_steward_invite Stewards.claim_pending_steward
    Tenant.bootstrap
apply-HasUniqueRoles t (create_person a name) d h = ground arith
apply-HasUniqueRoles t (rename_person a id name) d h = ground arith
apply-HasUniqueRoles t (create_system a name) d h = ground arith
apply-HasUniqueRoles t (rename_system a id name) d h = ground arith
apply-HasUniqueRoles t (disable_system a id) d h = ground arith
apply-HasUniqueRoles t (enable_system a id) d h = ground arith
apply-HasUniqueRoles t (create_association a p s foreign_id) d h = ground arith
apply-HasUniqueRoles t (remove_association a p id) d h = ground arith
apply-HasUniqueRoles t (promote_steward a upn) d h = record {
  active = λ x. ground (arith, h.active x);
  invited = λ x. ground (
    arith,
    h.invited x,
    invites-insert d.pending_stewards.rows (trim_space upn) a.upn t.now (suc d.pending_stewards.seq)
        h.invited x,
  );
}
apply-HasUniqueRoles t (demote_steward a id) d h = record {
  active =
      λ x. ground (arith, h.active x, demoted-AtMostOne id a.upn t.now d.stewards.rows h.active x);
  invited = λ x. ground (arith, h.invited x);
}
apply-HasUniqueRoles t (cancel_steward_invite a id) d h = record {
  active = λ x. ground (arith, h.active x);
  invited = λ x. ground (
    arith,
    h.invited x,
    withdrawn-AtMostOne (Stewards.pending_with_id id) d.pending_stewards.rows h.invited x,
  );
}
apply-HasUniqueRoles t (claim_pending_steward a) d h =
    elim (Option-cases (select_first (invites a.upn) d.pending_stewards.rows)) [
      | inl nothing ↦ ground (arith, h)
      | inr (p, found) ↦ record {
        active = λ x. ground (
          arith,
          h.active x,
          holds_oid-insert d.stewards.rows a.oid a.upn p.invited_by t.now (suc d.stewards.seq)
              h.active x,
        );
        invited = λ x. ground (
          arith,
          h.invited x,
          withdrawn-AtMostOne (Stewards.pending_with_id p.id) d.pending_stewards.rows h.invited x,
        );
      }
    ]
apply-HasUniqueRoles t (bootstrap c) d h = record {
  active = λ x. ground (
    arith,
    h.active x,
    holds_oid-insert d.stewards.rows c.oid c.upn (codes "bootstrap") t.now (suc d.stewards.seq)
        h.active x,
  );
  invited = λ x. ground (arith, h.invited x);
}
