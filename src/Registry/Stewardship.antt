-- ===== src/Registry/Stewardship.antt =====
-- The registry: the steward rows of the one who asks, and of the others.
use xensus.Base.{
  ℕ, suc, ◌<◌, ◌≤◌, ◌≡◌, refl, true, false, List, [], ◌∷◌, some, Text, ◌==◌, text_eq, arith,
  is_empty, Option-cases, inl, inr,
}
use xensus.Sql.{insert_row, select_first, count_where, update_where, max_rowid}
use xensus.Store.Schema.{StewardRow, Database}
use xensus.Store.Stewards.{holds_oid, is_current, set_removed}
use xensus.Core.Audit.{Actor}
use xensus.Registry.Identity.{Falls}
use xensus.Registry.Valid.{HasIds}
use xensus.Registry.Change.{logged}
use xensus.Registry.Persons
use xensus.Registry.Systems
use xensus.Registry.Associations
use xensus.Registry.Stewards
use xensus.Registry.Tenant
use xensus.Registry.Requests.{
  Request, create_person, rename_person, create_system, rename_system, disable_system,
  enable_system, create_association, remove_association, promote_steward, demote_steward,
  cancel_steward_invite, claim_pending_steward, bootstrap, actor_of, Times, apply,
}

-- How many rows give the role to `oid`.
abbrev pub active_rows : Text → Database → ℕ
active_rows oid d = count_where (holds_oid oid) d.stewards.rows

abbrev key : StewardRow → ℕ
key r = r.id

-- The rows below the ID are not demoted.
older-stay :
    (oid by now : Text) (id b : ℕ) (rows : List StewardRow)
    → b ≤ id
    → Falls key b rows
    → count_where (holds_oid oid) (update_where (is_current id) (set_removed by now) rows)
      ≡ count_where (holds_oid oid) rows
unfolding count_where update_where
older-stay oid by now id b [] le f = refl
older-stay oid by now id b (r ∷ rows) le f = ground (arith, older-stay oid by now id (key r) rows)

-- The demotion of one identity takes no row from another.
others-stay :
    (oid by now : Text) (id b : ℕ) (rows : List StewardRow) (r : StewardRow)
    → Falls key b rows
    → select_first (Stewards.with_id id) rows ≡ some r
    → text_eq r.user_oid oid ≡ false
    → count_where (holds_oid oid) (update_where (is_current id) (set_removed by now) rows)
      ≡ count_where (holds_oid oid) rows
unfolding count_where update_where select_first
others-stay oid by now id b [] r f found other = cc
others-stay oid by now id b (x ∷ rows) r f found other =
    ground (arith, older-stay oid by now id (key x) rows, others-stay oid by now id (key x) rows r)

-- Whoever asks holds the role afterwards as before.
pub apply-active_rows :
    (t : Times) (r : Request) (d : Database)
    → HasIds d
    → let oid = (actor_of r).oid in active_rows oid d ≤ active_rows oid (apply t r d)
unfolding count_where apply logged insert_row Persons.create_person Persons.rename_person
    Systems.create_system Systems.rename_system Systems.disable_system Systems.enable_system
    Associations.create_association Associations.remove_association Stewards.promote_steward
    Stewards.demote_steward Stewards.cancel_steward_invite Stewards.claim_pending_steward
    Tenant.bootstrap
apply-active_rows t (create_person a name) d h = ground arith
apply-active_rows t (rename_person a id name) d h = ground arith
apply-active_rows t (create_system a name) d h = ground arith
apply-active_rows t (rename_system a id name) d h = ground arith
apply-active_rows t (disable_system a id) d h = ground arith
apply-active_rows t (enable_system a id) d h = ground arith
apply-active_rows t (create_association a p s foreign_id) d h = ground arith
apply-active_rows t (remove_association a p id) d h = ground arith
apply-active_rows t (promote_steward a upn) d h = ground arith
apply-active_rows t (demote_steward a id) d h =
    elim (Option-cases (select_first (Stewards.with_id id) d.stewards.rows)) [
      | inl nothing ↦ ground arith
      | inr (r, found) ↦ ground (
        arith,
        others-stay a.oid a.upn t.now id (suc d.stewards.seq) d.stewards.rows r h.stewards found,
      )
    ]
apply-active_rows t (cancel_steward_invite a id) d h = ground arith
apply-active_rows t (claim_pending_steward a) d h = ground arith
apply-active_rows t (bootstrap c) d h = ground arith

pub demote-last :
    (t : Times) (a : Actor) (ra rb : StewardRow) (d : Database)
    → d.stewards.rows ≡ ra ∷ rb ∷ []
    → is_empty a.oid ≡ false
    → holds_oid rb.user_oid rb ≡ true
    → text_eq rb.user_oid a.oid ≡ false
    → (ra.id == rb.id) ≡ false
    → d.audit_log.seq < max_rowid
    → let d' = apply t (demote_steward a rb.id) d in
      (d'.stewards.rows ≡ ra ∷ set_removed a.upn t.now rb ∷ [])
      × (d'.audit_log.seq ≡ suc d.audit_log.seq)
unfolding apply logged insert_row Stewards.demote_steward select_first update_where
demote-last t a ra rb d rows known active other ids room = ground arith

pub demote-first :
    (t : Times) (a : Actor) (ra rb : StewardRow) (d : Database)
    → d.stewards.rows ≡ ra ∷ rb ∷ []
    → is_empty a.oid ≡ false
    → holds_oid ra.user_oid ra ≡ true
    → text_eq ra.user_oid a.oid ≡ false
    → (ra.id == rb.id) ≡ false
    → d.audit_log.seq < max_rowid
    → (apply t (demote_steward a ra.id) d).stewards.rows ≡ set_removed a.upn t.now ra ∷ rb ∷ []
unfolding apply logged insert_row Stewards.demote_steward select_first update_where
demote-first t a ra rb d rows known active other ids room = ground arith
