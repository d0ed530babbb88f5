-- ===== src/Core/Maintenance.antt =====
-- core/stewards.go: the stewards over requests that come one after the other.
use xensus.Base.{
  ℕ, suc, ◌<◌, ◌≤◌, ◌≡◌, refl, ◌⊎◌, true, false, List, [], ◌∷◌, none, Text, text_eq, text_eq_refl,
  ap, ◌∙◌, is_empty, ◌==◌, arith, inl, inr,
}
use xensus.Sql.{count_where, max_rowid}
use xensus.Store.Schema.{StewardRow, Database}
use xensus.Store.Session.{Session}
use xensus.Store.Stewards.{holds_oid, set_removed}
use xensus.Registry.Requests.{Request, actor_of, demote_steward}
use xensus.Core.Audit.{Actor}
use xensus.Registry.Valid.{HasIds}
use xensus.Registry.Roles.{HasUniqueRoles, apply-HasUniqueRoles}
use xensus.Registry.Stewardship.{demote-last, demote-first, active_rows, apply-active_rows}
use xensus.Registry.Governance.{is_active, HasSteward, active_rows-le}
use xensus.Core.Serve.{
  serve, serve-works, times, serve-HasIds, serve-Follows, serve_all, serve_all-keeps,
}

-- Where no transaction is open, no identity has two active steward rows and no UPN two invitations,
-- then the same holds after any requests.
pub serve_all-HasUniqueRoles :
    (rs : List Request) (s : Session)
    → s.working ≡ none
    → HasUniqueRoles s.committed
    → HasUniqueRoles (serve_all rs s).committed
serve_all-HasUniqueRoles = serve_all-keeps HasUniqueRoles apply-HasUniqueRoles

-- Where no transaction is open and every table's IDs fall from the newest row, whose ID is at most
-- the counter, to the oldest, a request takes no active steward row from the one who asks.
pub serve-active_rows :
    (r : Request) (s : Session)
    → s.working ≡ none
    → HasIds s.committed
    → let oid = (actor_of r).oid in
      active_rows oid s.committed ≤ active_rows oid (serve r s).committed
serve-active_rows r s idle ids = elim (serve-Follows r s idle).2 [
  | inl (_, same) ↦ rw same (omega arith)
  | inr new ↦ rw new (apply-active_rows _ r s.committed ids)
]

-- Each of the requests comes from a steward, at the time when it is served.
abbrev pub FromStewards : List Request → Session → Type 0
FromStewards [] s = Unit
FromStewards (r ∷ rs) s =
    (0 < active_rows (actor_of r).oid s.committed) × FromStewards rs (serve r s)

-- Where no transaction is open, every table's IDs fall from the newest row, whose ID is at most the
-- counter, to the oldest and there is a steward: if every request comes from a steward of its
-- moment, there is a steward afterwards.
pub serve_all-HasSteward :
    (rs : List Request) (s : Session)
    → s.working ≡ none
    → HasIds s.committed
    → HasSteward s.committed
    → FromStewards rs s
    → HasSteward (serve_all rs s).committed
unfolding serve_all
serve_all-HasSteward [] s idle ids some_one from = some_one
serve_all-HasSteward (r ∷ rs) s idle ids some_one from =
    let d' = (serve r s).committed in
    let oid = (actor_of r).oid in
    let idle' = (serve-Follows r s idle).0 in
    let ids' = serve-HasIds r s idle ids in
    serve_all-HasSteward rs (serve r s) idle' ids'
      (omega (arith, from.0, serve-active_rows r s idle ids, active_rows-le oid d'.stewards.rows))
      from.1

counts-either :
    (oid : Text) (ra rb : StewardRow) (rows : List StewardRow)
    → rows ≡ ra ∷ rb ∷ []
    → holds_oid oid ra ≡ true ⊎ holds_oid oid rb ≡ true
    → 0 < count_where (holds_oid oid) rows
unfolding count_where
counts-either oid ra rb rows e h = rw e (ground (arith, h))

counts-none :
    (ra rb : StewardRow) (by by' now now' : Text) (rows : List StewardRow)
    → rows ≡ set_removed by now ra ∷ set_removed by' now' rb ∷ []
    → count_where is_active rows ≡ 0
unfolding count_where
counts-none ra rb by by' now now' rows e = rw e refl

-- Two identities, of which one holds the role by each of the table's two rows.
pub record ShareRoles (a b : Actor) (ra rb : StewardRow) (d : Database) : Type 0 where
  pub rows : d.stewards.rows ≡ ra ∷ rb ∷ []
  pub first : ra.user_oid ≡ a.oid
  pub second : rb.user_oid ≡ b.oid
  pub first_active : ra.removed_at ≡ none
  pub second_active : rb.removed_at ≡ none
  pub distinct : text_eq b.oid a.oid ≡ false
  pub distinct' : text_eq a.oid b.oid ≡ false
  pub distinct_ids : (ra.id == rb.id) ≡ false
  pub known : is_empty a.oid ≡ false
  pub known' : is_empty b.oid ≡ false
  pub room : suc d.audit_log.seq < max_rowid

-- Where the table has the rows of two active stewards alone, the log has room, no transaction is
-- open and no call of the driver fails: both hold the role, and when the first demotes the second
-- and then the second, let in before, demotes the first, no active steward is left.
pub mutual_demotion-LeavesNone :
    (a b : Actor) (ra rb : StewardRow) (s : Session)
    → s.working ≡ none
    → ((n : ℕ) → s.driver.fails n ≡ false)
    → ShareRoles a b ra rb s.committed
    → (0 < active_rows a.oid s.committed)
      × (0 < active_rows b.oid s.committed)
      × (count_where is_active
            (serve_all
              (demote_steward a rb.id ∷ demote_steward b ra.id ∷ [])
              s).committed.stewards.rows
          ≡ 0)
unfolding serve_all
mutual_demotion-LeavesNone a b ra rb s idle works roles =
    let r = demote_steward a rb.id in
    let s' = serve r s in
    let after = serve-works r s idle works in
    let works' : (n : ℕ) → s'.driver.fails n ≡ false =
      λ n. rw (serve-Follows r s idle).1 (works n) in
    let after' = serve-works (demote_steward b ra.id) s' (serve-Follows r s idle).0 works' in
    let first =
      demote-last (times r s) a ra rb s.committed roles.rows roles.known
        (rw (text_eq_refl rb.user_oid, roles.second_active) refl) (rw roles.second roles.distinct)
        roles.distinct_ids (omega (arith, roles.room)) in
    let rows' = ap (λ d. d.stewards.rows) after ∙ first.0 in
    let log' = ap (λ d. d.audit_log.seq) after ∙ first.1 in
    let second =
      demote-first (times (demote_steward b ra.id) s') b ra (set_removed a.upn (times r s).now rb)
        s'.committed rows' roles.known' (rw (text_eq_refl ra.user_oid, roles.first_active) refl)
        (rw roles.first roles.distinct') roles.distinct_ids (rw log' roles.room) in
    (
      counts-either a.oid ra rb _ roles.rows
          (inl (rw (roles.first, text_eq_refl a.oid, roles.first_active) refl)),
      counts-either b.oid ra rb _ roles.rows
          (inr (rw (roles.second, text_eq_refl b.oid, roles.second_active) refl)),
      counts-none ra rb _ _ _ _ _ (ap (λ d. d.stewards.rows) after' ∙ second),
    )
