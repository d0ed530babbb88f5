-- ===== src/Core/Tests.antt =====
-- The theorems at concrete databases and drivers.
use xensus.Base.{
  ◌<◌, ◌≤◌, ◌≡◌, refl, true, List, [], ◌∷◌, some, codes, arith, ltb, trim_space, trim_left,
  is_space, text_eq, text_eq_refl, length, All,
}
use xensus.Sql.{insert_row, select_first, count_where, update_where, delete_where}
use xensus.Store.Schema.{Person, AssociationRow}
use xensus.Store.Session.{
  Session, ok, exec, query_row, begin_tx, commit, rollback, or_rollback, no_rows_as, row_or_none,
  ◌>>=◌,
}
use xensus.Store.Persons as StorePersons
use xensus.Store.Associations as StoreAssociations
use xensus.Store.Systems as StoreSystems
use xensus.Store.Associations.{Association}
use xensus.Store.Stewards.{holds_oid}
use xensus.Store.PendingStewards.{invites}
use xensus.Registry.Requests.{Request, apply}
use xensus.Registry.Requests as Ask
use xensus.Registry.Stewards as RegistryStewards
use xensus.Registry.Roles.{HasUniqueRoles}
use xensus.Registry.Permanence.{Registered}
use xensus.Registry.Links.{HasLinks}
use xensus.Registry.Audited.{IsAudited}
use xensus.Registry.Stewardship.{active_rows}
use xensus.Registry.Governance.{HasSteward, is_active}
use xensus.Core.Audit.{write_audit}
use xensus.Core.Persons.{create_person, rename_person}
use xensus.Core.Associations.{create_association, remove_association}
use xensus.Core.Stewards.{claim_pending_steward}
use xensus.Core.Refinement
use xensus.Core.Refinement.{Refines}
use xensus.Core.Serve.{serve, serve_all, serve-Follows, Follows, times}
use xensus.Core.Identities.{
  create_person-IsFresh, create_association-IsFresh, serve_all-Registered, serve_all-HasLinks,
}
use xensus.Core.History.{serve-IsAudited, stale_claim-IsUnrecorded}
use xensus.Core.Maintenance.{
  serve_all-HasUniqueRoles, serve-active_rows, FromStewards, ShareRoles, mutual_demotion-LeavesNone,
}
use xensus.Core.TestData.{
  book-HasLinks, book-HasUniqueRoles, steady, flaky, noon, alice, bob, ada, steward_1, steward_2,
  stale_invitation, book, at_rest, book-HasIds,
}

abbrev steady_book : Session
steady_book = at_rest steady book

abbrev flaky_book : Session
flaky_book = at_rest flaky book

claim_pending_steward-Refines_example :
    Refines steady_book
      (claim_pending_steward bob steady_book)
      (RegistryStewards.claim_pending_steward noon noon bob book)
claim_pending_steward-Refines_example =
    Refinement.Claims.claim_pending_steward-Refines bob steady_book refl

abbrev clearing : List Request
clearing = Ask.remove_association alice 1 1 ∷ Ask.rename_person bob 1 (codes "Ada L.") ∷ []

serve-Follows_example :
    Follows flaky_book
      (serve (Ask.demote_steward alice 2) flaky_book)
      (apply (times (Ask.demote_steward alice 2) flaky_book) (Ask.demote_steward alice 2) book)
serve-Follows_example = serve-Follows (Ask.demote_steward alice 2) flaky_book refl

abbrev grace : Person
grace = StorePersons.new_person (codes "Grace") alice.upn noon 2

grace-created :
    (create_person alice (codes " Grace ") (serve_all clearing steady_book)).0 ≡ ok grace
unfolding serve_all serve exec query_row begin_tx commit rollback or_rollback no_rows_as row_or_none
    ◌>>=◌ write_audit insert_row select_first count_where update_where delete_where text_eq
    trim_space trim_left is_space create_person remove_association rename_person
    StorePersons.insert_person StorePersons.get_person StorePersons.update_person_name
    StoreAssociations.get_association StoreAssociations.delete_association
grace-created = refl

create_person-IsFresh_example : All (λ (q : Person). q.id < 2) (ada ∷ [])
create_person-IsFresh_example =
    create_person-IsFresh clearing alice (codes " Grace ") steady_book grace refl book-HasIds
      grace-created

abbrev second_link : Association
second_link = record {
  id = 2;
  person_id = 1;
  system_id = 1;
  system_name = codes "Payroll";
  foreign_id = codes "E-18";
  created_at = noon;
  created_by = alice.upn;
}

link-created :
    (create_association alice 1 1 (codes "E-18") (serve_all clearing steady_book)).0
    ≡ ok second_link
unfolding serve_all serve exec query_row begin_tx commit rollback or_rollback no_rows_as row_or_none
    ◌>>=◌ write_audit insert_row select_first count_where update_where delete_where text_eq
    trim_space trim_left is_space create_association remove_association rename_person
    StorePersons.get_person StorePersons.update_person_name StoreAssociations.get_association
    StoreAssociations.delete_association StoreAssociations.insert_association
    StoreSystems.get_system
link-created = refl

create_association-IsFresh_example : All (λ (b : AssociationRow). b.id < 2) book.associations.rows
create_association-IsFresh_example =
    create_association-IsFresh clearing alice 1 1 (codes "E-18") steady_book second_link refl
      book-HasIds link-created

ada-Registered : Registered ada book
unfolding select_first
ada-Registered = (refl, refl, refl)

serve_all-Registered_example : Registered ada (serve_all clearing steady_book).committed
serve_all-Registered_example =
    serve_all-Registered ada clearing steady_book refl book-HasIds ada-Registered

serve_all-HasLinks_example : HasLinks (serve_all clearing steady_book).committed
serve_all-HasLinks_example = serve_all-HasLinks clearing steady_book refl book-HasLinks

serve-IsAudited_example :
    IsAudited
      (Ask.claim_pending_steward bob)
      noon
      book
      (serve (Ask.claim_pending_steward bob) steady_book).committed
serve-IsAudited_example = serve-IsAudited (Ask.claim_pending_steward bob) steady_book refl

bob-active : ltb 0 (count_where (holds_oid bob.oid) book.stewards.rows) ≡ true
unfolding count_where text_eq
bob-active = refl

bob-invited : select_first (invites bob.upn) book.pending_stewards.rows ≡ some stale_invitation
unfolding select_first
bob-invited = rw (text_eq_refl _) refl

stale_claim-IsUnrecorded_example :
    let d' = (serve (Ask.claim_pending_steward bob) steady_book).committed in
    (d'.audit_log ≡ book.audit_log) × (length d'.pending_stewards.rows < 1)
stale_claim-IsUnrecorded_example =
    stale_claim-IsUnrecorded bob steady_book stale_invitation refl (λ _. refl) refl refl bob-active
      bob-invited

serve_all-HasUniqueRoles_example : HasUniqueRoles (serve_all clearing steady_book).committed
serve_all-HasUniqueRoles_example =
    serve_all-HasUniqueRoles clearing steady_book refl book-HasUniqueRoles

serve-active_rows_example :
    active_rows alice.oid book
    ≤ active_rows alice.oid (serve (Ask.demote_steward alice 1) steady_book).committed
serve-active_rows_example =
    serve-active_rows (Ask.demote_steward alice 1) steady_book refl book-HasIds

book-HasSteward : HasSteward book
unfolding count_where
book-HasSteward = omega arith

alice-asks : FromStewards (Ask.demote_steward alice 2 ∷ []) steady_book
unfolding count_where text_eq
alice-asks = (omega arith, tt)

shared : ShareRoles bob alice steward_2 steward_1 book
unfolding text_eq
shared = record {
  rows = refl;
  first = refl;
  second = refl;
  first_active = refl;
  second_active = refl;
  distinct = refl;
  distinct' = refl;
  distinct_ids = refl;
  known = refl;
  known' = refl;
  room = omega arith;
}

mutual_demotion-LeavesNone_example :
    (0 < active_rows bob.oid book)
    × (0 < active_rows alice.oid book)
    × (count_where is_active
          (serve_all
            (Ask.demote_steward bob 1 ∷ Ask.demote_steward alice 2 ∷ [])
            steady_book).committed.stewards.rows
        ≡ 0)
mutual_demotion-LeavesNone_example =
    mutual_demotion-LeavesNone bob alice steward_2 steward_1 steady_book refl (λ _. refl) shared
