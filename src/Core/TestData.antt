-- ===== src/Core/TestData.antt =====
-- A small database in use, and the drivers on which the tests run.
use xensus.Base.{
  ◌≤◌, false, [], ◌∷◌, none, some, inl, inr, Bool-cases, Text, codes, text_eq, text_eq_sound, arith,
  ◌==◌,
}
use xensus.Sql.{count_where, select_first}
use xensus.Store.Stewards.{holds_oid, new_steward}
use xensus.Registry.Roles.{HasUniqueRoles}
use xensus.Registry.Links.{HasLinks, Linked}
use xensus.Store.Schema.{Person, SystemRow, AssociationRow, StewardRow, PendingSteward, Database}
use xensus.Store.Session.{Driver, Session}
use xensus.Store.Persons.{new_person}
use xensus.Store.Systems.{new_system}
use xensus.Store.Associations.{new_association}
use xensus.Store.PendingStewards.{new_pending_steward}
use xensus.Core.Audit.{Actor}
use xensus.Core.Bootstrap.{BootstrapClaim}
use xensus.Registry.Valid.{HasIds}

abbrev pub noon : Text
noon = codes "2026-01-02T12:00:00.000Z"

-- A driver of which no call fails.
abbrev pub steady : Driver
steady = record { fails = λ _. false; strftime_now = λ _. noon; go_now = λ _. noon }

-- A driver whose fifth call fails.
abbrev pub flaky : Driver
flaky = record steady { fails = λ n. n == 4 }

abbrev pub alice : Actor
alice = record { oid = codes "oid-alice"; upn = codes "alice@example.com" }

abbrev pub bob : Actor
bob = record { oid = codes "oid-bob"; upn = codes "bob@example.com" }

abbrev pub carol : Actor
carol = record { oid = codes "oid-carol"; upn = codes "carol@example.com" }

abbrev pub claim_of_alice : BootstrapClaim
claim_of_alice = record { oid = alice.oid; upn = alice.upn; tid = codes "contoso" }

abbrev pub ada : Person
ada = new_person (codes "Ada") alice.upn noon 1

abbrev pub payroll : SystemRow
payroll = new_system (codes "Payroll") alice.upn noon 1

abbrev pub link : AssociationRow
link = new_association 1 1 (codes "E-17") alice.upn noon 1

abbrev pub steward_1 : StewardRow
steward_1 = new_steward alice.oid alice.upn (codes "bootstrap") noon 1

abbrev pub steward_2 : StewardRow
steward_2 = new_steward bob.oid bob.upn alice.upn noon 2

-- The invitation of bob, who is a steward.
abbrev pub stale_invitation : PendingSteward
stale_invitation = new_pending_steward bob.upn alice.upn noon 1

abbrev pub book : Database
book = record {
  config = record {
    tenant_id = some (codes "contoso");
    schema_version = 1;
    bootstrapped_at = some noon;
  };
  persons = record { seq = 1; rows = ada ∷ [] };
  systems = record { seq = 1; rows = payroll ∷ [] };
  associations = record { seq = 1; rows = link ∷ [] };
  stewards = record { seq = 2; rows = steward_2 ∷ steward_1 ∷ [] };
  pending_stewards = record { seq = 1; rows = stale_invitation ∷ [] };
  audit_log = record { seq = 0; rows = [] };
}

-- A database that no one has bootstrapped.
abbrev pub blank : Database
blank = record {
  config = record { tenant_id = none; schema_version = 1; bootstrapped_at = none };
  persons = record { seq = 0; rows = [] };
  systems = record { seq = 0; rows = [] };
  associations = record { seq = 0; rows = [] };
  stewards = record { seq = 0; rows = [] };
  pending_stewards = record { seq = 0; rows = [] };
  audit_log = record { seq = 0; rows = [] };
}

abbrev pub at_rest : Driver → Database → Session
at_rest driver d = record { driver = driver; tick = 0; committed = d; working = none }

pub book-HasIds : HasIds book
book-HasIds = record {
  persons = (omega arith, tt);
  systems = (omega arith, tt);
  associations = (omega arith, tt);
  stewards = (omega arith, (omega arith, tt));
  pending_stewards = (omega arith, tt);
  audit_log = tt;
}

pub book-HasLinks : HasLinks book
unfolding Linked select_first
book-HasLinks = (tt, tt, tt)

book-active : (x : Text) → count_where (holds_oid x) book.stewards.rows ≤ 1
unfolding count_where text_eq
book-active x = elim (Bool-cases (text_eq bob.oid x)) [
  | inl same ↦ rw (← text_eq_sound bob.oid x same) (omega arith)
  | inr other ↦ ground (arith, other)
]

pub book-HasUniqueRoles : HasUniqueRoles book
unfolding count_where
book-HasUniqueRoles = record { active = book-active; invited = λ x. ground arith }
