-- ===== src/Registry/Errors.antt =====
-- The registry: operations that end in an error.
use xensus.Base.{ℕ, ◌≡◌, Text, arith}
use xensus.Sql.{insert_row}
use xensus.Store.Schema.{Database}
use xensus.Store.Session.{Result, ok, err}
use xensus.Core.Audit.{Actor}
use xensus.Registry.Change.{logged}
use xensus.Registry.Persons
use xensus.Registry.Systems
use xensus.Registry.Associations
use xensus.Registry.Stewards

-- An error comes with the old database.
abbrev pub KeepsOnError : {A : Type 0} → Database → Result A × Database → Type 0
KeepsOnError d (ok a, d') = Unit
KeepsOnError d (err e, d') = d' ≡ d

pub create_person-KeepsOnError :
    (now : Text) (at : Text) (a : Actor) (name : Text) (d : Database)
    → KeepsOnError d (Persons.create_person now at a name d)
unfolding Persons.create_person logged insert_row
create_person-KeepsOnError now at a name d = ground arith

pub rename_person-KeepsOnError :
    (now : Text) (at : Text) (a : Actor) (id : ℕ) (name : Text) (d : Database)
    → KeepsOnError d (Persons.rename_person now at a id name d)
unfolding Persons.rename_person logged insert_row
rename_person-KeepsOnError now at a id name d = ground arith

pub create_system-KeepsOnError :
    (now : Text) (at : Text) (a : Actor) (name : Text) (d : Database)
    → KeepsOnError d (Systems.create_system now at a name d)
unfolding Systems.create_system logged insert_row
create_system-KeepsOnError now at a name d = ground arith

pub rename_system-KeepsOnError :
    (now : Text) (at : Text) (a : Actor) (id : ℕ) (name : Text) (d : Database)
    → KeepsOnError d (Systems.rename_system now at a id name d)
unfolding Systems.rename_system logged insert_row
rename_system-KeepsOnError now at a id name d = ground arith

pub disable_system-KeepsOnError :
    (now : Text) (at : Text) (a : Actor) (id : ℕ) (d : Database)
    → KeepsOnError d (Systems.disable_system now at a id d)
unfolding Systems.disable_system logged insert_row
disable_system-KeepsOnError now at a id d = ground arith

pub enable_system-KeepsOnError :
    (now : Text) (at : Text) (a : Actor) (id : ℕ) (d : Database)
    → KeepsOnError d (Systems.enable_system now at a id d)
unfolding Systems.enable_system logged insert_row
enable_system-KeepsOnError now at a id d = ground arith

pub create_association-KeepsOnError :
    (now : Text) (at : Text) (a : Actor) (p : ℕ) (y : ℕ) (f : Text) (d : Database)
    → KeepsOnError d (Associations.create_association now at a p y f d)
unfolding Associations.create_association logged insert_row
create_association-KeepsOnError now at a p y f d = ground arith

pub remove_association-KeepsOnError :
    (at : Text) (a : Actor) (p : ℕ) (id : ℕ) (d : Database)
    → KeepsOnError d (Associations.remove_association at a p id d)
unfolding Associations.remove_association logged insert_row
remove_association-KeepsOnError at a p id d = ground arith

pub promote_steward-KeepsOnError :
    (now : Text) (at : Text) (a : Actor) (upn : Text) (d : Database)
    → KeepsOnError d (Stewards.promote_steward now at a upn d)
unfolding Stewards.promote_steward logged insert_row
promote_steward-KeepsOnError now at a upn d = ground arith

pub demote_steward-KeepsOnError :
    (now : Text) (at : Text) (a : Actor) (id : ℕ) (d : Database)
    → KeepsOnError d (Stewards.demote_steward now at a id d)
unfolding Stewards.demote_steward logged insert_row
demote_steward-KeepsOnError now at a id d = ground arith

pub cancel_steward_invite-KeepsOnError :
    (at : Text) (a : Actor) (id : ℕ) (d : Database)
    → KeepsOnError d (Stewards.cancel_steward_invite at a id d)
unfolding Stewards.cancel_steward_invite logged insert_row
cancel_steward_invite-KeepsOnError at a id d = ground arith
