-- ===== src/Store/Entries.antt =====
-- store/store.go: the migrations among the embedded files.
use xensus.Base.{ℕ, ◌≡◌, refl, Option, none, some, List, [], ◌∷◌, Text}
use xensus.Store.Names.{IsNamed, name_version-IsNamed, unversioned-IsNamed}
use xensus.Store.Migrations.{Migration, read_entry, name_version, collect}

-- The migrations among the entries of the directory, in its order: an entry that is not named as a
-- migration is passed over, and one that is gives its content the version in the name.
pub data Collected : List (Text × Option Text) → List Migration → Type 0 where
  nothing : Collected [] []
  passed :
      {name : Text} {content : Option Text} {entries : List (Text × Option Text)}
      {ms : List Migration}
      → ((v : ℕ) → ¬ IsNamed name v)
      → Collected entries ms
      → Collected ((name, content) ∷ entries) ms
  taken :
      {name sql : Text} {entries : List (Text × Option Text)} {ms : List Migration}
      → (v : ℕ) → IsNamed name v
      → Collected entries ms
      → Collected ((name, some sql) ∷ entries) (record { version = v; sql = sql } ∷ ms)

-- There is a migration that cannot be read.
pub data Unread : List (Text × Option Text) → Type 0 where
  this_one :
      {name : Text} {entries : List (Text × Option Text)}
      → (v : ℕ) → IsNamed name v
      → Unread ((name, none) ∷ entries)
  later_one :
      {entry : Text × Option Text} {entries : List (Text × Option Text)}
      → Unread entries
      → Unread (entry ∷ entries)

abbrev pub Reading : List (Text × Option Text) → Option (List Migration) → Type 0
Reading entries none = Unread entries
Reading entries (some ms) = Collected entries ms

passed-Reading :
    (name : Text) (content : Option Text) (entries : List (Text × Option Text))
    (o : Option (List Migration))
    → name_version name ≡ none
    → Reading entries o
    → Reading ((name, content) ∷ entries) o
passed-Reading name content entries none e r = later_one r
passed-Reading name content entries (some ms) e r = passed (λ v. unversioned-IsNamed name v e) r

taken-Reading :
    (name sql : Text) (entries : List (Text × Option Text)) (o : Option (List Migration)) (v : ℕ)
    → name_version name ≡ some v
    → Reading entries o
    → Reading ((name, some sql) ∷ entries) (read_entry (some v) (some sql) o)
taken-Reading name sql entries none v e r = later_one r
taken-Reading name sql entries (some ms) v e r = taken v (name_version-IsNamed name v e) r

entry-Reading :
    (name : Text) (content : Option Text) (entries : List (Text × Option Text)) (o : Option ℕ)
    → name_version name ≡ o
    → Reading entries (collect entries)
    → Reading ((name, content) ∷ entries) (read_entry o content (collect entries))
entry-Reading name content entries none e r =
    passed-Reading name content entries (collect entries) e r
entry-Reading name none entries (some v) e r = this_one v (name_version-IsNamed name v e)
entry-Reading name (some sql) entries (some v) e r =
    taken-Reading name sql entries (collect entries) v e r

pub collect-Reading : (entries : List (Text × Option Text)) → Reading entries (collect entries)
unfolding collect
collect-Reading [] = nothing
collect-Reading ((name, content) ∷ entries) =
    entry-Reading name content entries (name_version name) refl (collect-Reading entries)
