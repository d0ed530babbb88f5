-- ===== src/Store/Upgrade.antt =====
-- store/store.go: which migrations a start applies.
use xensus.Base.{
  zero, suc, ◌==◌, ℕ, ◌≡◌, refl, ◌∙◌, inl, inr, Bool, true, false, ◌&&◌, leb, ltb, Option, none,
  some, List, [], ◌∷◌, Text, All, Bool-cases, arith,
}
use xensus.Sql.{select_where}
use xensus.Sql.Order.{
  order_by, IsSorted, order_by-IsSorted, by_number-IsOrder, count_where-order_by,
}
use xensus.Sql.Selected.{IsListing, select_where-All, count_where-select_where}
use xensus.Store.Migrations.{
  Engine, Migration, version_when, collect, by_version, current_schema_version, then_, apply_all,
  apply_from, apply_sorted, run_migrations,
}
use xensus.Store.Entries.{Collected, Unread, Reading, collect-Reading}

module _ {ℓ} {R : Type ℓ} where
  select_where-keeps :
      (P : R → Type 0) (test : R → Bool) (rs : List R) → All P rs → All P (select_where test rs)
  unfolding select_where
  select_where-keeps P test [] h = tt
  select_where-keeps P test (r ∷ rs) (p, h) = elim (Bool-cases (test r)) [
    | inl hit ↦ rw hit (p, select_where-keeps P test rs h)
    | inr miss ↦ rw miss (select_where-keeps P test rs h)
  ]

  select_where-IsSorted :
      (before : R → R → Bool) (test : R → Bool) (rs : List R)
      → IsSorted before rs
      → IsSorted before (select_where test rs)
  unfolding select_where
  select_where-IsSorted before test [] h = tt
  select_where-IsSorted before test (r ∷ rs) (p, h) = elim (Bool-cases (test r)) [
    | inl hit ↦ rw hit (
      select_where-keeps (λ y. before r y ≡ true) test rs p,
      select_where-IsSorted before test rs h,
    )
    | inr miss ↦ rw miss (select_where-IsSorted before test rs h)
  ]

pending-IsListing :
    (current : ℕ) (ms : List Migration)
    → IsListing
        (λ m. ltb current m.version)
        by_version
        ms
        (select_where (λ m. ltb current m.version) (order_by by_version ms))
pending-IsListing current ms =
    let test : Migration → Bool = λ m. ltb current m.version in
    record {
      sorted =
          select_where-IsSorted by_version test (order_by by_version ms)
            (order_by-IsSorted by_version ms (by_number-IsOrder (λ m. m.version)));
      passes = select_where-All test (order_by by_version ms);
      complete = λ other.
          count_where-select_where test other (order_by by_version ms)
          ∙ count_where-order_by by_version (λ m. test m && other m) ms;
    }

module _ (engine : Engine) where
  -- The version of a disk: 0 without the table config, and else the one recorded in it.
  pub data HasVersion (d : engine.Disk) : Option ℕ → Type 0 where
    fresh : engine.count_config d ≡ some 0 → HasVersion d (some 0)
    recorded : (n : ℕ) → engine.count_config d ≡ some (suc n) → HasVersion d (engine.read_version d)
    uncounted : engine.count_config d ≡ none → HasVersion d none

  version_when-HasVersion :
      (d : engine.Disk) (o : Option ℕ)
      → engine.count_config d ≡ o
      → HasVersion d (version_when engine d o)
  version_when-HasVersion d none e = uncounted e
  version_when-HasVersion d (some zero) e = fresh e
  version_when-HasVersion d (some (suc n)) e =
      let positive : (suc n == 0) ≡ false = ground arith in rw positive (recorded n e)

  current-HasVersion : (d : engine.Disk) → HasVersion d (current_schema_version engine d)
  unfolding current_schema_version
  current-HasVersion d = version_when-HasVersion d (engine.count_config d) refl

  -- Scripts that run one after the other, each with its version recorded after it, on the way from one
  -- disk to another; or up to a call that fails.
  pub data Runs : List Migration → engine.Disk → Bool × engine.Disk → Type 0 where
    finished : {d : engine.Disk} → Runs [] d (true, d)
    applied :
        {m : Migration} {ms : List Migration} {d d' d'' : engine.Disk} {end : Bool × engine.Disk}
        → engine.run_script m.sql d ≡ (true, d')
        → engine.record_version m.version d' ≡ (true, d'')
        → Runs ms d'' end
        → Runs (m ∷ ms) d end
    script_failed :
        {m : Migration} {ms : List Migration} {d d' : engine.Disk}
        → engine.run_script m.sql d ≡ (false, d')
        → Runs (m ∷ ms) d (false, d')
    record_failed :
        {m : Migration} {ms : List Migration} {d d' d'' : engine.Disk}
        → engine.run_script m.sql d ≡ (true, d')
        → engine.record_version m.version d' ≡ (false, d'')
        → Runs (m ∷ ms) d (false, d'')

  -- What a start does to a disk: it fails and leaves it, where the files or the version in it cannot be
  -- read, or it runs the scripts of the migrations above that version, in the order of their versions.
  pub data Upgrades (files : Option (List (Text × Option Text))) (d : engine.Disk)
      : Bool × engine.Disk → Type 0 where
    no_files : files ≡ none → Upgrades files d (false, d)
    no_content :
        (entries : List (Text × Option Text))
        → files ≡ some entries
        → Unread entries
        → Upgrades files d (false, d)
    no_version : HasVersion d none → Upgrades files d (false, d)
    upgraded :
        (entries : List (Text × Option Text)) (ms pending : List Migration) (current : ℕ)
        {end : Bool × engine.Disk}
        → files ≡ some entries
        → Collected entries ms
        → HasVersion d (some current)
        → IsListing (λ m. ltb current m.version) (λ a b. leb a.version b.version) ms pending
        → Runs pending d end
        → Upgrades files d end

  abbrev newer : ℕ → Migration → Bool
  newer current m = ltb current m.version

  recorded-Runs :
      (m : Migration) (ms : List Migration) (d d' : engine.Disk) (x : Bool × engine.Disk)
      (rest : engine.Disk → Bool × engine.Disk)
      → engine.run_script m.sql d ≡ (true, d')
      → engine.record_version m.version d' ≡ x
      → ((e : engine.Disk) → Runs ms e (rest e))
      → Runs (m ∷ ms) d (then_ engine x rest)
  recorded-Runs m ms d d' (true, e) rest ran wrote next = applied ran wrote (next e)
  recorded-Runs m ms d d' (false, e) rest ran wrote next = record_failed ran wrote

  script-Runs :
      (m : Migration) (ms : List Migration) (d : engine.Disk) (x : Bool × engine.Disk)
      (rest : engine.Disk → Bool × engine.Disk)
      → engine.run_script m.sql d ≡ x
      → ((e : engine.Disk) → Runs ms e (rest e))
      → Runs
          (m ∷ ms)
          d
          (then_ engine x (λ e. then_ engine (engine.record_version m.version e) rest))
  script-Runs m ms d (true, e) rest ran next =
      recorded-Runs m ms d e (engine.record_version m.version e) rest ran refl next
  script-Runs m ms d (false, e) rest ran next = script_failed ran

  apply_all-Runs :
      (current : ℕ) (ms : List Migration) (d : engine.Disk)
      → Runs (select_where (newer current) ms) d (apply_all engine current ms d)
  unfolding apply_all select_where
  apply_all-Runs current [] d = finished
  apply_all-Runs current (m ∷ ms) d = elim (Bool-cases (leb m.version current)) [
    | inl old ↦
        let skipped : ltb current m.version ≡ false = ground (arith, old) in
        rw (old, skipped) (apply_all-Runs current ms d)
    | inr new ↦
        let pending : ltb current m.version ≡ true = ground (arith, new) in
        rw (new, pending)
          (script-Runs m (select_where (newer current) ms) d (engine.run_script m.sql d)
            (apply_all engine current ms) refl (apply_all-Runs current ms))
  ]

  versioned-Upgrades :
      (entries : List (Text × Option Text)) (ms : List Migration) (d : engine.Disk) (o : Option ℕ)
      → Collected entries ms
      → HasVersion d o
      → Upgrades (some entries) d (apply_from engine (order_by by_version ms) o d)
  versioned-Upgrades entries ms d none found at = no_version at
  versioned-Upgrades entries ms d (some current) found at =
      upgraded entries ms (select_where (newer current) (order_by by_version ms)) current refl found
        at (pending-IsListing current ms) (apply_all-Runs current (order_by by_version ms) d)

  collected-Upgrades :
      (entries : List (Text × Option Text)) (d : engine.Disk) (o : Option (List Migration))
      → Reading entries o
      → Upgrades (some entries) d (apply_sorted engine o d)
  collected-Upgrades entries d none unread = no_content entries refl unread
  collected-Upgrades entries d (some ms) found =
      versioned-Upgrades entries ms d (current_schema_version engine d) found (current-HasVersion d)

  pub run_migrations-Upgrades :
      (files : Option (List (Text × Option Text))) (d : engine.Disk)
      → Upgrades files d (run_migrations engine files d)
  unfolding run_migrations
  run_migrations-Upgrades none d = no_files refl
  run_migrations-Upgrades (some entries) d =
      collected-Upgrades entries d (collect entries) (collect-Reading entries)
