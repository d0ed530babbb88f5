-- ===== src/Store/Migrations.antt =====
-- store/store.go: the migrations. The embedded files and what SQLite does with a script are parameters.
use xensus.Base.{
  ℕ, Bool, true, false, not, ◌&&◌, ◌==◌, leb, Option, none, some, List, [], ◌∷◌, Text, codes,
  text_eq, if◌then◌else◌,
}
use xensus.Registry.{◌>>=◌}
use xensus.Sql.Order.{by_number, order_by}
use xensus.Store.Days.{number, all_digits}

-- The database before and after its schema is there. A call says whether it succeeded, and what it left
-- behind; a query has a result or fails.
pub record Engine : Type 1 where
  pub Disk : Type 0
  -- `db.Exec(m.sql)`
  pub run_script : Text → Disk → Bool × Disk
  -- `UPDATE config SET schema_version = ? WHERE id = 1`
  pub record_version : ℕ → Disk → Bool × Disk
  -- `SELECT COUNT(*) FROM sqlite_master WHERE type = 'table' AND name = 'config'`
  pub count_config : Disk → Option ℕ
  -- `SELECT schema_version FROM config WHERE id = 1`
  pub read_version : Disk → Option ℕ

pub record Migration : Type 0 where
  pub version : ℕ
  pub sql : Text

-- From the first dot on, `.sql` and the end.
abbrev pub ends_in_sql : Text → Bool
ends_in_sql [] = false
ends_in_sql (c ∷ s) =
    let rest = ends_in_sql s in if c == b'.' then text_eq s (codes "sql") else rest

abbrev pub is_sql_name : Text → Bool
is_sql_name [] = false
is_sql_name (c ∷ s) = not (c == b'.') && ends_in_sql s

-- `migrationNameRE`, with the number that it captures
unfoldable pub name_version : Text → Option ℕ
name_version (a ∷ b ∷ c ∷ d ∷ u ∷ s) =
    if all_digits (a ∷ b ∷ c ∷ d ∷ []) && u == b'_' && is_sql_name s
    then some (number 0 (a ∷ b ∷ c ∷ d ∷ []))
    else none
name_version _ = none

abbrev pub read_entry : Option ℕ → Option Text → Option (List Migration) → Option (List Migration)
read_entry none content rest = rest
read_entry (some v) none rest = none
read_entry (some v) (some sql) rest = do
  migs ← rest
  some (record { version = v; sql = sql } ∷ migs)

-- The migrations among the entries of the directory, each with its content unless reading it fails.
unfoldable pub collect : List (Text × Option Text) → Option (List Migration)
collect [] = some []
collect ((name, content) ∷ entries) = read_entry (name_version name) content (collect entries)

abbrev pub by_version : Migration → Migration → Bool
by_version = by_number (λ m. m.version)

module _ (engine : Engine) where
  abbrev pub version_when : engine.Disk → Option ℕ → Option ℕ
  version_when d none = none
  version_when d (some n) = if n == 0 then some 0 else engine.read_version d

  -- `currentSchemaVersion`
  unfoldable pub current_schema_version : engine.Disk → Option ℕ
  current_schema_version d = version_when d (engine.count_config d)

  abbrev pub then_ : Bool × engine.Disk → (engine.Disk → Bool × engine.Disk) → Bool × engine.Disk
  then_ (true, d) k = k d
  then_ (false, d) k = (false, d)

  -- The loop over the sorted migrations.
  unfoldable pub apply_all : ℕ → List Migration → engine.Disk → Bool × engine.Disk
  apply_all current [] d = (true, d)
  apply_all current (m ∷ ms) d =
      let skipped = apply_all current ms d in
      let applied =
        then_ (engine.run_script m.sql d)
          λ d'. then_ (engine.record_version m.version d') (apply_all current ms) in
      if leb m.version current then skipped else applied

  abbrev pub apply_from : List Migration → Option ℕ → engine.Disk → Bool × engine.Disk
  apply_from ms none d = (false, d)
  apply_from ms (some current) d = apply_all current ms d

  abbrev pub apply_sorted : Option (List Migration) → engine.Disk → Bool × engine.Disk
  apply_sorted none d = (false, d)
  apply_sorted (some ms) d = apply_from (order_by by_version ms) (current_schema_version d) d

  -- `runMigrations`
  unfoldable pub run_migrations :
      Option (List (Text × Option Text)) → engine.Disk → Bool × engine.Disk
  run_migrations none d = (false, d)
  run_migrations (some entries) d = apply_sorted (collect entries) d
