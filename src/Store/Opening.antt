-- ===== src/Store/Opening.antt =====
-- store/store.go: the opening of the database. The file system and the pool of connections are
-- parameters.
use xensus.Base.{
  ◌≡◌, refl, inl, inr, Bool, true, false, Bool-cases, Option, none, some, List, Text, codes, ◌++◌,
  if◌then◌else◌,
}
use xensus.Store.Migrations.{Engine, run_migrations}
use xensus.Store.Upgrade.{Upgrades, run_migrations-Upgrades}

-- Why `Open` fails.
pub data OpenError : Type 0 where
  create_data_dir open_sqlite ping_sqlite migrating : OpenError

-- `os.MkdirAll`, `sql.Open` with the database that it finds, and `Ping`; `join` is filepath.Join.
pub record Platform (engine : Engine) : Type 0 where
  pub mkdir_all : Text → Bool
  pub join : Text → Text → Text
  pub sql_open : Text → Option engine.Disk
  pub ping : engine.Disk → Bool

-- The data source name, with its PRAGMAs.
abbrev pub dsn : Text → Text
dsn db_path =
    codes "file:"
    ++ (db_path
        ++ (codes "?_pragma=foreign_keys(1)"
            ++ (codes "&_pragma=journal_mode(WAL)"
                ++ (codes "&_pragma=synchronous(NORMAL)" ++ codes "&_pragma=busy_timeout(5000)"))))

-- What `Open` returns, whether a pool that it opened is open then, and the disk, where it got so far.
pub record Opened (engine : Engine) : Type 0 where
  pub failure : Option OpenError
  pub is_open : Bool
  pub disk : Option engine.Disk

module _ (engine : Engine) (files : Option (List (Text × Option Text))) where
  abbrev pub migrated : Bool × engine.Disk → Opened engine
  migrated (true, d) = record { failure = none; is_open = true; disk = some d }
  migrated (false, d) = record { failure = some migrating; is_open = false; disk = some d }

  abbrev pub pinged : Bool → engine.Disk → Opened engine
  pinged true d = migrated (run_migrations engine files d)
  pinged false d = record { failure = some ping_sqlite; is_open = false; disk = some d }

  abbrev pub connected : Platform engine → Option engine.Disk → Opened engine
  connected platform none = record { failure = some open_sqlite; is_open = false; disk = none }
  connected platform (some d) = pinged (platform.ping d) d

  -- `Open`, with the embedded files
  unfoldable pub open_database : Platform engine → Text → Opened engine
  open_database platform data_dir =
      if platform.mkdir_all data_dir
      then connected platform
          (platform.sql_open (dsn (platform.join data_dir (codes "xensus.sqlite"))))
      else record { failure = some create_data_dir; is_open = false; disk = none }

  -- The database under xensus.sqlite in the data directory, with foreign keys enforced, a write-ahead
  -- log, synchronous writes at its checkpoints and five seconds of waiting for a lock.
  abbrev found_in : Platform engine → Text → Option engine.Disk
  found_in platform data_dir = platform.sql_open (
      codes "file:"
      ++ (platform.join data_dir (codes "xensus.sqlite")
          ++ codes
              "?_pragma=foreign_keys(1)&_pragma=journal_mode(WAL)&_pragma=synchronous(NORMAL)&_pragma=busy_timeout(5000)"))

  -- How an opening ends: the pool is open on a disk that the migrations brought up to date, or there
  -- is an error, no pool is open, and the disk is as it was found or as failed migrations left it.
  pub data Opens (platform : Platform engine) (data_dir : Text) : Opened engine → Type 0 where
    no_directory :
        platform.mkdir_all data_dir ≡ false
        → Opens platform data_dir
            (record { failure = some create_data_dir; is_open = false; disk = none })
    no_database :
        platform.mkdir_all data_dir ≡ true
        → found_in platform data_dir ≡ none
        → Opens platform data_dir
            (record { failure = some open_sqlite; is_open = false; disk = none })
    no_answer :
        (d : engine.Disk)
        → platform.mkdir_all data_dir ≡ true
        → found_in platform data_dir ≡ some d
        → platform.ping d ≡ false
        → Opens platform data_dir
            (record { failure = some ping_sqlite; is_open = false; disk = some d })
    not_migrated :
        (d d' : engine.Disk)
        → platform.mkdir_all data_dir ≡ true
        → found_in platform data_dir ≡ some d
        → platform.ping d ≡ true
        → Upgrades engine files d (false, d')
        → Opens platform data_dir
            (record { failure = some migrating; is_open = false; disk = some d' })
    ready :
        (d d' : engine.Disk)
        → platform.mkdir_all data_dir ≡ true
        → found_in platform data_dir ≡ some d
        → platform.ping d ≡ true
        → Upgrades engine files d (true, d')
        → Opens platform data_dir (record { failure = none; is_open = true; disk = some d' })

  module _ (platform : Platform engine) (data_dir : Text)
      (made : platform.mkdir_all data_dir ≡ true) where
    migrated-Opens :
        (d : engine.Disk) (x : Bool × engine.Disk)
        → found_in platform data_dir ≡ some d
        → platform.ping d ≡ true
        → Upgrades engine files d x
        → Opens platform data_dir (migrated x)
    migrated-Opens d (true, d') found pong up = ready d d' made found pong up
    migrated-Opens d (false, d') found pong up = not_migrated d d' made found pong up

    pinged-Opens :
        (b : Bool) (d : engine.Disk)
        → found_in platform data_dir ≡ some d
        → platform.ping d ≡ b
        → Opens platform data_dir (pinged b d)
    pinged-Opens true d found pong =
        migrated-Opens d (run_migrations engine files d) found pong
          (run_migrations-Upgrades engine files d)
    pinged-Opens false d found silent = no_answer d made found silent

    connected-Opens :
        (o : Option engine.Disk)
        → found_in platform data_dir ≡ o
        → Opens platform data_dir (connected platform o)
    connected-Opens none missing = no_database made missing
    connected-Opens (some d) found = pinged-Opens (platform.ping d) d found refl

  -- Where the directory is made, the database opened and pinged and the migrations succeed, an opening
  -- leaves the pool open, and otherwise it fails with the error of its step and leaves no pool open. The
  -- database is xensus.sqlite in the data directory, with the four PRAGMAs. The migrations run the
  -- scripts of exactly those files that are named by four digits, an underscore, at least one character
  -- other than a dot, and .sql, and whose digits are above the version in the database: once each and in
  -- the order of their versions, each with its version recorded before the next, up to the first call
  -- that fails. Where the files or the version cannot be read, they fail and leave the disk as it was.
  pub open_database-Upgrades :
      (platform : Platform engine) (data_dir : Text)
      → Opens platform data_dir (open_database platform data_dir)
  unfolding open_database
  open_database-Upgrades platform data_dir = elim (Bool-cases (platform.mkdir_all data_dir)) [
    | inl made ↦
        simp made (connected-Opens platform data_dir made (found_in platform data_dir) refl)
    | inr not_made ↦ simp not_made (no_directory not_made)
  ]
