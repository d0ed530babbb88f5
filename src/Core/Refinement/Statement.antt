-- ===== src/Core/Refinement/Statement.antt =====
-- What it is to implement an operation of the registry.
use xensus.Base.{◌≡◌, true, ◌⊎◌, none, ℕ}
use xensus.Store.Schema.{Database}
use xensus.Store.Session.{Driver, Session, Result, err, driver_failure}

-- Some call of the driver fails.
abbrev pub CallFails : Driver → Type 0
CallFails driver = (n : ℕ) × (driver.fails n ≡ true)

-- A call that began in `s` left no transaction open, and either a call of the driver fails and
-- nothing is changed, or the result and the database are those of the registry.
abbrev pub Refines : {A : Type 0} → Session → Result A × Session → Result A × Database → Type 0
Refines s (r, s') (r', d') =
    (s'.working ≡ none)
    × (s'.driver ≡ s.driver)
    × (CallFails s.driver × (r ≡ err driver_failure) × (s'.committed ≡ s.committed)
        ⊎ (r ≡ r') × (s'.committed ≡ d'))
