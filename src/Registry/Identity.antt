-- ===== src/Registry/Identity.antt =====
-- The registry: the order of the IDs in a table.
use xensus.Base.{ℕ, ◌<◌, ◌≤◌, ◌≡◌, Bool, List, [], ◌∷◌, some, All, All-mono, arith}
use xensus.Sql.{update_where, delete_where, select_first}

module _ {ℓ} {R : Type ℓ} (key : R → ℕ) where
  -- The rows' keys fall from row to row, so they are distinct, and none is above the counter.
  abbrev pub Falls : ℕ → List R → Type 0
  Falls bound [] = Unit
  Falls bound (r ∷ rs) = (key r < bound) × Falls (key r) rs

  pub Falls-le : (b c : ℕ) (rs : List R) → b ≤ c → Falls b rs → Falls c rs
  Falls-le b c [] h f = tt
  Falls-le b c (r ∷ rs) h f = (omega arith, f.1)

  pub Falls-update_where :
      (hit : R → Bool) (set : R → R)
      → ((r : R) → key (set r) ≡ key r)
      → (b : ℕ) (rs : List R) → Falls b rs
      → Falls b (update_where hit set rs)
  unfolding update_where
  Falls-update_where hit set same b [] f = tt
  Falls-update_where hit set same b (r ∷ rs) f =
      ground (arith, same r, Falls-update_where hit set same (key r) rs f.1)

  pub Falls-delete_where :
      (hit : R → Bool) (b : ℕ) (rs : List R) → Falls b rs → Falls b (delete_where hit rs)
  unfolding delete_where
  Falls-delete_where hit b [] f = tt
  Falls-delete_where hit b (r ∷ rs) f =
      ground
        (arith, Falls-delete_where hit (key r) rs f.1, Falls-le (key r) b (delete_where hit rs))

  -- A row found has a key below the bound.
  pub Falls-below : (b : ℕ) (rs : List R) → Falls b rs → All (λ r. key r < b) rs
  Falls-below b [] f = tt
  Falls-below b (r ∷ rs) f = (f.0, All-mono rs (λ x h. omega arith) (Falls-below (key r) rs f.1))

module _ {ℓ} {R : Type ℓ} (key : R → ℕ) where
  -- A row that is found has a key below the bound.
  pub select_first-below :
      (test : R → Bool) (b : ℕ) (rs : List R) (r : R)
      → Falls key b rs
      → select_first test rs ≡ some r
      → key r < b
  unfolding select_first
  select_first-below test b [] r f e = cc
  select_first-below test b (x ∷ rs) r f e =
      ground (arith, select_first-below test (key x) rs r f.1)
