-- ===== src/Sql/Laws.antt =====
-- Laws of the operations on tables.
use xensus.Base.{
  ℕ, ◌<◌, ◌≤◌, length, ◌≡◌, refl, Bool, true, none, some, List, [], ◌∷◌, arith, if◌then◌else◌,
}
use xensus.Sql.{Table, insert_row, select_first, count_where, update_where, delete_where}

module _ {ℓ} {R : Type ℓ} (test : R → Bool) where
  -- The row found passes the test.
  pub select_first-test : (rs : List R) (r : R) → select_first test rs ≡ some r → test r ≡ true
  unfolding select_first
  select_first-test [] r e = cc
  select_first-test (x ∷ rs) r e = ground (arith, select_first-test rs r)

module _ {ℓ} {R : Type ℓ} (test hit : R → Bool) (set : R → R) where
  -- The row found after an update that does not change which rows are looked for.
  pub select_first-update_where :
      ((r : R) → hit r ≡ true → test (set r) ≡ test r)
      → (rs : List R) (r : R) → select_first test rs ≡ some r
      → select_first test (update_where hit set rs) ≡ some (if hit r then set r else r)
  unfolding select_first update_where
  select_first-update_where same [] r e = cc
  select_first-update_where same (x ∷ rs) r e =
      ground (arith, same x, select_first-update_where same rs r)

  -- The row found and updated.
  pub select_first-update_found :
      ((r : R) → hit r ≡ true → test (set r) ≡ test r)
      → (rs : List R) (r : R) → select_first test rs ≡ some r
      → hit r ≡ true
      → select_first test (update_where hit set rs) ≡ some (set r)
  select_first-update_found same rs r e h = rw (select_first-update_where same rs r e) (rw h)

-- The row found by the ID that it has just been given.
pub select_first-insert_row {ℓ} :
    {R : Type ℓ} (make : ℕ → R) (test : ℕ → R → Bool) (old t : Table R) (id : ℕ)
    → insert_row make old ≡ some (id, t)
    → test id (make id) ≡ true
    → select_first (test id) t.rows ≡ some (make id)
unfolding insert_row select_first
select_first-insert_row make test old t id e h = ground arith

pub length-delete_where_le {ℓ} :
    {R : Type ℓ} (hit : R → Bool) (rs : List R) → length (delete_where hit rs) ≤ length rs
unfolding delete_where
length-delete_where_le hit [] = omega arith
length-delete_where_le hit (x ∷ rs) = ground (arith, length-delete_where_le hit rs)

module _ {ℓ} {R : Type ℓ} (test hit : R → Bool) where
  -- Where no row passes a test, none passes a narrower one.
  pub count_where_of_none :
      ((r : R) → hit r ≡ true → test r ≡ true)
      → (rs : List R) → select_first test rs ≡ none
      → count_where hit rs ≡ 0
  unfolding select_first count_where
  count_where_of_none narrow [] e = refl
  count_where_of_none narrow (x ∷ rs) e = ground (arith, narrow x, count_where_of_none narrow rs)

  -- The row found is among those deleted, so there are fewer.
  pub length-delete_where :
      (rs : List R) (r : R)
      → select_first test rs ≡ some r
      → hit r ≡ true
      → length (delete_where hit rs) < length rs
  unfolding select_first delete_where
  length-delete_where [] r e h = cc
  length-delete_where (x ∷ rs) r e h =
      ground (arith, length-delete_where rs r, length-delete_where_le hit rs)
