-- ===== src/Sql.antt =====
-- The statements that store/*.go send to SQLite, as operations on a table: a table is the rows it
-- holds, newest first, with the AUTOINCREMENT counter of sqlite_sequence.
pub mod Laws
pub mod Order
pub mod Like
pub mod Selected
use xensus.Base.{ℕ, suc, ◌+◌, ◌-◌, ◌^◌, Bool, Option, none, some, List, [], ◌∷◌, ltb, if◌then◌else◌}

pub record Table {ℓ} (R : Type ℓ) : Type ℓ where
  pub seq : ℕ
  pub rows : List R

-- The largest rowid of SQLite, the largest int64.
abbrev pub max_rowid : ℕ
max_rowid = 2 ^ 63 - 1

module _ {ℓ} {R : Type ℓ} where
  -- `INSERT` into a table with an AUTOINCREMENT key: `none` is SQLITE_FULL.
  unfoldable pub insert_row : (ℕ → R) → Table R → Option (ℕ × Table R)
  insert_row make t =
      if ltb t.seq max_rowid
      then some (suc t.seq, record { seq = suc t.seq; rows = make (suc t.seq) ∷ t.rows })
      else none

  -- `SELECT … WHERE`, of which `QueryRow` takes the first row.
  unfoldable pub select_first : (R → Bool) → List R → Option R
  select_first test [] = none
  select_first test (r ∷ rs) = if test r then some r else select_first test rs

  -- `SELECT … WHERE`, all rows
  unfoldable pub select_where : (R → Bool) → List R → List R
  select_where test [] = []
  select_where test (r ∷ rs) = let rest = select_where test rs in if test r then r ∷ rest else rest

  -- `SELECT COUNT(*) … WHERE`, and the number of rows that an `UPDATE` or a `DELETE` affects
  unfoldable pub count_where : (R → Bool) → List R → ℕ
  count_where test [] = 0
  count_where test (r ∷ rs) = (if test r then 1 else 0) + count_where test rs

  -- `UPDATE … SET … WHERE`
  unfoldable pub update_where : (R → Bool) → (R → R) → List R → List R
  update_where test set [] = []
  update_where test set (r ∷ rs) = (if test r then set r else r) ∷ update_where test set rs

  -- `DELETE … WHERE`
  unfoldable pub delete_where : (R → Bool) → List R → List R
  delete_where test [] = []
  delete_where test (r ∷ rs) = let rest = delete_where test rs in if test r then rest else r ∷ rest
