-- ===== src/Sql/Selected.antt =====
-- What a SELECT with WHERE, ORDER BY and LIMIT returns.
use xensus.Base.{
  ℕ, zero, suc, ◌+◌, ◌≤◌, ◌≡◌, refl, ap, ◌∙◌, inl, inr, Bool, true, not, ◌&&◌, List, [], ◌∷◌,
  length, leb, All, Bool-cases, arith, if◌then◌else◌,
}
use xensus.Sql.{select_where, count_where}
use xensus.Sql.Order.{
  order_by, limit, IsSorted, IsOrder, insert-All, order_by-IsSorted, count_where-order_by, insert,
}

module _ {ℓ} {R : Type ℓ} where
  pub select_where-All :
      (test : R → Bool) (rs : List R) → All (λ r. test r ≡ true) (select_where test rs)
  unfolding select_where
  select_where-All test [] = tt
  select_where-All test (r ∷ rs) = elim (Bool-cases (test r)) [
    | inl hit ↦ rw hit (hit, select_where-All test rs)
    | inr miss ↦ rw miss (select_where-All test rs)
  ]

  pub count_where-select_where :
      (test other : R → Bool) (rs : List R)
      → count_where other (select_where test rs) ≡ count_where (λ r. test r && other r) rs
  unfolding select_where count_where
  count_where-select_where test other [] = refl
  count_where-select_where test other (r ∷ rs) =
      ground (arith, count_where-select_where test other rs)

  order_by-All :
      (P : R → Type 0) (before : R → R → Bool) (rs : List R) → All P rs → All P (order_by before rs)
  unfolding order_by
  order_by-All P before [] h = tt
  order_by-All P before (r ∷ rs) (p, h) =
      insert-All before P r (order_by before rs) p (order_by-All P before rs h)

  limit-All : (P : R → Type 0) (n : ℕ) (rs : List R) → All P rs → All P (limit n rs)
  unfolding limit
  limit-All P zero rs h = tt
  limit-All P (suc n) [] h = tt
  limit-All P (suc n) (r ∷ rs) (p, h) = (p, limit-All P n rs h)

  limit-IsSorted :
      (before : R → R → Bool) (n : ℕ) (rs : List R)
      → IsSorted before rs
      → IsSorted before (limit n rs)
  unfolding limit
  limit-IsSorted before zero rs h = tt
  limit-IsSorted before (suc n) [] h = tt
  limit-IsSorted before (suc n) (r ∷ rs) (p, h) =
      (limit-All (λ y. before r y ≡ true) n rs p, limit-IsSorted before n rs h)

  pub length-limit_le : (n : ℕ) (rs : List R) → length (limit n rs) ≤ n
  unfolding limit
  length-limit_le zero rs = omega arith
  length-limit_le (suc n) [] = omega arith
  length-limit_le (suc n) (r ∷ rs) = omega (arith, length-limit_le n rs)

  pub limit_of_short : (n : ℕ) (rs : List R) → length rs ≤ n → limit n rs ≡ rs
  unfolding limit
  limit_of_short zero [] h = refl
  limit_of_short zero (r ∷ rs) h = absurd (omega (arith, h))
  limit_of_short (suc n) [] h = refl
  limit_of_short (suc n) (r ∷ rs) h = ap (◌∷◌ r) (limit_of_short n rs (omega (arith, h)))

  length-count_where : (rs : List R) → length rs ≡ count_where (λ _. true) rs
  unfolding count_where
  length-count_where [] = refl
  length-count_where (r ∷ rs) = omega (arith, length-count_where rs)

  -- Rows in order, each of which passes a test, and which number the rows of the table that pass it and
  -- any other test.
  pub record IsListing (test : R → Bool) (before : R → R → Bool) (table : List R) (rows : List R)
      : Type ℓ where
    pub sorted : IsSorted before rows
    pub passes : All (λ r. test r ≡ true) rows
    pub complete :
        (other : R → Bool) → count_where other rows ≡ count_where (λ r. test r && other r) table

  pub order_by-IsListing :
      (test : R → Bool) (before : R → R → Bool) (table : List R)
      → IsOrder before
      → IsListing test before table (order_by before (select_where test table))
  order_by-IsListing test before table o = record {
    sorted = order_by-IsSorted before (select_where test table) o;
    passes =
        order_by-All (λ r. test r ≡ true) before (select_where test table)
          (select_where-All test table);
    complete = λ other.
        count_where-order_by before other (select_where test table)
        ∙ count_where-select_where test other table;
  }

module _ {ℓ} {R : Type ℓ} where
  length-insert :
      (before : R → R → Bool) (x : R) (rs : List R) → length (insert before x rs) ≡ suc (length rs)
  unfolding insert
  length-insert before x [] = refl
  length-insert before x (r ∷ rs) = ground (arith, length-insert before x rs)

  pub length-order_by :
      (before : R → R → Bool) (rs : List R) → length (order_by before rs) ≡ length rs
  unfolding order_by
  length-order_by before [] = refl
  length-order_by before (r ∷ rs) =
      length-insert before r (order_by before rs) ∙ ap suc (length-order_by before rs)

  pub length-select_where :
      (test : R → Bool) (rs : List R) → length (select_where test rs) ≡ count_where test rs
  unfolding select_where count_where
  length-select_where test [] = refl
  length-select_where test (r ∷ rs) = ground (arith, length-select_where test rs)

  -- Two tests of which each row passes exactly one.
  pub count_where-split :
      (f g : R → Bool) (rs : List R)
      → ((r : R) → g r ≡ not (f r))
      → count_where f rs + count_where g rs ≡ length rs
  unfolding count_where
  count_where-split f g [] apart = refl
  count_where-split f g (r ∷ rs) apart = ground (arith, apart r, count_where-split f g rs apart)

  pub count_where-everything :
      (f : R → Bool) (rs : List R) → ((r : R) → f r ≡ true) → count_where f rs ≡ length rs
  unfolding count_where
  count_where-everything f [] all = refl
  count_where-everything f (r ∷ rs) all = ground (arith, all r, count_where-everything f rs all)

  pub length-limit :
      (n : ℕ) (rs : List R) → length (limit n rs) ≡ (if leb (length rs) n then length rs else n)
  unfolding limit
  length-limit zero [] = refl
  length-limit zero (r ∷ rs) = ground arith
  length-limit (suc n) [] = ground arith
  length-limit (suc n) (r ∷ rs) = ground (arith, length-limit n rs)
