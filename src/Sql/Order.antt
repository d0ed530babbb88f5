-- ===== src/Sql/Order.antt =====
-- The ORDER BY and LIMIT of the statements in store/*.go, and SQLite's two orders on texts.
use xensus.Base.{
  ℕ, zero, suc, ◌+◌, ◌≡◌, refl, ap, ◌∙◌, inl, inr, Bool, true, false, not, ◌&&◌, ◌||◌, List, [],
  ◌∷◌, Text, lower, ltb, leb, ◌==◌, All, All-mono, Bool-cases, arith, if◌then◌else◌,
}
use xensus.Sql.{count_where}

-- `<` in the collation BINARY: UTF-8 keeps the order of the code points.
unfoldable pub text_lt : Text → Text → Bool
text_lt [] [] = false
text_lt [] (d ∷ t) = true
text_lt (c ∷ s) [] = false
text_lt (c ∷ s) (d ∷ t) = ltb c d || (c == d && text_lt s t)

-- `<` in the collation NOCASE
abbrev pub nocase_lt : Text → Text → Bool
nocase_lt s t = text_lt (lower s) (lower t)

module _ {ℓ} {R : Type ℓ} where
  -- Whether a row may stand before another: a key, and then the rest of an ORDER BY.
  abbrev pub by_then : (Text → Text → Bool) → (R → Text) → (R → R → Bool) → R → R → Bool
  by_then lt key rest a b = lt (key a) (key b) || (not (lt (key b) (key a)) && rest a b)

  abbrev pub by_number : (R → ℕ) → R → R → Bool
  by_number key a b = leb (key a) (key b)

  -- `DESC`
  abbrev pub desc : (R → R → Bool) → R → R → Bool
  desc before a b = before b a

  module _ (before : R → R → Bool) where
    unfoldable pub insert : R → List R → List R
    insert x [] = x ∷ []
    insert x (y ∷ ys) = let rest = insert x ys in if before x y then x ∷ y ∷ ys else y ∷ rest

    -- `ORDER BY`. Rows that tie keep their order, which SQLite does not promise.
    unfoldable pub order_by : List R → List R
    order_by [] = []
    order_by (x ∷ xs) = insert x (order_by xs)

    abbrev pub IsSorted : List R → Type 0
    IsSorted [] = Unit
    IsSorted (x ∷ xs) = All (λ y. before x y ≡ true) xs × IsSorted xs

  -- `LIMIT`
  unfoldable pub limit : ℕ → List R → List R
  limit zero rs = []
  limit (suc n) [] = []
  limit (suc n) (r ∷ rs) = r ∷ limit n rs

  pub record IsOrder (before : R → R → Bool) : Type ℓ where
    pub total : (a b : R) → before a b ≡ false → before b a ≡ true
    pub trans : (a b c : R) → before a b ≡ true → before b c ≡ true → before a c ≡ true

text_lt_irrefl : (s : Text) → text_lt s s ≡ false
unfolding text_lt
text_lt_irrefl [] = refl
text_lt_irrefl (c ∷ s) = ground (arith, text_lt_irrefl s)

text_lt_trans : (s t u : Text) → text_lt s t ≡ true → text_lt t u ≡ true → text_lt s u ≡ true
unfolding text_lt
text_lt_trans [] [] u h k = absurd (let e = h in cc)
text_lt_trans [] (d ∷ t) [] h k = absurd (let e = k in cc)
text_lt_trans [] (d ∷ t) (e ∷ u) h k = refl
text_lt_trans (c ∷ s) [] u h k = absurd (let e = h in cc)
text_lt_trans (c ∷ s) (d ∷ t) [] h k = absurd (let e = k in cc)
text_lt_trans (c ∷ s) (d ∷ t) (e ∷ u) h k = ground (arith, text_lt_trans s t u)

-- Texts neither of which is less are the same.
text_lt_tie : (s t : Text) → text_lt s t ≡ false → text_lt t s ≡ false → s ≡ t
unfolding text_lt
text_lt_tie [] [] h k = refl
text_lt_tie [] (d ∷ t) h k = absurd (let e = h in cc)
text_lt_tie (c ∷ s) [] h k = absurd (let e = k in cc)
text_lt_tie (c ∷ s) (d ∷ t) h k = ground (arith, text_lt_tie s t)

-- A strict order in which being neither less nor greater is transitive.
pub record IsWeak (lt : Text → Text → Bool) : Type 0 where
  pub trans : (s t u : Text) → lt s t ≡ true → lt t u ≡ true → lt s u ≡ true
  pub weak : (s t u : Text) → lt s t ≡ true → (lt s u || lt u t) ≡ true

text_lt_weak : (s t u : Text) → text_lt s t ≡ true → (text_lt s u || text_lt u t) ≡ true
text_lt_weak s t u h = elim (Bool-cases (text_lt s u)) [
  | inl less ↦ rw less refl
  | inr more ↦ rw more (elim (Bool-cases (text_lt u s)) [
    | inl greater ↦ text_lt_trans u s t greater h
    | inr tie ↦ rw (← text_lt_tie s u more tie) h
  ])
]

pub text_lt-IsWeak : IsWeak text_lt
text_lt-IsWeak = record { trans = text_lt_trans; weak = text_lt_weak }

pub nocase_lt-IsWeak : IsWeak nocase_lt
nocase_lt-IsWeak = record {
  trans = λ s t u. text_lt_trans (lower s) (lower t) (lower u);
  weak = λ s t u. text_lt_weak (lower s) (lower t) (lower u);
}

module _ {ℓ} {R : Type ℓ} where
  pub by_number-IsOrder : (key : R → ℕ) → IsOrder (by_number key)
  by_number-IsOrder key = record {
    total = λ a b h. ground arith;
    trans = λ a b c h k. ground arith;
  }

  pub desc-IsOrder : (before : R → R → Bool) → IsOrder before → IsOrder (desc before)
  desc-IsOrder before o = record {
    total = λ a b. o.total b a;
    trans = λ a b c h k. o.trans c b a k h;
  }

  pub by_then-IsOrder :
      (lt : Text → Text → Bool) (key : R → Text) (rest : R → R → Bool)
      → IsWeak lt
      → IsOrder rest
      → IsOrder (by_then lt key rest)
  by_then-IsOrder lt key rest w o = record {
    total = λ a b h. ground (arith, o.total a b);
    trans = λ a b c h k. ground (
      arith,
      o.trans a b c,
      w.trans (key a) (key b) (key c),
      w.weak (key a) (key b) (key c),
      w.weak (key b) (key c) (key a),
      w.weak (key c) (key a) (key b),
    );
  }

module _ {ℓ} {R : Type ℓ} (before : R → R → Bool) where
  pub insert-All :
      (P : R → Type 0) (x : R) (ys : List R) → P x → All P ys → All P (insert before x ys)
  unfolding insert
  insert-All P x [] p h = (p, tt)
  insert-All P x (y ∷ ys) p (q, h) = elim (Bool-cases (before x y)) [
    | inl first ↦ rw first (p, (q, h))
    | inr later ↦ rw later (q, insert-All P x ys p h)
  ]

  insert-IsSorted :
      (x : R) (ys : List R)
      → IsOrder before
      → IsSorted before ys
      → IsSorted before (insert before x ys)
  unfolding insert
  insert-IsSorted x [] o h = (tt, tt)
  insert-IsSorted x (y ∷ ys) o (q, h) = elim (Bool-cases (before x y)) [
    | inl first ↦ rw first ((first, All-mono ys (λ z. o.trans x y z first) q), (q, h))
    | inr later ↦
        rw later
          (insert-All (λ z. before y z ≡ true) x ys (o.total x y later) q, insert-IsSorted x ys o h)
  ]

  pub order_by-IsSorted : (rs : List R) → IsOrder before → IsSorted before (order_by before rs)
  unfolding order_by
  order_by-IsSorted [] o = tt
  order_by-IsSorted (x ∷ xs) o = insert-IsSorted x (order_by before xs) o (order_by-IsSorted xs o)

  count_where-insert :
      (test : R → Bool) (x : R) (ys : List R)
      → count_where test (insert before x ys) ≡ count_where test (x ∷ ys)
  unfolding insert count_where
  count_where-insert test x [] = refl
  count_where-insert test x (y ∷ ys) = ground (arith, count_where-insert test x ys)

  -- Ordering loses no row and invents none.
  pub count_where-order_by :
      (test : R → Bool) (rs : List R) → count_where test (order_by before rs) ≡ count_where test rs
  unfolding order_by count_where
  count_where-order_by test [] = refl
  count_where-order_by test (x ∷ xs) =
      count_where-insert test x (order_by before xs)
      ∙ ap ((if test x then 1 else 0) +◌) (count_where-order_by test xs)
