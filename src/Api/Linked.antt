-- ===== src/Api/Linked.antt =====
-- store/associations.go: the join of associations and systems, as the export has it.
use xensus.Base.{
  ℕ, ◌+◌, ◌≡◌, refl, ap, ◌∙◌, Bool, ◌&&◌, ◌==◌, ◌++◌, List, [], ◌∷◌, Bool-cases, inl, inr, arith,
  if◌then◌else◌,
}
use xensus.Sql.{count_where}
use xensus.Store.Schema.{SystemRow, AssociationRow}
use xensus.Store.Associations.{Association}
use xensus.Store.Listings.{pairs_with, joined_rows}

-- An association as the export has it, with the name of its system.
abbrev pub linked : AssociationRow → SystemRow → Association
linked a r = record {
  id = a.id;
  person_id = a.person_id;
  system_id = a.system_id;
  system_name = r.name;
  foreign_id = a.foreign_id;
  created_at = a.created_at;
  created_by = a.created_by;
}

-- How many associations pass a test, each counted once for every system of its ID.
abbrev pub count_links : (Association → Bool) → List AssociationRow → List SystemRow → ℕ
count_links test [] rs = 0
count_links test (a ∷ rest) rs =
    count_where (λ r. r.id == a.system_id && test (linked a r)) rs + count_links test rest rs

count_where-append {ℓ} :
    {R : Type ℓ} (test : R → Bool) (xs ys : List R)
    → count_where test (xs ++ ys) ≡ count_where test xs + count_where test ys
unfolding count_where
count_where-append test [] ys = omega arith
count_where-append test (x ∷ xs) ys = omega (arith, count_where-append test xs ys)

count_where-pairs_with :
    (test : Association → Bool) (a : AssociationRow) (rs : List SystemRow)
    → count_where test (pairs_with a rs)
      ≡ count_where (λ r. r.id == a.system_id && test (linked a r)) rs
unfolding count_where pairs_with
count_where-pairs_with test a [] = refl
count_where-pairs_with test a (r ∷ rs) = elim (Bool-cases (r.id == a.system_id)) [
  | inl same ↦
      rw same (ap ((if test (linked a r) then 1 else 0) +◌) (count_where-pairs_with test a rs))
  | inr other ↦ rw other (omega (arith, count_where-pairs_with test a rs))
]

pub count_where-joined_rows :
    (test : Association → Bool) (rows : List AssociationRow) (rs : List SystemRow)
    → count_where test (joined_rows rows rs) ≡ count_links test rows rs
unfolding joined_rows count_where
count_where-joined_rows test [] rs = refl
count_where-joined_rows test (a ∷ rest) rs =
    count_where-append test (pairs_with a rs) (joined_rows rest rs)
    ∙ rw (count_where-pairs_with test a rs, count_where-joined_rows test rest rs) refl
