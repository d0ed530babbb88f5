-- ===== src/Store/Names.antt =====
-- store/store.go: the names of migrations, by `migrationNameRE`.
use xensus.Base.{
  ℕ, ◌+◌, ◌-◌, ◌*◌, ◌≤◌, ◌≡◌, refl, ap, Bool-cases, inl, inr, true, false, ◌&&◌, ◌==◌, none, some,
  [], ◌∷◌, ◌++◌, Text, codes, text_eq, text_eq_sound, is_digit, All, arith,
}
use xensus.Store.Days.{number, all_digits}
use xensus.Store.Migrations.{ends_in_sql, is_sql_name, name_version}

-- Four digits, an underscore, at least one character, none of them a dot, and `.sql`; the digits are
-- those of the version.
pub data IsNamed (name : Text) (v : ℕ) : Type 0 where
  named :
      (a b c d x : ℕ) (stem : Text)
      → (a ≤ 9) × (b ≤ 9) × (c ≤ 9) × (d ≤ 9)
      → All (λ y. (y == b'.') ≡ false) (x ∷ stem)
      → name ≡ (b'0' + a) ∷ (b'0' + b) ∷ (b'0' + c) ∷ (b'0' + d) ∷ b'_' ∷ x ∷ (stem ++ codes ".sql")
      → v ≡ a * 1000 + b * 100 + c * 10 + d
      → IsNamed name v

ends_in_sql_sound :
    (s : Text)
    → ends_in_sql s ≡ true
    → (stem : Text) × All (λ y. (y == b'.') ≡ false) stem × (s ≡ stem ++ codes ".sql")
ends_in_sql_sound [] h = absurd (let e = h in cc)
ends_in_sql_sound (c ∷ s) h = elim (Bool-cases (c == b'.')) [
  | inl dot ↦
      let h' = (rw dot at h) in
      let is_dot : c ≡ b'.' = ground (arith, dot) in
      ([], tt, rw (is_dot, text_eq_sound s (codes "sql") h') refl)
  | inr other ↦
      let h' = (rw other at h) in
      let (stem, plain, same) = ends_in_sql_sound s h' in (c ∷ stem, (other, plain), ap (c ∷◌) same)
]

ends_in_sql_stem :
    (stem : Text) → All (λ y. (y == b'.') ≡ false) stem → ends_in_sql (stem ++ codes ".sql") ≡ true
unfolding text_eq
ends_in_sql_stem [] h = refl
ends_in_sql_stem (c ∷ stem) (other, h) = rw other (ends_in_sql_stem stem h)

is_digit_offset : (c : ℕ) → is_digit c ≡ true → (n : ℕ) × (c ≡ b'0' + n) × (n ≤ 9)
is_digit_offset c h = (c - b'0', ground (arith, h), ground (arith, h))

-- A name of at least five characters that the pattern takes.
matched-IsNamed :
    (a b c d u : ℕ) (s : Text) (v : ℕ)
    → (all_digits (a ∷ b ∷ c ∷ d ∷ []) && u == b'_' && is_sql_name s) ≡ true
    → number 0 (a ∷ b ∷ c ∷ d ∷ []) ≡ v
    → IsNamed (a ∷ b ∷ c ∷ d ∷ u ∷ s) v
unfolding all_digits
matched-IsNamed a b c d u [] v h same = absurd (ground (arith, h))
matched-IsNamed a b c d u (x ∷ s) v h same =
    let (a', ea, ha) = is_digit_offset a (ground (arith, h)) in
    let (b', eb, hb) = is_digit_offset b (ground (arith, h)) in
    let (c', ec, hc) = is_digit_offset c (ground (arith, h)) in
    let (d', ed, hd) = is_digit_offset d (ground (arith, h)) in
    let eu : u ≡ b'_' = ground (arith, h) in
    let hx : (x == b'.') ≡ false = ground (arith, h) in
    let ends : ends_in_sql s ≡ true = ground (arith, h) in
    let (stem, plain, es) = ends_in_sql_sound s ends in
    named a' b' c' d' x stem (ha, hb, hc, hd) (hx, plain)
      (λ i. ea i ∷ eb i ∷ ec i ∷ ed i ∷ eu i ∷ x ∷ es i) (omega (arith, ea, eb, ec, ed, same))

pub name_version-IsNamed : (name : Text) (v : ℕ) → name_version name ≡ some v → IsNamed name v
unfolding name_version
name_version-IsNamed [] v e = absurd (let e' = e in cc)
name_version-IsNamed (a ∷ []) v e = absurd (let e' = e in cc)
name_version-IsNamed (a ∷ b ∷ []) v e = absurd (let e' = e in cc)
name_version-IsNamed (a ∷ b ∷ c ∷ []) v e = absurd (let e' = e in cc)
name_version-IsNamed (a ∷ b ∷ c ∷ d ∷ []) v e = absurd (let e' = e in cc)
name_version-IsNamed (a ∷ b ∷ c ∷ d ∷ u ∷ s) v e =
    elim (Bool-cases (all_digits (a ∷ b ∷ c ∷ d ∷ []) && u == b'_' && is_sql_name s)) [
      | inl matched ↦
          let e' = (rw matched at e) in matched-IsNamed a b c d u s v matched (let e'' = e' in cc)
      | inr other ↦ absurd (let e' = (rw other at e) in cc)
    ]

IsNamed-name_version : (name : Text) (v : ℕ) → IsNamed name v → name_version name ≡ some v
unfolding name_version all_digits
IsNamed-name_version name v (named a b c d x stem (ha, hb, hc, hd) (hx, plain) e same) =
    rw (e, same, hx, ends_in_sql_stem stem plain)
      (let digits : all_digits ((b'0' + a) ∷ (b'0' + b) ∷ (b'0' + c) ∷ (b'0' + d) ∷ []) ≡ true =
          ground arith in
        let value : number 0 ((b'0' + a) ∷ (b'0' + b) ∷ (b'0' + c) ∷ (b'0' + d) ∷ [])
            ≡ a * 1000 + b * 100 + c * 10 + d =
          omega arith in
        rw (digits, value) refl)

pub unversioned-IsNamed : (name : Text) (v : ℕ) → name_version name ≡ none → IsNamed name v → ⊥
unversioned-IsNamed name v e h = let e' = IsNamed-name_version name v h in cc
