-- ===== src/Store/DayTexts.antt =====
-- store/audit.go: the texts that are read as days.
use xensus.Base.{
  ℕ, ◌+◌, ◌/◌, ◌%◌, ◌≡◌, refl, sym, subst, inl, inr, true, ◌&&◌, ◌==◌, Option, some, [], ◌∷◌, Text,
  Bool-cases, arith,
}
use xensus.Store.Days.{Day, is_date, number, all_digits, from_digits, parse_day, two, four}
use xensus.Store.DayOrder.{stamp}

-- The text of a number's digits.
two-number :
    (c d : ℕ) (s : Text)
    → all_digits (c ∷ d ∷ []) ≡ true
    → two (number 0 (c ∷ d ∷ [])) s ≡ c ∷ d ∷ s
unfolding all_digits
two-number c d s h =
    let e : (b'0' + number 0 (c ∷ d ∷ []) / 10) ≡ c = ground (arith, h) in
    let f : (b'0' + number 0 (c ∷ d ∷ []) % 10) ≡ d = ground (arith, h) in rw (e, f) refl

four-number :
    (a b c d : ℕ) (s : Text)
    → all_digits (a ∷ b ∷ c ∷ d ∷ []) ≡ true
    → four (number 0 (a ∷ b ∷ c ∷ d ∷ [])) s ≡ a ∷ b ∷ c ∷ d ∷ s
unfolding all_digits
four-number a b c d s h =
    let n = number 0 (a ∷ b ∷ c ∷ d ∷ []) in
    let front : n / 100 ≡ number 0 (a ∷ b ∷ []) = ground (arith, h) in
    let back : n % 100 ≡ number 0 (c ∷ d ∷ []) = ground (arith, h) in
    let h' : all_digits (a ∷ b ∷ []) ≡ true = ground (arith, h) in
    let h'' : all_digits (c ∷ d ∷ []) ≡ true = ground (arith, h) in
    rw (front, back) (rw (two-number c d s h'') (two-number a b (c ∷ d ∷ s) h'))

-- What a parsed day was written as.
abbrev IsWritten : Text → Option Day → Type 0
IsWritten s o = (d : Day) → o ≡ some d → (s ≡ stamp d []) × (is_date d ≡ true)

from_digits-IsWritten :
    (y1 y2 y3 y4 m1 m2 d1 d2 : ℕ)
    → IsWritten
        (y1 ∷ y2 ∷ y3 ∷ y4 ∷ b'-' ∷ m1 ∷ m2 ∷ b'-' ∷ d1 ∷ d2 ∷ [])
        (from_digits (y1 ∷ y2 ∷ y3 ∷ y4 ∷ []) (m1 ∷ m2 ∷ []) (d1 ∷ d2 ∷ []))
from_digits-IsWritten y1 y2 y3 y4 m1 m2 d1 d2 d e =
    let y = y1 ∷ y2 ∷ y3 ∷ y4 ∷ [] in
    let m = m1 ∷ m2 ∷ [] in
    let x = d1 ∷ d2 ∷ [] in
    let read : Day = record { year = number 0 y; month = number 0 m; day = number 0 x } in
    elim (Bool-cases (all_digits y && all_digits m && all_digits x)) [
      | inr other ↦ absurd (let e' = (rw other at e) in cc)
      | inl digits ↦ elim (Bool-cases (is_date read)) [
        | inr wrong ↦ absurd (let e' = (rw (digits, wrong) at e) in cc)
        | inl date ↦
            let e' = (rw (digits, date) at e) in
            let same : read ≡ d = ground (arith, e') in
            let hy : all_digits y ≡ true = ground (arith, digits) in
            let hm : all_digits m ≡ true = ground (arith, digits) in
            let hx : all_digits x ≡ true = ground (arith, digits) in
            subst
              (λ d.
                (y1 ∷ y2 ∷ y3 ∷ y4 ∷ b'-' ∷ m1 ∷ m2 ∷ b'-' ∷ d1 ∷ d2 ∷ [] ≡ stamp d [])
                × (is_date d ≡ true))
              same
              (
                sym (
                    rw
                      (
                        four-number y1 y2 y3 y4
                            (b'-' ∷ two (number 0 m) (b'-' ∷ two (number 0 x) [])) hy,
                        two-number m1 m2 (b'-' ∷ two (number 0 x) []) hm,
                        two-number d1 d2 [] hx,
                      )
                      refl),
                date,
              )
      ]
    ]

dashed-IsWritten :
    (y1 y2 y3 y4 h1 m1 m2 h2 d1 d2 : ℕ)
    → IsWritten
        (y1 ∷ y2 ∷ y3 ∷ y4 ∷ h1 ∷ m1 ∷ m2 ∷ h2 ∷ d1 ∷ d2 ∷ [])
        (parse_day (y1 ∷ y2 ∷ y3 ∷ y4 ∷ h1 ∷ m1 ∷ m2 ∷ h2 ∷ d1 ∷ d2 ∷ []))
unfolding parse_day
dashed-IsWritten y1 y2 y3 y4 h1 m1 m2 h2 d1 d2 d e = elim (Bool-cases (h1 == b'-' && h2 == b'-')) [
  | inr other ↦ absurd (let e' = (rw other at e) in cc)
  | inl dashes ↦
      let e' = (rw dashes at e) in
      let first : h1 ≡ b'-' = ground (arith, dashes) in
      let second : h2 ≡ b'-' = ground (arith, dashes) in
      rw (first, second) (from_digits-IsWritten y1 y2 y3 y4 m1 m2 d1 d2 d e')
]

-- A day that is read is a date, and the text read is how it is written.
pub parse_day-IsWritten : (s : Text) → IsWritten s (parse_day s)
unfolding parse_day
parse_day-IsWritten [] d e = absurd (let e' = e in cc)
parse_day-IsWritten (y1 ∷ []) d e = absurd (let e' = e in cc)
parse_day-IsWritten (y1 ∷ y2 ∷ []) d e = absurd (let e' = e in cc)
parse_day-IsWritten (y1 ∷ y2 ∷ y3 ∷ []) d e = absurd (let e' = e in cc)
parse_day-IsWritten (y1 ∷ y2 ∷ y3 ∷ y4 ∷ []) d e = absurd (let e' = e in cc)
parse_day-IsWritten (y1 ∷ y2 ∷ y3 ∷ y4 ∷ h1 ∷ []) d e = absurd (let e' = e in cc)
parse_day-IsWritten (y1 ∷ y2 ∷ y3 ∷ y4 ∷ h1 ∷ m1 ∷ []) d e = absurd (let e' = e in cc)
parse_day-IsWritten (y1 ∷ y2 ∷ y3 ∷ y4 ∷ h1 ∷ m1 ∷ m2 ∷ []) d e = absurd (let e' = e in cc)
parse_day-IsWritten (y1 ∷ y2 ∷ y3 ∷ y4 ∷ h1 ∷ m1 ∷ m2 ∷ h2 ∷ []) d e = absurd (let e' = e in cc)
parse_day-IsWritten (y1 ∷ y2 ∷ y3 ∷ y4 ∷ h1 ∷ m1 ∷ m2 ∷ h2 ∷ d1 ∷ []) d e =
    absurd (let e' = e in cc)
parse_day-IsWritten (y1 ∷ y2 ∷ y3 ∷ y4 ∷ h1 ∷ m1 ∷ m2 ∷ h2 ∷ d1 ∷ d2 ∷ []) d e =
    dashed-IsWritten y1 y2 y3 y4 h1 m1 m2 h2 d1 d2 d e
parse_day-IsWritten (y1 ∷ y2 ∷ y3 ∷ y4 ∷ h1 ∷ m1 ∷ m2 ∷ h2 ∷ d1 ∷ d2 ∷ c ∷ s) d e =
    absurd (let e' = e in cc)
