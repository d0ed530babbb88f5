-- ===== src/Store/DayOrder.antt =====
-- store/audit.go: the days of the filter against the times in the log.
use xensus.Base.{
  ℕ, suc, ◌/◌, ◌%◌, ◌≤◌, ◌<◌, ◌≡◌, refl, ◌∙◌, ◌⊎◌, inl, inr, Bool, true, false, not, ◌&&◌, ◌||◌,
  ◌==◌, ltb, [], ◌∷◌, Text, Bool-cases, arith,
}
use xensus.Sql.Order.{text_lt}
use xensus.Store.Days.{Day, is_date, month_length, next_day, two, four}

-- A text that begins with a day, as the times in the log do.
abbrev pub stamp : Day → Text → Text
stamp d t = four d.year (b'-' ∷ two d.month (b'-' ∷ two d.day t))

abbrev pub day_lt : Day → Day → Bool
day_lt a b =
    ltb a.year b.year
    || (a.year == b.year && (ltb a.month b.month || (a.month == b.month && ltb a.day b.day)))

two_lt :
    (a b : ℕ) (s t : Text)
    → a < 100
    → b < 100
    → text_lt (two a s) (two b t) ≡ (ltb a b || (a == b && text_lt s t))
unfolding text_lt
two_lt a b s t small small' = ground (arith, small, small')

four_lt :
    (a b : ℕ) (s t : Text)
    → a < 10000
    → b < 10000
    → text_lt (four a s) (four b t) ≡ (ltb a b || (a == b && text_lt s t))
four_lt a b s t small small' =
    two_lt (a / 100) (b / 100) (two (a % 100) s) (two (b % 100) t) (omega (arith, small))
      (omega (arith, small'))
    ∙ rw (two_lt (a % 100) (b % 100) s t (omega arith) (omega arith)) (ground arith)

-- What texts of days need of their numbers.
abbrev pub IsShort : Day → Type 0
IsShort d = (d.year < 10000) × (d.month < 100) × (d.day < 100)

text_lt_nil : (t : Text) → text_lt t [] ≡ false
unfolding text_lt
text_lt_nil [] = refl
text_lt_nil (c ∷ t) = refl

pub stamp_lt :
    (a b : Day) (t : Text) → IsShort a → IsShort b → text_lt (stamp a t) (stamp b []) ≡ day_lt a b
unfolding text_lt
stamp_lt a b t p q =
    four_lt a.year b.year (b'-' ∷ two a.month (b'-' ∷ two a.day t))
      (b'-' ∷ two b.month (b'-' ∷ two b.day [])) p.0 q.0
    ∙ rw (two_lt a.month b.month (b'-' ∷ two a.day t) (b'-' ∷ two b.day []) p.1 q.1)
        (rw (two_lt a.day b.day t [] p.2 q.2, text_lt_nil t) (ground arith))

month_length_le : (y m : ℕ) → month_length y m ≤ 31
month_length_le y m = ground arith

abbrev Ranges : Day → Type 0
Ranges d =
    (d.year < 10000)
    × (0 < d.month)
    × (d.month ≤ 12)
    × (0 < d.day)
    × (d.day ≤ month_length d.year d.month)

date-Ranges : (d : Day) → is_date d ≡ true → Ranges d
date-Ranges d h = ground (arith, h)

pub date-IsShort : (d : Day) → is_date d ≡ true → IsShort d
date-IsShort d h =
    let r = date-Ranges d h in
    let le = month_length_le d.year d.month in (r.0, omega (arith, r.2), omega (arith, r.4, le))

pub next_day-IsShort :
    (d : Day)
    → is_date d ≡ true
    → (d.year < 9999) ⊎ (d.month < 12) ⊎ (d.day < 31)
    → IsShort (next_day d)
unfolding next_day
next_day-IsShort d h early =
    let r = date-Ranges d h in
    let le = month_length_le d.year d.month in
    let december : (d.month ≡ 12) → month_length d.year d.month ≡ 31 = λ e. rw e refl in
    let y = r.0 in
    let m = r.2 in
    let x = r.4 in
    elim (Bool-cases (ltb d.day (month_length d.year d.month))) [
      | inl within ↦ rw within (y, omega (arith, m), ground (arith, within, le))
      | inr end ↦ elim (Bool-cases (ltb d.month 12)) [
        | inl more ↦ rw (end, more) (y, ground (arith, more), omega arith)
        | inr last ↦
            rw (end, last)
              (ground (arith, end, last, december, early, y, m), omega arith, omega arith)
      ]
    ]

end_of_month :
    (y m d y' m' d' : ℕ)
    → (y ≡ y' → m ≡ m' → d ≤ d')
    → 0 < d
    → (ltb y y' || (y == y' && (ltb m (suc m') || (m == suc m' && ltb d 1))))
      ≡ not (ltb y' y || (y' == y && (ltb m' m || (m' == m && ltb d' d))))
end_of_month y m d y' m' d' fits low = ground (arith, fits, low)

end_of_year :
    (y m d y' m' d' : ℕ)
    → (y ≡ y' → m ≡ m' → d ≤ d')
    → 0 < d
    → 0 < m
    → m ≤ m'
    → (ltb y (suc y') || (y == suc y' && (ltb m 1 || (m == 1 && ltb d 1))))
      ≡ not (ltb y' y || (y' == y && (ltb m' m || (m' == m && ltb d' d))))
end_of_year y m d y' m' d' fits low lowm le = ground (arith, fits, low, lowm, le)

pub day_lt-next_day :
    (a b : Day) → is_date a ≡ true → is_date b ≡ true → day_lt a (next_day b) ≡ not (day_lt b a)
unfolding next_day
day_lt-next_day a b p q =
    let r = date-Ranges a p in
    let r' = date-Ranges b q in
    let m = r.2 in
    let x = r.4 in
    let m' = r'.2 in
    let x' = r'.4 in
    let low = r.3 in
    let lowm = r.1 in
    let fits : (a.year ≡ b.year) → (a.month ≡ b.month) → a.day ≤ month_length b.year b.month =
      λ e f. rw (← e, ← f) x in
    elim (Bool-cases (ltb b.day (month_length b.year b.month))) [
      | inl within ↦ rw within (ground arith)
      | inr end ↦ elim (Bool-cases (ltb b.month 12)) [
        | inl more ↦
            rw (end, more)
              (end_of_month a.year a.month a.day b.year b.month b.day
                (λ e f. ground (arith, fits e f, end)) low)
        | inr last ↦
            rw (end, last)
              (end_of_year a.year a.month a.day b.year b.month b.day
                (λ e f. ground (arith, fits e f, end)) low lowm (ground (arith, last, m)))
      ]
    ]
