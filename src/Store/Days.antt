-- ===== src/Store/Days.antt =====
-- store/audit.go: the days of the audit viewer's filter, read by time.Parse("2006-01-02", …).
use xensus.Base.{
  ℕ, suc, ◌+◌, ◌-◌, ◌*◌, ◌/◌, ◌%◌, Bool, true, not, ◌&&◌, ◌||◌, ◌==◌, ltb, leb, Option, none, some,
  [], ◌∷◌, Text, is_digit, trim_space, if◌then◌else◌,
}

pub record Day : Type 0 where
  pub year : ℕ
  pub month : ℕ
  pub day : ℕ

abbrev pub is_leap : ℕ → Bool
is_leap y = y % 4 == 0 && (not (y % 100 == 0) || y % 400 == 0)

abbrev pub month_length : ℕ → ℕ → ℕ
month_length y m =
    if m == 2
    then (if is_leap y then 29 else 28)
    else if m == 4 || m == 6 || m == 9 || m == 11
    then 30
    else 31

-- A date of the calendar, with a year of four digits.
abbrev pub is_date : Day → Bool
is_date d =
    ltb d.year 10000
    && leb 1 d.month
    && leb d.month 12
    && leb 1 d.day
    && leb d.day (month_length d.year d.month)

abbrev pub number : ℕ → Text → ℕ
number n [] = n
number n (c ∷ s) = number (n * 10 + (c - b'0')) s

unfoldable pub all_digits : Text → Bool
all_digits [] = true
all_digits (c ∷ s) = is_digit c && all_digits s

abbrev pub checked_day : Day → Option Day
checked_day d = if is_date d then some d else none

abbrev pub from_digits : Text → Text → Text → Option Day
from_digits y m d =
    if all_digits y && all_digits m && all_digits d
    then checked_day (record { year = number 0 y; month = number 0 m; day = number 0 d })
    else none

-- `time.Parse("2006-01-02", s)`
unfoldable pub parse_day : Text → Option Day
parse_day (y1 ∷ y2 ∷ y3 ∷ y4 ∷ h1 ∷ m1 ∷ m2 ∷ h2 ∷ d1 ∷ d2 ∷ []) =
    if h1 == b'-' && h2 == b'-'
    then from_digits (y1 ∷ y2 ∷ y3 ∷ y4 ∷ []) (m1 ∷ m2 ∷ []) (d1 ∷ d2 ∷ [])
    else none
parse_day _ = none

-- `t.AddDate(0, 0, 1)`
unfoldable pub next_day : Day → Day
next_day d =
    if ltb d.day (month_length d.year d.month)
    then record d { day = suc d.day }
    else if ltb d.month 12
    then record { year = d.year; month = suc d.month; day = 1 }
    else record { year = suc d.year; month = 1; day = 1 }

abbrev pub two : ℕ → Text → Text
two n s = (b'0' + n / 10) ∷ (b'0' + n % 10) ∷ s

abbrev pub four : ℕ → Text → Text
four n s = two (n / 100) (two (n % 100) s)

abbrev year_text : ℕ → Text → Text
year_text y s = if ltb y 10000 then four y s else (b'0' + y / 10000) ∷ four (y % 10000) s

-- `t.Format("2006-01-02")`, of a year below 100000
unfoldable pub format_day : Day → Text
format_day d = year_text d.year (b'-' ∷ two d.month (b'-' ∷ two d.day []))

abbrev bounded : (Day → Text) → Option Day → Text
bounded f none = []
bounded f (some d) = f d

-- `dayLowerBound`
unfoldable pub day_lower_bound : Text → Text
day_lower_bound s = bounded (λ _. trim_space s) (parse_day (trim_space s))

-- `dayUpperBound`
unfoldable pub day_upper_bound : Text → Text
day_upper_bound s = bounded (λ d. format_day (next_day d)) (parse_day (trim_space s))
