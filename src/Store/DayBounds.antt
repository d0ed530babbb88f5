-- ===== src/Store/DayBounds.antt =====
-- store/audit.go: what the days of the filter let through.
use xensus.Base.{
  ◌<◌, ◌≡◌, refl, ◌⊎◌, true, not, ◌&&◌, some, [], Text, trim_space, is_empty, ltb, arith,
}
use xensus.Sql.Order.{text_lt}
use xensus.Store.Schema.{AuditLogRow}
use xensus.Store.Days.{
  Day, is_date, parse_day, next_day, format_day, day_lower_bound, day_upper_bound,
}
use xensus.Store.DayOrder.{
  stamp, day_lt, IsShort, date-IsShort, stamp_lt, next_day-IsShort, day_lt-next_day,
}
use xensus.Store.DayTexts.{parse_day-IsWritten}
use xensus.Store.Audit.{AuditQuery, unless_empty, meets}

format_day-stamp : (d : Day) → IsShort d → format_day d ≡ stamp d []
unfolding format_day
format_day-stamp d short =
    let small : ltb d.year 10000 ≡ true = ground (arith, short.0) in rw small refl

lower-stamp :
    (from : Text) (lo e : Day) (t : Text)
    → parse_day (trim_space from) ≡ some lo
    → is_date e ≡ true
    → unless_empty (day_lower_bound from) (not (text_lt (stamp e t) (day_lower_bound from)))
      ≡ not (day_lt e lo)
unfolding day_lower_bound
lower-stamp from lo e t read date =
    let written = parse_day-IsWritten (trim_space from) lo read in
    let compared = stamp_lt e lo t (date-IsShort e date) (date-IsShort lo written.1) in
    rw read (rw written.0 (rw compared refl))

upper-stamp :
    (to : Text) (hi e : Day) (t : Text)
    → parse_day (trim_space to) ≡ some hi
    → is_date e ≡ true
    → (hi.year < 9999) ⊎ (hi.month < 12) ⊎ (hi.day < 31)
    → unless_empty (day_upper_bound to) (text_lt (stamp e t) (day_upper_bound to))
      ≡ not (day_lt hi e)
unfolding day_upper_bound
upper-stamp to hi e t read date early =
    let written = parse_day-IsWritten (trim_space to) hi read in
    let short = next_day-IsShort hi written.1 early in
    let compared = stamp_lt e (next_day hi) t (date-IsShort e date) short in
    rw read (
      rw (format_day-stamp (next_day hi) short) (rw compared (day_lt-next_day e hi date written.1)))

-- Where a query names no entity and no actor, and its two days are dates, the last one before
-- 9999-12-31, a row whose time begins with a date meets the query if and only if that date is one of
-- the days from the first to the last, both included.
pub meets-Inclusive :
    (q : AuditQuery) (r : AuditLogRow) (lo hi e : Day) (t : Text)
    → is_empty (trim_space q.entity_type) ≡ true
    → is_empty (trim_space q.actor) ≡ true
    → parse_day (trim_space q.from) ≡ some lo
    → parse_day (trim_space q.to) ≡ some hi
    → (hi.year < 9999) ⊎ (hi.month < 12) ⊎ (hi.day < 31)
    → is_date e ≡ true
    → r.occurred_at ≡ stamp e t
    → meets q r ≡ (not (day_lt e lo) && not (day_lt hi e))
meets-Inclusive q r lo hi e t any_entity any_actor from to early date occurred =
    rw (any_entity, any_actor, occurred)
      (rw (lower-stamp q.from lo e t from date, upper-stamp q.to hi e t to date early) refl)
