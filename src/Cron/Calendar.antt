-- ===== src/Cron/Calendar.antt =====
-- What kelso/lib/cronexpr.py uses of Python's `datetime`: a local time to the minute in the
-- Gregorian calendar, its weekday, and adding days, hours and minutes. Years have no upper end.
pub mod Ordinal
use kelso.Common.{
  ℕ, zero, suc, ◌+◌, ◌-◌, ◌*◌, ◌/◌, ◌%◌, ◌≤◌, ◌<◌, Bool, true, false, not, ◌&&◌, ◌||◌, ltb, leb,
  if◌then◌else◌, ◌==◌, eq_nat,
}

pub record DateTime : Type 0 where
  pub year : ℕ
  pub month : ℕ
  pub day : ℕ
  pub hour : ℕ
  pub minute : ℕ

unfoldable pub is_leap : ℕ → Bool
is_leap y = (y % 4 == 0) && (not (y % 100 == 0) || (y % 400 == 0))

unfoldable pub days_in_month : ℕ → ℕ → ℕ
days_in_month y m =
    if m == 2
    then (if is_leap y then 29 else 28)
    else if (m == 4) || ((m == 6) || ((m == 9) || (m == 11)))
    then 30
    else 31

-- the days in the first `n` months of the year
unfoldable pub days_in_months : ℕ → ℕ → ℕ
days_in_months y zero = 0
days_in_months y (suc n) = days_in_months y n + days_in_month y (n + 1)

unfoldable pub days_before_year : ℕ → ℕ
days_before_year y = (y - 1) * 365 + (y - 1) / 4 - (y - 1) / 100 + (y - 1) / 400

-- t.toordinal(): 1 January of year 1 is day 1
unfoldable pub toordinal : DateTime → ℕ
toordinal t = days_before_year t.year + days_in_months t.year (t.month - 1) + t.day

-- t.weekday(): Monday is 0
unfoldable pub weekday : DateTime → ℕ
weekday t = (toordinal t + 6) % 7

-- The minutes since the beginning of day 0, by which times are compared.
unfoldable pub stamp : DateTime → ℕ
stamp t = (toordinal t * 24 + t.hour) * 60 + t.minute

-- t + timedelta(days=1)
unfoldable pub next_day : DateTime → DateTime
next_day t =
    if ltb t.day (days_in_month t.year t.month)
    then record t { day = t.day + 1 }
    else if ltb t.month 12
    then record t { month = t.month + 1; day = 1 }
    else record t { year = t.year + 1; month = 1; day = 1 }

-- t + timedelta(days=n)
unfoldable pub add_days : ℕ → DateTime → DateTime
add_days zero t = t
add_days (suc n) t = add_days n (next_day t)

-- t + timedelta(hours=1)
unfoldable pub next_hour : DateTime → DateTime
next_hour t =
    if ltb t.hour 23 then record t { hour = t.hour + 1 } else next_day (record t { hour = 0 })

-- t + timedelta(minutes=1)
unfoldable pub next_minute : DateTime → DateTime
next_minute t =
    if ltb t.minute 59
    then record t { minute = t.minute + 1 }
    else next_hour (record t { minute = 0 })

-- A date and time that exist.
pub record IsDateTime (t : DateTime) : Type 0 where
  pub year_from : 1 ≤ t.year
  pub month_from : 1 ≤ t.month
  pub month_to : t.month ≤ 12
  pub day_from : 1 ≤ t.day
  pub day_to : t.day ≤ days_in_month t.year t.month
  pub hour_to : t.hour < 24
  pub minute_to : t.minute < 60
