-- ===== src/Cron/Schedule.antt =====
-- CronSchedule of kelso/lib/cronexpr.py.
pub mod Jumps
pub mod Passed
pub mod Parsed
pub mod Search
use kelso.Common.{
  ℕ, zero, suc, ◌+◌, ◌-◌, ◌*◌, ◌%◌, Bool, true, false, not, ◌&&◌, ◌||◌, List, [], ◌∷◌, map, ltb,
  if◌then◌else◌, ◌==◌, eq_nat, eq_list, contains, length,
}
use kelso.Common.Result.{Result, ok, err, ◌>>=◌}
use kelso.Common.Text.{Text, codes, words}
use kelso.Cron.Field.{Error, not_five_fields, never_matches, parse_field}
use kelso.Cron.Calendar.{DateTime, weekday, stamp, next_day, add_days, next_hour, next_minute}

pub record CronSchedule : Type 0 where
  pub minutes : List ℕ
  pub hours : List ℕ
  pub days : List ℕ
  pub months : List ℕ
  pub weekdays : List ℕ
  pub any_day : Bool
  pub any_weekday : Bool

-- the fields of _FIELDS, in the order in which they are parsed
unfoldable pub parse_parts : List Text → Result Error CronSchedule
parse_parts (minute ∷ hour ∷ day ∷ month ∷ weekday ∷ []) = do
  minutes ← parse_field minute 0 59
  hours ← parse_field hour 0 23
  days ← parse_field day 1 31
  months ← parse_field month 1 12
  weekdays ← parse_field weekday 0 7
  ok (record {
    minutes = minutes;
    hours = hours;
    days = days;
    months = months;
    weekdays = map (λ day. if day == 7 then 0 else day) weekdays;
    any_day = day == codes "*";
    any_weekday = weekday == codes "*";
  })
parse_parts _ = err not_five_fields

-- CronSchedule.parse
unfoldable pub parse : Text → Result Error CronSchedule
unfolding parse_parts
parse text = parse_parts (words text)

-- CronSchedule._day_matches
unfoldable pub day_matches : CronSchedule → DateTime → Bool
day_matches s at =
    let in_days = contains s.days at.day in
    let in_weekdays = contains s.weekdays ((weekday at + 1) % 7) in
    if s.any_day && s.any_weekday
    then true
    else if s.any_day
    then in_weekdays
    else if s.any_weekday
    then in_days
    else in_days || in_weekdays

-- What the rounds of `next_after` test, together.
unfoldable pub is_match : CronSchedule → DateTime → Bool
unfolding day_matches
is_match s at =
    contains s.months at.month
    && (day_matches s at && (contains s.hours at.hour && contains s.minutes at.minute))

-- (at.replace(day=1) + timedelta(days=32)).replace(day=1, hour=0, minute=0)
unfoldable pub first_of_next_month : DateTime → DateTime
first_of_next_month at =
    let there : DateTime = add_days 32 (record at { day = 1 }) in
    record there { day = 1; hour = 0; minute = 0 }

-- (at + timedelta(days=1)).replace(hour=0, minute=0)
unfoldable pub next_midnight : DateTime → DateTime
next_midnight at = record (next_day at) { hour = 0; minute = 0 }

-- (at + timedelta(hours=1)).replace(minute=0)
unfoldable pub top_of_next_hour : DateTime → DateTime
top_of_next_hour at = record (next_hour at) { minute = 0 }

-- The next time to look at, or `at` itself where it matches.
pub data Look : Type 0 where
  go_on : DateTime → Look
  matched : Look

-- one round of the loop of `next_after`
unfoldable pub look : CronSchedule → DateTime → Look
look s at =
    if not (contains s.months at.month)
    then go_on (first_of_next_month at)
    else if not (day_matches s at)
    then go_on (next_midnight at)
    else if not (contains s.hours at.hour)
    then go_on (top_of_next_hour at)
    else if not (contains s.minutes at.minute)
    then go_on (next_minute at)
    else matched

abbrev pub search_days : ℕ
search_days = 366 * 5

-- What `next_after` comes to: a time, the ValueError, or `stuck` if the fuel of the model ran out.
pub data Next : Type 0 where
  found : DateTime → Next
  never : Next
  stuck : Next

-- The loop of `next_after`. Times are compared by their stamps, and `limit` is one.
unfoldable pub search_loop : ℕ → CronSchedule → ℕ → DateTime → Next
search_loop zero s limit at = stuck
search_loop (suc fuel) s limit at = elim (ltb (stamp at) limit) [
  | false ↦ never
  | true ↦ elim (look s at) [ matched ↦ found at | go_on later ↦ search_loop fuel s limit later ]
]

-- CronSchedule.next_after. The seconds of `after` are not in the model: the code drops them.
unfoldable pub next_after : CronSchedule → DateTime → Next
next_after s after =
    let at = next_minute after in
    search_loop (search_days * 1440 + 1) s (stamp at + search_days * 1440) at
