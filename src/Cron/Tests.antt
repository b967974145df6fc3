-- ===== src/Cron/Tests.antt =====
-- kelso/lib/cronexpr.py at concrete schedules and times, after tests/test_cron.py.
use kelso.Common.{ℕ, ◌+◌, ◌*◌, ◌≡◌, refl, arith, true, false, [], ◌∷◌, eq_nat}
use kelso.Common.Result.{ok, err}
use kelso.Common.Text.{codes, words, words_from, split, partition}
use kelso.Cron.Calendar.{
  DateTime, is_leap, days_in_month, days_in_months, days_before_year, toordinal, weekday, stamp,
  next_day, add_days, next_hour, next_minute, IsDateTime,
}
use kelso.Cron.Field.{
  bad_step, parse_field, parse_items, parse_item, parse_step, parse_span, number, range, range_from,
}
use kelso.Cron.Schedule.{
  CronSchedule, parse, parse_parts, day_matches, first_of_next_month, next_midnight,
  top_of_next_hour, look, search_loop, next_after, found,
}
use kelso.Cron.Schedule.Search.{Searched, next_after_lem}

abbrev at_time : ℕ → ℕ → ℕ → ℕ → ℕ → DateTime
at_time year month day hour minute = record {
  year = year;
  month = month;
  day = day;
  hour = hour;
  minute = minute;
}

-- 30 4 1,15 * 5
abbrev payday : CronSchedule
payday = record {
  minutes = 30 ∷ [];
  hours = 4 ∷ [];
  days = 1 ∷ 15 ∷ [];
  months = 1 ∷ 2 ∷ 3 ∷ 4 ∷ 5 ∷ 6 ∷ 7 ∷ 8 ∷ 9 ∷ 10 ∷ 11 ∷ 12 ∷ [];
  weekdays = 5 ∷ [];
  any_day = false;
  any_weekday = false;
}

parses_payday : parse (codes "30 4 1,15 * 5") ≡ ok payday
unfolding parse parse_parts words words_from split parse_field parse_items parse_item parse_step
    parse_span number range range_from partition
parses_payday = refl

refuses_step : parse_field (codes "*/0") 0 59 ≡ err bad_step
unfolding split parse_field parse_items parse_item parse_step parse_span number range range_from
    partition
refuses_step = refl

steps_from_seven : parse_field (codes "7/20") 0 59 ≡ ok (7 ∷ 27 ∷ 47 ∷ [])
unfolding split parse_field parse_items parse_item parse_step parse_span number range range_from
    partition
steps_from_seven = refl

-- 29 February of a year that is not the next one
leap_day :
    next_after
      (record payday { days = 29 ∷ []; months = 2 ∷ []; any_weekday = true })
      (at_time 2025 3 1 0 0)
    ≡ found (at_time 2028 2 29 4 30)
unfolding next_after search_loop look day_matches first_of_next_month next_midnight top_of_next_hour
    is_leap days_in_month days_in_months days_before_year toordinal weekday stamp next_day add_days
    next_hour next_minute
leap_day = refl

last_minute : IsDateTime (at_time 2024 12 31 23 59)
unfolding days_in_month is_leap
last_minute = record {
  year_from = omega arith;
  month_from = omega arith;
  month_to = omega arith;
  day_from = omega arith;
  day_to = omega arith;
  hour_to = omega arith;
  minute_to = omega arith;
}

next_after_example :
    Searched payday
      (stamp (at_time 2024 12 31 23 59) + 1)
      (stamp (at_time 2024 12 31 23 59) + 1 + 366 * 5 * 1440)
      (next_after payday (at_time 2024 12 31 23 59))
next_after_example = next_after_lem payday (at_time 2024 12 31 23 59) last_minute
