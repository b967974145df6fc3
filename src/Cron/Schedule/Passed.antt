-- ===== src/Cron/Schedule/Passed.antt =====
-- What each round of `next_after` in kelso/lib/cronexpr.py passes over does not match.
use kelso.Common.{
  ℕ, ◌+◌, ◌≤◌, ◌<◌, ◌≡◌, refl, sym, ◌∙◌, arith, true, false, Bool-cases, inl, inr, contains, eq_nat,
}
use kelso.Cron.Calendar.{
  DateTime, toordinal, weekday, stamp, next_day, next_hour, next_minute, IsDateTime,
}
use kelso.Cron.Calendar.Ordinal.{
  toordinal_inj, next_day-IsDateTime, toordinal-next_day, next_hour-IsDateTime,
  next_minute-IsDateTime, toordinal_clock, stamp-next_hour, stamp-next_minute,
}
use kelso.Cron.Schedule.{
  CronSchedule, day_matches, is_match, first_of_next_month, next_midnight, top_of_next_hour, Look,
  go_on, matched, look,
}
use kelso.Cron.Schedule.Jumps.{
  month_cases, Earlier-toordinal, last_day, last_day-IsDateTime, last_day-Earlier,
  toordinal-last_day, first_of_next_month-IsDateTime, first_of_next_month_start,
  toordinal-first_of_next_month,
}

-- From `at` the search may go on to `later`: no time from `at` up to `later` matches.
pub record Skips (s : CronSchedule) (at later : DateTime) : Type 0 where
  pub valid : IsDateTime later
  pub after : stamp at < stamp later
  pub none :
      (u : DateTime)
      → IsDateTime u
      → stamp at ≤ stamp u
      → stamp u < stamp later
      → is_match s u ≡ false

-- Bounds on the day numbers, from the order of the stamps.
stamp_day :
    (t u : DateTime) → IsDateTime t → IsDateTime u → stamp t ≤ stamp u → toordinal t ≤ toordinal u
unfolding stamp
stamp_day t u v w h = omega (arith, v.hour_to, v.minute_to, w.hour_to, w.minute_to)

stamp_before :
    (t u : DateTime) → u.hour ≡ 0 → u.minute ≡ 0 → stamp t < stamp u → toordinal t < toordinal u
unfolding stamp
stamp_before t u h m b = omega arith

before_stamp : (t u : DateTime) → IsDateTime t → toordinal t < toordinal u → stamp t < stamp u
unfolding stamp
before_stamp t u v b = omega (arith, v.hour_to, v.minute_to)

month_skipped :
    (at u : DateTime)
    → IsDateTime at
    → IsDateTime u
    → stamp at ≤ stamp u
    → stamp u < stamp (first_of_next_month at)
    → u.month ≡ at.month
month_skipped at u v w lo hi =
    let z = first_of_next_month_start at in
    let below = stamp_day at u v w lo in
    let above = stamp_before u (first_of_next_month at) z.1 z.2 hi in
    elim (month_cases at u) [
      | inl early ↦ absurd (
          omega (
            arith,
            Earlier-toordinal (last_day at) u (last_day-IsDateTime at v) w
                (last_day-Earlier at u early),
            toordinal-last_day at,
            toordinal-first_of_next_month at v,
            above,
          ))
      | inr (inl same) ↦ sym same.month
      | inr (inr late) ↦ absurd (omega (arith, Earlier-toordinal u at w v late, below))
    ]

month_Skips :
    (s : CronSchedule) (at : DateTime)
    → IsDateTime at
    → contains s.months at.month ≡ false
    → Skips s at (first_of_next_month at)
unfolding is_match
month_Skips s at v out = record {
  valid = first_of_next_month-IsDateTime at v;
  after =
      before_stamp at (first_of_next_month at) v
        (omega (arith, toordinal-first_of_next_month at v, v.day_to));
  none = λ u w lo hi. rw (month_skipped at u v w lo hi, out) refl;
}

toordinal-next_midnight :
    (at : DateTime) → IsDateTime at → toordinal (next_midnight at) ≡ toordinal at + 1
unfolding next_midnight
toordinal-next_midnight at v =
    omega (arith, toordinal-next_day at v, toordinal_clock (next_day at) 0 0)

next_midnight-IsDateTime : (at : DateTime) → IsDateTime at → IsDateTime (next_midnight at)
unfolding next_midnight
next_midnight-IsDateTime at v =
    let w = next_day-IsDateTime at v in
    record {
      year_from = w.year_from;
      month_from = w.month_from;
      month_to = w.month_to;
      day_from = w.day_from;
      day_to = w.day_to;
      hour_to = omega arith;
      minute_to = omega arith;
    }

midnight : (at : DateTime) → ((next_midnight at).hour ≡ 0) × ((next_midnight at).minute ≡ 0)
unfolding next_midnight
midnight at = (refl, refl)

-- Whether a day matches goes by its date.
day_matches_same :
    (s : CronSchedule) (t u : DateTime)
    → toordinal t ≡ toordinal u
    → t.day ≡ u.day
    → day_matches s t ≡ day_matches s u
unfolding day_matches weekday
day_matches_same s t u o d = rw (o, d) refl

day_Skips :
    (s : CronSchedule) (at : DateTime)
    → IsDateTime at
    → day_matches s at ≡ false
    → Skips s at (next_midnight at)
unfolding is_match
day_Skips s at v out = record {
  valid = next_midnight-IsDateTime at v;
  after = before_stamp at (next_midnight at) v (omega (arith, toordinal-next_midnight at v));
  none = λ u w lo hi.
      let o : toordinal u ≡ toordinal at = omega (
        arith,
        toordinal-next_midnight at v,
        stamp_day at u v w lo,
        stamp_before u (next_midnight at) (midnight at).0 (midnight at).1 hi,
      ) in
      let e : day_matches s u ≡ false =
        day_matches_same s u at o (toordinal_inj u at w v o).day ∙ out in
      rw e (ground arith);
}

minute_dropped :
    (t : DateTime) (m : ℕ) → t.minute ≡ m → stamp (record t { minute = 0 }) + m ≡ stamp t
unfolding stamp
minute_dropped t m e = omega (arith, toordinal_clock t t.hour 0, e)

minute-next_hour : (t : DateTime) → (next_hour t).minute ≡ t.minute
unfolding next_hour next_day
minute-next_hour t = ground arith

stamp-top_of_next_hour :
    (at : DateTime) → IsDateTime at → stamp (top_of_next_hour at) + at.minute ≡ stamp at + 60
unfolding top_of_next_hour
stamp-top_of_next_hour at v =
    minute_dropped (next_hour at) at.minute (minute-next_hour at) ∙ stamp-next_hour at v

top_of_next_hour-IsDateTime : (at : DateTime) → IsDateTime at → IsDateTime (top_of_next_hour at)
unfolding top_of_next_hour
top_of_next_hour-IsDateTime at v =
    let w = next_hour-IsDateTime at v in
    record {
      year_from = w.year_from;
      month_from = w.month_from;
      month_to = w.month_to;
      day_from = w.day_from;
      day_to = w.day_to;
      hour_to = w.hour_to;
      minute_to = omega arith;
    }

same_hour :
    (at u : DateTime)
    → IsDateTime at
    → IsDateTime u
    → stamp at ≤ stamp u
    → stamp u + at.minute < stamp at + 60
    → u.hour ≡ at.hour
unfolding stamp
same_hour at u v w lo hi = omega (arith, v.hour_to, v.minute_to, w.hour_to, w.minute_to)

hour_Skips :
    (s : CronSchedule) (at : DateTime)
    → IsDateTime at
    → contains s.hours at.hour ≡ false
    → Skips s at (top_of_next_hour at)
unfolding is_match
hour_Skips s at v out = record {
  valid = top_of_next_hour-IsDateTime at v;
  after = omega (arith, stamp-top_of_next_hour at v, v.minute_to);
  none = λ u w lo hi.
      rw (same_hour at u v w lo (omega (arith, stamp-top_of_next_hour at v, hi)), out)
        (ground arith);
}

same_minute :
    (at u : DateTime) → IsDateTime at → IsDateTime u → stamp u ≡ stamp at → u.minute ≡ at.minute
unfolding stamp
same_minute at u v w e = omega (arith, v.hour_to, v.minute_to, w.hour_to, w.minute_to)

minute_Skips :
    (s : CronSchedule) (at : DateTime)
    → IsDateTime at
    → contains s.minutes at.minute ≡ false
    → Skips s at (next_minute at)
unfolding is_match
minute_Skips s at v out = record {
  valid = next_minute-IsDateTime at v;
  after = omega (arith, stamp-next_minute at v);
  none = λ u w lo hi.
      rw (same_minute at u v w (omega (arith, stamp-next_minute at v, lo, hi)), out) (ground arith);
}

-- What one round comes to: `at` matches, or the search goes on past times that do not.
abbrev pub Looked : CronSchedule → DateTime → Look → Type 0
Looked s at matched = is_match s at ≡ true
Looked s at (go_on later) = Skips s at later

pub look_lem : (s : CronSchedule) (at : DateTime) → IsDateTime at → Looked s at (look s at)
unfolding look
look_lem s at v = elim (Bool-cases (contains s.months at.month)) [
  | inr m ↦ rw m (month_Skips s at v m)
  | inl m ↦ elim (Bool-cases (day_matches s at)) [
    | inr d ↦ rw (m, d) (day_Skips s at v d)
    | inl d ↦ elim (Bool-cases (contains s.hours at.hour)) [
      | inr h ↦ rw (m, d, h) (hour_Skips s at v h)
      | inl h ↦ elim (Bool-cases (contains s.minutes at.minute)) [
        | inr n ↦ rw (m, d, h, n) (minute_Skips s at v n)
        | inl n ↦ rw (m, d, h, n) (unfold is_match in rw (m, d, h, n) refl)
      ]
    ]
  ]
]
