-- ===== src/Cron/Schedule/Jumps.antt =====
-- Where each jump of `next_after` lands, and what it passes over.
use kelso.Common.{ℕ, ◌+◌, ◌<◌, ◌≡◌, refl, sym, arith, false, ltb, Bool-cases, inl, inr, ◌⊎◌}
use kelso.Cron.Calendar.{DateTime, days_in_month, toordinal, next_day, add_days, IsDateTime}
use kelso.Cron.Calendar.Ordinal.{
  days_in_month_range, compare_nat, earlier_year, earlier_month, next_day-IsDateTime,
  toordinal-next_day, add_days-IsDateTime, toordinal-add_days,
}
use kelso.Cron.Schedule.{first_of_next_month}

-- An earlier month of the calendar.
abbrev pub Earlier : DateTime → DateTime → Type 0
Earlier t u = (t.year < u.year) ⊎ ((t.year ≡ u.year) × (t.month < u.month))

pub record SameMonth (t u : DateTime) : Type 0 where
  pub year : t.year ≡ u.year
  pub month : t.month ≡ u.month

pub month_cases : (t u : DateTime) → Earlier t u ⊎ (SameMonth t u ⊎ Earlier u t)
month_cases t u = elim (compare_nat t.year u.year) [
  | inl lt ↦ inl (inl lt)
  | inr (inr gt) ↦ inr (inr (inl gt))
  | inr (inl y) ↦ elim (compare_nat t.month u.month) [
    | inl lt ↦ inl (inr (y, lt))
    | inr (inr gt) ↦ inr (inr (inr (sym y, gt)))
    | inr (inl m) ↦ inr (inl (record { year = y; month = m }))
  ]
]

pub Earlier-toordinal :
    (t u : DateTime) → IsDateTime t → IsDateTime u → Earlier t u → toordinal t < toordinal u
Earlier-toordinal t u v w (inl lt) = earlier_year t u v w lt
Earlier-toordinal t u v w (inr (y, lt)) = earlier_month t u v w y lt

-- In one month the day numbers go with the days.
toordinal-SameMonth : (t u : DateTime) → SameMonth t u → toordinal t + u.day ≡ toordinal u + t.day
unfolding toordinal
toordinal-SameMonth t u s = ground (arith, s.year, s.month)

-- The last day of the month, and the day behind it.
pub last_day : DateTime → DateTime
last_day at = record at { day = days_in_month at.year at.month }

abbrev month_after : DateTime → DateTime
month_after at = next_day (last_day at)

pub last_day-IsDateTime : (at : DateTime) → IsDateTime at → IsDateTime (last_day at)
unfolding last_day
last_day-IsDateTime at v = ground (arith, days_in_month_range at.year at.month)

record MonthAfter (at n : DateTime) : Type 0 where
  first : n.day ≡ 1
  place :
      ((n.year ≡ at.year) × (n.month ≡ at.month + 1))
      ⊎ ((n.year ≡ at.year + 1) × (n.month ≡ 1) × (at.month ≡ 12))

ltb_same : (n : ℕ) → ltb n n ≡ false
ltb_same n = ground arith

month_after-MonthAfter : (at : DateTime) → IsDateTime at → MonthAfter at (month_after at)
unfolding next_day last_day
month_after-MonthAfter at v = elim (Bool-cases (ltb at.month 12)) [
  | inl m ↦
      rw (ltb_same (days_in_month at.year at.month), m)
        (record { first = refl; place = inl (refl, refl) })
  | inr d ↦
      rw (ltb_same (days_in_month at.year at.month), d)
        (record { first = refl; place = inr (refl, refl, ground (arith, v.month_to, d)) })
]

toordinal-month_after :
    (at : DateTime)
    → IsDateTime at
    → toordinal (month_after at) + at.day ≡ toordinal at + days_in_month at.year at.month + 1
unfolding last_day
toordinal-month_after at v = omega (
  arith,
  toordinal-next_day (last_day at) (last_day-IsDateTime at v),
  toordinal-SameMonth (last_day at) at (record { year = refl; month = refl }),
)

month_after-IsDateTime : (at : DateTime) → IsDateTime at → IsDateTime (month_after at)
month_after-IsDateTime at v = next_day-IsDateTime (last_day at) (last_day-IsDateTime at v)

-- The day that the month's first plus 32 days comes to.
day_32 : DateTime → DateTime
day_32 at = add_days 32 (record at { day = 1 })

start-IsDateTime : (at : DateTime) → IsDateTime at → IsDateTime (record at { day = 1 })
start-IsDateTime at v = ground (arith, days_in_month_range at.year at.month)

day_32-IsDateTime : (at : DateTime) → IsDateTime at → IsDateTime (day_32 at)
unfolding day_32
day_32-IsDateTime at v = add_days-IsDateTime 32 (record at { day = 1 }) (start-IsDateTime at v)

toordinal-day_32 :
    (at : DateTime) → IsDateTime at → toordinal (day_32 at) + at.day ≡ toordinal at + 33
unfolding day_32
toordinal-day_32 at v = omega (
  arith,
  toordinal-add_days 32 (record at { day = 1 }) (start-IsDateTime at v),
  toordinal-SameMonth (record at { day = 1 }) at (record { year = refl; month = refl }),
)

pub last_day-Earlier : (n b : DateTime) → Earlier n b → Earlier (last_day n) b
unfolding last_day
last_day-Earlier n b e = e

pub toordinal-last_day :
    (n : DateTime) → toordinal (last_day n) + n.day ≡ toordinal n + days_in_month n.year n.month
unfolding last_day
toordinal-last_day n = toordinal-SameMonth (last_day n) n (record { year = refl; month = refl })

-- It is in the month after.
day_32-SameMonth : (at : DateTime) → IsDateTime at → SameMonth (day_32 at) (month_after at)
day_32-SameMonth at v =
    let n : DateTime = month_after at in
    let b : DateTime = day_32 at in
    let vn : IsDateTime n = month_after-IsDateTime at v in
    let vb : IsDateTime b = day_32-IsDateTime at v in
    let on = toordinal-month_after at v in
    let ob = toordinal-day_32 at v in
    let range = days_in_month_range at.year at.month in
    let first : n.day ≡ 1 = (month_after-MonthAfter at v).first in
    elim (month_cases b n) [
      | inl early ↦ absurd (omega (arith, Earlier-toordinal b n vb vn early, on, ob, range))
      | inr (inl same) ↦ same
      | inr (inr late) ↦ absurd (
          omega (
            arith,
            Earlier-toordinal (last_day n) b (last_day-IsDateTime n vn) vb
                (last_day-Earlier n b late),
            on,
            ob,
            range,
            toordinal-last_day n,
            first,
            days_in_month_range n.year n.month,
          ))
    ]

first_of_next_month-SameMonth :
    (at : DateTime) → IsDateTime at → SameMonth (first_of_next_month at) (month_after at)
unfolding first_of_next_month day_32
first_of_next_month-SameMonth at v =
    let e = day_32-SameMonth at v in record { year = e.year; month = e.month }

pub first_of_next_month_start :
    (at : DateTime)
    → ((first_of_next_month at).day ≡ 1)
      × ((first_of_next_month at).hour ≡ 0)
      × ((first_of_next_month at).minute ≡ 0)
unfolding first_of_next_month
first_of_next_month_start at = (refl, refl, refl)

same_days :
    (t u : DateTime) → SameMonth t u → days_in_month t.year t.month ≡ days_in_month u.year u.month
same_days t u e = cc (e.year, e.month)

pub first_of_next_month-IsDateTime :
    (at : DateTime) → IsDateTime at → IsDateTime (first_of_next_month at)
first_of_next_month-IsDateTime at v =
    let w : IsDateTime (month_after at) = month_after-IsDateTime at v in
    let e : SameMonth (first_of_next_month at) (month_after at) =
      first_of_next_month-SameMonth at v in
    let z = first_of_next_month_start at in
    let range = days_in_month_range (first_of_next_month at).year (first_of_next_month at).month in
    record {
      year_from = omega (arith, w.year_from, e.year);
      month_from = omega (arith, w.month_from, e.month);
      month_to = omega (arith, w.month_to, e.month);
      day_from = omega (arith, z);
      day_to = omega (arith, z, range);
      hour_to = omega (arith, z);
      minute_to = omega (arith, z);
    }

-- The day number of the first of the next month.
pub toordinal-first_of_next_month :
    (at : DateTime)
    → IsDateTime at
    → toordinal (first_of_next_month at) + at.day
      ≡ toordinal at + days_in_month at.year at.month + 1
toordinal-first_of_next_month at v = omega (
  arith,
  toordinal-month_after at v,
  toordinal-SameMonth (first_of_next_month at) (month_after at)
      (first_of_next_month-SameMonth at v),
  first_of_next_month_start at,
  (month_after-MonthAfter at v).first,
)
