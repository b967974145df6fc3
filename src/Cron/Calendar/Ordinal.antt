-- ===== src/Cron/Calendar/Ordinal.antt =====
-- Day numbers and minutes count up by one, and tell dates and times apart.
use kelso.Common.{
  ℕ, zero, suc, ◌+◌, ◌-◌, ◌≤◌, ◌<◌, ◌≡◌, refl, sym, ◌∙◌, arith, false, if◌then◌else◌, ltb,
  Bool-cases, inl, inr, ◌⊎◌,
}
use kelso.Cron.Calendar.{
  DateTime, is_leap, days_in_month, days_in_months, days_before_year, toordinal, stamp, next_day,
  add_days, next_hour, next_minute, IsDateTime,
}

pub days_in_month_range : (y m : ℕ) → (28 ≤ days_in_month y m) × (days_in_month y m ≤ 31)
unfolding days_in_month
days_in_month_range y m = ground arith

days_in_months-suc :
    (y m : ℕ) → 1 ≤ m → days_in_months y m ≡ days_in_months y (m - 1) + days_in_month y m
unfolding days_in_months
days_in_months-suc y zero h = absurd (omega arith)
days_in_months-suc y (suc m) h =
    let e : suc m - 1 ≡ m = omega arith in let f : m + 1 ≡ suc m = omega arith in rw (e, f)

days_in_year : ℕ → ℕ
days_in_year y = if is_leap y then 366 else 365

twelve_months : (y : ℕ) → days_in_months y 12 ≡ days_in_year y
unfolding days_in_months days_in_month days_in_year
twelve_months y = ground arith

days_before_year-suc :
    (y : ℕ) → 1 ≤ y → days_before_year (y + 1) ≡ days_before_year y + days_in_year y
unfolding days_before_year days_in_year is_leap
days_before_year-suc y h = ground arith

days_before_year_mono : (y z : ℕ) → y ≤ z → days_before_year y ≤ days_before_year z
unfolding days_before_year
days_before_year_mono y z h = omega arith

days_in_months_add : (y m n : ℕ) → days_in_months y m ≤ days_in_months y (n + m)
unfolding days_in_months
days_in_months_add y m zero = let e : 0 + m ≡ m = omega arith in rw e (omega arith)
days_in_months_add y m (suc n) =
    let e : suc n + m ≡ suc (n + m) = omega arith in rw e (omega (arith, days_in_months_add y m n))

days_in_months_mono : (y m n : ℕ) → m ≤ n → days_in_months y m ≤ days_in_months y n
days_in_months_mono y m n h =
    let e : n ≡ (n - m) + m = omega arith in rw e (days_in_months_add y m (n - m))

-- The day within the year of a date that exists.
pub day_of_year-le :
    (t : DateTime)
    → IsDateTime t
    → days_in_months t.year (t.month - 1) + t.day ≤ days_in_months t.year t.month
day_of_year-le t v = omega (arith, days_in_months-suc t.year t.month v.month_from)

toordinal-year :
    (t : DateTime)
    → IsDateTime t
    → (days_before_year t.year < toordinal t) × (toordinal t ≤ days_before_year (t.year + 1))
unfolding toordinal
toordinal-year t v = omega (
  arith,
  day_of_year-le t v,
  days_in_months_mono t.year t.month 12 v.month_to,
  twelve_months t.year,
  days_before_year-suc t.year v.year_from,
)

-- A date in an earlier month of the calendar has a smaller day number.
pub earlier_year :
    (t u : DateTime) → IsDateTime t → IsDateTime u → t.year < u.year → toordinal t < toordinal u
earlier_year t u v w h = omega (
  arith,
  toordinal-year t v,
  toordinal-year u w,
  days_before_year_mono (t.year + 1) u.year (omega arith),
)

pub earlier_month :
    (t u : DateTime)
    → IsDateTime t
    → IsDateTime u
    → t.year ≡ u.year
    → t.month < u.month
    → toordinal t < toordinal u
unfolding toordinal
earlier_month t u v w y h = rw (← y) (
    omega (
      arith,
      day_of_year-le t v,
      days_in_months_mono t.year t.month (u.month - 1) (omega arith),
      w.day_from,
    ))

-- Two dates with one day number are one date.
pub record SameDate (t u : DateTime) : Type 0 where
  pub year : t.year ≡ u.year
  pub month : t.month ≡ u.month
  pub day : t.day ≡ u.day

pub compare_nat : (m n : ℕ) → (m < n) ⊎ ((m ≡ n) ⊎ (n < m))
compare_nat m n = ground arith

same_day :
    (t u : DateTime)
    → t.year ≡ u.year
    → t.month ≡ u.month
    → toordinal t ≡ toordinal u
    → t.day ≡ u.day
unfolding toordinal
same_day t u y m e = ground arith

pub toordinal_inj :
    (t u : DateTime) → IsDateTime t → IsDateTime u → toordinal t ≡ toordinal u → SameDate t u
toordinal_inj t u v w e = elim (compare_nat t.year u.year) [
  | inl lt ↦ absurd (omega (arith, earlier_year t u v w lt))
  | inr (inr gt) ↦ absurd (omega (arith, earlier_year u t w v gt))
  | inr (inl y) ↦ elim (compare_nat t.month u.month) [
    | inl lt ↦ absurd (omega (arith, earlier_month t u v w y lt))
    | inr (inr gt) ↦ absurd (omega (arith, earlier_month u t w v (sym y) gt))
    | inr (inl m) ↦ record { year = y; month = m; day = same_day t u y m e }
  ]
]

-- `next_day` is the day with the next number.
pub next_day-IsDateTime : (t : DateTime) → IsDateTime t → IsDateTime (next_day t)
unfolding next_day
next_day-IsDateTime t v =
    ground (arith, days_in_month_range t.year (t.month + 1), days_in_month_range (t.year + 1) 1)

next_year_starts : (y : ℕ) → days_in_months y 0 ≡ 0
unfolding days_in_months
next_year_starts y = refl

pub toordinal-next_day : (t : DateTime) → IsDateTime t → toordinal (next_day t) ≡ toordinal t + 1
unfolding toordinal next_day
toordinal-next_day t v = elim (Bool-cases (ltb t.day (days_in_month t.year t.month))) [
  | inl within ↦ rw within (omega arith)
  | inr last ↦ elim (Bool-cases (ltb t.month 12)) [
    | inl same ↦
        let e : t.month + 1 - 1 ≡ t.month = omega arith in
        rw (last, same, e) (ground (arith, days_in_months-suc t.year t.month v.month_from))
    | inr next ↦
        rw (last, next)
          (ground (
            arith,
            december next,
            days_in_months-suc t.year t.month v.month_from,
            days_before_year-suc t.year v.year_from,
            twelve_months t.year,
            next_year_starts (t.year + 1),
          ))
  ]
]
  where
    december : ltb t.month 12 ≡ false → t.month ≡ 12
    december h = ground arith

-- Adding days, an hour or a minute keeps a date and time that exist, and moves them by as much.
pub add_days-IsDateTime : (n : ℕ) (t : DateTime) → IsDateTime t → IsDateTime (add_days n t)
unfolding add_days
add_days-IsDateTime zero t v = v
add_days-IsDateTime (suc n) t v = add_days-IsDateTime n (next_day t) (next_day-IsDateTime t v)

pub toordinal-add_days :
    (n : ℕ) (t : DateTime) → IsDateTime t → toordinal (add_days n t) ≡ toordinal t + n
unfolding add_days
toordinal-add_days zero t v = omega arith
toordinal-add_days (suc n) t v =
    omega
      (arith, toordinal-add_days n (next_day t) (next_day-IsDateTime t v), toordinal-next_day t v)

pub next_hour-IsDateTime : (t : DateTime) → IsDateTime t → IsDateTime (next_hour t)
unfolding next_hour
next_hour-IsDateTime t v = ground (arith, next_day-IsDateTime (record t { hour = 0 }))

pub next_minute-IsDateTime : (t : DateTime) → IsDateTime t → IsDateTime (next_minute t)
unfolding next_minute
next_minute-IsDateTime t v = ground (arith, next_hour-IsDateTime (record t { minute = 0 }))

next_day_clock : (t : DateTime) → ((next_day t).hour ≡ t.hour) × ((next_day t).minute ≡ t.minute)
unfolding next_day
next_day_clock t = ground arith

-- The day number does not read the clock.
pub toordinal_clock :
    (t : DateTime) (h m : ℕ) → toordinal (record t { hour = h; minute = m }) ≡ toordinal t
unfolding toordinal
toordinal_clock t h m = refl

pub stamp-next_hour : (t : DateTime) → IsDateTime t → stamp (next_hour t) ≡ stamp t + 60
unfolding next_hour stamp
stamp-next_hour t v = elim (Bool-cases (ltb t.hour 23)) [
  | inl h ↦ rw h (omega (arith, toordinal_clock t (t.hour + 1) t.minute))
  | inr h ↦ rw h (
      ground (
        arith,
        toordinal_clock t 0 t.minute,
        next_day_clock (record t { hour = 0 }),
        toordinal-next_day (record t { hour = 0 }),
        h,
      ))
]

pub stamp-next_minute : (t : DateTime) → IsDateTime t → stamp (next_minute t) ≡ stamp t + 1
unfolding next_minute
stamp-next_minute t v = elim (Bool-cases (ltb t.minute 59)) [
  | inl h ↦ rw h (unfold stamp in omega (arith, toordinal_clock t t.hour (t.minute + 1)))
  | inr h ↦ rw h (
      stamp-next_hour (record t { minute = 0 }) (omega arith)
      ∙ (unfold stamp in ground (arith, toordinal_clock t t.hour 0, h)))
]
