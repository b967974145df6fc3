-- ===== src/Cron/Schedule/Parsed.antt =====
-- `CronSchedule.parse` of kelso/lib/cronexpr.py.
use kelso.Common.{
  ℕ, ◌≤◌, ◌≡◌, arith, true, List, [], ◌∷◌, map, if◌then◌else◌, ◌==◌, eq_nat, eq_list, contains,
  ==→eq, ==_refl, inl, inr, subst,
}
use kelso.Common.Result.{ok, ok_of_bind}
use kelso.Common.Text.{Text, codes, words}
use kelso.Cron.Field.{parse_field}
use kelso.Cron.Field.Ranges.{contains_or, parse_field-range}
use kelso.Cron.Schedule.{CronSchedule, parse_parts, parse}

abbrev Within : ℕ → ℕ → List ℕ → Type 0
Within low high values = (n : ℕ) → contains values n ≡ true → (low ≤ n) × (n ≤ high)

-- A schedule whose numbers a date and a time can have.
pub record IsSchedule (s : CronSchedule) : Type 0 where
  pub minutes_in : Within 0 59 s.minutes
  pub hours_in : Within 0 23 s.hours
  pub days_in : Within 1 31 s.days
  pub months_in : Within 1 12 s.months
  pub weekdays_in : Within 0 6 s.weekdays

sunday : ℕ → ℕ
sunday day = if day == 7 then 0 else day

sunday-le : (day : ℕ) → day ≤ 7 → sunday day ≤ 6
unfolding sunday
sunday-le day h = ground arith

Within-sunday : (days : List ℕ) → Within 0 7 days → Within 0 6 (map sunday days)
Within-sunday [] h n c = cc
Within-sunday (day ∷ days) h n c =
    elim (contains_or (sunday day == n) (contains (map sunday days) n) c) [
      | inl here ↦
          let k : sunday day ≡ n = ==→eq (sunday day) n here in
          let l = (h day (ground (arith, ==_refl day))).1 in omega (arith, k, sunday-le day l)
      | inr more ↦ Within-sunday days (λ m d. h m (ground (arith, d))) n more
    ]

parse_parts-IsSchedule :
    (parts : List Text) (s : CronSchedule) → parse_parts parts ≡ ok s → IsSchedule s
unfolding parse_parts sunday
parse_parts-IsSchedule [] s h = cc
parse_parts-IsSchedule (a ∷ []) s h = cc
parse_parts-IsSchedule (a ∷ b ∷ []) s h = cc
parse_parts-IsSchedule (a ∷ b ∷ c ∷ []) s h = cc
parse_parts-IsSchedule (a ∷ b ∷ c ∷ d ∷ []) s h = cc
parse_parts-IsSchedule (a ∷ b ∷ c ∷ d ∷ e ∷ f ∷ r) s h = cc
parse_parts-IsSchedule (a ∷ b ∷ c ∷ d ∷ e ∷ []) s h =
    let minutes = ok_of_bind (parse_field a 0 59) _ h in
    let hours = ok_of_bind (parse_field b 0 23) _ minutes.2 in
    let days = ok_of_bind (parse_field c 1 31) _ hours.2 in
    let months = ok_of_bind (parse_field d 1 12) _ days.2 in
    let weekdays = ok_of_bind (parse_field e 0 7) _ months.2 in
    let made : record {
      minutes = minutes.0;
      hours = hours.0;
      days = days.0;
      months = months.0;
      weekdays = map sunday weekdays.0;
      any_day = c == codes "*";
      any_weekday = e == codes "*";
    }
        ≡ s =
      cc weekdays.2 in
    subst IsSchedule made (record {
      minutes_in = parse_field-range a 0 59 minutes.0 minutes.1;
      hours_in = parse_field-range b 0 23 hours.0 hours.1;
      days_in = parse_field-range c 1 31 days.0 days.1;
      months_in = parse_field-range d 1 12 months.0 months.1;
      weekdays_in = Within-sunday weekdays.0 (parse_field-range e 0 7 weekdays.0 weekdays.1);
    })

-- A schedule that parses has minutes up to 59, hours up to 23, days from 1 to 31, months from 1 to
-- 12 and weekdays up to 6, so 7 is read as the Sunday 0.
pub parse-IsSchedule : (text : Text) (s : CronSchedule) → parse text ≡ ok s → IsSchedule s
unfolding parse
parse-IsSchedule text s h = parse_parts-IsSchedule (words text) s h
