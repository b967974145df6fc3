-- ===== src/Cron/Schedule/Search.antt =====
-- What `CronSchedule.next_after` of kelso/lib/cronexpr.py finds.
use kelso.Common.{
  ℕ, zero, suc, ◌+◌, ◌*◌, ◌≤◌, ◌<◌, ◌≡◌, refl, arith, true, false, ltb, inl, inr, Bool-cases,
}
use kelso.Cron.Calendar.{DateTime, stamp, next_minute, IsDateTime}
use kelso.Cron.Calendar.Ordinal.{next_minute-IsDateTime, stamp-next_minute}
use kelso.Cron.Schedule.{
  CronSchedule, is_match, Look, go_on, matched, look, search_days, Next, found, never, stuck,
  search_loop, next_after,
}
use kelso.Cron.Schedule.Passed.{Skips, Looked, look_lem}

-- `t` is the first time from minute `from` on that matches, and it is before `limit`.
pub record IsFirst (s : CronSchedule) (from limit : ℕ) (t : DateTime) : Type 0 where
  pub valid : IsDateTime t
  pub reached : from ≤ stamp t
  pub in_time : stamp t < limit
  pub fits : is_match s t ≡ true
  pub none_before :
      (u : DateTime) → IsDateTime u → from ≤ stamp u → stamp u < stamp t → is_match s u ≡ false

abbrev pub NoneFits : CronSchedule → ℕ → ℕ → Type 0
NoneFits s from limit =
    (u : DateTime) → IsDateTime u → from ≤ stamp u → stamp u < limit → is_match s u ≡ false

-- What the search from minute `from` up to `limit` may come to.
abbrev pub Searched : CronSchedule → ℕ → ℕ → Next → Type 0
Searched s from limit (found t) = IsFirst s from limit t
Searched s from limit never = NoneFits s from limit
Searched s from limit stuck = ⊥

from_later :
    (s : CronSchedule) (at later u : DateTime)
    → Skips s at later
    → IsDateTime u
    → stamp at ≤ stamp u
    → (stamp later ≤ stamp u → is_match s u ≡ false)
    → is_match s u ≡ false
from_later s at later u k w lo rest = elim (Bool-cases (ltb (stamp u) (stamp later))) [
  | inl before ↦ k.none u w lo (ground arith)
  | inr behind ↦ rest (ground arith)
]

-- The search from a later time, where all before it was passed over.
Searched-Skips :
    (s : CronSchedule) (at later : DateTime) (limit : ℕ) (r : Next)
    → Skips s at later
    → Searched s (stamp later) limit r
    → Searched s (stamp at) limit r
Searched-Skips s at later limit (found t) k f = record {
  valid = f.valid;
  reached = omega (arith, k.after, f.reached);
  in_time = f.in_time;
  fits = f.fits;
  none_before = λ u w lo hi. from_later s at later u k w lo (λ h. f.none_before u w h hi);
}
Searched-Skips s at later limit never k f =
    λ u w lo hi. from_later s at later u k w lo (λ h. f u w h hi)
Searched-Skips s at later limit stuck k f = f

module _ (s : CronSchedule) (limit fuel : ℕ) (at : DateTime) where
  -- what a round makes of the look at `at`
  abbrev after_look : Look → Next
  after_look matched = found at
  after_look (go_on later) = search_loop fuel s limit later

  search_loop_over : ltb (stamp at) limit ≡ false → search_loop (suc fuel) s limit at ≡ never
  unfolding search_loop
  search_loop_over e = ground (arith, e)

  search_loop_on :
      ltb (stamp at) limit ≡ true → search_loop (suc fuel) s limit at ≡ after_look (look s at)
  unfolding search_loop
  search_loop_on e = ground (arith, e, looked (look s at))
    where
      looked :
          (l : Look)
          → elim l [ matched ↦ found at | go_on later ↦ search_loop fuel s limit later ]
            ≡ after_look l
      looked matched = refl
      looked (go_on later) = refl

  Searched-after_look :
      IsDateTime at
      → stamp at < limit
      → ((later : DateTime)
          → IsDateTime later
          → stamp at < stamp later
          → Searched s (stamp later) limit (search_loop fuel s limit later))
      → (l : Look) → Looked s at l
      → Searched s (stamp at) limit (after_look l)
  Searched-after_look v below rest matched fits = record {
    valid = v;
    reached = omega arith;
    in_time = below;
    fits = fits;
    none_before = λ u w lo hi. absurd (omega (arith, lo, hi));
  }
  Searched-after_look v below rest (go_on later) k =
      Searched-Skips s at later limit (search_loop fuel s limit later) k
        (rest later k.valid k.after)

-- Each round goes on by a minute at least, so that fuel for the minutes left is enough.
search_loop_lem :
    (fuel : ℕ) (s : CronSchedule) (limit : ℕ) (at : DateTime)
    → IsDateTime at
    → 1 ≤ fuel
    → limit < stamp at + fuel
    → Searched s (stamp at) limit (search_loop fuel s limit at)
search_loop_lem zero s limit at v some enough = absurd (omega (arith, some))
search_loop_lem (suc fuel) s limit at v some enough = elim (Bool-cases (ltb (stamp at) limit)) [
  | inr e ↦
      rw (search_loop_over s limit fuel at e) (λ u w lo hi. absurd (ground (arith, e, lo, hi)))
  | inl e ↦
      let below : stamp at < limit = ground arith in
      rw (search_loop_on s limit fuel at e) (
        Searched-after_look s limit fuel at v below
          (λ later w moved. search_loop_lem fuel s limit later w (omega arith) (omega arith))
          (look s at) (look_lem s at v))
]

-- `next_after` comes to an end. Either it gives the first time that matches the schedule behind
-- `after`, and this time is less than 1830 days and a minute away, or it raises, and then none of
-- the times that near matches.
pub next_after_lem :
    (s : CronSchedule) (after : DateTime)
    → IsDateTime after
    → Searched s (stamp after + 1) (stamp after + 1 + 366 * 5 * 1440) (next_after s after)
unfolding next_after
next_after_lem s after v =
    let e = stamp-next_minute after v in
    rw (← e) (
      search_loop_lem (search_days * 1440 + 1) s (stamp (next_minute after) + search_days * 1440)
        (next_minute after) (next_minute-IsDateTime after v) (omega arith) (omega arith))
