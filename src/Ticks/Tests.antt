-- ===== src/Ticks/Tests.antt =====
-- A tick of kelso/lib/lifecycle/cron.py at concrete jobs.
use kelso.Common.{ℕ, true, none, some, [], ◌∷◌, eq_nat, eq_list, keep, ◌≡◌, refl}
use kelso.Common.Result.{ok, traverse}
use kelso.Common.Insertion.{sort_by, insert_by, InOrder}
use mathlib.Core.List.{List, Perm}
use kelso.Common.Text.{codes, text_le, words, words_from, split, partition}
use kelso.Common.Dict.{get}
use kelso.Common.Sort.{gather}
use kelso.Cron.Calendar.{
  DateTime, stamp, is_leap, days_in_month, days_in_months, days_before_year, toordinal, weekday,
  next_day, add_days, next_hour, next_minute,
}
use kelso.Cron.Field.{
  parse_field, parse_items, parse_item, parse_step, parse_span, number, range, range_from,
}
use kelso.Cron.Schedule.{
  parse, parse_parts, day_matches, first_of_next_month, next_midnight, top_of_next_hour, look,
  search_loop, next_after,
}
use kelso.Manifest.Samples.{shop}
use kelso.Spec.Defs.{AppSpec}
use kelso.Updown.Wait.{has_part}
use kelso.Ticks.Defs.{
  CronRun, TickInputs, Outcome, exited, cron_runs, app_runs, cron_run, last_ran, up_units, next,
  soonest_first, run_le, tick, run_job,
}
use kelso.Ticks.Due.{is_due, IsSooner, tick_lem}

abbrev time : ℕ → ℕ → DateTime
time day hour = record { year = 2026; month = 3; day = day; hour = hour; minute = 0 }

abbrev shop_spec : AppSpec
shop_spec = record {
  app = codes "shop";
  manifest = shop;
  run_units = [];
  routes = [];
  config = [];
  volumes = [];
  commands =
      (
        codes "tidy",
        record { name = codes "tidy"; cmd = codes "tidy"; run_unit = codes "main"; desc = [] },
      )
      ∷ [];
}

-- the app runs, and its job, every day at 3, last ran the day before
abbrev morning : TickInputs
morning = record {
  activity =
      (codes "apps/shop/cron/nightly", codes "yesterday")
      ∷ (codes "apps/shop/status", codes "started")
      ∷ [];
  observations =
      record {
        app_id = codes "shop";
        loaded = true;
        containers = record { run_unit = codes "main"; state = codes "Running" } ∷ [];
      }
      ∷ [];
  loaded_spec = λ app. ok (some shop_spec);
  loaded_at = λ app. none;
  local = λ text. some (time 8 3);
  now = time 9 4;
}

abbrev nightly : CronRun
nightly = record {
  app_id = codes "shop";
  name = codes "nightly";
  command = codes "tidy";
  args = codes "'all of it'";
  schedule = codes "0 3 * * *";
  next_at = time 9 3;
  runnable = true;
}

finds_nightly : traverse (app_runs morning) morning.observations ≡ ok ((nightly ∷ []) ∷ [])
unfolding cron_runs app_runs cron_run last_ran up_units next soonest_first sort_by insert_by run_le
    has_part get traverse gather text_le words words_from split partition parse_field parse_items
    parse_item parse_step parse_span number range range_from parse parse_parts day_matches
    first_of_next_month next_midnight top_of_next_hour look search_loop next_after stamp is_leap
    days_in_month days_in_months days_before_year toordinal weekday next_day add_days next_hour
    next_minute
finds_nightly = refl

abbrev all_well : CronRun → Outcome
all_well run = exited 0

tick_example :
    (ran : List CronRun) × InOrder IsSooner ran
    × Perm ran
        (keep (is_due morning.now) (gather (λ (rs : List CronRun). rs) ((nightly ∷ []) ∷ [])))
    × (tick morning true all_well
        ≡ ok (some (gather (λ (run : CronRun). run_job run (all_well run)) ran, ran)))
tick_example = tick_lem morning all_well ((nightly ∷ []) ∷ []) finds_nightly

is_due_then : is_due morning.now nightly ≡ true
unfolding stamp toordinal days_before_year days_in_months days_in_month is_leap
is_due_then = refl
