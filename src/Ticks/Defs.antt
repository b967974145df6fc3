-- ===== src/Ticks/Defs.antt =====
-- cron_runs and tick of kelso/lib/lifecycle/cron.py. Times are those of the local clock, as one
-- that is never set forward or back. What the activity log, docker and the stores say is given.
use kelso.Common.{
  ℕ, Bool, not, ◌&&◌, ◌||◌, Option, none, some, List, [], ◌∷◌, ◌++◌, map, if◌then◌else◌, ltb, ◌==◌,
  eq_nat, eq_list, contains, keep, drop,
}
use kelso.Common.Result.{Result, ok, err, ◌>>=◌, traverse}
use kelso.Common.Text.{Text, codes, starts_with, text_le}
use kelso.Common.Dict.{Dict, get}
use kelso.Common.Sort.{gather}
use kelso.Common.Insertion.{sort_by}
use kelso.Cron.Calendar.{DateTime, stamp}
use kelso.Cron.Schedule.{Next, found, never, stuck, parse, next_after}
use kelso.Manifest.Entries.{CronEntry}
use kelso.Spec.Defs.{AppSpec}
use kelso.Updown.Wait.{has_part, lower}

-- CronRun
pub record CronRun : Type 0 where
  pub app_id : Text
  pub name : Text
  pub command : Text
  pub args : Text
  pub schedule : Text
  pub next_at : DateTime
  pub runnable : Bool

-- CronRun.status
unfoldable run_status : CronRun → Text
run_status run = if run.runnable then codes "scheduled" else codes "skip"

pub record Container : Type 0 where
  pub run_unit : Text
  pub state : Text

pub record Observation : Type 0 where
  pub app_id : Text
  pub loaded : Bool
  pub containers : List Container

-- What cron_runs reads.
pub record TickInputs : Type 0 where
  -- the activity log, below `apps/`
  pub activity : Dict Text Text
  pub observations : List Observation
  -- the specification of a loaded app, or the ValueError
  pub loaded_spec : Text → Result Text (Option AppSpec)
  pub loaded_at : Text → Option Text
  -- the local time of a timestamp
  pub local : Text → Option DateTime
  pub now : DateTime

pub data TickError : Type 0 where
  bad_timestamp never_comes no_command : Text → TickError

-- {key.removeprefix("apps/"): entry.value … if "/cron/" in key}
unfoldable pub last_ran : Dict Text Text → Dict Text Text
unfolding has_part
last_ran [] = []
last_ran ((key, value) ∷ entries) =
    let rest = last_ran entries in
    let short = if starts_with key (codes "apps/") then drop 5 key else key in
    if has_part key (codes "/cron/") then (short, value) ∷ rest else rest

-- {c.run_unit for c in containers if c.state.lower() == "running"}
unfoldable pub up_units : List Container → List Text
up_units containers =
    map (λ (c : Container). c.run_unit)
      (keep (λ (c : Container). lower c.state == codes "running") containers)

abbrev pub next_time : Text → Next → Result TickError DateTime
next_time schedule (found at) = ok at
next_time schedule never = err (never_comes schedule)
next_time schedule stuck = err (never_comes schedule)

-- _next
unfoldable pub next : Text → DateTime → Result TickError DateTime
unfolding parse next_after
next schedule since = elim (parse schedule) [
  | err e ↦ err (never_comes schedule)
  | ok s ↦ next_time schedule (next_after s since)
]

-- a or b, of texts that may be missing
abbrev pub or_text : Option Text → Option Text → Option Text
or_text none b = b
or_text (some []) b = b
or_text (some (c ∷ s)) b = some (c ∷ s)

-- _instant(since) if since else now
abbrev pub since_or : (Text → Option DateTime) → DateTime → Option Text → Result TickError DateTime
since_or local now none = ok now
since_or local now (some []) = ok now
since_or local now (some (c ∷ s)) = elim (local (c ∷ s)) [
  | none ↦ err (bad_timestamp (c ∷ s))
  | some at ↦ ok at
]

-- one cron entry of an app
unfoldable pub cron_run :
    TickInputs → AppSpec → Text → List Text → Text × CronEntry → Result TickError CronRun
unfolding last_ran next get
cron_run o spec app up (name, entry) =
    since_or o.local o.now
      (or_text (get (last_ran o.activity) (app ++ (codes "/cron/" ++ name))) (o.loaded_at app))
    >>= λ since. next entry.schedule since >>= λ next_at. elim (get spec.commands entry.command) [
      | none ↦ err (no_command entry.command)
      | some command ↦ ok (record {
        app_id = app;
        name = name;
        command = entry.command;
        args = entry.args;
        schedule = entry.schedule;
        next_at = next_at;
        runnable = contains up command.run_unit;
      })
    ]

-- the runs of an app; one whose specification does not load has none, and it is logged
unfoldable pub app_runs : TickInputs → Observation → Result TickError (List CronRun)
unfolding cron_run up_units traverse
app_runs o seen = if not seen.loaded then ok [] else elim (o.loaded_spec seen.app_id) [
  | err e ↦ ok []
  | ok loaded ↦ elim loaded [
    | none ↦ ok []
    | some spec ↦
        traverse (cron_run o spec seen.app_id (up_units seen.containers)) spec.manifest.cron
  ]
]

-- (next_at, app_id, name), in order
unfoldable pub run_le : CronRun → CronRun → Bool
unfolding text_le
run_le a b =
    ltb (stamp a.next_at) (stamp b.next_at)
    || ((stamp a.next_at == stamp b.next_at)
        && (if a.app_id == b.app_id then text_le a.name b.name else text_le a.app_id b.app_id))

unfoldable pub soonest_first : List CronRun → List CronRun
unfolding run_le sort_by
soonest_first runs = sort_by run_le runs

-- cron_runs
unfoldable pub cron_runs : TickInputs → Result TickError (List CronRun)
unfolding app_runs soonest_first gather traverse
cron_runs o = traverse (app_runs o) o.observations >>= λ runs.
    ok (soonest_first (gather (λ (rs : List CronRun). rs) runs))

-- What running a job comes to: the lock of its app or kelso's that raises, arguments that do not
-- split, or the status of its command.
pub data Outcome : Type 0 where
  not_locked : Outcome
  command_raised : Outcome
  exited : ℕ → Outcome

pub data TickEvent : Type 0 where
  -- the time of the run is written to the activity log
  noted : (app name : Text) → TickEvent
  succeeded failed : (app name : Text) → TickEvent

-- _run, with the except of `tick`
unfoldable pub run_job : CronRun → Outcome → List TickEvent
run_job run not_locked = failed run.app_id run.name ∷ []
run_job run command_raised = noted run.app_id run.name ∷ (failed run.app_id run.name ∷ [])
run_job run (exited code) =
    noted run.app_id run.name
    ∷ ((if code == 0 then succeeded run.app_id run.name else failed run.app_id run.name) ∷ [])

-- run.next_at > now or not run.runnable
unfoldable pub is_skipped : DateTime → CronRun → Bool
is_skipped now run = ltb (stamp now) (stamp run.next_at) || not run.runnable

-- the loop of `tick`: the events, and the runs in `ran`
unfoldable pub tick_loop :
    (CronRun → Outcome) → DateTime → List CronRun → List TickEvent × List CronRun
unfolding run_job is_skipped
tick_loop outcome now [] = ([], [])
tick_loop outcome now (run ∷ runs) =
    let rest = tick_loop outcome now runs in
    if is_skipped now run then rest else (run_job run (outcome run) ++ rest.0, run ∷ rest.1)

-- tick: nothing where another tick holds the lock
unfoldable pub tick :
    TickInputs
    → Bool
    → (CronRun → Outcome)
    → Result TickError (Option (List TickEvent × List CronRun))
unfolding cron_runs tick_loop
tick o acquired outcome =
    if acquired then (cron_runs o >>= λ runs. ok (some (tick_loop outcome o.now runs))) else ok none
