-- ===== src/Jobs/Runner.antt =====
-- JobRunner of kelso/jobs/runner.py. Its one worker runs a job in two steps, between which other
-- threads may submit jobs: the job is marked as running, and then its work comes to an end.
pub mod Trim
pub mod Steps
pub mod Kept
pub mod Pending
pub mod Stranded
use kelso.Common.{
  ℕ, zero, suc, ◌+◌, ◌-◌, Bool, true, false, not, ◌&&◌, ◌||◌, Option, none, some, List, [], ◌∷◌,
  ◌++◌, if◌then◌else◌, ◌==◌, eq_nat, eq_list, leb, any, length,
}
use kelso.Common.Result.{Result, ok, err, ◌>>=◌}
use kelso.Common.Text.{Text, codes}
use kelso.Common.Dict.{Dict, get, put, pop, keys, values}
use kelso.Jobs.Job.{
  Args, State, queued, running, done, failed, JobType, Job, Error, unknown_verb, already_running,
  prepare, World, Ran, Raised, expected, unexpected, start, work,
}

pub record JobRunner : Type 0 where
  pub jobs : Dict Text Job
  pub queue : List Text
  -- the job at which the worker is
  pub active : Option Text
  -- whether there is a worker thread
  pub worker : Bool

-- JobRunner.__init__
unfoldable pub new_runner : JobRunner
new_runner = record { jobs = []; queue = []; active = none; worker = false }

abbrev pub max_history : ℕ
max_history = 200

abbrev pub is_finished : State → Bool
is_finished done = true
is_finished failed = true
is_finished queued = false
is_finished running = false

-- job.state in (DONE, FAILED), for the job of an id
unfoldable pub has_finished : Dict Text Job → Text → Bool
unfolding get
has_finished jobs id = elim (get jobs id) [ none ↦ false | some job ↦ is_finished job.state ]

-- The loop of _trim, over the ids that were there at its start.
unfoldable pub trim_loop : ℕ → List Text → Dict Text Job → Dict Text Job
unfolding has_finished pop
trim_loop budget [] jobs = jobs
trim_loop budget (id ∷ ids) jobs =
    let rest = trim_loop budget ids (if has_finished jobs id then pop jobs id else jobs) in
    if leb (length jobs) budget then jobs else rest

-- JobRunner._trim
unfoldable pub trim : ℕ → Dict Text Job → Dict Text Job
unfolding trim_loop keys
trim budget jobs = if leb (length jobs) budget then jobs else trim_loop budget (keys jobs) jobs

-- JobRunner.start
unfoldable pub start_worker : JobRunner → Result Error JobRunner
start_worker r = if r.worker then err already_running else ok (record r { worker = true })

-- what JobRunner.submit does with a job that is prepared
unfoldable pub enqueue : Job → JobRunner → JobRunner
unfolding put trim
enqueue job r = record r {
  jobs = trim max_history (put r.jobs job.id job);
  queue = r.queue ++ job.id ∷ [];
}

-- JobRunner.submit, by the verb's entry in JOBS
unfoldable pub submit :
    Option JobType
    → (Args → Option (Option Text))
    → Text
    → Args
    → JobRunner
    → Result Error JobRunner
unfolding prepare enqueue
submit none parse id args r = err unknown_verb
submit (some job_type) parse id args r = do job ← prepare parse id job_type args; ok (enqueue job r)

abbrev pub is_active : State → Bool
is_active queued = true
is_active running = true
is_active done = false
is_active failed = false

-- JobRunner._busy_with
unfoldable pub busy_with : Text → JobRunner → Bool
unfolding values
busy_with verb r =
    any (λ (job : Job). (job.job_type.name == verb) && is_active job.state) (values r.jobs)

-- JobRunner._submit_scheduled. `parse` is none if the context cannot be made.
unfoldable pub submit_scheduled :
    JobType → Option (Args → Option (Option Text)) → Text → JobRunner → JobRunner
unfolding busy_with submit
submit_scheduled job_type parse id r = if busy_with job_type.name r then r else elim parse [
  | none ↦ r
  | some p ↦ elim (submit (some job_type) p id [] r) [ ok s ↦ s | err e ↦ r ]
]

-- the last lines of JobRunner._run, where the run of the job raised `kind`
unfoldable pub crash : Raised → Job → Job
crash expected job = job
crash unexpected job = elim job.state [
  | failed ↦ job
  | other ↦ record job {
    state = failed;
    error = elim job.error [ none ↦ some (codes "job failed") | some text ↦ some text ];
  }
]

-- JobRunner._run, up to the work of the job
unfoldable pub begin_run : World → Text → JobRunner → JobRunner
unfolding get put crash start
begin_run w id r = elim (get r.jobs id) [
  | none ↦ r
  | some job ↦ elim w.ctx [
    | some kind ↦ record r { jobs = put r.jobs id (crash kind job) }
    | none ↦ record r { jobs = put r.jobs id (start w job); active = some id }
  ]
]

unfoldable pub settle : Ran → Job
unfolding crash
settle ran = elim ran.raises [ none ↦ ran.job | some kind ↦ crash kind ran.job ]

-- JobRunner._run, from the work of the job on
unfoldable pub finish_run : World → JobRunner → JobRunner
unfolding get put work settle
finish_run w r = elim r.active [
  | none ↦ r
  | some id ↦ elim (get r.jobs id) [
    | none ↦ record r { active = none }
    | some job ↦ record r { jobs = put r.jobs id (settle (work w job)); active = none }
  ]
]

-- JobRunner._run, with nothing in between
unfoldable pub run : World → Text → JobRunner → JobRunner
unfolding begin_run finish_run
run w id r = finish_run w (begin_run w id r)

-- The loop of run_pending: a run queues nothing, so that it is over the queue as it is.
unfoldable pub run_queue : (Text → World) → List Text → JobRunner → JobRunner
unfolding run
run_queue worlds [] r = record r { queue = [] }
run_queue worlds (id ∷ ids) r = run_queue worlds ids (run (worlds id) id (record r { queue = ids }))

-- JobRunner.run_pending
unfoldable pub run_pending : (Text → World) → JobRunner → Result Error (JobRunner × ℕ)
unfolding run_queue
run_pending worlds r =
    if r.worker then err already_running else ok (run_queue worlds r.queue r, length r.queue)
