-- ===== src/Jobs/Runner/Steps.antt =====
-- The steps of JobRunner in kelso/jobs/runner.py: a submission by any thread, and the worker's.
use kelso.Common.{
  ◌≡◌, refl, ap, ◌∙◌, arith, true, false, Option, none, some, List, [], ◌∷◌, ◌==◌, eq_nat, eq_list,
  contains, Bool-cases, inl, inr, ==_refl, ==→eq,
}
use kelso.Common.Result.{ok, ok_of_bind}
use kelso.Common.Text.{Text}
use kelso.Common.Dict.{Dict, get, put}
use kelso.Common.Dict.Laws.{IsDict, get-put}
use kelso.Jobs.Job.{Args, State, queued, running, JobType, Job, init, prepare, check_args, World}
use kelso.Jobs.Runner.{
  JobRunner, new_runner, max_history, is_finished, trim, submit, begin_run, finish_run,
}
use kelso.Jobs.Runner.Trim.{trim-get}

-- A step. The id of a job that is submitted is new, as it is drawn at random from 2 ^ 48 numbers.
pub data Step : JobRunner → JobRunner → Type 0 where
  submits :
      {r s : JobRunner}
      → (job_type : Option JobType) (parse : Args → Option (Option Text)) (id : Text) (args : Args)
      → get r.jobs id ≡ none
      → submit job_type parse id args r ≡ ok s
      → Step r s
  begins :
      {r s : JobRunner}
      → (w : World) (id : Text) (ids : List Text) → r.active ≡ none
      → r.queue ≡ id ∷ ids
      → begin_run w id (record r { queue = ids }) ≡ s
      → Step r s
  ends : {r s : JobRunner} → (w : World) → finish_run w r ≡ s → Step r s

pub data Steps : JobRunner → JobRunner → Type 0 where
  stay : {r : JobRunner} → Steps r r
  next_step : {r s t : JobRunner} → Steps r s → Step s t → Steps r t

-- The job of `id` is held, in `state`.
pub record Holds (jobs : Dict Text Job) (id : Text) (state : State) : Type 0 where
  pub job : Job
  pub there : get jobs id ≡ some job
  pub in_state : job.state ≡ state

abbrev pub Distinct : List Text → Type 0
Distinct [] = Unit
Distinct (id ∷ ids) = (contains ids id ≡ false) × Distinct ids

-- Every id in the queue is that of a queued job that is held, and stands there once; the job that
-- the worker is at is held and running.
pub record IsRunner (r : JobRunner) : Type 0 where
  pub dict : IsDict r.jobs
  pub waiting : (id : Text) → contains r.queue id ≡ true → Holds r.jobs id queued
  pub once : Distinct r.queue
  pub at : (id : Text) → r.active ≡ some id → Holds r.jobs id running

pub new_runner-IsRunner : IsRunner new_runner
unfolding new_runner
new_runner-IsRunner = record { dict = tt; waiting = λ id h. cc; once = tt; at = λ id h. cc }

-- A job that `prepare` makes has its id and waits.
pub prepare-queued :
    (parse : Args → Option (Option Text)) (id : Text) (job_type : JobType) (args : Args) (job : Job)
    → prepare parse id job_type args ≡ ok job
    → (job.id ≡ id) × (job.state ≡ queued)
unfolding prepare init
prepare-queued parse id job_type args job h =
    let checked = ok_of_bind (check_args job_type args) _ h in ground (arith, checked.2)

-- Writing another job, and trimming, leaves a job that is not finished.
pub Holds-put :
    (jobs : Dict Text Job) (id : Text) (job : Job) (other : Text) (state : State)
    → (id == other) ≡ false
    → Holds jobs other state
    → Holds (put jobs id job) other state
Holds-put jobs id job other state ne h = record {
  job = h.job;
  there = get-put jobs id other job ∙ ground (arith, h.there, ne);
  in_state = h.in_state;
}

pub Holds-here :
    (jobs : Dict Text Job) (id : Text) (job : Job) → Holds (put jobs id job) id job.state
Holds-here jobs id job = record {
  job = job;
  there = get-put jobs id id job ∙ rw (==_refl id) refl;
  in_state = refl;
}

pub Holds-trim :
    (jobs : Dict Text Job) (id : Text) (state : State)
    → IsDict jobs
    → is_finished state ≡ false
    → Holds jobs id state
    → Holds (trim max_history jobs) id state
Holds-trim jobs id state d busy h = record {
  job = h.job;
  there = trim-get max_history jobs id h.job d (ap is_finished h.in_state ∙ busy) h.there;
  in_state = h.in_state;
}

-- A held job's id is not a new one.
pub Holds-other :
    (jobs : Dict Text Job) (id other : Text) (state : State)
    → get jobs id ≡ none
    → Holds jobs other state
    → (id == other) ≡ false
Holds-other jobs id other state new h = elim (Bool-cases (id == other)) [
  | inr ne ↦ ne
  | inl same ↦ let e : id ≡ other = ==→eq id other same in cc (e, new, h.there)
]
