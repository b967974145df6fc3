-- ===== src/Jobs/Tests.antt =====
-- kelso/jobs at concrete jobs, and its theorems there.
use kelso.Common.{◌≡◌, refl, true, false, Option, none, some, [], ◌∷◌, eq_nat, eq_list, contains}
use kelso.Common.Result.{ok, err}
use kelso.Common.Text.{Text, codes}
use kelso.Common.Dict.{Dict, get, put, pop, keys}
use kelso.Jobs.Job.{
  Args, State, queued, done, failed, JobType, Job, missing_argument, unknown_argument, init,
  check_args, prepare, World, detached, raised, expected, unexpected, start, close, execute,
  execute_recorded, work,
}
use kelso.Jobs.Job.Execute.{IsFinished, execute-IsFinished}
use kelso.Jobs.Runner.{
  JobRunner, new_runner, has_finished, trim_loop, trim, enqueue, submit, submit_scheduled,
  begin_run, run_pending, is_finished,
}
use kelso.Jobs.Runner.Trim.{drop_finished, trim_lem}
use kelso.Jobs.Runner.Steps.{submits, Steps, stay, next_step, IsRunner}
use kelso.Jobs.Runner.Kept.{reached-IsRunner}
use kelso.Jobs.Runner.Pending.{run_pending_lem}
use kelso.Jobs.Runner.Stranded.{run_strands}

abbrev metrics : JobType
metrics = record {
  name = codes "host-metrics";
  required_args = [];
  optional_args = [];
  record_activity = false;
}

abbrev starting : JobType
starting = record {
  name = codes "start";
  required_args = codes "app" ∷ [];
  optional_args = codes "force" ∷ [];
  record_activity = true;
}

abbrev job_of : Text → JobType → State → Job
job_of id job_type state = record {
  id = id;
  job_type = job_type;
  app = none;
  args = [];
  state = state;
  error = none;
  started_at = none;
  finished_at = none;
  log = none;
}

abbrev world : World
world = record {
  ctx = none;
  entry = none;
  log = some (codes "start.log");
  ending = raised unexpected (codes "OSError: no space");
  started_at = codes "1";
  finished_at = codes "2";
}

abbrev broken : World
broken = record world { ctx = some expected }

abbrev any_args : Args → Option (Option Text)
any_args args = some none

refuses_args : check_args starting ((codes "app", []) ∷ []) ≡ err missing_argument
unfolding check_args get keys
refuses_args = refl

refuses_unknown : check_args metrics ((codes "app", codes "web") ∷ []) ≡ err unknown_argument
unfolding check_args get keys
refuses_unknown = refl

detached_job :
    (execute
      (record world { ending = detached (codes "x") })
      (job_of (codes "a") starting queued)).job.state
    ≡ done
unfolding execute start work execute_recorded close
detached_job = refl

execute-IsFinished_example :
    IsFinished world
      (job_of (codes "a") starting queued)
      (execute world (job_of (codes "a") starting queued))
execute-IsFinished_example = execute-IsFinished world (job_of (codes "a") starting queued) refl

abbrev three_jobs : Dict Text Job
three_jobs =
    (codes "a", job_of (codes "a") metrics queued)
    ∷ ((codes "b", job_of (codes "b") metrics done)
        ∷ ((codes "c", job_of (codes "c") starting failed) ∷ []))

trims :
    trim 2 three_jobs
    ≡ (codes "a", job_of (codes "a") metrics queued)
      ∷ ((codes "c", job_of (codes "c") starting failed) ∷ [])
unfolding trim trim_loop has_finished get pop keys
trims = refl

trim_lem_example : trim 2 three_jobs ≡ drop_finished 1 three_jobs
unfolding keys
trim_lem_example = trim_lem 2 three_jobs (refl, (refl, (refl, tt)))

abbrev one_queued : JobRunner
one_queued = record new_runner {
  jobs = (codes "a", job_of (codes "a") metrics queued) ∷ [];
  queue = codes "a" ∷ [];
}

one_submitted : Steps new_runner one_queued
unfolding new_runner submit enqueue prepare check_args init trim put get keys
one_submitted = next_step stay (submits (some metrics) any_args (codes "a") [] refl refl)

reached-IsRunner_example : IsRunner one_queued
reached-IsRunner_example = reached-IsRunner one_queued one_submitted

abbrev after_broken : JobRunner
after_broken = begin_run broken (codes "a") (record one_queued { queue = [] })

run_strands_example :
    (job : Job) × (get after_broken.jobs (codes "a") ≡ some job)
    × (job.state ≡ queued)
    × (contains after_broken.queue (codes "a") ≡ false)
    × ((parse : Option (Args → Option (Option Text))) (new : Text)
        → submit_scheduled job.job_type parse new after_broken ≡ after_broken)
unfolding new_runner
run_strands_example =
    run_strands one_queued after_broken broken (codes "a") [] one_submitted refl refl refl stay

run_pending_example :
    (s : JobRunner) × (run_pending (λ (id : Text). world) one_queued ≡ ok (s, 1))
    × (s.queue ≡ [])
    × ((id : Text)
        → contains one_queued.queue id ≡ true
        → world.ctx ≡ none
        → (job : Job) × (get s.jobs id ≡ some job) × (is_finished job.state ≡ true))
unfolding new_runner
run_pending_example = run_pending_lem (λ (id : Text). world) one_queued one_submitted refl refl
