-- ===== src/Jobs/Job/Execute.antt =====
-- What a run leaves in its job, and which arguments a verb takes: kelso/jobs/job.py.
use kelso.Common.{◌≡◌, arith, none, some, eq_list, eq_nat}
use kelso.Jobs.Job.{
  done, failed, Job, World, Ran, Raised, start, close, execute_quiet, execute_recorded, work,
  execute,
}

-- `job` came to an end: failed exactly if its run raised something.
pub record IsFinished (w : World) (before : Job) (ran : Ran) : Type 0 where
  pub finished : ran.job.finished_at ≡ some w.finished_at
  pub started : ran.job.started_at ≡ some w.started_at
  pub done_if : ran.raises ≡ none → (ran.job.state ≡ done) × (ran.job.error ≡ before.error)
  pub failed_if : (kind : Raised) → ran.raises ≡ some kind → ran.job.state ≡ failed
  pub same_id : ran.job.id ≡ before.id
  pub same_type : ran.job.job_type ≡ before.job_type
  pub same_args : ran.job.args ≡ before.args

-- A run of a job with no error yet comes to an end whatever its work and its run log do. The job
-- is then done, with no error, if nothing is raised, and failed if something is; its id, its verb
-- and its arguments are as before.
pub execute-IsFinished :
    (w : World) (job : Job) → job.error ≡ none → IsFinished w job (execute w job)
unfolding execute work start close execute_quiet execute_recorded
execute-IsFinished w job e = record {
  finished = ground arith;
  started = ground arith;
  done_if = λ h. ground (arith, e, h);
  failed_if = λ kind h. ground (arith, h);
  same_id = ground arith;
  same_type = ground arith;
  same_args = ground arith;
}
