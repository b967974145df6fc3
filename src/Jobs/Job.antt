-- ===== src/Jobs/Job.antt =====
-- kelso/jobs/job.py, and the arguments that each verb of kelso/jobs declares. What the work of a
-- verb comes to, and what a run log comes to, is given with each run.
pub mod Execute
use kelso.Common.{
  ℕ, Bool, true, false, not, ◌&&◌, ◌||◌, Option, none, some, List, [], ◌∷◌, ◌++◌, if◌then◌else◌,
  ◌==◌, eq_nat, eq_list, contains,
}
use kelso.Common.Result.{Result, ok, err, ◌>>=◌, ◌>>◌, require}
use kelso.Common.Text.{Text, codes, is_empty}
use kelso.Common.Dict.{Dict, get, keys}

abbrev pub Args : Type 0
Args = Dict Text Text

pub data State : Type 0 where
  queued running done failed : State

-- What a subclass of Job declares.
pub record JobType : Type 0 where
  pub name : Text
  pub required_args : List Text
  pub optional_args : List Text
  pub record_activity : Bool

pub record Job : Type 0 where
  pub id : Text
  pub job_type : JobType
  pub app : Option Text
  pub args : Args
  pub state : State
  pub error : Option Text
  pub started_at : Option Text
  pub finished_at : Option Text
  pub log : Option Text

pub data Error : Type 0 where
  unknown_verb unknown_argument missing_argument unusable_argument already_running : Error

names_allowed : List Text → List Text → Bool
names_allowed [] allowed = true
names_allowed (name ∷ names) allowed = contains allowed name && names_allowed names allowed

-- not args.get(name), negated
given : Args → Text → Bool
unfolding get
given args name = elim (get args name) [ none ↦ false | some value ↦ not (is_empty value) ]

all_given : List Text → Args → Bool
unfolding given
all_given [] args = true
all_given (name ∷ names) args = given args name && all_given names args

-- Job._check_args
unfoldable pub check_args : JobType → Args → Result Error (Unit {0})
unfolding names_allowed all_given keys
check_args job_type args = do
  require (names_allowed (keys args) (job_type.required_args ++ job_type.optional_args))
      unknown_argument
  require (all_given job_type.required_args args) missing_argument
  ok tt

-- Job.__init__, with the id that it draws
unfoldable pub init : Text → JobType → Job
init id job_type = record {
  id = id;
  job_type = job_type;
  app = none;
  args = [];
  state = queued;
  error = none;
  started_at = none;
  finished_at = none;
  log = none;
}

-- Job.prepare. `parse` is the verb's own `init`: the app that it finds, or its ValueError.
unfoldable pub prepare : (Args → Option (Option Text)) → Text → JobType → Args → Result Error Job
unfolding init check_args
prepare parse id job_type args = do
  check_args job_type args
  elim (parse args) [
    | none ↦ err unusable_argument
    | some app ↦ ok (record (init id job_type) { args = args; app = app })
  ]

-- An exception: ValueError or RuntimeError, or another one.
pub data Raised : Type 0 where
  expected unexpected : Raised

-- What the work of a run came to.
pub data Ending : Type 0 where
  returned : Ending
  detached : Text → Ending
  raised : Raised → Text → Ending

-- What a run meets outside this module: the context's construction, the start of its run log with
-- the log's name, its work, and the time before and after.
pub record World : Type 0 where
  pub ctx : Option Raised
  pub entry : Option Raised
  pub log : Option Text
  pub ending : Ending
  pub started_at : Text
  pub finished_at : Text

-- A job, and what the call that changed it raised.
pub record Ran : Type 0 where
  pub job : Job
  pub raises : Option Raised

-- the first lines of Job.execute
unfoldable pub start : World → Job → Job
start w job = record job { state = running; started_at = some w.started_at }

-- the `finally` of Job.execute and of Job._execute_quiet
unfoldable pub close : World → Bool → Job → Job
close w succeeded job = record job {
  state = if succeeded then done else failed;
  finished_at = some w.finished_at;
}

-- Job._execute_quiet
unfoldable pub execute_quiet : World → Job → Ran
unfolding close
execute_quiet w job = elim w.ending [
  | returned ↦ record { job = close w true job; raises = none }
  | detached text ↦ record {
    job = close w false (record job { error = some text });
    raises = some expected;
  }
  | raised kind text ↦ record {
    job = close w false (record job { error = some text });
    raises = some kind;
  }
]

-- Job.execute, in its Activity
unfoldable pub execute_recorded : World → Job → Ran
unfolding close
execute_recorded w job = elim w.entry [
  | some kind ↦ record {
    job = close w false (record job { log = w.log; error = none });
    raises = some kind;
  }
  | none ↦ elim w.ending [
    | returned ↦ record {
      job = close w true (record job { log = w.log; error = none });
      raises = none;
    }
    | detached text ↦ record {
      job = close w true (record job { log = w.log; error = none });
      raises = none;
    }
    | raised kind text ↦ record {
      job = close w false (record job { log = w.log; error = some text });
      raises = some kind;
    }
  ]
]

-- Job.execute, after its first lines
unfoldable pub work : World → Job → Ran
unfolding execute_quiet execute_recorded
work w job = if job.job_type.record_activity then execute_recorded w job else execute_quiet w job

-- Job.execute
unfoldable pub execute : World → Job → Ran
unfolding start work
execute w job = work w (start w job)
