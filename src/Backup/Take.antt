-- ===== src/Backup/Take.antt =====
-- Taking backups, kelso/lib/backup.py: backup_app and run_backups as the events that they come to.
-- What restic, docker, the locks and the files say is given with each app.
use kelso.Common.{
  ℕ, Bool, true, false, ◌&&◌, Option, none, some, List, [], ◌∷◌, ◌++◌, if◌then◌else◌, ltb,
}
use kelso.Common.Result.{Result, ok, err}
use kelso.Common.Text.{Text, codes}
use kelso.Common.Dict.{Dict}

pub data Part : Type 0 where
  data_part bulk_part : Part

-- What a stop comes to: it returns, it raises with the containers as they were, or it raises when
-- they are down, as where the links to host volumes cannot be taken away.
pub data Stopping : Type 0 where
  stops_well : Stopping
  fails_up fails_down : Text → Stopping

-- What the calls of backup_app come to. A call that raises gives the exception's text.
pub record AppOutside : Type 0 where
  -- taking the app's lock, and reading the sources
  pub locks : Result Text (Unit {0})
  -- the bytes that restic would add, and those that are free
  pub needed : ℕ
  pub free : ℕ
  pub is_loaded : Bool
  -- the containers of the app that run
  pub running_count : ℕ
  pub stops : Stopping
  pub saves_data : Result Text Text
  pub starts : Result Text (Unit {0})
  -- the bulk volumes that are turned on
  pub bulk : List Text
  pub saves_bulk : Result Text Text

pub data BackupEvent : Type 0 where
  stopped started : Text → BackupEvent
  saved : Text → Part → BackupEvent

-- what a part of backup_app has done, and what it returned or raised
abbrev pub Step : Type 0 → Type 0
Step A = List BackupEvent × Result Text A

abbrev pub did : {A : Type 0} → BackupEvent → Result Text A → Step A
did event (ok a) = (event ∷ [], ok a)
did event (err e) = ([], err e)

-- stop(app, ctx)
abbrev pub stop_app : Text → Stopping → Step (Unit {0})
stop_app app stops_well = (stopped app ∷ [], ok tt)
stop_app app (fails_up e) = ([], err e)
stop_app app (fails_down e) = (stopped app ∷ [], err e)

-- one step, and then the next, unless the first raised
abbrev pub and_then : {A B : Type 0} → Step A → (A → Step B) → Step B
and_then (events, ok a) next = (events ++ (next a).0, (next a).1)
and_then (events, err e) next = (events, err e)

-- `try: first finally: last`, where what `last` raises goes before what `first` did
abbrev pub finally_do : {A : Type 0} → Step A → Step (Unit {0}) → Step A
finally_do first (events, ok done) = (first.0 ++ events, first.1)
finally_do first (events, err e) = (first.0 ++ events, err e)

abbrev pub nothing : Step (Unit {0})
nothing = ([], ok tt)

-- refuse_without_space
unfoldable pub refuse_without_space : (needed free : ℕ) → Result Text (Unit {0})
refuse_without_space needed free = if ltb free needed then err (codes "Not enough space") else ok tt

-- whether backup_app stops the app, and starts it again
abbrev pub is_running : AppOutside → Bool
is_running o = o.is_loaded && ltb 0 o.running_count

-- what stands before the `try`
unfoldable pub stop_running : Text → AppOutside → Step (Unit {0})
unfolding refuse_without_space
stop_running app o = and_then (([], o.locks)) (λ locked.
    and_then (([], refuse_without_space o.needed o.free))
      (λ enough. if is_running o then stop_app app o.stops else nothing))

-- the `try` and its `finally`
unfoldable pub save_data : Text → AppOutside → Step Text
save_data app o =
    finally_do (did (saved app data_part) o.saves_data)
      (if is_running o then did (started app) o.starts else nothing)

abbrev pub has_bulk : List Text → Bool
has_bulk [] = false
has_bulk (name ∷ names) = true

-- the bulk volumes, which are read while the app runs
unfoldable pub save_bulk : Text → AppOutside → Text → Step (Dict Text Text)
save_bulk app o snapshot =
    let data_only = (codes "data", snapshot) ∷ [] in
    if has_bulk o.bulk
    then and_then (did (saved app bulk_part) o.saves_bulk)
        (λ bulk. ([], ok (data_only ++ (codes "bulk", bulk) ∷ [])))
    else ([], ok data_only)

-- backup_app: the events, and the snapshots of the Backup that it returns
unfoldable pub backup_app : Text → AppOutside → Step (Dict Text Text)
unfolding stop_running save_data save_bulk
backup_app app o =
    and_then (stop_running app o) (λ stopped. and_then (save_data app o) (save_bulk app o))

-- RunResult
pub record RunResult : Type 0 where
  pub run : Text
  pub created : Bool
  pub backed_up : List Text
  pub failed : List Text

abbrev pub note_app : Text → Result Text (Dict Text Text) → RunResult → RunResult
note_app app (ok snapshots) r = record r { backed_up = r.backed_up ++ app ∷ [] }
note_app app (err e) r = record r { failed = r.failed ++ (app ++ (codes ": " ++ e)) ∷ [] }

-- the loop of run_backups over the apps
unfoldable pub backup_apps : (Text → AppOutside) → List Text → RunResult → RunResult
unfolding backup_app
backup_apps outside [] r = r
backup_apps outside (app ∷ apps) r =
    backup_apps outside apps (note_app app (backup_app app (outside app)).1 r)

-- What a run leaves outside: a record in kelsodb with the result, the backup of kelso's state, the
-- forgetting of what has expired, and the check of the repository.
pub data RunEvent : Type 0 where
  recorded : RunResult → RunEvent
  state_saved expired_forgotten repository_checked : RunEvent

abbrev pub note_failure : Text → Result Text (Unit {0}) → RunResult → RunResult
note_failure what (ok done) r = r
note_failure what (err e) r = record r { failed = r.failed ++ (what ++ (codes ": " ++ e)) ∷ [] }

abbrev pub event_of : RunEvent → Result Text (Unit {0}) → List RunEvent
event_of event (ok done) = event ∷ []
event_of event (err e) = []

-- What the calls of run_backups come to, apart from those for one app.
pub record RunOutside : Type 0 where
  pub app_outside : Text → AppOutside
  -- the repository, the test for a backup within the same second, and its creation
  pub opens : Result Text Bool
  pub backed_up_apps : List Text
  -- record_backup_run with a result, which raises where the record is too long for its table
  pub records : RunResult → Result Text (Unit {0})
  pub saves_state : Result Text (Unit {0})
  pub forgets : Result Text (Unit {0})
  pub checks : Result Text (Unit {0})

-- the state of kelso, in a run over everything
unfoldable pub backup_all_state :
    RunOutside → Bool → RunResult → List RunEvent × Result Text RunResult
backup_all_state o false r = ([], ok r)
backup_all_state o true r = elim (o.records r) [
  | err e ↦ ([], err e)
  | ok done ↦ (
    recorded r ∷ event_of state_saved o.saves_state,
    ok (note_failure (codes "kelso's state") o.saves_state r),
  )
]

-- from forget_expired on: what it raises ends the run, and a failed check is noted
unfoldable pub finish_backups : RunOutside → RunResult → List RunEvent × Result Text RunResult
finish_backups o r = elim o.forgets [
  | err e ↦ ([], err e)
  | ok done ↦
      let checked = note_failure (codes "repository check") o.checks r in
      let events = expired_forgotten ∷ event_of repository_checked o.checks in
      elim (o.records checked) [
        | err e ↦ (events, err e)
        | ok done ↦ (events ++ recorded checked ∷ [], ok checked)
      ]
]

-- the one after the other, unless the first raised
unfoldable pub and_finish :
    RunOutside → List RunEvent × Result Text RunResult → List RunEvent × Result Text RunResult
unfolding finish_backups
and_finish o (events, err e) = (events, err e)
and_finish o (events, ok r) =
    let finished = finish_backups o r in (events ++ finished.0, finished.1)

abbrev pub apps_or : RunOutside → Option (List Text) → List Text
apps_or o none = o.backed_up_apps
apps_or o (some apps) = apps

abbrev pub is_everything : Option (List Text) → Bool
is_everything none = true
is_everything (some apps) = false

-- run_backups, from where the repository is open
unfoldable pub run_opened :
    RunOutside
    → Text
    → Option (List Text)
    → Result Text Bool
    → List RunEvent × Result Text RunResult
unfolding backup_apps backup_all_state and_finish
run_opened o run apps (err e) = ([], err e)
run_opened o run apps (ok created) = and_finish o (
    backup_all_state o (is_everything apps) (
      backup_apps o.app_outside (apps_or o apps)
        (record { run = run; created = created; backed_up = []; failed = [] })))

-- run_backups
unfoldable pub run_backups :
    RunOutside → Text → Option (List Text) → List RunEvent × Result Text RunResult
unfolding run_opened
run_backups o run apps = run_opened o run apps o.opens
