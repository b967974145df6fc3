-- ===== src/Backup/Restarts.antt =====
-- What a backup leaves of an app that runs, and what a run of backups records.
use kelso.Common.{
  Bool, true, false, not, ◌&&◌, Option, List, [], ◌∷◌, ◌++◌, if◌then◌else◌, ◌≡◌, refl, sym, ◌∙◌, ap,
  keep, append_assoc, append-nil,
}
use kelso.Common.Result.{Result, ok, err}
use kelso.Common.Text.{Text, codes}
use kelso.Common.Dict.{Dict}
use kelso.Common.Sort.{gather}
use kelso.Backup.Take.{
  Stopping, stops_well, fails_up, fails_down, stop_app, AppOutside, BackupEvent, stopped, started,
  saved, Step, did, and_then, finally_do, nothing, refuse_without_space, is_running, stop_running,
  save_data, save_bulk, has_bulk, backup_app, RunResult, note_app, backup_apps, RunEvent, recorded,
  RunOutside, note_failure, run_opened, run_backups, and_finish, apps_or, is_everything,
  backup_all_state, finish_backups, data_part, bulk_part, event_of, expired_forgotten,
  repository_checked,
}

-- whether the app runs after the events, if it ran before them or not
unfoldable pub is_up : Bool → List BackupEvent → Bool
is_up up [] = up
is_up up (stopped app ∷ events) = is_up false events
is_up up (started app ∷ events) = is_up true events
is_up up (saved app part ∷ events) = is_up up events

bulk_keeps :
    (app : Text) (o : AppOutside) (snapshot : Text) (up : Bool)
    → is_up up (save_bulk app o snapshot).0 ≡ up
unfolding is_up save_bulk
bulk_keeps app o snapshot up = kept (has_bulk o.bulk) o.saves_bulk
  where
    kept :
        (some_bulk : Bool) (saves : Result Text Text)
        → is_up up
            (if some_bulk
              then and_then {B = Dict Text Text}
                  (did (saved app bulk_part) saves)
                  (λ bulk. ([], ok ((codes "data", snapshot) ∷ [] ++ (codes "bulk", bulk) ∷ [])))
              else ([], ok ((codes "data", snapshot) ∷ []))).0
          ≡ up
    kept true (ok bulk) = refl
    kept true (err e) = refl
    kept false saves = refl

-- whether the stop is come to, and takes the containers down before it raises
abbrev pub left_down : Result Text (Unit {0}) → Result Text (Unit {0}) → Stopping → Bool
left_down (ok a) (ok b) (fails_down e) = true
left_down (ok a) (ok b) (fails_up e) = false
left_down (ok a) (ok b) stops_well = false
left_down (ok a) (err e) stops = false
left_down (err e) enough stops = false

restarts :
    {A : Type 0} (app : Text) (running : Bool) (locks enough starts : Result Text (Unit {0}))
    (stops : Stopping) (saves : Result Text Text) (next : Text → Step A)
    → starts ≡ ok tt
    → ((snapshot : Text) (up : Bool) → is_up up (next snapshot).0 ≡ up)
    → is_up running
        (and_then
          (and_then
            ([], locks)
            (λ locked.
              and_then ([], enough) (λ fits. if running then stop_app app stops else nothing)))
          (λ halted.
            and_then
              (finally_do
                (did (saved app data_part) saves)
                (if running then did (started app) starts else nothing))
              next)).0
      ≡ (running && not (left_down locks enough stops))
unfolding is_up
restarts app true (err e) enough starts stops saves next h k = refl
restarts app false (err e) enough starts stops saves next h k = refl
restarts app true (ok a) (err e) starts stops saves next h k = refl
restarts app false (ok a) (err e) starts stops saves next h k = refl
restarts app true (ok a) (ok b) starts (fails_up e) saves next h k = refl
restarts app true (ok a) (ok b) starts (fails_down e) saves next h k = refl
restarts app true (ok a) (ok b) (err e) stops_well saves next h k = cc h
restarts app true (ok a) (ok b) (ok d) stops_well (err e) next h k = refl
restarts app true (ok a) (ok b) (ok d) stops_well (ok snapshot) next h k = k snapshot true
restarts app false (ok a) (ok b) starts stops (err e) next h k = refl
restarts app false (ok a) (ok b) starts stops (ok snapshot) next h k = k snapshot false

-- If the app can be started, it runs after a backup exactly when it ran before, whether the backup
-- goes through or not: where the space is short, and where restic or the lock raises, or a stop
-- that has left the containers up. There is one exception: where the stop is come to, and raises
-- when the containers are down, the app is left down.
pub backup_app_restarts :
    (app : Text) (o : AppOutside)
    → o.starts ≡ ok tt
    → is_up (is_running o) (backup_app app o).0
      ≡ (is_running o && not (left_down o.locks (refuse_without_space o.needed o.free) o.stops))
unfolding backup_app stop_running save_data
backup_app_restarts app o h =
    restarts app (is_running o) o.locks (refuse_without_space o.needed o.free) o.starts o.stops
      o.saves_data (save_bulk app o) h (bulk_keeps app o)

-- whether the backup of an app goes through
abbrev goes_through : {A : Type 0} → Result Text A → Bool
goes_through (ok a) = true
goes_through (err e) = false

abbrev failure_of : {A : Type 0} → Text → Result Text A → List Text
failure_of what (ok a) = []
failure_of what (err e) = (what ++ (codes ": " ++ e)) ∷ []

backup_apps_lem :
    (outside : Text → AppOutside) (apps : List Text) (r : RunResult)
    → backup_apps outside apps r ≡ record r {
      backed_up =
          r.backed_up ++ keep (λ (app : Text). goes_through (backup_app app (outside app)).1) apps;
      failed =
          r.failed ++ gather (λ (app : Text). failure_of app (backup_app app (outside app)).1) apps;
    }
unfolding backup_apps gather
backup_apps_lem outside [] r = rw (append-nil r.backed_up, append-nil r.failed) refl
backup_apps_lem outside (app ∷ apps) r =
    backup_apps_lem outside apps (note_app app (backup_app app (outside app)).1 r)
    ∙ noted (backup_app app (outside app)).1
  where
    rest_up : List Text
    rest_up = keep (λ (app : Text). goes_through (backup_app app (outside app)).1) apps

    rest_failed : List Text
    rest_failed = gather (λ (app : Text). failure_of app (backup_app app (outside app)).1) apps

    noted :
        (result : Result Text (Dict Text Text))
        → record (note_app app result r) {
          backed_up = (note_app app result r).backed_up ++ rest_up;
          failed = (note_app app result r).failed ++ rest_failed;
        }
          ≡ record r {
            backed_up = r.backed_up ++ (if goes_through result then app ∷ rest_up else rest_up);
            failed = r.failed ++ (failure_of app result ++ rest_failed);
          }
    noted (ok snapshots) = rw (append_assoc r.backed_up (app ∷ []) rest_up) refl
    noted (err e) = rw (append_assoc r.failed ((app ++ (codes ": " ++ e)) ∷ []) rest_failed) refl

-- What the record of a run says, of the apps that it was to back up.
pub record IsRun (o : RunOutside) (apps : List Text) (everything : Bool) (events : List RunEvent)
    (result : RunResult) : Type 0 where
  pub went_through :
      result.backed_up
      ≡ keep (λ (app : Text). goes_through (backup_app app (o.app_outside app)).1) apps
  pub failures :
      result.failed
      ≡ gather (λ (app : Text). failure_of app (backup_app app (o.app_outside app)).1) apps
        ++ ((if everything then failure_of (codes "kelso's state") o.saves_state else [])
            ++ failure_of (codes "repository check") o.checks)
  -- the last that happens is that the result is recorded
  pub before : List RunEvent
  pub recorded_last : events ≡ before ++ recorded result ∷ []

noted_failed :
    (what : Text) (done : Result Text (Unit {0})) (r : RunResult)
    → ((note_failure what done r).failed ≡ r.failed ++ failure_of what done)
      × ((note_failure what done r).backed_up ≡ r.backed_up)
noted_failed what (ok a) r = (sym (append-nil r.failed), refl)
noted_failed what (err e) r = (refl, refl)

-- What a result says when the state of kelso has been seen to.
record IsSaved (o : RunOutside) (apps : List Text) (everything : Bool) (r : RunResult)
    : Type 0 where
  went_through :
      r.backed_up ≡ keep (λ (app : Text). goes_through (backup_app app (o.app_outside app)).1) apps
  failures :
      r.failed
      ≡ gather (λ (app : Text). failure_of app (backup_app app (o.app_outside app)).1) apps
        ++ (if everything then failure_of (codes "kelso's state") o.saves_state else [])

backup_all_state_lem :
    (o : RunOutside) (apps : List Text) (everything : Bool) (s r : RunResult)
    → s.backed_up ≡ []
    → s.failed ≡ []
    → (backup_all_state o everything (backup_apps o.app_outside apps s)).1 ≡ ok r
    → IsSaved o apps everything r
unfolding backup_all_state
backup_all_state_lem o apps false s r up down h =
    let same : backup_apps o.app_outside apps s ≡ r = cc h in
    let loop = sym same ∙ backup_apps_lem o.app_outside apps s in
    record {
      went_through = ap (λ (x : RunResult). x.backed_up) loop ∙ rw up refl;
      failures = ap (λ (x : RunResult). x.failed) loop ∙ rw (down, append-nil) refl;
    }
backup_all_state_lem o apps true s r up down h =
    recorded_first (o.records (backup_apps o.app_outside apps s)) refl
  where
    recorded_first :
        (records : Result Text (Unit {0}))
        → o.records (backup_apps o.app_outside apps s) ≡ records
        → IsSaved o apps true r
    recorded_first (err x) e = let k : err x ≡ ok r = rw (backup_all_state, e) at h in cc k
    recorded_first (ok a) e =
        let after = backup_apps o.app_outside apps s in
        let loop = backup_apps_lem o.app_outside apps s in
        let k : ◌≡◌ {A = Result Text RunResult}
            (ok (note_failure (codes "kelso's state") o.saves_state after)) (ok r) =
          rw (backup_all_state, e) at h in
        let same : note_failure (codes "kelso's state") o.saves_state after ≡ r = cc k in
        let noted = noted_failed (codes "kelso's state") o.saves_state after in
        record {
          went_through =
              ap (λ (x : RunResult). x.backed_up) (sym same)
              ∙ (noted.1 ∙ (ap (λ (x : RunResult). x.backed_up) loop ∙ rw up refl));
          failures =
              ap (λ (x : RunResult). x.failed) (sym same)
              ∙ (noted.0
                  ∙ ap (λ (l : List Text). l ++ failure_of (codes "kelso's state") o.saves_state)
                      (ap (λ (x : RunResult). x.failed) loop ∙ rw down refl));
        }

finished_lem :
    (o : RunOutside) (apps : List Text) (everything : Bool) (r result : RunResult)
    (first : List RunEvent)
    → IsSaved o apps everything r
    → (forgets records : Result Text (Unit {0})) → o.forgets ≡ forgets
    → o.records (note_failure (codes "repository check") o.checks r) ≡ records
    → (finish_backups o r).1 ≡ ok result
    → IsRun o apps everything (first ++ (finish_backups o r).0) result
unfolding finish_backups
finished_lem o apps everything r result first state (err x) records f g h =
    let k : err x ≡ ok result = rw f at h in cc k
finished_lem o apps everything r result first state (ok a) (err x) f g h =
    let k : err x ≡ ok result = rw (finish_backups, f, g) at h in cc k
finished_lem o apps everything r result first state (ok a) (ok b) f g h =
    let done : ◌≡◌ {A = Result Text RunResult}
        (ok (note_failure (codes "repository check") o.checks r)) (ok result) =
      rw (finish_backups, f, g) at h in
    let same : note_failure (codes "repository check") o.checks r ≡ result = cc done in
    let noted = noted_failed (codes "repository check") o.checks r in
    record {
      went_through =
          ap (λ (x : RunResult). x.backed_up) (sym same) ∙ (noted.1 ∙ state.went_through);
      failures =
          ap (λ (x : RunResult). x.failed) (sym same)
          ∙ (noted.0
              ∙ (ap (λ (l : List Text). l ++ failure_of (codes "repository check") o.checks)
                    state.failures
                  ∙ append_assoc _ _ (failure_of (codes "repository check") o.checks)));
      before = first ++ (expired_forgotten ∷ event_of repository_checked o.checks);
      recorded_last =
          rw (finish_backups, f, g, same)
            (sym (
              append_assoc first (expired_forgotten ∷ event_of repository_checked o.checks)
                (recorded result ∷ [])));
    }

and_finish_lem :
    (o : RunOutside) (apps : List Text) (everything : Bool) (result : RunResult)
    (step : List RunEvent × Result Text RunResult)
    → ((r : RunResult) → step.1 ≡ ok r → IsSaved o apps everything r)
    → (and_finish o step).1 ≡ ok result
    → IsRun o apps everything (and_finish o step).0 result
unfolding and_finish
and_finish_lem o apps everything result (events, err e) state h = cc h
and_finish_lem o apps everything result (events, ok r) state h =
    finished_lem o apps everything r result events (state r refl) o.forgets _ refl refl h

-- A run of backups that returns has tried every app that it was to back up. Its result lists, in
-- that order, the apps whose backup went through, and the failures of the others, of the backup of
-- kelso's state where the run is over everything, and of the check of the repository. The last that
-- a run does is to record this result.
pub run_backups_lem :
    (o : RunOutside) (run : Text) (apps : Option (List Text)) (result : RunResult)
    → (run_backups o run apps).1 ≡ ok result
    → IsRun o (apps_or o apps) (is_everything apps) (run_backups o run apps).0 result
unfolding run_backups run_opened
run_backups_lem o run apps result h = opened o.opens h
  where
    opened :
        (opens : Result Text Bool)
        → (run_opened o run apps opens).1 ≡ ok result
        → IsRun o (apps_or o apps) (is_everything apps) (run_opened o run apps opens).0 result
    opened (err e) k = cc k
    opened (ok created) k =
        and_finish_lem o (apps_or o apps) (is_everything apps) result _
          (λ r done.
            backup_all_state_lem o (apps_or o apps) (is_everything apps) _ r refl refl done)
          k
