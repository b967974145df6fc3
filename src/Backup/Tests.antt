-- ===== src/Backup/Tests.antt =====
-- `expired` of kelso/lib/backup.py at concrete backups. A time is a digit for its month, one for
-- its day and one for the hour here, and a week is a day.
use kelso.Common.{
  true, false, ◌&&◌, if◌then◌else◌, ◌==◌, some, not, none, List, [], ◌∷◌, eq_nat, eq_list, contains,
  take, keep, ◌≡◌, refl,
}
use kelso.Common.Result.{ok, err}
use kelso.Common.Dict.{get, put}
use kelso.Common.Insertion.{sort_by, insert_by, InOrder}
use mathlib.Core.List.{Perm}
use kelso.Common.Text.{Text, codes, text_le, split}
use kelso.Names.Defs.{app_id, validate_parts, validate_identifier, is_identifier}
use kelso.Backup.Expired.{
  Backup, BackupKeep, Periods, is_newer, newest_first, period_runs, runs, kept_runs, expired,
}
use kelso.Backup.Newest.{wanted, IsNewest, expired_lem}
use kelso.Backup.Take.{
  stops_well, fails_down, AppOutside, stopped, started, is_running, stop_running, save_data,
  save_bulk, refuse_without_space, backup_app, RunResult, RunOutside, apps_or, is_everything,
  backup_apps, backup_all_state, finish_backups, run_opened, and_finish, run_backups,
}
use kelso.Backup.Restarts.{is_up, left_down, backup_app_restarts, IsRun, run_backups_lem}
use kelso.Backup.Listing.{
  Snapshot, backups, group_snapshots, place_snapshot, new_backup, add_snapshot, tag_or,
  oldest_first, insert_oldest,
}

abbrev digits : Periods
digits = record {
  day = λ time. take 2 time;
  week = λ time. take 2 time;
  month = λ time. take 1 time;
}

abbrev backup : Text → Text → Backup
backup time reason = record {
  app = none;
  run = time;
  time = time;
  reason = reason;
  version = [];
  kelso_id = [];
  snapshots = [];
  size = 0;
}

abbrev policy : BackupKeep
policy = record { daily = 1; weekly = 0; monthly = 2; manual = 1 }

abbrev taken : List Backup
taken =
    backup (codes "111") (codes "scheduled")
    ∷ (backup (codes "112") (codes "scheduled")
        ∷ (backup (codes "210") (codes "manual")
            ∷ (backup (codes "223") (codes "scheduled")
                ∷ (backup (codes "221") (codes "scheduled")
                    ∷ (backup (codes "230") (codes "manual") ∷ [])))))

drops_three : runs (expired digits policy taken) ≡ codes "111" ∷ (codes "210" ∷ (codes "221" ∷ []))
unfolding expired kept_runs newest_first is_newer sort_by insert_by period_runs text_le
drops_three = refl

expired_example :
    (newest : List Backup) × InOrder IsNewest newest
    × Perm newest taken
    × (expired digits policy taken
        ≡ keep (λ (b : Backup). not (contains (runs (wanted digits policy newest)) b.run)) taken)
expired_example = expired_lem digits policy taken

-- an app that runs, of which restic cannot save the data
abbrev full_disk : AppOutside
full_disk = record {
  locks = ok tt;
  needed = 5;
  free = 7;
  is_loaded = true;
  running_count = 2;
  stops = stops_well;
  saves_data = err (codes "no space left");
  starts = ok tt;
  bulk = codes "films" ∷ [];
  saves_bulk = ok (codes "b1");
}

abbrev fine : AppOutside
fine = record full_disk { saves_data = ok (codes "d1") }

stops_and_starts :
    (backup_app (codes "wiki") full_disk).0 ≡ stopped (codes "wiki") ∷ (started (codes "wiki") ∷ [])
unfolding backup_app stop_running save_data save_bulk refuse_without_space
stops_and_starts = refl

stays_down :
    (backup_app (codes "wiki") (record full_disk { stops = fails_down (codes "no links") })).0
    ≡ stopped (codes "wiki") ∷ []
unfolding backup_app stop_running save_data save_bulk refuse_without_space
stays_down = refl

backup_app_example : is_up (is_running full_disk) (backup_app (codes "wiki") full_disk).0 ≡ (
    is_running full_disk
    && not (
        left_down full_disk.locks
          (refuse_without_space full_disk.needed full_disk.free)
          full_disk.stops))
backup_app_example = backup_app_restarts (codes "wiki") full_disk refl

abbrev two_apps : RunOutside
two_apps = record {
  app_outside = λ app. if app == codes "wiki" then full_disk else fine;
  opens = ok false;
  backed_up_apps = codes "shop" ∷ (codes "wiki" ∷ []);
  records = λ r. ok tt;
  saves_state = ok tt;
  forgets = ok tt;
  checks = ok tt;
}

abbrev of_two : RunResult
of_two = record {
  run = codes "r1";
  created = false;
  backed_up = codes "shop" ∷ [];
  failed = codes "wiki: no space left" ∷ [];
}

runs_two : (run_backups two_apps (codes "r1") none).1 ≡ ok of_two
unfolding run_backups run_opened backup_apps backup_all_state and_finish finish_backups backup_app
    stop_running save_data save_bulk refuse_without_space
runs_two = refl

-- a record that is too long ends the run, with the backups taken
too_long :
    (run_backups (record two_apps { records = λ r. err (codes "value") }) (codes "r1") none).1
    ≡ err (codes "value")
unfolding run_backups run_opened backup_apps backup_all_state and_finish finish_backups backup_app
    stop_running save_data save_bulk refuse_without_space
too_long = refl

run_backups_example :
    IsRun two_apps
      (apps_or two_apps none)
      (is_everything none)
      (run_backups two_apps (codes "r1") none).0
      of_two
run_backups_example = run_backups_lem two_apps (codes "r1") none of_two runs_two

abbrev snapshot : Text → Text → Text → Snapshot
snapshot id run part = record {
  id = id;
  time = codes "111";
  tags = (codes "app", codes "wiki") ∷ ((codes "run", run) ∷ ((codes "part", part) ∷ []));
  size = 3;
}

groups_parts :
    backups (
      snapshot (codes "s1") (codes "r2") (codes "data")
      ∷ (snapshot (codes "s2") (codes "r1") (codes "data")
          ∷ (snapshot (codes "s3") (codes "r2") (codes "bulk") ∷ [])))
    ≡ ok (
        record (backup (codes "111") []) {
          app = some (codes "wiki");
          run = codes "r1";
          snapshots = (codes "data", codes "s2") ∷ [];
          size = 3;
        }
        ∷ (record (backup (codes "111") []) {
          app = some (codes "wiki");
          run = codes "r2";
          snapshots = (codes "data", codes "s1") ∷ ((codes "bulk", codes "s3") ∷ []);
          size = 6;
        }
            ∷ []))
unfolding backups group_snapshots place_snapshot new_backup add_snapshot tag_or oldest_first
    insert_oldest get put app_id validate_parts validate_identifier is_identifier split text_le
groups_parts = refl
