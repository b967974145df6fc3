-- ===== src/Backup/Due.antt =====
-- When a backup is due, and what keeps one from being taken, of kelso/lib/backup.py.
use kelso.Common.{
  Bool, false, not, ◌&&◌, Option, none, some, List, [], ◌∷◌, if◌then◌else◌, leb, eq_nat, eq_list,
}
use kelso.Common.Result.{Result, ok, err, ◌>>=◌}
use kelso.Common.Text.{Text, codes}
use kelso.Cron.Calendar.{DateTime, stamp}
use kelso.Cron.Schedule.{Next, found, never, stuck, parse, next_after}

-- A link that leads nowhere, or a disk that should be mounted and is not.
pub data DestinationProblem : Type 0 where
  dangling_link not_mounted : DestinationProblem

-- What the file system says of `backups/`.
pub record Destination : Type 0 where
  pub is_symlink : Bool
  pub is_there : Bool
  pub shares_disk : Bool

-- destination_problem
unfoldable pub destination_problem : Bool → Destination → Option DestinationProblem
destination_problem require_mount d =
    if d.is_symlink && not d.is_there
    then some dangling_link
    else if require_mount && d.shares_disk
    then some not_mounted
    else none

-- destination, whether it returns
unfoldable pub destination : Bool → Destination → Result DestinationProblem (Unit {0})
unfolding destination_problem
destination require_mount d = elim (destination_problem require_mount d) [
  | none ↦ ok tt
  | some problem ↦ err problem
]

-- refuse_same_second, of the snapshots with that run
unfoldable pub refuse_same_second : Bool → List Text → Result Text (Unit {0})
refuse_same_second is_there [] = ok tt
refuse_same_second is_there (id ∷ ids) =
    if is_there then err (codes "There is already a backup") else ok tt

pub data DueError : Type 0 where
  bad_last_run bad_schedule : DueError

-- the time that the search starts from: the last scheduled run's, or else `since`
abbrev pub anchor_of : (Text → Option DateTime) → DateTime → Option Text → Result DueError DateTime
anchor_of local since none = ok since
anchor_of local since (some time) = elim (local time) [ none ↦ err bad_last_run | some at ↦ ok at ]

-- schedule.next_after(anchor) <= now
unfoldable pub has_come : DateTime → Next → Result DueError Bool
has_come now (found at) = ok (leb (stamp at) (stamp now))
has_come now never = err bad_schedule
has_come now stuck = err bad_schedule

unfoldable pub schedule_due :
    (Text → Option DateTime) → Text → (since now : DateTime) → Option Text → Result DueError Bool
unfolding parse next_after has_come
schedule_due local schedule since now last = anchor_of local since last >>= λ anchor.
    elim (parse schedule) [ err e ↦ err bad_schedule | ok s ↦ has_come now (next_after s anchor) ]

-- backup_due, of the schedule of the configuration and the time of the last scheduled run. `local`
-- reads a timestamp as a time of the local clock.
unfoldable pub backup_due :
    (Text → Option DateTime)
    → Option Text
    → (since now : DateTime) → Option Text
    → Result DueError Bool
unfolding schedule_due
backup_due local none since now last = ok false
backup_due local (some schedule) since now last = schedule_due local schedule since now last
