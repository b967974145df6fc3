-- ===== src/Lib.antt =====
-- kelso, a self-hosting platform: a verification library of the program's own state and schedules.
--
-- kelso loads apps, keeps their settings, starts and stops their containers, backs them up and runs
-- their commands on schedules, from a command line (kelso/cli) and from a daemon, kelsod
-- (kelso/daemon). Both work through kelso/lib. What kelso knows across runs is in logtab files:
-- kelsodb, each app's store and the activity log. kelsod takes requests as jobs, one queue of them
-- run by one thread, and submits some jobs itself on a clock; backups and an app's commands follow
-- cron schedules.
--
-- The files and the code:
--
-- Common: shared names, and Python's str, list and dict as far as the program uses them. Text is a
--   list of code points. Common/Text has the methods of str, Common/Dict a dict in insertion order,
--   Common/Result the value or the exception of code that raises, and Common/Insertion the sort of
--   Python, which is stable.
--
-- LogTab: kelso/lib/logtab.py, the append-only file of timestamped set, del and clr records. The
--   state is LogTab (Table), with the text of the file; write, read, clear, delete, load, history,
--   scan, last_ts and compact are the methods of LogTab, and write_entry, parse_row and records (File,
--   Row) their parts. datetime.fromisoformat is a parameter that says which timestamps it reads. A
--   write to the file is one append, and a compaction one replacement; readers that look in between
--   are not modelled, nor are file modes and permissions.
--
-- Cron: kelso/lib/cronexpr.py. Calendar stands for the dates and times of Python's datetime, to the
--   minute and without a zone, in the Gregorian calendar from year 1 with no last year. Field is
--   _parse_field, and Schedule has CronSchedule with parse, _day_matches and next_after. The loop of
--   next_after has fuel for the minutes of its window and one more round, which is enough as a round
--   goes on by a minute at least. Digits are the ten ASCII ones.
--
-- Jobs: kelso/jobs/job.py (Job) and kelso/jobs/runner.py (Runner). The state of a runner is the dict
--   of jobs, the queue and the job at which the worker is. The worker's _run is two steps, begin_run
--   and finish_run, between which other threads submit; Runner/Steps is the relation of all steps.
--   What lies outside (the making of a context, the run log, the work of a verb) is given with a run
--   as a World of outcomes, and the parsing of a verb's arguments as a function. Exceptions that are
--   no Exception, such as KeyboardInterrupt, are not modelled. The loops are over lists.
--
-- Store: kelso/lib/store.py. Config has ConfigStore, the interface of a store of JSON values, with
--   the laws that its clients rely on, and CryptoEngine of kelso/lib/crypto.py with the law of a round
--   trip. AppStore (App) and KelsoStore (Kelso) are clients that take both. JsonLogtab is
--   JsonLogtabStore, over the logtab, with json.dumps and json.loads as parameters, and JsonStore makes
--   it a ConfigStore: its states are the tables whose file is of whole lines and loads. A file whose
--   last line is torn, by a write that was cut off, is none of these. The library of JSON is there a
--   record with its round trip, and Printer one such library. Memory is a ConfigStore over a dict, on
--   which the search for ports runs, and noop_crypto encrypts nothing, for tests. A missing value is
--   null; of the numbers below zero there is minus one only. The search for a port has fuel for one
--   round more than there are ports in use.
--
-- Backup: kelso/lib/backup.py. Expired is `expired`, which backups a keep policy drops; the formats
--   %G-%V and the like of strftime are parameters: a function from a backup to the name of its day,
--   week and month. Due has backup_due and what refuses a backup, Take has backup_app and run_backups
--   as the events that they come to, and Listing has backups and forget_expired. What restic, docker,
--   the locks and the file system say is given in records AppOutside and RunOutside. A stop of an app
--   that raises may do so with the app still up or, after `docker compose down`, with it down.
--
-- Layout: kelso/lib/run_layout.py over the specifications of Spec. Machine is a record of what the
--   stores, the configuration and the file system say; Volumes, Routes and Resolve have load_run_data,
--   with each issue as a value in place of its text. Environment has the substitution of the
--   placeholders, with string.Template's safe_substitute over the pattern of EnvTemplate in
--   kelso/lib/util.py, and Compose the compose project; `str` of a number is a parameter.
--
-- Ticks: kelso/lib/lifecycle/cron.py, cron_runs and tick over the schedules of Cron and the
--   specifications of Spec. The clock is read once, and local time is never set forward or back.
--
-- Receipt: kelso/lib/receipt.py, the addresses, the settings and the dangers that it shows.
--
-- Lifecycle: kelso/lib/lifecycle/volumes.py, the volumes on disk and the removal of the orphaned ones.
--
-- Config: kelso/lib/config.py and kelso/lib/config_edit.py. Providers is the text of the providers of
--   a route; File has the tables of config.toml and _validate_config, Load has load_config_file. Edit
--   has the edits over the text of the file. What tomllib and pydantic read is the parameter `read`,
--   from a text to its tables; tomlkit reads the same tables and prints them by `dumps`.
--
-- Repos: the urls of kelso/lib/repo.py, and _resolve_repos of kelso/lib/config.py. The expansion of a
--   path to an absolute one is a parameter, and a path is its text.
--
-- Names: the identifiers of kelso/lib/util.py and AppID of kelso/lib/apps.py.
--
-- Options: the app options of kelso/lib/options.py. What Python's int takes of a text that passed the
--   test of its digits is a natural number, with at most one minus.
--
-- Manifest: kelso/lib/manifest.py. Entries has the sections and what is checked within one, Port the
--   port of a route, Checks and Validate the checks across sections, up to parse_manifest; Words has
--   what they use of string.Template (with EnvTemplate of kelso/lib/util.py), shlex and posixpath. The
--   reading of TOML is a parameter, a function from the bytes to the sections.
--
-- Spec: kelso/lib/spec.py. Defs has the parts of an AppSpec and what is read from them, Build has
--   _build and _resolve_run_units, with the exceptions that they could raise as errors. The values of a
--   compose table are passed on and never read.
--
-- Updown: kelso/lib/lifecycle/updown.py. Groups has start_groups, with the start_order of an app as a
--   number or an error that is given; Run has _up and _down, as the list of the events that they come
--   to, with what docker, the locks and the activity log say in a record Outside. The wait for a group
--   is given there by the apps that are not ready after it; Wait has _wait_ready itself, with the polls
--   of docker given. Its fuel is the milliseconds of the wait and one round more, which is enough as
--   each round sleeps.
--
-- Each part has a module Tests, with runs at concrete inputs and each result at one.
--
-- Not modelled: the code that calls other programs (docker, git, restic), that serves HTTP, prints or
-- draws, and the route providers, whose effects are outside; and the paths of a root, its search and
-- its key file. The apps in apps/ and demo-apps/, and kproxy, which is written in Go, are programs of
-- their own.
pub mod Backup
pub mod Common
pub mod Config
pub mod Cron
pub mod Jobs
pub mod Layout
pub mod Lifecycle
pub mod LogTab
pub mod Manifest
pub mod Names
pub mod Options
pub mod Receipt
pub mod Repos
pub mod Spec
pub mod Store
pub mod Ticks
pub mod Updown
