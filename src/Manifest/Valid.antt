-- ===== src/Manifest/Valid.antt =====
-- What the checks of kelso/lib/manifest.py across sections leave.
use kelso.Common.{
  ◌≤◌, ◌≡◌, refl, sym, ◌∙◌, ap, Bool, true, false, not, ◌||◌, ◌&&◌, List, [], ◌∷◌, ◌++◌, map,
  eq_nat, eq_list, keep, any, All,
}
use kelso.Common.Result.{Result, ok, err}
use kelso.Common.Text.{Text}
use kelso.Common.Dict.{Dict, has, keys}
use kelso.Common.Sort.{when, gather, append_nil, when_nil, gather_nil, All-map}
use kelso.Cron.Calendar.{DateTime}
use kelso.Cron.Schedule.{CronSchedule, Next, parse, next_after, found, never, stuck}
use kelso.Manifest.Entries.{Manifest, RunEntry, RouteEntry, CommandEntry, CronEntry, check_port}
use kelso.Manifest.Words.{can_split, normpath}
use kelso.Manifest.Checks.{
  routes_on_host, validate_run_volumes, validate_commands, validate_cron, validate_connections,
  mount_problems, cron_problems, has_next, in_2000, unit_connections, is_reserved,
}
use kelso.Manifest.Validate.{validate_routes, is_on_host, has_items, names_other}
use kelso.Manifest.Routes.{times, all_routes}

-- A manifest whose sections fit together.
pub record IsManifest (app : Text) (m : Manifest) : Type 0 where
  -- it names no other app, and its main unit is there
  pub names_it : names_other (m.app).app_id app ≡ false
  pub has_main : has m.run (m.app).main ≡ true
  -- no name stands in both sections of configuration
  pub sections_apart : keep (has m.adv_config) (keys m.config) ≡ []
  -- what the units mount is declared, and not at kelso's own place
  pub mounts :
      All
        (λ (unit : Text × RunEntry).
          All
            (λ (mount : Text × Text).
              (has m.volumes mount.0 ≡ true) × (is_reserved (normpath mount.1) ≡ false))
            (unit.1).volumes)
        m.run
  pub connections_there :
      All
        (λ (unit : Text × RunEntry).
          All (λ (name : Text). has m.connections name ≡ true) (unit.1).connections)
        m.run
  -- each name of a route is declared once
  pub routes_once : (name : Text) → times name (all_routes m.run) ≤ 1
  -- on the host's network there are none
  pub host_routes : (is_on_host (m.app).network_mode && has_items (all_routes m.run)) ≡ false
  -- every port of a route parses
  pub ports :
      All
        (λ (unit : Text × RunEntry).
          All (λ (route : Text × RouteEntry). check_port route.1 ≡ true) (unit.1).routes)
        m.run
  pub units_there :
      All (λ (command : Text × CommandEntry). has m.run (command.1).run_unit ≡ true) m.commands
  -- a cron entry has a command, a time after the start of 2000, and arguments that split
  pub crons :
      All
        (λ (cron : Text × CronEntry).
          (has m.commands (cron.1).command ≡ true)
          × ((s : CronSchedule) × (at : DateTime) × (parse (cron.1).schedule ≡ ok s)
              × (next_after s in_2000 ≡ found at))
          × (can_split (cron.1).args ≡ true))
        m.cron

not-false : (b : Bool) → not b ≡ false → b ≡ true
not-false true h = refl
not-false false h = cc h

pub when-not : {A : Type 0} (b : Bool) (e : A) → when (not b) e ≡ [] → b ≡ true
when-not b e h = not-false b (when_nil (not b) e h)

pub map_nil : {A B : Type 0} (f : A → B) (xs : List A) → map f xs ≡ [] → xs ≡ []
map_nil f [] h = refl
map_nil f (x ∷ xs) h = cc h

pub finds :
    (n : Next)
    → elim n [ found at ↦ true | never ↦ false | stuck ↦ false ] ≡ true
    → (at : DateTime) × (n ≡ found at)
finds (found at) h = (at, refl)
finds never h = cc h
finds stuck h = cc h

schedule_finds :
    {E : Type 0} (parsed : Result E CronSchedule)
    → elim parsed [
      | err e ↦ false
      | ok s ↦ elim (next_after s in_2000) [ found at ↦ true | never ↦ false | stuck ↦ false ]
    ]
      ≡ true
    → (s : CronSchedule) × (at : DateTime) × (parsed ≡ ok s) × (next_after s in_2000 ≡ found at)
schedule_finds (err e) h = cc h
schedule_finds (ok s) h = let f = finds (next_after s in_2000) h in (s, f.0, refl, f.1)

has_next_lem :
    (schedule : Text)
    → has_next schedule ≡ true
    → (s : CronSchedule) × (at : DateTime) × (parse schedule ≡ ok s)
      × (next_after s in_2000 ≡ found at)
unfolding has_next
has_next_lem schedule h = schedule_finds (parse schedule) h

pub mounts_lem :
    (m : Manifest)
    → validate_run_volumes m ≡ []
    → All
        (λ (unit : Text × RunEntry).
          All
            (λ (mount : Text × Text).
              (has m.volumes mount.0 ≡ true) × (is_reserved (normpath mount.1) ≡ false))
            (unit.1).volumes)
        m.run
unfolding validate_run_volumes mount_problems
mounts_lem m h =
    All-map m.run
      (λ unit k.
        All-map (unit.1).volumes
          (λ mount l. let parts = append_nil _ _ l in (when-not _ _ parts.0, when_nil _ _ parts.1))
          (gather_nil _ _ k))
      (gather_nil _ m.run h)

pub connections_lem :
    (m : Manifest)
    → validate_connections m ≡ []
    → All
        (λ (unit : Text × RunEntry).
          All (λ (name : Text). has m.connections name ≡ true) (unit.1).connections)
        m.run
unfolding validate_connections unit_connections
connections_lem m h =
    All-map m.run
      (λ unit k. All-map (unit.1).connections (λ name l. when-not _ _ l) (gather_nil _ _ k))
      (gather_nil _ m.run h)

pub commands_lem :
    (m : Manifest)
    → validate_commands m ≡ []
    → All (λ (command : Text × CommandEntry). has m.run (command.1).run_unit ≡ true) m.commands
unfolding validate_commands
commands_lem m h = All-map m.commands (λ command k. when-not _ _ k) (gather_nil _ m.commands h)

pub crons_lem :
    (m : Manifest)
    → validate_cron m ≡ []
    → All
        (λ (cron : Text × CronEntry).
          (has m.commands (cron.1).command ≡ true)
          × ((s : CronSchedule) × (at : DateTime) × (parse (cron.1).schedule ≡ ok s)
              × (next_after s in_2000 ≡ found at))
          × (can_split (cron.1).args ≡ true))
        m.cron
unfolding validate_cron cron_problems
crons_lem m h =
    All-map m.cron
      (λ cron k.
        let first = append_nil _ _ k in
        let second = append_nil _ _ first.1 in
        (
          when-not _ _ first.0,
          has_next_lem (cron.1).schedule (when-not _ _ second.0),
          when-not _ _ second.1,
        ))
      (gather_nil _ m.cron h)

has_items-keys :
    (routes : Dict Text RouteEntry) (names : List Text)
    → has_items (keys routes ++ names) ≡ (has_items routes || has_items names)
unfolding keys
has_items-keys [] names = refl
has_items-keys (r ∷ rs) names = refl

any_routes :
    (run : Dict Text RunEntry)
    → any (λ (item : Text × RunEntry). has_items (item.1).routes) run ≡ has_items (all_routes run)
unfolding all_routes gather
any_routes [] = refl
any_routes ((unit, entry) ∷ run) =
    ap (λ b. has_items entry.routes || b) (any_routes run)
    ∙ sym (has_items-keys entry.routes (all_routes run))

pub host_lem :
    (m : Manifest)
    → validate_routes m ≡ []
    → (is_on_host (m.app).network_mode && has_items (all_routes m.run)) ≡ false
unfolding validate_routes
host_lem m h =
    ap (λ b. is_on_host (m.app).network_mode && b) (sym (any_routes m.run))
    ∙ when_nil
        (is_on_host (m.app).network_mode
          && any (λ (item : Text × RunEntry). has_items (item.1).routes) m.run)
        routes_on_host (append_nil _ _ h).1
