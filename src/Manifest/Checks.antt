-- ===== src/Manifest/Checks.antt =====
-- The checks of kelso/lib/manifest.py that span the sections of a manifest. An error is what its
-- text is made of.
use kelso.Common.{
  Bool, true, false, not, ◌&&◌, ◌||◌, Option, none, some, List, [], ◌∷◌, ◌++◌, map, if◌then◌else◌,
  ◌==◌, eq_nat, eq_list, keep,
}
use kelso.Common.Result.{ok, err}
use kelso.Common.Text.{Text, codes, starts_with}
use kelso.Common.Dict.{has, keys}
use kelso.Common.Sort.{when, gather, sorted}
use kelso.Options.Defs.{option_named, validate}
use kelso.Cron.Calendar.{DateTime}
use kelso.Cron.Schedule.{parse, next_after, found, never, stuck}
use kelso.Manifest.Entries.{
  Manifest, RunEntry, ConfigEntry, CommandEntry, CronEntry, VolumeEntry, is_app_kind,
}
use kelso.Manifest.Words.{can_split, normpath}

pub data Section : Type 0 where
  in_config in_adv_config : Section

pub data Problem : Type 0 where
  other_app : Text → Problem
  no_main : Text → Problem
  in_both_sections : Text → Problem
  secret_option bad_default : Section → Text → Problem
  writable_app_volume : Text → Problem
  undeclared_volume reserved_path : (unit volume : Text) → Problem
  shared_route : Text → List Text → Problem
  routes_on_host : Problem
  not_attached : (unit variable reference connection : Text) → Problem
  unknown_reference : (unit variable reference : Text) → Problem
  undeclared_unit : (command unit : Text) → Problem
  undeclared_command : (cron command : Text) → Problem
  bad_schedule bad_args : (cron : Text) → Problem
  undeclared_connection : (unit connection : Text) → Problem

-- option.validate(default), where there is a default
unfoldable pub default_problems : Section → Text → Option Text → List Problem
unfolding option_named validate
default_problems section name none = []
default_problems section name (some default) = elim (option_named name) [
  | none ↦ []
  | some option ↦ elim (validate option default) [
    | ok fine ↦ []
    | err e ↦ bad_default section name ∷ []
  ]
]

unfoldable pub option_problems : Section → Text × ConfigEntry → List Problem
unfolding option_named default_problems
option_problems section (name, entry) = elim (option_named name) [
  | none ↦ []
  | some option ↦
      if entry.secret
      then secret_option section name ∷ []
      else default_problems section name entry.default
]

-- _validate_config
unfoldable pub validate_config : Manifest → List Problem
unfolding option_problems has keys sorted gather
validate_config m =
    map in_both_sections (sorted (keep (has m.adv_config) (keys m.config)))
    ++ (gather (option_problems in_config) m.config
        ++ gather (option_problems in_adv_config) m.adv_config)

-- _validate_commands
unfoldable pub validate_commands : Manifest → List Problem
unfolding has gather
validate_commands m =
    gather
      (λ (item : Text × CommandEntry).
        when (not (has m.run (item.1).run_unit)) (undeclared_unit item.0 (item.1).run_unit))
      m.commands

unfoldable pub unit_connections : Manifest → Text × RunEntry → List Problem
unfolding has gather
unit_connections m (unit, entry) =
    gather (λ (name : Text). when (not (has m.connections name)) (undeclared_connection unit name))
      entry.connections

-- _validate_connections
unfoldable pub validate_connections : Manifest → List Problem
unfolding unit_connections gather
validate_connections m = gather (unit_connections m) m.run

abbrev pub in_2000 : DateTime
in_2000 = record { year = 2000; month = 1; day = 1; hour = 0; minute = 0 }

-- CronSchedule.parse(schedule).next_after(datetime(2000, 1, 1)), whether it returns
unfoldable pub has_next : Text → Bool
unfolding parse next_after
has_next schedule = elim (parse schedule) [
  | err e ↦ false
  | ok s ↦ elim (next_after s in_2000) [ found at ↦ true | never ↦ false | stuck ↦ false ]
]

unfoldable pub cron_problems : Manifest → Text × CronEntry → List Problem
unfolding has has_next can_split
cron_problems m (name, entry) =
    when (not (has m.commands entry.command)) (undeclared_command name entry.command)
    ++ (when (not (has_next entry.schedule)) (bad_schedule name)
        ++ when (not (can_split entry.args)) (bad_args name))

-- _validate_cron
unfoldable pub validate_cron : Manifest → List Problem
unfolding cron_problems gather
validate_cron m = gather (cron_problems m) m.cron

-- _validate_volumes
unfoldable pub validate_volumes : Manifest → List Problem
unfolding gather
validate_volumes m =
    gather
      (λ (item : Text × VolumeEntry).
        when (is_app_kind (item.1).kind && says_writable (item.1).readonly)
          (writable_app_volume item.0))
      m.volumes
  where
    says_writable : Option Bool → Bool
    says_writable none = false
    says_writable (some readonly) = not readonly

abbrev kelso_guest_dir : Text
kelso_guest_dir = codes "/kelso"

-- target == KELSO_GUEST_DIR or target.startswith(f"{KELSO_GUEST_DIR}/")
unfoldable pub is_reserved : Text → Bool
is_reserved target =
    (target == kelso_guest_dir) || starts_with target (kelso_guest_dir ++ codes "/")

unfoldable pub mount_problems : Manifest → Text → Text × Text → List Problem
unfolding has normpath is_reserved
mount_problems m unit (volume, guest_path) =
    when (not (has m.volumes volume)) (undeclared_volume unit volume)
    ++ when (is_reserved (normpath guest_path)) (reserved_path unit volume)

-- _validate_run_volumes
unfoldable pub validate_run_volumes : Manifest → List Problem
unfolding mount_problems gather
validate_run_volumes m =
    gather (λ (item : Text × RunEntry). gather (mount_problems m item.0) (item.1).volumes) m.run
