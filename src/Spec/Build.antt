-- ===== src/Spec/Build.antt =====
-- _build and _resolve_run_units of kelso/lib/spec.py.
pub mod Items
use kelso.Common.{
  Bool, true, false, Option, none, some, List, [], ◌∷◌, ◌++◌, map, if◌then◌else◌, eq_nat, eq_list,
}
use kelso.Common.Result.{Result, ok, err, ◌>>=◌, traverse}
use kelso.Common.Text.{Text, codes, is_empty}
use kelso.Common.Dict.{Dict, get, has, put, put_all}
use kelso.Common.Sort.{gather}
use kelso.Options.Defs.{OptionName, option_named, app_options, name_of, default_of, desc_of}
use kelso.Manifest.Entries.{
  Manifest, AppSection, RunEntry, RouteEntry, ConfigEntry, CommandEntry, VolumeEntry, Healthcheck,
  script, argv, is_app_kind,
}
use kelso.Manifest.Port.{PortSpec, parse}
use kelso.Spec.Defs.{
  ConfigSection, config, advanced, option, AppConfig, AppVolume, BoundVolume, AppRoute, AppRunUnit,
  AppCommand, AppSpec,
}

-- what `_build` may raise: the KeyError of a volume, the ValueError of a port
pub data BuildError : Type 0 where
  no_volume bad_route_port : Text → BuildError

-- entry.desc or (APP_OPTIONS[name].desc if name in APP_OPTIONS else "")
unfoldable desc_or : Text → Text → Text
unfolding option_named
desc_or desc name =
    if is_empty desc then elim (option_named name) [ none ↦ [] | some o ↦ desc_of o ] else desc

unfoldable pub setting_item : ConfigSection → Text × ConfigEntry → Text × AppConfig
unfolding desc_or
setting_item section (name, entry) = (
  name,
  record {
    name = name;
    secret = entry.secret;
    default = entry.default;
    desc = desc_or entry.desc name;
    section = section;
  },
)

-- the setting of an app option that the manifest does not name
unfoldable pub option_setting : Text → OptionName → AppConfig
unfolding default_of
option_setting app o = record {
  name = name_of o;
  secret = false;
  default = some (default_of o app);
  desc = desc_of o;
  section = option;
}

-- config.setdefault(name, …), over the options
unfoldable pub add_options : Text → Dict Text AppConfig → List OptionName → Dict Text AppConfig
unfolding has put option_setting
add_options app settings [] = settings
add_options app settings (o ∷ os) =
    add_options app
      (if has settings (name_of o)
        then settings
        else put settings (name_of o) (option_setting app o))
      os

-- `config` of _build
unfoldable pub build_config : Text → Manifest → Dict Text AppConfig
unfolding setting_item add_options put_all
build_config app m =
    add_options app
      (put_all [] (map (setting_item config) m.config ++ map (setting_item advanced) m.adv_config))
      app_options

abbrev or_writable : Option Bool → Bool
or_writable none = false
or_writable (some readonly) = readonly

-- `volumes` of _build
unfoldable pub build_volume : Text × VolumeEntry → Text × AppVolume
build_volume (name, v) = (
  name,
  record {
    name = name;
    kind = v.kind;
    readonly = if is_app_kind v.kind then true else or_writable v.readonly;
    src = v.src;
    desc = v.desc;
  },
)

-- _healthcheck_argv
unfoldable healthcheck_argv : RunEntry → Option (List Text)
healthcheck_argv entry = elim entry.healthcheck [
  | none ↦ none
  | some check ↦ elim check [
    | script text ↦ some (entry.shell ++ text ∷ [])
    | argv words ↦ some words
  ]
]

-- tuple(run_entry.cmd) if run_entry.cmd else None
abbrev or_default : Option (List Text) → Option (List Text)
or_default none = none
or_default (some []) = none
or_default (some (word ∷ words)) = some (word ∷ words)

unfoldable pub bind_volume :
    Dict Text AppVolume → Text × Text → Result BuildError (Text × BoundVolume)
unfolding get
bind_volume volumes (name, guest_path) = elim (get volumes name) [
  | none ↦ err (no_volume name)
  | some volume ↦ ok (name, record { volume = volume; guest_path = guest_path })
]

abbrev pub app_route : Text → Text → RouteEntry → PortSpec → AppRoute
app_route unit name route spec = record {
  route_name = name;
  run_unit_name = unit;
  host_port = spec.host_port;
  container_port = spec.container_port;
  proto = spec.proto;
  private = route.private;
  scheme = route.scheme;
  desc = route.desc;
}

unfoldable pub build_route : Text → Text × RouteEntry → Result BuildError (Text × AppRoute)
unfolding parse
build_route unit (name, route) = elim (parse route.port) [
  | err e ↦ err (bad_route_port name)
  | ok spec ↦ ok (name, app_route unit name route spec)
]

unfoldable unit_environment : Text → Text → Text → Dict Text Text → Dict Text Text
unfolding put_all
unit_environment app version unit env =
    put_all
      ((codes "KLSO_ID", app)
        ∷ (codes "KLSO_VERSION", version)
        ∷ (codes "KLSO_RUN_UNIT", unit)
        ∷ [])
      env

abbrev unit_labels : Text → Text → Text → Dict Text Text
unit_labels app version unit =
    (codes "kelso.app_id", app)
    ∷ (codes "kelso.version", version)
    ∷ (codes "kelso.run_unit", unit)
    ∷ []

unfoldable pub app_unit :
    Text → Text → Text → RunEntry → Dict Text BoundVolume → Dict Text AppRoute → AppRunUnit
unfolding unit_environment healthcheck_argv
app_unit app version unit entry bound routes = record {
  hostname = unit;
  image = entry.image;
  command = or_default entry.cmd;
  environment = unit_environment app version unit entry.env;
  volumes = bound;
  routes = routes;
  labels = unit_labels app version unit;
  restart = entry.restart;
  shell = entry.shell;
  healthcheck = healthcheck_argv entry;
  connections = entry.connections;
  compose_extra = entry.compose;
}

-- one round of _resolve_run_units
unfoldable pub build_unit :
    Text → Text → Dict Text AppVolume → Text × RunEntry → Result BuildError (Text × AppRunUnit)
unfolding bind_volume build_route app_unit traverse
build_unit app version volumes (unit, entry) =
    traverse (bind_volume volumes) entry.volumes >>= λ bound.
    traverse (build_route unit) entry.routes >>= λ routes.
    ok (unit, app_unit app version unit entry bound routes)

unfoldable pub build_command : Text × CommandEntry → Text × AppCommand
build_command (name, entry) =
    (name, record { name = name; cmd = entry.cmd; run_unit = entry.run_unit; desc = entry.desc })

-- `routes` of _build
unfoldable pub unit_routes : Dict Text AppRunUnit → Dict Text AppRoute
unfolding put_all gather
unit_routes run_units =
    put_all [] (gather (λ (item : Text × AppRunUnit). (item.1).routes) run_units)

unfoldable pub app_spec : Manifest → Text → Dict Text AppRunUnit → AppSpec
unfolding build_config build_volume build_command unit_routes
app_spec m app run_units = record {
  app = app;
  manifest = m;
  run_units = run_units;
  routes = unit_routes run_units;
  config = build_config app m;
  volumes = map build_volume m.volumes;
  commands = map build_command m.commands;
}

-- _build
unfoldable pub build : Manifest → Text → Result BuildError AppSpec
unfolding build_volume build_unit app_spec traverse
build m app =
    traverse (build_unit app (m.app).version (map build_volume m.volumes)) m.run >>= λ run_units.
    ok (app_spec m app run_units)
