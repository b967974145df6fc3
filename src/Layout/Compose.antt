-- ===== src/Layout/Compose.antt =====
-- make_compose_dict of kelso/lib/run_layout.py, and the commands of a unit. A service is the record of
-- its keys; the text of a port is what it is made of.
use kelso.Common.{
  ℕ, Bool, true, false, ◌&&◌, ◌||◌, Option, none, some, List, [], ◌∷◌, ◌++◌, map, keep,
  if◌then◌else◌, leb, ◌==◌, eq_nat, eq_list,
}
use kelso.Common.Result.{Result, ok, ◌>>=◌, traverse}
use kelso.Common.Text.{Text, codes, is_empty, text_le}
use kelso.Common.Dict.{Dict, get, put}
use kelso.Common.Sort.{gather}
use kelso.Updown.Wait.{lower}
use kelso.Store.Json.{Json}
use kelso.Manifest.Validate.{is_on_host, has_items}
use kelso.Manifest.Port.{HostPort, Proto}
use kelso.Spec.Defs.{AppSpec, AppRunUnit, AppCommand, BoundVolume, run_rel_path}
use kelso.Layout.Data.{AppRunData, AssignedRoute, Mount}
use kelso.Layout.Environment.{LayoutError, route_of, env_substitutions, substituted, text_or}

-- [^a-z0-9_-] is replaced
abbrev project_char : ℕ → Bool
project_char c =
    (leb b'a' c && leb c b'z') || ((leb b'0' c && leb c b'9') || ((c == b'_') || (c == b'-')))

-- _project_name
unfoldable project_name : Text → Text
project_name app = map (λ (c : ℕ). if project_char c then c else b'_') (lower app)

-- sorted(spec.commands.items()), by name
unfoldable insert_command : Text × AppCommand → Dict Text AppCommand → Dict Text AppCommand
unfolding text_le
insert_command c [] = c ∷ []
insert_command c (d ∷ ds) =
    let rest = insert_command c ds in if text_le c.0 d.0 then c ∷ d ∷ ds else d ∷ rest

unfoldable sorted_commands : Dict Text AppCommand → Dict Text AppCommand
unfolding insert_command
sorted_commands [] = []
sorted_commands (c ∷ cs) = insert_command c (sorted_commands cs)

-- unit_commands
unfoldable unit_commands : AppSpec → Text → List AppCommand
unfolding sorted_commands
unit_commands spec unit =
    keep (λ (c : AppCommand). c.run_unit == unit)
      (map (λ (item : Text × AppCommand). item.1) (sorted_commands spec.commands))

-- command_argv
unfoldable command_argv : AppRunUnit → AppCommand → List Text → List Text
command_argv unit command args =
    unit.shell ++ ((command.cmd ++ codes " \"$@\"") ∷ command.name ∷ args)

-- arg.replace("$", "$$")
unfoldable escape_dollars : Text → Text
escape_dollars [] = []
escape_dollars (c ∷ s) = let rest = escape_dollars s in if c == b'$' then c ∷ c ∷ rest else c ∷ rest

-- what _port_string is made of
pub record PortMapping : Type 0 where
  pub host_port : HostPort
  pub container_port : ℕ
  pub proto : Proto

pub record Service : Type 0 where
  pub image : Text
  pub hostname : Text
  -- the command of the healthcheck, behind CMD
  pub healthcheck : Option (List Text)
  pub restart : Text
  pub volumes : List Mount
  pub command : Option (List Text)
  pub ports : List PortMapping
  pub host_network : Bool
  pub labels : Dict Text Text
  pub environment : Dict Text Text
  -- what the manifest adds, over the rest
  pub extra : Dict Text Json

unfoldable pub escaped : Option (List Text) → Option (List Text)
unfolding escape_dollars
escaped none = none
escaped (some words) = some (map escape_dollars words)

-- no command is set for a list of no words
unfoldable escaped_command : Option (List Text) → Option (List Text)
unfolding escaped
escaped_command none = none
escaped_command (some []) = none
escaped_command (some (word ∷ words)) = escaped (some (word ∷ words))

abbrev port_mapping : Text × AssignedRoute → PortMapping
port_mapping (name, route) = record {
  host_port = route.host_port;
  container_port = route.container_port;
  proto = route.proto;
}

-- the labels of a unit, with that of the domain
unfoldable service_labels : Dict Text Text → Option Text → Dict Text Text
unfolding put
service_labels labels domain =
    if is_empty (text_or domain)
    then labels
    else put labels (codes "kelso.app_subdomain") (text_or domain)

unfoldable connection_mounts : AppRunData → Text → List Mount
unfolding get
connection_mounts run_data name = elim (get run_data.connections name) [
  | none ↦ []
  | some connection ↦
      record { source = connection.host_path; target = connection.mounted; readonly = false } ∷ []
]

-- `mounts`
unfoldable service_mounts : AppSpec → Text → AppRunUnit → AppRunData → List Mount
unfolding unit_commands connection_mounts run_rel_path gather
service_mounts spec name unit run_data =
    map
      (λ (item : Text × BoundVolume). record {
        source = run_rel_path (item.1).volume;
        target = (item.1).guest_path;
        readonly = ((item.1).volume).readonly;
      })
      unit.volumes
    ++ ((if has_items (unit_commands spec name)
          then record {
            source = codes "./kelso/" ++ name;
            target = codes "/kelso";
            readonly = true;
          }
            ∷ []
          else [])
        ++ (gather (connection_mounts run_data) unit.connections ++ run_data.host_mounts))

module _ (decimal : ℕ → Text) where
  -- one round of make_compose_dict
  unfoldable pub make_service :
      AppSpec → AppRunData → Text × AppRunUnit → Result LayoutError (Text × Service)
  unfolding route_of env_substitutions substituted escaped escaped_command service_labels
      service_mounts traverse
  make_service spec run_data (name, unit) = traverse (route_of run_data) unit.routes >>= λ routes.
      env_substitutions decimal spec unit run_data >>= λ mapping. ok (
        name,
        record {
          image = unit.image;
          hostname = unit.hostname;
          healthcheck = escaped unit.healthcheck;
          restart = if unit.restart then codes "on-failure" else codes "no";
          volumes = service_mounts spec name unit run_data;
          command = escaped_command unit.command;
          ports = map port_mapping routes;
          host_network = is_on_host (spec.manifest.app).network_mode;
          labels = service_labels unit.labels run_data.app_domain;
          environment = substituted decimal mapping unit.environment;
          extra = unit.compose_extra;
        },
      )

  -- make_compose_dict: the name of the project, and its services
  unfoldable pub make_compose_dict :
      AppSpec → AppRunData → Result LayoutError (Text × Dict Text Service)
  unfolding make_service project_name traverse
  make_compose_dict spec run_data =
      traverse (make_service spec run_data) spec.run_units >>= λ services.
      ok (project_name spec.app, services)
