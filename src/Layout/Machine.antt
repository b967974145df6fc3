-- ===== src/Layout/Machine.antt =====
-- What kelso/lib/run_layout.py asks of the machine, and the settings and connections that it resolves
-- from that. The stores, the configuration and the file system are given, as far as they are asked.
use kelso.Common.{
  Bool, true, false, not, Option, none, some, List, [], ◌∷◌, ◌++◌, map, if◌then◌else◌, ◌==◌, eq_nat,
  eq_list,
}
use kelso.Common.Text.{Text, codes}
use kelso.Common.Dict.{Dict}
use kelso.Common.Sort.{gather}
use kelso.Store.App.{Setting, unset, setting}
use kelso.Manifest.Entries.{ConnectionEntry, VolumeKind}
use kelso.Spec.Defs.{AppConfig, has_default}
use kelso.Layout.Data.{
  Issue, secret_differs, unset_config, missing_connection, ResolvedConnection, ConfigValue,
  AssignedRoute,
}

pub record HostVolume : Type 0 where
  pub path : Text
  pub readonly : Bool
  pub require_mount : Bool

-- What the machine says.
pub record Machine : Type 0 where
  -- AppStore.get_config, and the binds and the routes on file
  pub stored : Text → Setting
  pub binds : Dict Text Text
  pub found_routes : Dict Text AssignedRoute
  -- the configuration
  pub host_volumes : Dict Text HostVolume
  pub provider_domain : Text → Text
  pub volume_root : VolumeKind → Text
  pub dangling_volume_root : VolumeKind → Option Text
  pub conn_root : Text
  -- the file system
  pub exists : Text → Bool
  pub is_mount : Text → Bool

abbrev pub same_secret : Bool → Bool → Bool
same_secret true b = b
same_secret false b = not b

-- one setting of _load_config_values, by what is stored of it: its value, and what is wrong with it
unfoldable pub value_of : Text → AppConfig → Setting → (Text × ConfigValue) × List Issue
unfolding has_default
value_of name config (setting secret value) =
    if same_secret secret config.secret
    then ((name, record { setting = config; value = some value }), [])
    else ((name, record { setting = config; value = none }), secret_differs name ∷ [])
value_of name config unset =
    if has_default config
    then ((name, record { setting = config; value = config.default }), [])
    else ((name, record { setting = config; value = none }), unset_config name ∷ [])

unfoldable pub config_value : Machine → Text × AppConfig → (Text × ConfigValue) × List Issue
unfolding value_of
config_value m (name, config) = value_of name config (m.stored name)

-- _load_config_values
unfoldable pub load_config_values :
    Machine → Dict Text AppConfig → Dict Text ConfigValue × List Issue
unfolding config_value gather
load_config_values m config = (
  map (λ (item : Text × AppConfig). (config_value m item).0) config,
  gather (λ (item : Text × AppConfig). (config_value m item).1) config,
)

-- guest_path of kelso/lib/connections.py
abbrev pub guest_path : Text → Text
guest_path name = codes "/run/kelso/conn/" ++ name

-- kind.host_path(config), of a kind that check_kind lets through
abbrev pub host_path_of : Machine → Text → Text
host_path_of m kind =
    if kind == codes "kelso.admin" then m.conn_root else codes "/var/run/docker.sock"

-- kind.properties(config, mounted)
abbrev properties_of : Text → Text → Dict Text Text
properties_of kind mounted =
    if kind == codes "kelso.admin"
    then (codes "socket", mounted ++ codes "/admin.sock") ∷ []
    else (codes "socket", mounted) ∷ ((codes "host", codes "unix://" ++ mounted) ∷ [])

unfoldable pub load_connection :
    Machine → Text × ConnectionEntry → Dict Text ResolvedConnection × List Issue
load_connection m (name, entry) =
    if m.exists (host_path_of m entry.kind)
    then (
      (
        name,
        record {
          kind = entry.kind;
          host_path = host_path_of m entry.kind;
          mounted = guest_path name;
          properties = properties_of entry.kind (guest_path name);
        },
      )
          ∷ [],
      [],
    )
    else ([], missing_connection name ∷ [])

-- _load_connections
unfoldable pub load_connections :
    Machine → Dict Text ConnectionEntry → Dict Text ResolvedConnection × List Issue
unfolding load_connection gather
load_connections m entries = (
  gather (λ (item : Text × ConnectionEntry). (load_connection m item).0) entries,
  gather (λ (item : Text × ConnectionEntry). (load_connection m item).1) entries,
)
