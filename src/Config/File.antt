-- ===== src/Config/File.antt =====
-- The tables of config.toml and the checks across them, of kelso/lib/config.py. Reading the text into
-- the tables is the business of tomllib and pydantic.
use kelso.Common.{
  ℕ, Bool, true, false, not, ◌||◌, Option, none, some, List, [], ◌∷◌, ◌++◌, keep, if◌then◌else◌,
  ◌==◌, eq_nat, eq_list,
}
use kelso.Common.Result.{ok, err}
use kelso.Common.Text.{Text, is_empty}
use kelso.Common.Dict.{Dict, has, keys}
use kelso.Common.Sort.{gather, sorted, when}
use kelso.Names.Defs.{is_identifier}
use kelso.Config.Providers.{none_tag}
use kelso.Backup.Expired.{BackupKeep}

pub data RouteProviderKind : Type 0 where
  nginx_proxy_manager pangolin cloudflare_tunnel noop : RouteProviderKind

pub record RouteProviderEntry : Type 0 where
  pub kind : RouteProviderKind
  pub domain : Text
  pub args : Dict Text Text

pub record HostVolumeEntry : Type 0 where
  pub path : Text
  pub readonly : Bool
  pub require_mount : Bool

pub record BackupEntry : Type 0 where
  pub schedule : Option Text
  pub require_mount : Bool
  pub kept : BackupKeep

pub record ConfigFile : Type 0 where
  pub repos_root : Text
  pub port_base : ℕ
  pub kelso_address : Text
  pub default_route_provider : Text
  pub route_provider : Dict Text RouteProviderEntry
  pub host_volume : Dict Text HostVolumeEntry
  pub backup : BackupEntry

pub data ConfigError : Type 0 where
  reserved_tag bad_schedule empty_default : ConfigError
  bad_provider_tag bad_volume_tag unknown_default : (tag : Text) → ConfigError
  needs_address : (tags : List Text) → ConfigError

abbrev pub is_noop : RouteProviderKind → Bool
is_noop noop = true
is_noop nginx_proxy_manager = false
is_noop pangolin = false
is_noop cloudflare_tunnel = false

unfoldable pub check_schedule : Option Text → List ConfigError
unfolding kelso.Cron.Schedule.parse
check_schedule none = []
check_schedule (some schedule) = elim (kelso.Cron.Schedule.parse schedule) [
  | err e ↦ bad_schedule ∷ []
  | ok parsed ↦ []
]

-- the tags of the providers that traffic is sent to
unfoldable pub proxying : Dict Text RouteProviderEntry → List Text
unfolding keys sorted
proxying providers =
    sorted
      (keys (keep (λ (item : Text × RouteProviderEntry). not (is_noop (item.1).kind)) providers))

-- `proxying` is not empty
abbrev pub need_address : List Text → List ConfigError
need_address [] = []
need_address (tag ∷ tags) = needs_address (tag ∷ tags) ∷ []

unfoldable pub check_default : Dict Text RouteProviderEntry → Text → List ConfigError
unfolding has
check_default providers default =
    if is_empty default
    then empty_default ∷ []
    else when (not ((default == none_tag) || has providers default)) (unknown_default default)

-- _validate_config
unfoldable pub validate_config : ConfigFile → List ConfigError
unfolding check_schedule proxying check_default gather has
validate_config parsed =
    when (has parsed.route_provider none_tag) reserved_tag
    ++ (check_schedule (parsed.backup).schedule
        ++ (gather
              (λ (item : Text × RouteProviderEntry).
                when (not (is_identifier item.0)) (bad_provider_tag item.0))
              parsed.route_provider
            ++ ((if is_empty parsed.kelso_address
                  then need_address (proxying parsed.route_provider)
                  else [])
                ++ (gather
                      (λ (item : Text × HostVolumeEntry).
                        when (not (is_identifier item.0)) (bad_volume_tag item.0))
                      parsed.host_volume
                    ++ check_default parsed.route_provider parsed.default_route_provider))))
