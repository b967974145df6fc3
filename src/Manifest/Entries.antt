-- ===== src/Manifest/Entries.antt =====
-- The sections of a manifest, and what kelso/lib/manifest.py checks within one of them. A manifest
-- stands here as it is read from its TOML.
use kelso.Common.{
  Bool, true, false, not, ◌&&◌, ◌||◌, Option, none, some, List, [], ◌∷◌, eq_nat, eq_list, contains,
  any,
}
use kelso.Common.Result.{ok, err}
use kelso.Common.Text.{Text, codes, is_empty, starts_with}
use kelso.Common.Dict.{Dict, keys}
use kelso.Store.Json.{Json}
use kelso.Manifest.Port.{parse}

pub data NetworkMode : Type 0 where
  normal host : NetworkMode

pub data VolumeKind : Type 0 where
  app_files data_files temp_files bulk_files log_files host_files : VolumeKind

pub data Scheme : Type 0 where
  http https : Scheme

pub record AppSection : Type 0 where
  pub app_id : Option Text
  pub version : Text
  pub network_mode : NetworkMode
  pub display_name : Text
  pub description : Text
  pub author : Text
  pub url : Text
  pub main : Text

-- `readonly`, where the manifest says so, as the default is false
pub record VolumeEntry : Type 0 where
  pub kind : VolumeKind
  pub src : Option Text
  pub desc : Text
  pub readonly : Option Bool

pub record ConfigEntry : Type 0 where
  pub desc : Text
  pub default : Option Text
  pub secret : Bool

pub record RouteEntry : Type 0 where
  pub port : Text
  pub private : Bool
  pub scheme : Scheme
  pub desc : Text

pub data Healthcheck : Type 0 where
  script : Text → Healthcheck
  argv : List Text → Healthcheck

pub record RunEntry : Type 0 where
  pub image : Text
  pub cmd : Option (List Text)
  pub volumes : Dict Text Text
  pub env : Dict Text Text
  pub routes : Dict Text RouteEntry
  pub restart : Bool
  pub shell : List Text
  pub healthcheck : Option Healthcheck
  pub connections : List Text
  pub compose : Dict Text Json

pub record CommandEntry : Type 0 where
  pub cmd : Text
  pub run_unit : Text
  pub desc : Text

pub record ConnectionEntry : Type 0 where
  pub kind : Text
  pub desc : Text

pub record CronEntry : Type 0 where
  pub schedule : Text
  pub command : Text
  pub args : Text

pub record Manifest : Type 0 where
  pub app : AppSection
  pub run : Dict Text RunEntry
  pub config : Dict Text ConfigEntry
  pub adv_config : Dict Text ConfigEntry
  pub volumes : Dict Text VolumeEntry
  pub commands : Dict Text CommandEntry
  pub cron : Dict Text CronEntry
  pub connections : Dict Text ConnectionEntry

pub data EntryError : Type 0 where
  bad_url bad_src bad_port managed_key unknown_kind bad_name nothing_to_run : EntryError

-- AppSection.check_url
unfoldable pub check_url : Text → Bool
check_url value =
    is_empty value || (starts_with value (codes "https://") || starts_with value (codes "http://"))

abbrev pub is_app_kind : VolumeKind → Bool
is_app_kind app_files = true
is_app_kind data_files = false
is_app_kind temp_files = false
is_app_kind bulk_files = false
is_app_kind log_files = false
is_app_kind host_files = false

-- bool(src)
abbrev has_src : Option Text → Bool
has_src none = false
has_src (some src) = not (is_empty src)

-- VolumeEntry.check_src
unfoldable pub check_src : VolumeEntry → Bool
check_src volume = not (has_src volume.src && not (is_app_kind volume.kind))

-- RouteEntry.check_port
unfoldable pub check_port : RouteEntry → Bool
unfolding parse
check_port route = elim (parse route.port) [ ok spec ↦ true | err e ↦ false ]

-- _COMPOSE_MANAGED_KEYS
abbrev compose_managed_keys : List Text
compose_managed_keys =
    codes "image"
    ∷ (codes "hostname"
        ∷ (codes "command"
            ∷ (codes "environment"
                ∷ (codes "volumes"
                    ∷ (codes "ports"
                        ∷ (codes "labels"
                            ∷ (codes "restart"
                                ∷ (codes "network_mode" ∷ (codes "healthcheck" ∷ [])))))))))

-- RunEntry.check_compose_keys
unfoldable pub check_compose_keys : RunEntry → Bool
unfolding keys
check_compose_keys unit =
    not (any (λ (key : Text). contains compose_managed_keys key) (keys unit.compose))

-- the names in CONNECTION_KINDS of kelso/lib/connections.py
abbrev connection_kinds : List Text
connection_kinds = codes "kelso.admin" ∷ (codes "docker.admin" ∷ [])

-- ConnectionEntry.check_kind
unfoldable pub check_kind : ConnectionEntry → Bool
check_kind connection = contains connection_kinds connection.kind
