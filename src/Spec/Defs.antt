-- ===== src/Spec/Defs.antt =====
-- The parts of an AppSpec of kelso/lib/spec.py and what is read from them.
use kelso.Common.{
  ℕ, Bool, true, false, not, ◌&&◌, Option, none, some, List, [], ◌∷◌, ◌++◌, if◌then◌else◌, ◌==◌,
  eq_nat, eq_list, contains, keep,
}
use kelso.Common.Text.{Text, codes, is_empty}
use kelso.Common.Dict.{Dict, get, keys}
use kelso.Common.Sort.{gather, sorted}
use kelso.Store.Json.{Json}
use kelso.Manifest.Entries.{
  Manifest, VolumeKind, app_files, data_files, temp_files, bulk_files, log_files, host_files,
  Scheme,
}
use kelso.Manifest.Port.{HostPort, assign, fixed, Proto}

pub data ConfigSection : Type 0 where
  config advanced option : ConfigSection

pub record AppConfig : Type 0 where
  pub name : Text
  pub secret : Bool
  pub default : Option Text
  pub desc : Text
  pub section : ConfigSection

abbrev pub is_some : Option Text → Bool
is_some none = false
is_some (some t) = true

-- AppConfig.has_default
unfoldable pub has_default : AppConfig → Bool
has_default setting = not setting.secret && is_some setting.default

-- AppConfig.env_name
unfoldable pub env_name : AppConfig → Text
env_name setting = codes "__KELSO_CONFIG_" ++ (codes "_" ++ setting.name)

pub record AppVolume : Type 0 where
  pub name : Text
  pub kind : VolumeKind
  pub readonly : Bool
  pub src : Option Text
  pub desc : Text

abbrev kind_text : VolumeKind → Text
kind_text app_files = codes "app"
kind_text data_files = codes "data"
kind_text temp_files = codes "temp"
kind_text bulk_files = codes "bulk"
kind_text log_files = codes "logs"
kind_text host_files = codes "host"

-- AppVolume.run_rel_path
unfoldable pub run_rel_path : AppVolume → Text
run_rel_path volume = codes "./volumes/" ++ (kind_text volume.kind ++ (codes "/" ++ volume.name))

-- self.src or self.name
abbrev pub src_or : Option Text → Text → Text
src_or none name = name
src_or (some src) name = if is_empty src then name else src

-- AppVolume.in_bundle
unfoldable in_bundle : AppVolume → Text
in_bundle volume = codes "$app/" ++ src_or volume.src volume.name

pub record BoundVolume : Type 0 where
  pub volume : AppVolume
  pub guest_path : Text

pub record AppRoute : Type 0 where
  pub route_name : Text
  pub run_unit_name : Text
  pub host_port : HostPort
  pub container_port : ℕ
  pub proto : Proto
  pub private : Bool
  pub scheme : Scheme
  pub desc : Text

abbrev pub primary_route_name : Text
primary_route_name = codes "main"

-- AppRoute.subdomain
unfoldable pub subdomain_of : AppRoute → Text → Text
subdomain_of route app_subdomain =
    if route.route_name == primary_route_name
    then app_subdomain
    else route.route_name ++ (codes "-" ++ app_subdomain)

-- AppRoute.needs_allocation
unfoldable pub needs_allocation : AppRoute → Bool
needs_allocation route = elim route.host_port [ assign ↦ true | fixed port ↦ false ]

pub record AppRunUnit : Type 0 where
  pub hostname : Text
  pub image : Text
  pub command : Option (List Text)
  pub environment : Dict Text Text
  pub volumes : Dict Text BoundVolume
  pub routes : Dict Text AppRoute
  pub labels : Dict Text Text
  pub restart : Bool
  pub shell : List Text
  pub healthcheck : Option (List Text)
  pub connections : List Text
  pub compose_extra : Dict Text Json

pub record ComposeWarning : Type 0 where
  pub run_unit : Text
  pub options : Dict Text Json

pub record AppCommand : Type 0 where
  pub name : Text
  pub cmd : Text
  pub run_unit : Text
  pub desc : Text

pub record AppSpec : Type 0 where
  pub app : Text
  pub manifest : Manifest
  pub run_units : Dict Text AppRunUnit
  pub routes : Dict Text AppRoute
  pub config : Dict Text AppConfig
  pub volumes : Dict Text AppVolume
  pub commands : Dict Text AppCommand

-- _COMPOSE_ALLOWED_KEYS of kelso/lib/manifest.py
abbrev compose_allowed_keys : List Text
compose_allowed_keys =
    codes "depends_on"
    ∷ codes "stop_grace_period"
    ∷ codes "stop_signal"
    ∷ codes "init"
    ∷ codes "pull_policy"
    ∷ codes "platform"
    ∷ codes "profiles"
    ∷ codes "deploy"
    ∷ codes "cpus"
    ∷ codes "cpu_shares"
    ∷ codes "cpu_period"
    ∷ codes "cpu_quota"
    ∷ codes "mem_limit"
    ∷ codes "mem_reservation"
    ∷ codes "memswap_limit"
    ∷ codes "shm_size"
    ∷ codes "oom_score_adj"
    ∷ codes "pids_limit"
    ∷ codes "ulimits"
    ∷ codes "user"
    ∷ codes "working_dir"
    ∷ codes "entrypoint"
    ∷ codes "read_only"
    ∷ codes "tmpfs"
    ∷ codes "tty"
    ∷ codes "stdin_open"
    ∷ codes "dns"
    ∷ codes "dns_search"
    ∷ codes "extra_hosts"
    ∷ codes "expose"
    ∷ codes "logging"
    ∷ codes "labels_file"
    ∷ []

-- k: compose[k], of a key that is there
unfoldable pub item_of : Dict Text Json → Text → Dict Text Json
unfolding get
item_of compose k = elim (get compose k) [ none ↦ [] | some v ↦ (k, v) ∷ [] ]

-- unlisted_compose_options of kelso/lib/manifest.py
unfoldable pub unlisted_compose_options : Dict Text Json → Dict Text Json
unfolding item_of sorted keys gather
unlisted_compose_options compose =
    gather (item_of compose)
      (keep (λ (k : Text). not (contains compose_allowed_keys k)) (sorted (keys compose)))

unfoldable unit_warnings : Text × AppRunUnit → List ComposeWarning
unfolding unlisted_compose_options
unit_warnings (name, unit) = elim (unlisted_compose_options unit.compose_extra) [
  | [] ↦ []
  | o ∷ os ↦ record { run_unit = name; options = o ∷ os } ∷ []
]

-- AppSpec.compose_warnings
unfoldable pub compose_warnings : AppSpec → List ComposeWarning
unfolding unit_warnings gather
compose_warnings spec = gather unit_warnings spec.run_units
