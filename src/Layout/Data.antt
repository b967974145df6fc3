-- ===== src/Layout/Data.antt =====
-- The parts of AppRunData of kelso/lib/run_layout.py. An issue is what its text is made of, and a
-- path is its text.
use kelso.Common.{
  ℕ, Bool, true, false, not, Option, none, some, List, [], ◌∷◌, map, keep, eq_nat, eq_list,
}
use kelso.Common.Text.{Text, codes}
use kelso.Common.Dict.{Dict, values, put_all}
use kelso.Manifest.Entries.{Scheme}
use kelso.Manifest.Port.{HostPort, Proto}
use kelso.Spec.Defs.{AppConfig, env_name}

-- what a loaded route differs in from the manifest
pub data RouteField : Type 0 where
  name_differs unit_differs host_port_differs container_port_differs proto_differs scheme_differs :
      RouteField

-- ConfigIssue
pub data Issue : Type 0 where
  secret_differs unset_config : (name : Text) → Issue
  missing_connection : (name : Text) → Issue
  unbound_volume unknown_host_volume readonly_host_volume missing_host_path unmounted_host_path :
      (volume : Text) → Issue
  dangling_root missing_volume_path : (volume : Text) → Issue
  route_not_allocated route_not_declared port_not_allocated : (route : Text) → Issue
  route_differs : RouteField → (route : Text) → Issue

-- ConfigIssue.load_blocking
abbrev load_blocking : Issue → Bool
load_blocking (missing_connection name) = true
load_blocking (missing_host_path volume) = true
load_blocking (unmounted_host_path volume) = true
load_blocking (dangling_root volume) = true
load_blocking (secret_differs name) = false
load_blocking (unset_config name) = false
load_blocking (unbound_volume volume) = false
load_blocking (unknown_host_volume volume) = false
load_blocking (readonly_host_volume volume) = false
load_blocking (missing_volume_path volume) = false
load_blocking (route_not_allocated route) = false
load_blocking (route_not_declared route) = false
load_blocking (port_not_allocated route) = false
load_blocking (route_differs part route) = false

-- ConfigIssue.self_healing
abbrev self_healing : Issue → Bool
self_healing (route_not_allocated route) = true
self_healing (route_not_declared route) = true
self_healing (port_not_allocated route) = true
self_healing (route_differs part route) = true
self_healing (secret_differs name) = false
self_healing (unset_config name) = false
self_healing (missing_connection name) = false
self_healing (unbound_volume volume) = false
self_healing (unknown_host_volume volume) = false
self_healing (readonly_host_volume volume) = false
self_healing (missing_host_path volume) = false
self_healing (unmounted_host_path volume) = false
self_healing (dangling_root volume) = false
self_healing (missing_volume_path volume) = false

pub record ResolvedConnection : Type 0 where
  pub kind : Text
  pub host_path : Text
  pub mounted : Text
  pub properties : Dict Text Text

pub record VolumeLink : Type 0 where
  pub source : Text
  pub target : Text
  pub destination : Text
  pub mkdir : Bool

pub record ConfigValue : Type 0 where
  pub setting : AppConfig
  pub value : Option Text

-- ConfigValue.env_val
abbrev pub env_val : ConfigValue → Text
env_val v = elim v.value [ none ↦ [] | some value ↦ value ]

pub record AssignedRoute : Type 0 where
  pub name : Text
  pub subdomain : Text
  pub run_unit_name : Text
  pub host_port : HostPort
  pub container_port : ℕ
  pub proto : Proto
  pub scheme : Scheme
  pub providers : List Text

-- AssignedRoute.primary_provider
unfoldable pub primary_provider : AssignedRoute → Text
primary_provider route = elim route.providers [ [] ↦ codes "none" | tag ∷ tags ↦ tag ]

-- one bind of a compose service, as _mount makes it
pub record Mount : Type 0 where
  pub source : Text
  pub target : Text
  pub readonly : Bool

pub record AppRunData : Type 0 where
  pub app : Text
  pub run_path : Text
  pub app_domain : Option Text
  pub volume_links : Dict Text VolumeLink
  pub config_values : Dict Text ConfigValue
  pub routes : Dict Text AssignedRoute
  pub route_urls : Dict Text Text
  pub host_mounts : List Mount
  pub issues : List Issue
  pub connections : Dict Text ResolvedConnection

-- AppRunData.load_blockers
unfoldable load_blockers : AppRunData → List Issue
load_blockers run_data = keep load_blocking run_data.issues

-- AppRunData.start_blockers
unfoldable start_blockers : AppRunData → List Issue
start_blockers run_data = keep (λ (issue : Issue). not (self_healing issue)) run_data.issues

-- AppRunData.config_env
unfoldable config_env : AppRunData → Dict Text Text
unfolding env_name values put_all
config_env run_data =
    put_all []
      (map (λ (v : ConfigValue). (env_name v.setting, env_val v)) (values run_data.config_values))
