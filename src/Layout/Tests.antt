-- ===== src/Layout/Tests.antt =====
-- kelso/lib/run_layout.py at a concrete machine.
use kelso.Common.{ℕ, true, none, some, List, [], ◌∷◌, eq_nat, eq_list, ◌≡◌, refl, sym, ap, ◌∙◌, inl}
use kelso.Common.Result.{Result, ok, err}
use kelso.Common.Text.{Text, codes}
use kelso.Common.Dict.{Dict}
use kelso.Store.App.{unset}
use kelso.Manifest.Samples.{shop, read_shop}
use kelso.Manifest.Sound.{parse_manifest_lem}
use kelso.Manifest.Parses.{shop_parses}
use kelso.Manifest.Port.{fixed, tcp}
use kelso.Manifest.Entries.{VolumeKind, http}
use kelso.Spec.Defs.{AppSpec, AppConfig, AppRunUnit, config}
use kelso.Spec.Units.{IsSpec}
use kelso.Spec.Build.{build}
use kelso.Spec.Built.{build_lem}
use kelso.Layout.Data.{AppRunData, AssignedRoute, ConfigValue, Issue}
use kelso.Layout.Machine.{Machine}
use kelso.Layout.Resolve.{load_run_data}
use kelso.Layout.Compose.{Service, make_compose_dict}
use kelso.Layout.Project.{make_compose_dict_lem}
use kelso.Layout.Environment.{safe_substitute, shown_environment}
use kelso.Layout.Secrets.{shown_environment_lem, with_values}

abbrev decimal : ℕ → Text
decimal n = codes "80"

abbrev main_route : AssignedRoute
main_route = record {
  name = codes "main";
  subdomain = codes "shop";
  run_unit_name = codes "main";
  host_port = fixed 8080;
  container_port = 80;
  proto = tcp;
  scheme = http;
  providers = codes "web" ∷ [];
}

abbrev machine : Machine
machine = record {
  stored = λ (name : Text). unset;
  binds = [];
  found_routes = (codes "main", main_route) ∷ [];
  host_volumes = [];
  provider_domain = λ (tag : Text). codes "example.org";
  volume_root = λ (kind : VolumeKind). codes "/srv/data";
  dangling_volume_root = λ (kind : VolumeKind). none;
  conn_root = codes "/run/kelso/conn";
  exists = λ (path : Text). true;
  is_mount = λ (path : Text). true;
}

abbrev built_shop : (spec : AppSpec) × (build shop (codes "shop") ≡ ok spec) × IsSpec shop spec
built_shop =
    build_lem shop (codes "shop")
      ((parse_manifest_lem read_shop [] (codes "shop") shop shop_parses).1)

abbrev issues_of : {E : Type 0} → Result E AppSpec → List Issue
issues_of (err e) = []
issues_of (ok spec) = (load_run_data machine (codes "/run/shop") spec).issues

shop_issues : issues_of (build shop (codes "shop")) ≡ []
unfolding load_run_data build
shop_issues = refl

abbrev shop_run : AppRunData
shop_run = load_run_data machine (codes "/run/shop") built_shop.0

shop_resolves : shop_run.issues ≡ []
shop_resolves = sym (ap issues_of built_shop.1) ∙ shop_issues

make_compose_dict_example :
    (project : Text × Dict Text Service) × (make_compose_dict decimal built_shop.0 shop_run
      ≡ ok project)
make_compose_dict_example =
    make_compose_dict_lem decimal machine (codes "/run/shop") shop built_shop.0 built_shop.2
      shop_resolves

leaves_unknown :
    safe_substitute ((codes "a", codes "1") ∷ []) (codes "$a ${a}$$ ${b} $") ≡ codes "1 1$ ${b} $"
unfolding safe_substitute
leaves_unknown = refl

abbrev password : AppConfig
password = record {
  name = codes "password";
  secret = true;
  default = none;
  desc = [];
  section = config;
}

abbrev value : Text → Dict Text ConfigValue
value text = (codes "password", record { setting = password; value = some text }) ∷ []

abbrev one_secret : AppSpec
one_secret = record built_shop.0 { config = (codes "password", password) ∷ [] }

abbrev unit : AppRunUnit
unit = record {
  hostname = codes "shop";
  image = codes "shop:1";
  command = none;
  environment = (codes "KEY", codes "is ${password}") ∷ [];
  volumes = [];
  routes = [];
  labels = [];
  restart = true;
  shell = [];
  healthcheck = none;
  connections = [];
  compose_extra = [];
}

abbrev secret_run : AppRunData
secret_run = with_values shop_run (value (codes "one"))

shown_environment_example :
    shown_environment decimal one_secret unit secret_run
    ≡ shown_environment decimal one_secret unit (with_values secret_run (value (codes "other")))
shown_environment_example =
    shown_environment_lem decimal one_secret unit secret_run (value (codes "other")) (inl refl, tt)
