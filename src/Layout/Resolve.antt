-- ===== src/Layout/Resolve.antt =====
-- load_run_data of kelso/lib/run_layout.py: what it resolves for an app, with the issues that it finds.
use kelso.Common.{true, Option, none, some, List, [], ◌∷◌, ◌++◌, eq_nat, eq_list}
use kelso.Common.Text.{Text, codes}
use kelso.Common.Dict.{Dict, get}
use kelso.Common.Sort.{gather, when}
use kelso.Store.App.{Setting, unset, setting}
use kelso.Spec.Defs.{AppSpec, primary_route_name}
use kelso.Layout.Data.{AssignedRoute, AppRunData, Mount, primary_provider}
use kelso.Layout.Machine.{Machine, load_config_values, load_connections}
use kelso.Layout.Volumes.{load_volume_links}
use kelso.Layout.Routes.{load_routes, route_url}

-- value or default
abbrev value_or : Setting → Option Text → Option Text
value_or unset default = default
value_or (setting secret []) default = default
value_or (setting secret (c ∷ s)) default = some (c ∷ s)

-- resolved_subdomain, of an app whose configuration has the option
unfoldable resolved_subdomain : Machine → AppSpec → Option Text
unfolding get
resolved_subdomain m spec =
    value_or (m.stored (codes "subdomain"))
      (elim (get spec.config (codes "subdomain")) [ none ↦ none | some option ↦ option.default ])

-- _app_domain
unfoldable pub app_domain : Machine → Dict Text AssignedRoute → Option Text → Option Text
unfolding get primary_provider
app_domain m routes none = none
app_domain m routes (some subdomain) = some (
    subdomain
    ++ (codes "."
        ++ m.provider_domain (elim (get routes primary_route_name) [
          | none ↦ []
          | some route ↦ primary_provider route
        ])))

-- _host_mounts
unfoldable pub host_mounts : Machine → List Mount
host_mounts m =
    when (m.exists (codes "/etc/localtime"))
      (record { source = codes "/etc/localtime"; target = codes "/etc/localtime"; readonly = true })

-- load_run_data
unfoldable pub load_run_data : Machine → Text → AppSpec → AppRunData
unfolding load_config_values load_routes load_volume_links load_connections route_url app_domain
    resolved_subdomain host_mounts gather
load_run_data m run_path spec =
    let config = load_config_values m spec.config in
    let routes = load_routes m spec.routes in
    let volumes = load_volume_links m spec.app run_path spec.volumes in
    let connections = load_connections m spec.manifest.connections in
    record {
      app = spec.app;
      run_path = run_path;
      app_domain = app_domain m routes.0 (resolved_subdomain m spec);
      volume_links = volumes.0;
      config_values = config.0;
      routes = routes.0;
      route_urls = gather (route_url m) routes.0;
      host_mounts = host_mounts m;
      issues = config.1 ++ (routes.1 ++ (volumes.1 ++ connections.1));
      connections = connections.0;
    }
