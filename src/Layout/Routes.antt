-- ===== src/Layout/Routes.antt =====
-- _load_routes of kelso/lib/run_layout.py, and the addresses of routes.
use kelso.Common.{
  Bool, true, false, not, Option, none, some, List, [], ◌∷◌, ◌++◌, map, keep, if◌then◌else◌, ◌==◌,
  eq_nat, eq_list,
}
use kelso.Common.Text.{Text, codes, is_empty}
use kelso.Common.Dict.{Dict, get, has, keys}
use kelso.Common.Sort.{gather, sorted, when}
use kelso.Manifest.Entries.{Scheme, http, https}
use kelso.Manifest.Port.{HostPort, assign, fixed, Proto, tcp, udp}
use kelso.Spec.Defs.{AppRoute, needs_allocation}
use kelso.Layout.Data.{
  Issue, route_not_allocated, route_not_declared, port_not_allocated, route_differs, name_differs,
  unit_differs, host_port_differs, container_port_differs, proto_differs, scheme_differs,
  AssignedRoute, primary_provider,
}
use kelso.Layout.Machine.{Machine}

abbrev same_proto : Proto → Proto → Bool
same_proto tcp tcp = true
same_proto udp udp = true
same_proto tcp udp = false
same_proto udp tcp = false

abbrev same_scheme : Scheme → Scheme → Bool
same_scheme http http = true
same_scheme https https = true
same_scheme http https = false
same_scheme https http = false

abbrev same_host_port : HostPort → HostPort → Bool
same_host_port assign assign = true
same_host_port (fixed a) (fixed b) = a == b
same_host_port assign (fixed b) = false
same_host_port (fixed a) assign = false

abbrev not_allocated : HostPort → Bool
not_allocated assign = true
not_allocated (fixed port) = false

-- _compare_route
unfoldable compare_route : AppRoute → AssignedRoute → List Issue
unfolding needs_allocation
compare_route spec conf =
    let n = spec.route_name in
    when (not (n == conf.name)) (route_differs name_differs n)
    ++ (when (not (spec.run_unit_name == conf.run_unit_name)) (route_differs unit_differs n)
        ++ ((if needs_allocation spec
              then when (not_allocated conf.host_port) (port_not_allocated n)
              else when (not (same_host_port spec.host_port conf.host_port))
                  (route_differs host_port_differs n))
            ++ (when (not (spec.container_port == conf.container_port))
                  (route_differs container_port_differs n)
                ++ (when (not (same_proto spec.proto conf.proto)) (route_differs proto_differs n)
                    ++ when (not (same_scheme spec.scheme conf.scheme))
                        (route_differs scheme_differs n)))))

-- a route on file, where the manifest has it
unfoldable pub matched_route :
    Text → AssignedRoute → Option AppRoute → Dict Text AssignedRoute × List Issue
unfolding compare_route
matched_route name conf none = ([], [])
matched_route name conf (some spec) = ((name, conf) ∷ [], compare_route spec conf)

unfoldable pub loaded_route :
    Dict Text AppRoute → Text × AssignedRoute → Dict Text AssignedRoute × List Issue
unfolding get matched_route
loaded_route routes (name, conf) = matched_route name conf (get routes name)

-- _load_routes
unfoldable pub load_routes : Machine → Dict Text AppRoute → Dict Text AssignedRoute × List Issue
unfolding loaded_route gather has keys sorted
load_routes m routes = (
  gather (λ (item : Text × AssignedRoute). (loaded_route routes item).0) m.found_routes,
  map route_not_allocated
        (sorted (keep (λ (name : Text). not (has m.found_routes name)) (keys routes)))
      ++ (map route_not_declared
            (sorted (keep (λ (name : Text). not (has routes name)) (keys m.found_routes)))
          ++ gather (λ (item : Text × AssignedRoute). (loaded_route routes item).1) m.found_routes),
)

-- _route_urls, for one route
unfoldable pub route_url : Machine → Text × AssignedRoute → Dict Text Text
unfolding primary_provider
route_url m (name, route) =
    if is_empty route.subdomain
    then []
    else (
      name,
      codes "https://"
          ++ (route.subdomain ++ (codes "." ++ m.provider_domain (primary_provider route))),
    )
      ∷ []

-- provider_route_urls
unfoldable pub provider_route_urls : Machine → AssignedRoute → Dict Text Text
provider_route_urls m route =
    if is_empty route.subdomain
    then []
    else map
        (λ (tag : Text).
          (tag, codes "https://" ++ (route.subdomain ++ (codes "." ++ m.provider_domain tag))))
        route.providers
