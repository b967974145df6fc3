-- ===== src/Layout/Project.antt =====
-- An app of which nothing is wrong has a compose project.
use kelso.Common.{
  ℕ, true, some, [], ◌∷◌, ◌==◌, eq_nat, eq_list, ◌≡◌, refl, subst, All, inl, inr, Bool-cases, ==→eq,
}
use kelso.Common.Result.{ok, traverse, traverse-Pairwise, bind_returns}
use kelso.Common.Text.{Text}
use kelso.Common.Dict.{Dict, get, has}
use kelso.Common.Sort.{All-map}
use kelso.Manifest.Entries.{Manifest}
use kelso.Spec.Defs.{AppSpec, AppRoute, AppRunUnit}
use kelso.Spec.Units.{IsSpec, get_of_has}
use kelso.Layout.Data.{AppRunData, AssignedRoute}
use kelso.Layout.Machine.{Machine}
use kelso.Layout.Resolve.{load_run_data}
use kelso.Layout.Environment.{route_of, env_substitutions}
use kelso.Layout.Compose.{Service, make_service, make_compose_dict}
use kelso.Layout.Resolved.{load_run_data_lem}

routes_read :
    (run_data : AppRunData) (routes : Dict Text AppRoute)
    → All (λ (item : Text × AppRoute). has run_data.routes item.0 ≡ true) routes
    → All
        (λ (item : Text × AppRoute).
          (assigned : Text × AssignedRoute) × (route_of run_data item ≡ ok assigned)
          × (assigned.0 ≡ item.0))
        routes
unfolding route_of
routes_read run_data [] h = tt
routes_read run_data ((name, route) ∷ routes) h = (
  (let found = get_of_has run_data.routes name h.0 in
      ((name, found.0), rw (found.1, route_of) refl, refl)),
  routes_read run_data routes h.1,
)

-- a route that a unit names is one of the app, and so it has its ports
unit_allocated :
    (spec : AppSpec) (run_data : AppRunData) (routes : Dict Text AppRoute)
    → All (λ (item : Text × AppRoute). has run_data.routes item.0 ≡ true) spec.routes
    → All (λ (route : Text × AppRoute). get spec.routes route.0 ≡ some route.1) routes
    → All (λ (item : Text × AppRoute). has run_data.routes item.0 ≡ true) routes
unfolding get
unit_allocated spec run_data routes h k =
    All-map routes (λ route there. found spec.routes h route.0 route.1 there) k
  where
    found :
        (d : Dict Text AppRoute)
        → All (λ (item : Text × AppRoute). has run_data.routes item.0 ≡ true) d
        → (name : Text) (route : AppRoute) → get d name ≡ some route
        → has run_data.routes name ≡ true
    found [] all name route there = cc there
    found ((j, r) ∷ d) all name route there = elim (Bool-cases (j == name)) [
      | inl same ↦ subst (λ (x : Text). has run_data.routes x ≡ true) (==→eq j name same) all.0
      | inr other ↦ found d all.1 name route (rw other at there)
    ]

service_lem :
    (decimal : ℕ → Text) (spec : AppSpec) (run_data : AppRunData) (unit : Text × AppRunUnit)
    → All (λ (item : Text × AppRoute). has run_data.routes item.0 ≡ true) (unit.1).routes
    → (service : Text × Service) × (make_service decimal spec run_data unit ≡ ok service)
unfolding make_service env_substitutions
service_lem decimal spec run_data (name, unit) h =
    let read =
      traverse-Pairwise
        (λ (item : Text × AppRoute) (assigned : Text × AssignedRoute). assigned.0 ≡ item.0)
        (route_of run_data) unit.routes (routes_read run_data unit.routes h) in
    let mapping =
      bind_returns (traverse (route_of run_data) unit.routes) _ read.0 read.1 (_, refl) in
    bind_returns _ _ read.0 read.1
      (bind_returns (env_substitutions decimal spec unit run_data) _ mapping.0 mapping.1 (_, refl))

-- An app whose manifest built, and of which load_run_data finds no issue, has a compose project: no
-- port of a route of a unit is missing.
pub make_compose_dict_lem :
    (decimal : ℕ → Text) (m : Machine) (run_path : Text) (manifest : Manifest) (spec : AppSpec)
    → IsSpec manifest spec
    → (load_run_data m run_path spec).issues ≡ []
    → (project : Text × Dict Text Service) × (make_compose_dict decimal spec
          (load_run_data m run_path spec)
        ≡ ok project)
unfolding make_compose_dict
make_compose_dict_lem decimal m run_path manifest spec built h =
    let run_data = load_run_data m run_path spec in
    let ports = (load_run_data_lem m run_path spec h).allocated in
    let services =
      traverse-Pairwise (λ (unit : Text × AppRunUnit) (service : Text × Service). Unit {0})
        (make_service decimal spec run_data) spec.run_units
        (All-map spec.run_units
          (λ unit there.
            let service =
              service_lem decimal spec run_data unit
                (unit_allocated spec run_data (unit.1).routes ports there) in
            (service.0, service.1, tt))
          built.routes_there) in
    bind_returns (traverse (make_service decimal spec run_data) spec.run_units) _ services.0
      services.1 (_, refl)
