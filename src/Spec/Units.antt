-- ===== src/Spec/Units.antt =====
-- The run units that _resolve_run_units of kelso/lib/spec.py makes.
use kelso.Common.{
  ◌≡◌, refl, sym, ◌∙◌, ap, true, false, Option, none, some, [], ◌∷◌, map, eq_nat, eq_list, All,
  contains,
}
use kelso.Common.Result.{Result, ok, err, Pairwise, traverse-Pairwise}
use kelso.Common.Text.{Text}
use kelso.Common.Dict.{Dict, get, has, keys}
use kelso.Common.Dict.Laws.{contains-get}
use kelso.Common.Sort.{All-map}
use kelso.Manifest.Entries.{Manifest, RunEntry, RouteEntry, VolumeEntry, check_port}
use kelso.Manifest.Port.{PortSpec, parse}
use kelso.Spec.Defs.{AppSpec, AppRunUnit, AppRoute, AppVolume, BoundVolume, AppCommand}
use kelso.Spec.Build.{bind_volume, app_route, app_unit, build_route, build_unit, build_volume}

-- a mount of a unit, as it is declared and as it is bound
pub record IsMount (volumes : Dict Text AppVolume) (mount : Text × Text)
    (bound : Text × BoundVolume) : Type 0 where
  pub same_name : bound.0 ≡ mount.0
  pub same_path : (bound.1).guest_path ≡ mount.1
  pub declared : get volumes mount.0 ≡ some (bound.1).volume

-- a route, as it is declared and as it is in the specification
pub record IsRoute (unit : Text) (entry : Text × RouteEntry) (route : Text × AppRoute)
    : Type 0 where
  pub spec : PortSpec
  pub port_read : parse (entry.1).port ≡ ok spec
  pub same_name : route.0 ≡ entry.0
  pub named : (route.1).route_name ≡ entry.0
  pub of_unit : (route.1).run_unit_name ≡ unit
  pub same_container_port : (route.1).container_port ≡ spec.container_port
  pub same_host_port : (route.1).host_port ≡ spec.host_port

pub record IsUnit (volumes : Dict Text AppVolume) (entry : Text × RunEntry)
    (unit : Text × AppRunUnit) : Type 0 where
  pub same_name : unit.0 ≡ entry.0
  pub mounts : Pairwise (IsMount volumes) (entry.1).volumes (unit.1).volumes
  pub routes : Pairwise (IsRoute entry.0) (entry.1).routes (unit.1).routes

-- What the specification of an app says of its manifest.
pub record IsSpec (m : Manifest) (spec : AppSpec) : Type 0 where
  pub units : Pairwise (IsUnit spec.volumes) m.run spec.run_units
  -- the routes of the app are those of its units, none is lost
  pub routes_there :
      All
        (λ (unit : Text × AppRunUnit).
          All (λ (route : Text × AppRoute). get spec.routes route.0 ≡ some route.1) (unit.1).routes)
        spec.run_units
  -- the main unit, and the units that the commands name
  pub main_there : has spec.run_units (m.app).main ≡ true
  pub units_there :
      All
        (λ (command : Text × AppCommand). has spec.run_units (command.1).run_unit ≡ true)
        spec.commands

pub get_of_has :
    {V : Type 0} (d : Dict Text V) (k : Text) → has d k ≡ true → (v : V) × (get d k ≡ some v)
unfolding has
get_of_has {V = V} d k h = there (get d k) h
  where
    there : (o : Option V) → elim o [ none ↦ false | some v ↦ true ] ≡ true → (v : V) × (o ≡ some v)
    there none n = cc n
    there (some v) n = (v, refl)

pub keys_volumes :
    (entries : Dict Text VolumeEntry) → keys (map build_volume entries) ≡ keys entries
unfolding keys build_volume
keys_volumes [] = refl
keys_volumes ((j, v) ∷ entries) = ap (λ ks. j ∷ ks) (keys_volumes entries)

pub has-keys :
    {V W : Type 0} (d : Dict Text V) (e : Dict Text W) (k : Text)
    → keys d ≡ keys e
    → has d k ≡ has e k
has-keys d e k same = sym (contains-get d k) ∙ (ap (λ ks. contains ks k) same ∙ contains-get e k)

mount_lem :
    (volumes : Dict Text AppVolume) (mount : Text × Text)
    → has volumes mount.0 ≡ true
    → (bound : Text × BoundVolume) × (bind_volume volumes mount ≡ ok bound)
      × IsMount volumes mount bound
unfolding bind_volume
mount_lem volumes (name, path) h =
    let volume = get_of_has volumes name h in
    (
      (name, record { volume = volume.0; guest_path = path }),
      rw (volume.1, bind_volume) refl,
      record { same_name = refl; same_path = refl; declared = volume.1 },
    )

parse_of_check :
    (entry : RouteEntry) → check_port entry ≡ true → (s : PortSpec) × (parse entry.port ≡ ok s)
unfolding check_port
parse_of_check entry h = parses (parse entry.port) h
  where
    parses :
        {E : Type 0} (r : Result E PortSpec)
        → elim r [ ok spec ↦ true | err e ↦ false ] ≡ true
        → (s : PortSpec) × (r ≡ ok s)
    parses (ok s) k = (s, refl)
    parses (err e) k = cc k

route_lem :
    (unit : Text) (entry : Text × RouteEntry)
    → check_port entry.1 ≡ true
    → (route : Text × AppRoute) × (build_route unit entry ≡ ok route) × IsRoute unit entry route
unfolding build_route
route_lem unit (name, entry) h =
    let s = parse_of_check entry h in
    (
      (name, app_route unit name entry s.0),
      rw (s.1, build_route) refl,
      record {
        spec = s.0;
        port_read = s.1;
        same_name = refl;
        named = refl;
        of_unit = refl;
        same_container_port = refl;
        same_host_port = refl;
      },
    )

pub unit_lem :
    (app version : Text) (volumes : Dict Text AppVolume) (entry : Text × RunEntry)
    → All (λ (mount : Text × Text). has volumes mount.0 ≡ true) (entry.1).volumes
    → All (λ (route : Text × RouteEntry). check_port route.1 ≡ true) (entry.1).routes
    → (unit : Text × AppRunUnit) × (build_unit app version volumes entry ≡ ok unit)
      × IsUnit volumes entry unit
unfolding build_unit app_unit
unit_lem app version volumes (name, entry) hm hr =
    let bound =
      traverse-Pairwise (IsMount volumes) (bind_volume volumes) entry.volumes
        (All-map entry.volumes (mount_lem volumes) hm) in
    let routes =
      traverse-Pairwise (IsRoute name) (build_route name) entry.routes
        (All-map entry.routes (route_lem name) hr) in
    (
      (name, app_unit app version name entry bound.0 routes.0),
      rw (bound.1, routes.1, build_unit) refl,
      record { same_name = refl; mounts = bound.2; routes = routes.2 },
    )
