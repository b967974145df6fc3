-- ===== src/Spec/Built.antt =====
-- The AppSpec that _build of kelso/lib/spec.py makes of a checked manifest.
use mathlib.Core.Path.{ap₂}
use kelso.Common.{
  ◌≤◌, ◌≡◌, refl, sym, ◌∙◌, ap, subst, Bool, true, false, some, List, [], ◌∷◌, ◌++◌, map, eq_nat,
  eq_list, All,
}
use kelso.Common.Result.{ok, ◌>>=◌, Pairwise, done, more, traverse-Pairwise}
use kelso.Common.Text.{Text}
use kelso.Common.Dict.{Dict, get, has, keys}
use kelso.Common.Sort.{gather, All-map}
use kelso.Manifest.Entries.{Manifest, RunEntry, RouteEntry, CommandEntry, check_port}
use kelso.Manifest.Routes.{times, all_routes}
use kelso.Manifest.Words.{normpath}
use kelso.Manifest.Checks.{is_reserved}
use kelso.Manifest.Valid.{IsManifest}
use kelso.Spec.Defs.{AppSpec, AppRunUnit, AppRoute, AppVolume, AppCommand}
use kelso.Spec.Build.{build_unit, build_volume, build_command, unit_routes, app_spec, build}
use kelso.Spec.Build.Items.{get-put_all}
use kelso.Spec.Units.{IsRoute, IsUnit, IsSpec, keys_volumes, has-keys, unit_lem}

pub keys-append : {V : Type 0} (d e : Dict Text V) → keys (d ++ e) ≡ keys d ++ keys e
unfolding keys
keys-append [] e = refl
keys-append ((k, v) ∷ d) e = ap (λ ks. k ∷ ks) (keys-append d e)

same_keys :
    {unit : Text} {entries : Dict Text RouteEntry} {routes : Dict Text AppRoute}
    → Pairwise (IsRoute unit) entries routes
    → keys routes ≡ keys entries
unfolding keys
same_keys done = refl
same_keys (more r rest) = ap₂ (λ (a : Text) (b : List Text). a ∷ b) r.same_name (same_keys rest)

same_routes :
    {volumes : Dict Text AppVolume} {run : Dict Text RunEntry} {units : Dict Text AppRunUnit}
    → Pairwise (IsUnit volumes) run units
    → keys (gather (λ (item : Text × AppRunUnit). (item.1).routes) units) ≡ all_routes run
unfolding keys all_routes gather
same_routes done = refl
same_routes (more {x = x} {y = y} {xs = xs} {ys = ys} u rest) =
    keys-append (y.1).routes (gather (λ (item : Text × AppRunUnit). (item.1).routes) ys)
    ∙ ap₂ (λ (a b : List Text). a ++ b) (same_keys u.routes) (same_routes rest)

same_units :
    {volumes : Dict Text AppVolume} {run : Dict Text RunEntry} {units : Dict Text AppRunUnit}
    → Pairwise (IsUnit volumes) run units
    → keys units ≡ keys run
unfolding keys
same_units done = refl
same_units (more u rest) = ap₂ (λ (a : Text) (b : List Text). a ∷ b) u.same_name (same_units rest)

All-gather :
    {A B : Type 0} (P : B → Type 0) (f : A → List B) (xs : List A)
    → All P (gather f xs)
    → All (λ x. All P (f x)) xs
unfolding gather
All-gather P f [] h = tt
All-gather {B = B} P f (x ∷ xs) h =
    let parts = apart (f x) (gather f xs) h in (parts.0, All-gather P f xs parts.1)
  where
    apart : (ys zs : List B) → All P (ys ++ zs) → All P ys × All P zs
    apart [] zs k = (tt, k)
    apart (y ∷ ys) zs k = let rest = apart ys zs k.1 in ((k.0, rest.0), rest.1)

commands_lem :
    (has_unit : Text → Bool) (commands : Dict Text CommandEntry)
    → All (λ (command : Text × CommandEntry). has_unit (command.1).run_unit ≡ true) commands
    → All
        (λ (command : Text × AppCommand). has_unit (command.1).run_unit ≡ true)
        (map build_command commands)
unfolding build_command
commands_lem has_unit [] h = tt
commands_lem has_unit (c ∷ cs) h = (h.0, commands_lem has_unit cs h.1)

units_lem :
    (app version : Text) (volumes : Dict Text AppVolume) (run : Dict Text RunEntry)
    → All
        (λ (unit : Text × RunEntry).
          All
            (λ (mount : Text × Text).
              (has volumes mount.0 ≡ true) × (is_reserved (normpath mount.1) ≡ false))
            (unit.1).volumes)
        run
    → All
        (λ (unit : Text × RunEntry).
          All (λ (route : Text × RouteEntry). check_port route.1 ≡ true) (unit.1).routes)
        run
    → All
        (λ (entry : Text × RunEntry).
          (unit : Text × AppRunUnit) × (build_unit app version volumes entry ≡ ok unit)
          × IsUnit volumes entry unit)
        run
units_lem app version volumes [] hm hr = tt
units_lem app version volumes (entry ∷ run) hm hr = (
  unit_lem app version volumes entry (All-map (entry.1).volumes (λ mount k. k.0) hm.0) hr.0,
  units_lem app version volumes run hm.1 hr.1,
)

declared_lem :
    (m : Manifest) (run : Dict Text RunEntry)
    → All
        (λ (unit : Text × RunEntry).
          All
            (λ (mount : Text × Text).
              (has m.volumes mount.0 ≡ true) × (is_reserved (normpath mount.1) ≡ false))
            (unit.1).volumes)
        run
    → All
        (λ (unit : Text × RunEntry).
          All
            (λ (mount : Text × Text).
              (has (map build_volume m.volumes) mount.0 ≡ true)
              × (is_reserved (normpath mount.1) ≡ false))
            (unit.1).volumes)
        run
declared_lem m run h =
    All-map run
      (λ unit k.
        All-map (unit.1).volumes
          (λ mount l. (
            has-keys (map build_volume m.volumes) m.volumes mount.0 (keys_volumes m.volumes) ∙ l.0,
            l.1,
          ))
          k)
      h

-- A manifest whose sections fit together builds: neither a volume nor a port of a route raises.
-- The specification has the units of the manifest with their mounts and routes, no route of a unit
-- is lost where the routes of the app are gathered, and the main unit and the units of the commands
-- are there.
pub build_lem :
    (m : Manifest) (app : Text)
    → IsManifest app m
    → (spec : AppSpec) × (build m app ≡ ok spec) × IsSpec m spec
unfolding build app_spec unit_routes
build_lem m app valid =
    let volumes = map build_volume m.volumes in
    let units = traverse-Pairwise (IsUnit volumes) (build_unit app (m.app).version volumes) m.run (
      units_lem app (m.app).version volumes m.run (declared_lem m m.run valid.mounts)
        valid.ports) in
    let once =
      subst (λ names. (name : Text) → times name names ≤ 1) (sym (same_routes units.2))
        valid.routes_once in
    (
      app_spec m app units.0,
      ap (λ r. r >>= λ run_units. ok (app_spec m app run_units)) units.1,
      record {
        units = units.2;
        routes_there =
            All-gather
              (λ (route : Text × AppRoute). get (unit_routes units.0) route.0 ≡ some route.1)
              (λ (item : Text × AppRunUnit). (item.1).routes) units.0 (get-put_all [] _ once);
        main_there = has-keys units.0 m.run (m.app).main (same_units units.2) ∙ valid.has_main;
        units_there = commands_lem (has units.0) m.commands (
            All-map m.commands
              (λ command k. has-keys units.0 m.run (command.1).run_unit (same_units units.2) ∙ k)
              valid.units_there);
      },
    )
