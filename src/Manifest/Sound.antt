-- ===== src/Manifest/Sound.antt =====
-- What a manifest is that parse_manifest of kelso/lib/manifest.py returned.
use kelso.Common.{
  ℕ, ◌≡◌, refl, sym, ◌∙◌, ap, true, not, Option, none, some, List, [], ◌∷◌, eq_nat, eq_list, keep,
  All, subst,
}
use kelso.Common.Result.{ok, err, ◌>>=◌, ok_of_bind}
use kelso.Common.Text.{Text}
use kelso.Common.Dict.{has, keys}
use kelso.Common.Sort.{when, gather, append_nil, when_nil, gather_nil, All-map, sorted_nil}
use kelso.Manifest.Entries.{
  Manifest, RunEntry, RouteEntry, bad_url, bad_port, check_port, check_url,
}
use kelso.Manifest.Checks.{validate_config}
use kelso.Manifest.Validate.{
  ConfigError, unreadable, validate_manifest, parse_manifest, entry_errors, run_errors, refuse,
  invalid_entries, problems, name_errors,
}
use kelso.Manifest.Routes.{validate_routes_lem}
use kelso.Manifest.Valid.{
  IsManifest, when-not, map_nil, mounts_lem, connections_lem, commands_lem, crons_lem, host_lem,
}

routes_lem :
    (entry : RunEntry)
    → run_errors entry ≡ []
    → All (λ (route : Text × RouteEntry). check_port route.1 ≡ true) entry.routes
unfolding run_errors
routes_lem entry h =
    let a = append_nil (name_errors (keys entry.volumes)) _ h in
    let b = append_nil (name_errors (keys entry.env)) _ a.1 in
    let c = append_nil (name_errors (keys entry.routes)) _ b.1 in
    let d = append_nil (name_errors entry.connections) _ c.1 in
    let e =
      append_nil
        (gather (λ (route : Text × RouteEntry). when (not (check_port route.1)) bad_port)
          entry.routes)
        _ d.1 in
    All-map entry.routes (λ route l. when-not (check_port route.1) bad_port l)
      (gather_nil _ entry.routes e.0)

ports_lem :
    (m : Manifest)
    → entry_errors m ≡ []
    → All
        (λ (unit : Text × RunEntry).
          All (λ (route : Text × RouteEntry). check_port route.1 ≡ true) (unit.1).routes)
        m.run
unfolding entry_errors
ports_lem m h =
    All-map m.run (λ unit k. routes_lem unit.1 k)
      (gather_nil (λ (item : Text × RunEntry). run_errors item.1) m.run units)
  where
    units : gather (λ (item : Text × RunEntry). run_errors item.1) m.run ≡ []
    units =
        let a = append_nil (when (not (check_url (m.app).url)) bad_url) _ h in
        let b = append_nil (name_errors ((m.app).main ∷ [])) _ a.1 in
        let c = append_nil (name_errors (keys m.run)) _ b.1 in
        (append_nil (gather (λ (item : Text × RunEntry). run_errors item.1) m.run) _ c.1).0

refuse_ok :
    {E A : Type 0} (error : List E → ConfigError) (es : List E) (a b : A)
    → refuse error es a ≡ ok b
    → (es ≡ []) × (a ≡ b)
refuse_ok error [] a b h = (refl, cc h)
refuse_ok error (e ∷ es) a b h = cc h

sections_lem :
    (m : Manifest) → validate_config m ≡ [] → keep (has m.adv_config) (keys m.config) ≡ []
unfolding validate_config
sections_lem m h = sorted_nil _ (map_nil _ _ (append_nil _ _ h).0)

checked_lem :
    (app : Text) (m : Manifest)
    → entry_errors m ≡ []
    → validate_manifest app m ≡ []
    → IsManifest app m
unfolding validate_manifest
checked_lem app m entries h =
    let a = append_nil _ _ h in
    let b = append_nil _ _ a.1 in
    let c = append_nil _ _ b.1 in
    let d = append_nil _ _ c.1 in
    let e = append_nil _ _ d.1 in
    let f = append_nil _ _ e.1 in
    let g = append_nil _ _ f.1 in
    let i = append_nil _ _ g.1 in
    let j = append_nil _ _ i.1 in
    record {
      names_it = when_nil _ _ a.0;
      has_main = when-not _ _ b.0;
      sections_apart = sections_lem m c.0;
      mounts = mounts_lem m e.0;
      connections_there = connections_lem m j.1;
      routes_once = validate_routes_lem m f.0;
      host_routes = host_lem m f.0;
      ports = ports_lem m entries;
      units_there = commands_lem m i.0;
      crons = crons_lem m j.0;
    }

parsed_lem :
    (read : Option Manifest) (app : Text) (m : Manifest)
    → elim read [
      | none ↦ err unreadable
      | some m ↦
          refuse invalid_entries (entry_errors m) m
          >>= (λ checked. refuse problems (validate_manifest app checked) checked)
    ]
      ≡ ok m
    → (read ≡ some m) × IsManifest app m
parsed_lem none app m h = cc h
parsed_lem (some n) app m h =
    let first = ok_of_bind (refuse invalid_entries (entry_errors n) n) _ h in
    let entries = refuse_ok invalid_entries (entry_errors n) n first.0 first.1 in
    let second = refuse_ok problems (validate_manifest app first.0) first.0 m first.2 in
    let same : n ≡ m = entries.1 ∙ second.1 in
    (
      ap some same,
      subst (IsManifest app) same (
          checked_lem app n entries.0
            (subst (λ x. validate_manifest app x ≡ []) (sym entries.1) second.0)),
    )

-- A manifest that parse_manifest returns is the one that was read, and its sections fit together:
-- the main unit, the units of the commands, the commands of the cron entries, the volumes and the
-- connections are declared, no name of configuration or of a route is declared twice, nothing is
-- mounted where the normalised path is kelso's, a manifest of network mode host has no route,
-- every port of a route parses, and every cron entry has a time after the start of 2000.
pub parse_manifest_lem :
    (sections : List ℕ → Option Manifest) (bytes : List ℕ) (app : Text) (m : Manifest)
    → parse_manifest sections bytes app ≡ ok m
    → (sections bytes ≡ some m) × IsManifest app m
unfolding parse_manifest
parse_manifest_lem sections bytes app m h = parsed_lem (sections bytes) app m h
