-- ===== src/Manifest/Validate.antt =====
-- _validate_routes, _validate_env_refs, _validate_manifest and parse_manifest of
-- kelso/lib/manifest.py. Reading TOML into the sections is an argument.
use kelso.Common.{
  ℕ, Bool, true, false, not, ◌&&◌, ◌||◌, Option, none, some, List, [], ◌∷◌, ◌++◌, map,
  if◌then◌else◌, ◌==◌, eq_nat, eq_list, ltb, contains, any, length, drop,
}
use kelso.Common.Result.{Result, ok, err, ◌>>=◌}
use kelso.Common.Text.{Text, codes, is_empty, starts_with, partition}
use kelso.Common.Dict.{Dict, get, has, put, keys}
use kelso.Common.Sort.{when, gather, sorted}
use kelso.Names.Defs.{is_identifier}
use kelso.Options.Defs.{option_names}
use kelso.Manifest.Entries.{
  Manifest, RunEntry, RouteEntry, ConnectionEntry, VolumeEntry, CommandEntry, CronEntry,
  NetworkMode, normal, host, EntryError, bad_url, bad_src, bad_port, managed_key, unknown_kind,
  bad_name, nothing_to_run, check_url, check_src, check_port, check_compose_keys, check_kind,
  Healthcheck, script, argv,
}
use kelso.Manifest.Words.{get_identifiers}
use kelso.Manifest.Checks.{
  Problem, other_app, no_main, shared_route, routes_on_host, not_attached, unknown_reference,
  validate_config, validate_volumes, validate_run_volumes, validate_commands, validate_cron,
  validate_connections,
}

abbrev pub or_nothing : Option (List Text) → List Text
or_nothing none = []
or_nothing (some owners) = owners

-- route_owners.setdefault(route, []).append(unit)
unfoldable pub add_owner : Text → Dict Text (List Text) → Text → Dict Text (List Text)
unfolding get put
add_owner unit owners route = put owners route (or_nothing (get owners route) ++ unit ∷ [])

unfoldable pub add_owners : Text → Dict Text (List Text) → List Text → Dict Text (List Text)
unfolding add_owner
add_owners unit owners [] = owners
add_owners unit owners (route ∷ routes) = add_owners unit (add_owner unit owners route) routes

-- route_owners
unfoldable pub route_owners : Dict Text (List Text) → Dict Text RunEntry → Dict Text (List Text)
unfolding add_owners keys
route_owners owners [] = owners
route_owners owners ((unit, entry) ∷ run) =
    route_owners (add_owners unit owners (keys entry.routes)) run

abbrev pub is_on_host : NetworkMode → Bool
is_on_host normal = false
is_on_host host = true

abbrev pub has_items {ℓ} : {A : Type ℓ} → List A → Bool
has_items [] = false
has_items (x ∷ xs) = true

-- _validate_routes
unfoldable pub validate_routes : Manifest → List Problem
unfolding route_owners gather
validate_routes m =
    gather (λ (item : Text × List Text). when (ltb 1 (length item.1)) (shared_route item.0 item.1))
      (route_owners [] m.run)
    ++ when
        (is_on_host (m.app).network_mode
          && any (λ (item : Text × RunEntry). has_items (item.1).routes) m.run)
        routes_on_host

abbrev conn_key_prefix : Text
conn_key_prefix = codes "conn."

-- CONNECTION_KINDS[kind].property_names, of a kind that check_kind lets through
unfoldable pub property_names : Text → List Text
property_names kind =
    if kind == codes "kelso.admin"
    then codes "socket" ∷ []
    else if kind == codes "docker.admin"
    then codes "socket" ∷ codes "host" ∷ []
    else []

abbrev klso_keys : List Text
klso_keys = codes "domain" ∷ (codes "volumes" ∷ (codes "cmd" ∷ (codes "routes" ∷ [])))

-- `known` of _validate_env_refs
unfoldable pub known_keys : Manifest → List Text
unfolding gather keys
known_keys m =
    keys m.config
    ++ (keys m.adv_config
        ++ (option_names
            ++ (map (λ (name : Text). codes "routes." ++ name)
                  (gather (λ (item : Text × RunEntry). keys (item.1).routes) m.run)
                ++ map (λ (key : Text). codes "klso." ++ key) klso_keys)))

unfoldable pub connection_keys : Manifest → Text → List Text
unfolding get property_names
connection_keys m name = elim (get m.connections name) [
  | none ↦ []
  | some connection ↦
      map (λ (prop : Text). conn_key_prefix ++ (name ++ (codes "." ++ prop)))
        (property_names connection.kind)
]

-- s.removeprefix(p)
abbrev removeprefix : Text → Text → Text
removeprefix s p = if starts_with s p then drop (length p) s else s

unfoldable pub reference_problems : RunEntry → List Text → Text → Text → Text → List Problem
unfolding partition
reference_problems entry attached unit variable ref =
    let conn = (partition b'.' (removeprefix ref conn_key_prefix)).before in
    if contains attached ref || not (contains ref b'.')
    then []
    else if starts_with ref conn_key_prefix && not (contains entry.connections conn)
    then not_attached unit variable ref conn ∷ []
    else unknown_reference unit variable ref ∷ []

unfoldable pub unit_references : Manifest → List Text → Text × RunEntry → List Problem
unfolding connection_keys reference_problems get_identifiers gather sorted
unit_references m known (unit, entry) =
    let attached = known ++ gather (connection_keys m) entry.connections in
    gather
      (λ (item : Text × Text).
        gather (reference_problems entry attached unit item.0) (sorted (get_identifiers item.1)))
      entry.env

-- _validate_env_refs
unfoldable pub validate_env_refs : Manifest → List Problem
unfolding known_keys unit_references gather
validate_env_refs m = gather (unit_references m (known_keys m)) m.run

-- whether the manifest names another app
abbrev pub names_other : Option Text → Text → Bool
names_other none app = false
names_other (some id) app = not (id == app)

-- _validate_manifest
unfoldable pub validate_manifest : Text → Manifest → List Problem
unfolding has validate_config validate_volumes validate_run_volumes validate_routes
    validate_env_refs validate_commands validate_cron validate_connections
validate_manifest app m =
    when (names_other (m.app).app_id app) (other_app app)
    ++ (when (not (has m.run (m.app).main)) (no_main (m.app).main)
        ++ (validate_config m
            ++ (validate_volumes m
                ++ (validate_run_volumes m
                    ++ (validate_routes m
                        ++ (validate_env_refs m
                            ++ (validate_commands m
                                ++ (validate_cron m ++ validate_connections m))))))))

-- the names that are not an Identifier
unfoldable pub name_errors : List Text → List EntryError
unfolding gather is_identifier
name_errors names = gather (λ (name : Text). when (not (is_identifier name)) bad_name) names

abbrev is_blank_check : Option Healthcheck → Bool
is_blank_check none = false
is_blank_check (some (script text)) = is_empty text
is_blank_check (some (argv words)) = not (has_items words)

unfoldable pub run_errors : RunEntry → List EntryError
unfolding name_errors gather check_port check_compose_keys keys
run_errors entry =
    name_errors (keys entry.volumes)
    ++ (name_errors (keys entry.env)
        ++ (name_errors (keys entry.routes)
            ++ (name_errors entry.connections
                ++ (gather (λ (item : Text × RouteEntry). when (not (check_port item.1)) bad_port)
                      entry.routes
                    ++ (when (not (has_items entry.shell) || is_blank_check entry.healthcheck)
                          nothing_to_run
                        ++ when (not (check_compose_keys entry)) managed_key)))))

-- what Manifest.model_validate finds wrong within the sections, in the order of its fields
unfoldable pub entry_errors : Manifest → List EntryError
unfolding name_errors gather run_errors check_url check_src check_kind keys
entry_errors m =
    when (not (check_url (m.app).url)) bad_url
    ++ (name_errors ((m.app).main ∷ [])
        ++ (name_errors (keys m.run)
            ++ (gather (λ (item : Text × RunEntry). run_errors item.1) m.run
                ++ (name_errors (keys m.config)
                    ++ (name_errors (keys m.adv_config)
                        ++ (name_errors (keys m.volumes)
                            ++ (gather
                                  (λ (item : Text × VolumeEntry).
                                    when (not (check_src item.1)) bad_src)
                                  m.volumes
                                ++ (name_errors (keys m.commands)
                                    ++ (name_errors (
                                          map (λ (item : Text × CommandEntry). (item.1).run_unit)
                                            m.commands)
                                        ++ (name_errors (keys m.cron)
                                            ++ (name_errors (
                                                  map
                                                    (λ (item : Text × CronEntry). (item.1).command)
                                                    m.cron)
                                                ++ (name_errors (keys m.connections)
                                                    ++ gather
                                                        (λ (item : Text × ConnectionEntry).
                                                          when (not (check_kind item.1))
                                                            unknown_kind)
                                                        m.connections))))))))))))

pub data ConfigError : Type 0 where
  unreadable : ConfigError
  invalid_entries : List EntryError → ConfigError
  problems : List Problem → ConfigError

-- `raise` with the errors, if there are some
abbrev pub refuse {ℓ} :
    {E : Type ℓ} {A : Type 0} → (List E → ConfigError) → List E → A → Result ConfigError A
refuse error [] a = ok a
refuse error (e ∷ es) a = err (error (e ∷ es))

-- parse_manifest, where `sections` reads the TOML of a manifest
unfoldable pub parse_manifest :
    (List ℕ → Option Manifest) → List ℕ → Text → Result ConfigError Manifest
unfolding entry_errors validate_manifest
parse_manifest sections bytes app = elim (sections bytes) [
  | none ↦ err unreadable
  | some m ↦
      refuse invalid_entries (entry_errors m) m
      >>= (λ checked. refuse problems (validate_manifest app checked) checked)
]
