-- ===== src/Manifest/Parses.antt =====
-- kelso/lib/manifest.py: the checks at concrete manifests.
use kelso.Common.{eq_nat, eq_list, ◌≡◌, refl, false, some, ◌∷◌, []}
use kelso.Common.Result.{ok}
use kelso.Common.Sort.{insert_sorted, sorted, gather}
use kelso.Common.Text.{text_le, codes, split, words, words_from, partition}
use kelso.Common.Dict.{get, has, put, keys}
use kelso.Names.Defs.{is_identifier, validate_identifier}
use kelso.Options.Defs.{
  option_named, validate, check_subdomain, int_between, lstrip_minus, to_int, in_bounds,
}
use kelso.Cron.Calendar.{
  is_leap, days_in_month, days_in_months, days_before_year, toordinal, weekday, stamp, next_day,
  add_days, next_hour, next_minute,
}
use kelso.Cron.Field.{
  parse_field, parse_items, parse_item, parse_step, parse_span, number, range, range_from,
}
use kelso.Cron.Schedule.{
  parse_parts, day_matches, first_of_next_month, next_midnight, top_of_next_hour, look, search_loop,
  next_after,
}
use kelso.Manifest.Port.{port_number, parse_proto, parse_host_port}
use kelso.Manifest.Entries.{
  Manifest, check_url, check_src, check_port, check_compose_keys, check_kind,
}
use kelso.Manifest.Words.{
  dotted, id_at, braced_at, placeholder, placeholders, distinct, get_identifiers, quoting_after,
  can_split, initial_slashes, resolve_components, components, normpath,
}
use kelso.Manifest.Checks.{
  shared_route, default_problems, option_problems, validate_config, validate_commands,
  unit_connections, validate_connections, has_next, cron_problems, validate_cron, validate_volumes,
  is_reserved, mount_problems, validate_run_volumes,
}
use kelso.Manifest.Validate.{
  add_owner, add_owners, route_owners, validate_routes, property_names, known_keys, connection_keys,
  reference_problems, unit_references, validate_env_refs, validate_manifest, name_errors,
  run_errors, entry_errors, parse_manifest,
}
use kelso.Manifest.Valid.{IsManifest}
use kelso.Manifest.Sound.{parse_manifest_lem}
use kelso.Manifest.Paths.{is_reserved-normpath, is_reserved_slashes, first_is}
use kelso.Manifest.Samples.{shop, read_shop, main_unit}

pub shop_parses : parse_manifest read_shop [] (codes "shop") ≡ ok shop
unfolding text_le insert_sorted sorted gather split words words_from partition get has put keys
    is_identifier option_named validate check_subdomain validate_identifier int_between lstrip_minus
    to_int in_bounds is_leap days_in_month days_in_months days_before_year toordinal weekday stamp
    next_day add_days next_hour next_minute parse_field parse_items parse_item parse_step parse_span
    number range range_from kelso.Cron.Schedule.parse parse_parts day_matches first_of_next_month
    next_midnight top_of_next_hour look search_loop next_after port_number parse_proto
    parse_host_port kelso.Manifest.Port.parse check_url check_src check_port check_compose_keys
    check_kind dotted id_at braced_at placeholder placeholders distinct get_identifiers
    quoting_after can_split initial_slashes resolve_components components normpath default_problems
    option_problems validate_config validate_commands unit_connections validate_connections has_next
    cron_problems validate_cron validate_volumes is_reserved mount_problems validate_run_volumes
    add_owner add_owners route_owners validate_routes property_names known_keys connection_keys
    reference_problems unit_references validate_env_refs validate_manifest name_errors run_errors
    entry_errors parse_manifest
shop_parses = refl

parse_manifest_example : (read_shop [] ≡ some shop) × IsManifest (codes "shop") shop
parse_manifest_example = parse_manifest_lem read_shop [] (codes "shop") shop shop_parses

is_reserved-normpath_example :
    is_reserved (normpath (codes "/srv/../kelso/run"))
    ≡ first_is (codes "kelso") (components (codes "/srv/../kelso/run"))
unfolding initial_slashes
is_reserved-normpath_example = is_reserved-normpath (codes "/srv/../kelso/run") refl

resolves_up : components (codes "/srv/../kelso/run") ≡ codes "kelso" ∷ codes "run" ∷ []
unfolding components resolve_components split
resolves_up = refl

is_reserved_slashes_example : is_reserved (normpath (codes "//kelso/run")) ≡ false
unfolding initial_slashes
is_reserved_slashes_example = is_reserved_slashes (codes "//kelso/run") refl

-- two units that declare the same route
abbrev twice : Manifest
twice = record shop { run = (codes "main", main_unit) ∷ (codes "side", main_unit) ∷ [] }

refuses_shared :
    validate_routes twice ≡ shared_route (codes "main") (codes "main" ∷ codes "side" ∷ []) ∷ []
unfolding validate_routes route_owners add_owners add_owner gather get put keys
refuses_shared = refl

finds_identifiers :
    get_identifiers (codes "${a.b.c} $$x $y-z. ${a.b.c} ${1} $") ≡ codes "y-z" ∷ codes "a.b.c" ∷ []
unfolding get_identifiers placeholders placeholder braced_at id_at dotted distinct
finds_identifiers = refl

leaves_open : can_split (codes "it's") ≡ false
unfolding can_split quoting_after
leaves_open = refl
