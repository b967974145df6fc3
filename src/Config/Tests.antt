-- ===== src/Config/Tests.antt =====
-- Providers of a route, as a person may write them: kelso/lib/config.py.
use kelso.Common.{false, [], ◌∷◌, eq_nat, eq_list, contains, ◌≡◌, refl}
use kelso.Common.Result.{ok, err}
use kelso.Common.Text.{codes, split, strip, lstrip}
use kelso.Config.Providers.{
  none_combined, listed_twice, none_tag, count, any_repeated, check_tags, parse_route_providers,
  format_route_providers,
}
use kelso.Config.RoundTrip.{parse_route_providers_lem}

parses_two : parse_route_providers (codes " web, home ") ≡ ok (codes "web" ∷ (codes "home" ∷ []))
unfolding parse_route_providers check_tags any_repeated count split strip lstrip
parses_two = refl

refuses_none : parse_route_providers (codes "web,none") ≡ err none_combined
unfolding parse_route_providers check_tags any_repeated count split strip lstrip
refuses_none = refl

refuses_twice : parse_route_providers (codes "web,web") ≡ err listed_twice
unfolding parse_route_providers check_tags any_repeated count split strip lstrip
refuses_twice = refl

parse_route_providers_example :
    (parse_route_providers (format_route_providers (codes "web" ∷ (codes "home" ∷ [])))
      ≡ ok (codes "web" ∷ (codes "home" ∷ [])))
    × (contains (codes "web" ∷ (codes "home" ∷ [])) none_tag ≡ false)
    × (contains (codes "web" ∷ (codes "home" ∷ [])) [] ≡ false)
    × (any_repeated (codes "web" ∷ (codes "home" ∷ [])) ≡ false)
parse_route_providers_example =
    parse_route_providers_lem (codes " web, home ") (codes "web" ∷ (codes "home" ∷ [])) parses_two
