-- ===== src/Options/Tests.antt =====
-- App options as kelso/lib/options.py checks them.
use kelso.Common.{eq_nat, eq_list, ◌≡◌, refl}
use kelso.Common.Result.{ok, err}
use kelso.Common.Text.{codes}
use kelso.Options.Defs.{
  out_of_range, not_whole, bad_subdomain, lstrip_minus, to_int, check_subdomain, in_bounds,
  int_between, subdomain, start_order, validate,
}
use kelso.Names.Defs.{validate_identifier, is_identifier}

takes_four : validate start_order (codes "4") ≡ ok tt
unfolding validate int_between lstrip_minus to_int in_bounds
takes_four = refl

refuses_ten : validate start_order (codes "10") ≡ err out_of_range
unfolding validate int_between lstrip_minus to_int in_bounds
refuses_ten = refl

refuses_two_minuses : validate start_order (codes "--4") ≡ err not_whole
unfolding validate int_between lstrip_minus to_int in_bounds
refuses_two_minuses = refl

refuses_dot : validate subdomain (codes "a.b") ≡ err bad_subdomain
unfolding validate check_subdomain validate_identifier is_identifier
refuses_dot = refl
