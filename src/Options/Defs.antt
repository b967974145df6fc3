-- ===== src/Options/Defs.antt =====
-- The app options of kelso/lib/options.py and what their values may be.
use kelso.Common.{
  ℕ, Bool, ◌&&◌, Option, none, some, List, [], ◌∷◌, if◌then◌else◌, ◌==◌, eq_nat, eq_list, leb,
}
use kelso.Common.Result.{Result, ok, err, ◌>>=◌}
use kelso.Common.Text.{Text, codes, isdigit, int}
use kelso.Names.Defs.{validate_identifier, stem}

pub data Error : Type 0 where
  bad_subdomain not_whole out_of_range : Error

-- value.lstrip("-")
unfoldable pub lstrip_minus : Text → Text
lstrip_minus [] = []
lstrip_minus (c ∷ s) = let rest = lstrip_minus s in if c == b'-' then rest else c ∷ s

-- int(value), for a value whose digits passed the test: it is below zero with one minus in front,
-- and more of them are a ValueError.
pub data Whole : Type 0 where
  whole : ℕ → Whole
  minus : ℕ → Whole

unfoldable pub to_int : Text → Result Error Whole
to_int value = if isdigit value then ok (whole (int value)) else elim value [
  | [] ↦ err not_whole
  | c ∷ s ↦ if (c == b'-') && isdigit s then ok (minus (int s)) else err not_whole
]

-- _subdomain
unfoldable pub check_subdomain : Text → Result Error (Unit {0})
unfolding validate_identifier
check_subdomain value = elim (validate_identifier value) [
  | ok same ↦ ok tt
  | err e ↦ err bad_subdomain
]

-- number < low or (high is not None and number > high), for bounds from zero on
unfoldable pub in_bounds : ℕ → Option ℕ → Whole → Bool
in_bounds low high (minus n) = (n == 0) && (low == 0)
in_bounds low none (whole n) = leb low n
in_bounds low (some high) (whole n) = leb low n && leb n high

-- the check that _int_between makes
unfoldable pub int_between : ℕ → Option ℕ → Text → Result Error (Unit {0})
unfolding lstrip_minus to_int in_bounds
int_between low high value =
    if isdigit (lstrip_minus value)
    then to_int value >>= (λ n. if in_bounds low high n then ok tt else err out_of_range)
    else err not_whole

pub data OptionName : Type 0 where
  subdomain start_order : OptionName

-- APP_OPTIONS.get(name)
unfoldable pub option_named : Text → Option OptionName
option_named name =
    if name == codes "subdomain"
    then some subdomain
    else if name == codes "start_order"
    then some start_order
    else none

abbrev pub option_names : List Text
option_names = codes "subdomain" ∷ (codes "start_order" ∷ [])

abbrev pub name_of : OptionName → Text
name_of subdomain = codes "subdomain"
name_of start_order = codes "start_order"

-- AppOption.validate
unfoldable pub validate : OptionName → Text → Result Error (Unit {0})
unfolding check_subdomain int_between
validate subdomain value = check_subdomain value
validate start_order value = int_between 0 (some 9) value

-- AppOption.default
unfoldable pub default_of : OptionName → Text → Text
unfolding stem
default_of subdomain app = stem app
default_of start_order app = codes "6"

-- validate_option
unfoldable validate_option : Text → Text → Result Error (Unit {0})
unfolding option_named validate
validate_option name value = elim (option_named name) [
  | none ↦ ok tt
  | some option ↦ validate option value
]

abbrev group_name_of : ℕ → Option Text
group_name_of order =
    if order == 0
    then some (codes "init")
    else if order == 2
    then some (codes "support services")
    else if order == 4
    then some (codes "routing & connections")
    else if order == 6
    then some (codes "applications")
    else if order == 8
    then some (codes "lazy applications")
    else none

-- AppOption.desc
abbrev pub desc_of : OptionName → Text
desc_of subdomain = codes "DNS label this app's routes are published under"
desc_of start_order =
    codes
      "Start group, 0 to 9: 0 init, 2 support services, 4 routing & connections, 6 applications, 8 lazy applications. Group 0 runs while kelsod does; `kelso up` starts the rest in order"

-- APP_OPTIONS.values()
abbrev pub app_options : List OptionName
app_options = subdomain ∷ (start_order ∷ [])
