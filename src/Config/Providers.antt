-- ===== src/Config/Providers.antt =====
-- parse_route_providers and format_route_providers of kelso/lib/config.py.
use kelso.Common.{
  ℕ, suc, Bool, not, List, [], ◌∷◌, map, if◌then◌else◌, ◌==◌, eq_nat, eq_list, contains, any, ltb,
}
use kelso.Common.Result.{Result, ok, ◌>>◌, require}
use kelso.Common.Text.{Text, codes, is_empty, split, join, strip}

pub data Error : Type 0 where
  none_combined empty_tag listed_twice : Error

abbrev pub none_tag : Text
none_tag = codes "none"

-- tags.count(tag)
unfoldable pub count : List Text → Text → ℕ
count [] tag = 0
count (t ∷ tags) tag = if t == tag then suc (count tags tag) else count tags tag

-- bool({tag for tag in tags if tags.count(tag) > 1})
unfoldable pub any_repeated : List Text → Bool
unfolding count
any_repeated tags = any (λ (tag : Text). ltb 1 (count tags tag)) tags

-- the checks of parse_route_providers
unfoldable pub check_tags : List Text → Result Error (List Text)
unfolding any_repeated
check_tags tags =
    if tags == none_tag ∷ []
    then ok []
    else (require (not (contains tags none_tag)) none_combined
        >> (require (not (contains tags [])) empty_tag
            >> (require (not (any_repeated tags)) listed_twice >> ok tags)))

unfoldable pub parse_route_providers : Text → Result Error (List Text)
unfolding check_tags
parse_route_providers raw = check_tags (map strip (split b',' raw))

unfoldable pub format_route_providers : List Text → Text
unfolding join
format_route_providers tags =
    let joined = join (codes ",") tags in if is_empty joined then none_tag else joined
