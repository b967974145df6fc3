-- ===== src/Updown/Groups.antt =====
-- start_groups of kelso/lib/lifecycle/updown.py. The loaded apps and their options are given.
use kelso.Common.{
  ℕ, Option, none, some, List, [], ◌∷◌, ◌++◌, if◌then◌else◌, ltb, eq_nat, eq_list, contains,
}
use kelso.Common.Result.{Result, ok, ◌>>=◌}
use kelso.Common.Text.{Text}
use kelso.Common.Dict.{Dict, get, put}

-- The `int` of an app's start_order raised, as the option is no number.
pub data Error : Type 0 where
  bad_start_order : Error

-- A box as `start_groups` finds it: the loaded apps, in the order of their ids, and each app's
-- start_order.
pub record Box : Type 0 where
  pub loaded : List Text
  pub start_order : Text → Result Error ℕ

abbrev pub Groups : Type 0
Groups = Dict ℕ (List Text)

-- groups.setdefault(order, []), where a missing group has no apps
abbrev pub apps_of : Option (List Text) → List Text
apps_of none = []
apps_of (some apps) = apps

-- groups.setdefault(order, []).append(app)
unfoldable pub add_app : ℕ → Text → Groups → Groups
unfolding get put
add_app order app groups = put groups order (apps_of (get groups order) ++ app ∷ [])

-- the loop of start_groups
unfoldable pub group_apps :
    (Text → Result Error ℕ) → List ℕ → List Text → Groups → Result Error Groups
unfolding add_app
group_apps start_order which [] groups = ok groups
group_apps start_order which (app ∷ apps) groups = start_order app >>= λ order.
    group_apps start_order which apps
      (if contains which order then add_app order app groups else groups)

-- sorted(groups.items()), where no order stands twice
unfoldable pub insert_group : ℕ × List Text → Groups → Groups
insert_group (order, apps) [] = (order, apps) ∷ []
insert_group (order, apps) ((n, others) ∷ groups) =
    let later = insert_group (order, apps) groups in
    if ltb order n then (order, apps) ∷ ((n, others) ∷ groups) else (n, others) ∷ later

unfoldable pub sort_groups : Groups → Groups
unfolding insert_group
sort_groups [] = []
sort_groups ((order, apps) ∷ groups) = insert_group (order, apps) (sort_groups groups)

unfoldable pub start_groups : Box → List ℕ → Result Error Groups
unfolding group_apps sort_groups
start_groups box which =
    group_apps box.start_order which box.loaded [] >>= λ groups. ok (sort_groups groups)
