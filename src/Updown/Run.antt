-- ===== src/Updown/Run.antt =====
-- _up and _down of kelso/lib/lifecycle/updown.py, as the events that they come to, in order. What
-- the activity log, the locks and docker say of each app is given.
use kelso.Common.{
  ℕ, Bool, true, false, not, ◌&&◌, ◌||◌, Option, none, some, List, [], ◌∷◌, ◌++◌, map,
  if◌then◌else◌, ◌==◌, eq_nat, eq_list, keep,
}
use mathlib.Core.List.{reverse}
use kelso.Common.Result.{Result, ok, ◌>>=◌}
use kelso.Common.Text.{Text, codes}
use kelso.Updown.Groups.{Error, Box, Groups, start_groups}

-- Of each app: its last action, whether it runs, and whether its lock, its start and its stop
-- raise a ValueError or a RuntimeError. Of a group's apps: those that are not ready in time.
pub record Outside : Type 0 where
  pub last_action : Text → Option Text
  pub is_running : Text → Bool
  pub lock_fails : Text → Bool
  pub start_fails : Text → Bool
  pub stop_fails : Text → Bool
  pub not_ready : List Text → List Text

pub data Event : Type 0 where
  left_stopped left_alone already_running started start_failed stopped stop_failed unready :
      Text → Event

abbrev pub last_is : Outside → Text → Text → Bool
last_is o app action = elim (o.last_action app) [ none ↦ false | some last ↦ last == action ]

-- one app of the loop of _up
unfoldable pub up_app : Outside → Bool → Text → Event
up_app o resume app =
    if last_is o app (codes "stopped")
    then left_stopped app
    else if resume && not (last_is o app (codes "started"))
    then left_alone app
    else if o.lock_fails app
    then start_failed app
    else if o.is_running app
    then already_running app
    else if o.start_fails app
    then start_failed app
    else started app

-- the apps in `waiting`
unfoldable pub waiting : List Event → List Text
waiting [] = []
waiting (already_running app ∷ events) = app ∷ waiting events
waiting (started app ∷ events) = app ∷ waiting events
waiting (other ∷ events) = waiting events

-- one group of the loop of _up
unfoldable pub up_group : Outside → Bool → Bool → List Text → List Event
unfolding up_app waiting
up_group o wait resume apps =
    let events = map (up_app o resume) apps in
    events ++ (if wait then map unready (o.not_ready (waiting events)) else [])

unfoldable pub up_groups : Outside → Bool → Bool → Groups → List Event
unfolding up_group
up_groups o wait resume [] = []
up_groups o wait resume ((order, apps) ∷ groups) =
    up_group o wait resume apps ++ up_groups o wait resume groups

-- _up
unfoldable pub up_which : Box → Outside → List ℕ → Bool → Bool → Result Error (List Event)
unfolding up_groups
up_which box o which wait resume =
    start_groups box which >>= λ groups. ok (up_groups o wait resume groups)

-- one app of the loop of _down
unfoldable pub down_app : Outside → Text → Event
down_app o app = if o.lock_fails app || o.stop_fails app then stop_failed app else stopped app

unfoldable pub down_groups : Outside → Groups → List Event
unfolding down_app
down_groups o [] = []
down_groups o ((order, apps) ∷ groups) =
    map (down_app o) (keep o.is_running apps) ++ down_groups o groups

-- _down
unfoldable pub down_which : Box → Outside → List ℕ → Result Error (List Event)
unfolding down_groups
down_which box o which = start_groups box which >>= λ groups. ok (down_groups o (reverse groups))

abbrev pub box_groups : List ℕ
box_groups = 1 ∷ (2 ∷ (3 ∷ (4 ∷ (5 ∷ (6 ∷ (7 ∷ (8 ∷ (9 ∷ []))))))))

abbrev pub kelsod_groups : List ℕ
kelsod_groups = 0 ∷ []

unfoldable pub up : Box → Outside → Bool → Result Error (List Event)
unfolding up_which
up box o resume = up_which box o box_groups true resume

unfoldable pub down : Box → Outside → Result Error (List Event)
unfolding down_which
down box o = down_which box o box_groups

unfoldable pub start_kelsod_group : Box → Outside → Result Error (List Event)
unfolding up_which
start_kelsod_group box o = up_which box o kelsod_groups false false

unfoldable pub stop_kelsod_group : Box → Outside → Result Error (List Event)
unfolding down_which
stop_kelsod_group box o = down_which box o kelsod_groups
