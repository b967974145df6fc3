-- ===== src/Updown/Tests.antt =====
-- start_groups of kelso/lib/lifecycle/updown.py at a concrete box.
use kelso.Common.{
  ℕ, ◌+◌, ◌*◌, arith, true, false, none, [], ◌∷◌, if◌then◌else◌, ◌==◌, eq_nat, eq_list, contains,
  keep, ◌≡◌, refl, some, List,
}
use kelso.Common.Result.{ok}
use kelso.Common.Text.{codes}
use kelso.Common.Dict.{get, put}
use kelso.Updown.Groups.{
  Box, Groups, apps_of, add_app, group_apps, insert_group, sort_groups, start_groups,
}
use kelso.Updown.Order.{has_order}
use kelso.Updown.Run.{
  Outside, Event, left_stopped, already_running, started, stopped, unready, up_app, waiting,
  up_group, up_groups, up_which, down_app, down_groups, down_which,
}
use kelso.Updown.Acts.{acted, apps_in, starts, to_start, up_which_lem}
use kelso.Updown.Wait.{
  Poll, wait_ready, pending_at, ready, unit_ready, health, has_part, Waited, wait_ready_lem,
}
use kelso.Updown.Sorted.{Ascending, start_groups_lem}

-- a proxy in group 4, and two apps in group 6
abbrev small_box : Box
small_box = record {
  loaded = codes "a" ∷ (codes "proxy" ∷ (codes "b" ∷ []));
  start_order = λ app. if app == codes "proxy" then ok 4 else ok 6;
}

abbrev in_groups : Groups
in_groups = (4, codes "proxy" ∷ []) ∷ ((6, codes "a" ∷ (codes "b" ∷ [])) ∷ [])

groups_of_box : start_groups small_box (4 ∷ 6 ∷ []) ≡ ok in_groups
unfolding start_groups group_apps add_app sort_groups insert_group get put
groups_of_box = refl

start_groups_example :
    Ascending in_groups
    × ((n : ℕ)
        → contains (4 ∷ 6 ∷ []) n ≡ true
        → apps_of (get in_groups n) ≡ keep (has_order small_box.start_order n) small_box.loaded)
    × ((n : ℕ) → contains (4 ∷ 6 ∷ []) n ≡ false → get in_groups n ≡ none)
start_groups_example = start_groups_lem small_box (4 ∷ 6 ∷ []) in_groups groups_of_box

-- "a" was stopped on purpose, and the proxy does not run
abbrev outside : Outside
outside = record {
  last_action = λ app. if app == codes "a" then some (codes "stopped") else some (codes "started");
  is_running = λ app. app == codes "b";
  lock_fails = λ app. false;
  start_fails = λ app. false;
  stop_fails = λ app. false;
  not_ready = λ apps. apps;
}

abbrev went_up : List Event
went_up =
    started (codes "proxy")
    ∷ (unready (codes "proxy")
        ∷ (left_stopped (codes "a") ∷ (already_running (codes "b") ∷ (unready (codes "b") ∷ []))))

goes_up : up_which small_box outside (4 ∷ 6 ∷ []) true false ≡ ok went_up
unfolding up_which up_groups up_group up_app waiting start_groups group_apps add_app sort_groups
    insert_group get put
goes_up = refl

goes_down : down_which small_box outside (4 ∷ 6 ∷ []) ≡ ok (stopped (codes "b") ∷ [])
unfolding down_which down_groups down_app start_groups group_apps add_app sort_groups insert_group
    get put
goes_down = refl

up_which_example :
    (groups : Groups) × (start_groups small_box (4 ∷ 6 ∷ []) ≡ ok groups)
    × (acted went_up ≡ apps_in groups)
    × (starts went_up ≡ keep (to_start outside false) (apps_in groups))
up_which_example = up_which_lem small_box outside (4 ∷ 6 ∷ []) true false went_up goes_up

-- a unit that runs with no healthcheck, polled every second; the wait is 12 seconds
abbrev second_polls : ℕ → Poll
second_polls n = record {
  started_at = n * 1000;
  units = (codes "a", record { state = codes "running"; status = codes "Up 2 minutes" } ∷ []) ∷ [];
  decided_at = n * 1000;
}

settles : wait_ready 12001 second_polls 12000 (codes "a" ∷ []) 0 ≡ some []
unfolding wait_ready pending_at ready unit_ready health has_part get
settles = refl

wait_ready_example :
    Waited second_polls 12000
      (codes "a" ∷ [])
      (wait_ready (12000 + 1) second_polls 12000 (codes "a" ∷ []) 0)
wait_ready_example = wait_ready_lem second_polls 12000 (codes "a" ∷ []) (λ k. omega arith)
