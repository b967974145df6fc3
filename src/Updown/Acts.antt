-- ===== src/Updown/Acts.antt =====
-- Which apps `up` and `down` of kelso/lib/lifecycle/updown.py act on, and in which order.
use kelso.Common.{
  ℕ, ◌≡◌, refl, sym, ap, ◌∙◌, arith, Bool, true, false, not, ◌&&◌, ◌||◌, List, [], ◌∷◌, ◌++◌, map,
  if◌then◌else◌, eq_nat, eq_list, keep, append-nil,
}
use mathlib.Core.List.{reverse}
use kelso.Common.Result.{ok, ok_of_bind}
use kelso.Common.Text.{Text, codes}
use kelso.Updown.Groups.{Box, Groups, start_groups}
use kelso.Updown.Run.{
  Outside, Event, left_stopped, left_alone, already_running, started, start_failed, stopped,
  stop_failed, unready, last_is, up_app, waiting, up_group, up_groups, up_which, down_app,
  down_groups, down_which,
}

-- The apps that events are about, in order, those that are not ready aside.
abbrev pub acted : List Event → List Text
acted [] = []
acted (left_stopped app ∷ events) = app ∷ acted events
acted (left_alone app ∷ events) = app ∷ acted events
acted (already_running app ∷ events) = app ∷ acted events
acted (started app ∷ events) = app ∷ acted events
acted (start_failed app ∷ events) = app ∷ acted events
acted (stopped app ∷ events) = app ∷ acted events
acted (stop_failed app ∷ events) = app ∷ acted events
acted (unready app ∷ events) = acted events

abbrev pub apps_in : Groups → List Text
apps_in [] = []
apps_in ((order, apps) ∷ groups) = apps ++ apps_in groups

abbrev pub starts : List Event → List Text
starts [] = []
starts (started app ∷ events) = app ∷ starts events
starts (other ∷ events) = starts events

-- An app that `up` starts.
abbrev pub to_start : Outside → Bool → Text → Bool
to_start o resume app =
    (not (last_is o app (codes "stopped")) && (not resume || last_is o app (codes "started")))
    && (not (o.lock_fails app) && (not (o.is_running app) && not (o.start_fails app)))

acted-append : (a b : List Event) → acted (a ++ b) ≡ acted a ++ acted b
acted-append [] b = refl
acted-append (left_stopped app ∷ a) b = ap (λ (l : List Text). app ∷ l) (acted-append a b)
acted-append (left_alone app ∷ a) b = ap (λ (l : List Text). app ∷ l) (acted-append a b)
acted-append (already_running app ∷ a) b = ap (λ (l : List Text). app ∷ l) (acted-append a b)
acted-append (started app ∷ a) b = ap (λ (l : List Text). app ∷ l) (acted-append a b)
acted-append (start_failed app ∷ a) b = ap (λ (l : List Text). app ∷ l) (acted-append a b)
acted-append (stopped app ∷ a) b = ap (λ (l : List Text). app ∷ l) (acted-append a b)
acted-append (stop_failed app ∷ a) b = ap (λ (l : List Text). app ∷ l) (acted-append a b)
acted-append (unready app ∷ a) b = acted-append a b

acted-unready : (apps : List Text) → acted (map unready apps) ≡ []
acted-unready [] = refl
acted-unready (app ∷ apps) = acted-unready apps

module _ (o : Outside) (resume : Bool) where
  acted-up_app : (apps : List Text) → acted (map (up_app o resume) apps) ≡ apps
  unfolding up_app
  acted-up_app [] = refl
  acted-up_app (app ∷ apps) = ground (arith, acted-up_app apps)

  starts-up_app :
      (apps : List Text) → starts (map (up_app o resume) apps) ≡ keep (to_start o resume) apps
  unfolding up_app
  starts-up_app [] = refl
  starts-up_app (app ∷ apps) = ground (arith, starts-up_app apps)

starts-append : (a b : List Event) → starts (a ++ b) ≡ starts a ++ starts b
starts-append [] b = refl
starts-append (left_stopped app ∷ a) b = starts-append a b
starts-append (left_alone app ∷ a) b = starts-append a b
starts-append (already_running app ∷ a) b = starts-append a b
starts-append (started app ∷ a) b = ap (λ (l : List Text). app ∷ l) (starts-append a b)
starts-append (start_failed app ∷ a) b = starts-append a b
starts-append (stopped app ∷ a) b = starts-append a b
starts-append (stop_failed app ∷ a) b = starts-append a b
starts-append (unready app ∷ a) b = starts-append a b

starts-unready : (apps : List Text) → starts (map unready apps) ≡ []
starts-unready [] = refl
starts-unready (app ∷ apps) = starts-unready apps

keep-append : (p : Text → Bool) (a b : List Text) → keep p (a ++ b) ≡ keep p a ++ keep p b
keep-append p [] b = refl
keep-append p (x ∷ a) b = ground (arith, keep-append p a b)

joined : (a b c d : List Text) → a ≡ c → b ≡ d → a ++ b ≡ c ++ d
joined a b c d e f = cc (e, f)

joined_nil : (a b c : List Text) → a ≡ c → b ≡ [] → a ++ b ≡ c
joined_nil a b c e f = rw (e, f) (append-nil c)

module _ (o : Outside) (wait resume : Bool) where
  late : List Text → List Event
  late apps = if wait then map unready (o.not_ready (waiting (map (up_app o resume) apps))) else []

  acted-late : (apps : List Text) → acted (late apps) ≡ []
  unfolding late
  acted-late apps =
      elim wait
        as (λ b.
          acted (if b then map unready (o.not_ready (waiting (map (up_app o resume) apps))) else [])
          ≡ []) [
            | true ↦ acted-unready (o.not_ready (waiting (map (up_app o resume) apps)))
            | false ↦ refl
          ]

  starts-late : (apps : List Text) → starts (late apps) ≡ []
  unfolding late
  starts-late apps =
      elim wait
        as (λ b.
          starts
            (if b then map unready (o.not_ready (waiting (map (up_app o resume) apps))) else [])
          ≡ []) [
            | true ↦ starts-unready (o.not_ready (waiting (map (up_app o resume) apps)))
            | false ↦ refl
          ]

  up_groups_lem :
      (groups : Groups)
      → (acted (up_groups o wait resume groups) ≡ apps_in groups)
        × (starts (up_groups o wait resume groups) ≡ keep (to_start o resume) (apps_in groups))
  unfolding up_groups up_group late
  up_groups_lem [] = (refl, refl)
  up_groups_lem ((order, apps) ∷ groups) =
      let rest = up_groups_lem groups in
      let here : List Event = map (up_app o resume) apps in
      (
        acted-append (here ++ late apps) (up_groups o wait resume groups)
            ∙ joined (acted (here ++ late apps)) (acted (up_groups o wait resume groups)) apps
                (apps_in groups)
                (acted-append here (late apps)
                  ∙ joined_nil (acted here) (acted (late apps)) apps (acted-up_app o resume apps)
                      (acted-late apps))
                rest.0,
        starts-append (here ++ late apps) (up_groups o wait resume groups)
            ∙ (joined (starts (here ++ late apps)) (starts (up_groups o wait resume groups))
                  (keep (to_start o resume) apps) (keep (to_start o resume) (apps_in groups))
                  (starts-append here (late apps)
                    ∙ joined_nil (starts here) (starts (late apps)) (keep (to_start o resume) apps)
                        (starts-up_app o resume apps) (starts-late apps))
                  rest.1
                ∙ sym (keep-append (to_start o resume) apps (apps_in groups))),
      )

-- `_up`, if it returns, comes to one event for each app of the groups, group by group in their
-- order. The apps that it starts are, in this order, those that were not stopped on purpose, that
-- were started last if it is to resume, that do not run, and whose lock and start do not raise.
pub up_which_lem :
    (box : Box) (o : Outside) (which : List ℕ) (wait resume : Bool) (events : List Event)
    → up_which box o which wait resume ≡ ok events
    → (groups : Groups) × (start_groups box which ≡ ok groups)
      × (acted events ≡ apps_in groups)
      × (starts events ≡ keep (to_start o resume) (apps_in groups))
unfolding up_which
up_which_lem box o which wait resume events h =
    let made = ok_of_bind (start_groups box which) _ h in
    let e : up_groups o wait resume made.0 ≡ events = cc made.2 in
    let k = up_groups_lem o wait resume made.0 in
    (made.0, made.1, ap acted (sym e) ∙ k.0, ap starts (sym e) ∙ k.1)

acted-down_app : (o : Outside) (apps : List Text) → acted (map (down_app o) apps) ≡ apps
unfolding down_app
acted-down_app o [] = refl
acted-down_app o (app ∷ apps) = ground (arith, acted-down_app o apps)

acted-down_groups :
    (o : Outside) (groups : Groups)
    → acted (down_groups o groups) ≡ keep o.is_running (apps_in groups)
unfolding down_groups
acted-down_groups o [] = refl
acted-down_groups o ((order, apps) ∷ groups) =
    acted-append (map (down_app o) (keep o.is_running apps)) (down_groups o groups)
    ∙ (joined (acted (map (down_app o) (keep o.is_running apps))) (acted (down_groups o groups))
          (keep o.is_running apps) (keep o.is_running (apps_in groups))
          (acted-down_app o (keep o.is_running apps)) (acted-down_groups o groups)
        ∙ sym (keep-append o.is_running apps (apps_in groups)))

-- `_down`, if it returns, comes to one event for each app of the groups that runs, highest group
-- first and each group in the order in which it is started.
pub down_which_lem :
    (box : Box) (o : Outside) (which : List ℕ) (events : List Event)
    → down_which box o which ≡ ok events
    → (groups : Groups) × (start_groups box which ≡ ok groups)
      × (acted events ≡ keep o.is_running (apps_in (reverse groups)))
unfolding down_which
down_which_lem box o which events h =
    let made = ok_of_bind (start_groups box which) _ h in
    let e : down_groups o (reverse made.0) ≡ events = cc made.2 in
    (made.0, made.1, ap acted (sym e) ∙ acted-down_groups o (reverse made.0))
