-- ===== src/Updown/Wait.antt =====
-- _wait_ready of kelso/lib/lifecycle/updown.py: the polls of a group until it is ready.
use kelso.Common.{
  ℕ, zero, suc, ◌+◌, ◌≤◌, ◌≡◌, refl, arith, Bool, true, false, not, ◌&&◌, ◌||◌, Option, none, some,
  List, [], ◌∷◌, inl, inr, map, if◌then◌else◌, leb, ◌==◌, eq_nat, eq_list, all, keep, Bool-cases,
}
use kelso.Common.Text.{Text, codes, is_empty, starts_with}
use kelso.Common.Dict.{Dict, get}

-- KelsoRunUnitStatus of kelso/lib/docker.py, as far as it is read here
pub record RunUnitStatus : Type 0 where
  pub state : Text
  pub status : Text

-- part in s
unfoldable pub has_part : Text → Text → Bool
has_part [] part = starts_with [] part
has_part (c ∷ s) part = starts_with (c ∷ s) part || has_part s part

-- s.lower(), of ASCII
abbrev pub lower : Text → Text
lower = map (λ (c : ℕ). if leb b'A' c && leb c b'Z' then c + 32 else c)

-- KelsoRunUnitStatus.finished
unfoldable pub exited_cleanly : RunUnitStatus → Bool
exited_cleanly unit =
    (lower unit.state == codes "exited") && starts_with unit.status (codes "Exited (0)")

-- KelsoRunUnitStatus.health
unfoldable pub health : RunUnitStatus → Text
unfolding has_part
health unit =
    if has_part unit.status (codes "(health: starting)")
    then codes "starting"
    else if has_part unit.status (codes "(unhealthy)")
    then codes "unhealthy"
    else if has_part unit.status (codes "(healthy)")
    then codes "healthy"
    else []

-- _unit_ready
unfoldable pub unit_ready : Bool → RunUnitStatus → Bool
unfolding exited_cleanly health
unit_ready settled unit =
    if unit.state == codes "running"
    then (health unit == codes "healthy") || (is_empty (health unit) && settled)
    else exited_cleanly unit

-- _ready
unfoldable pub ready : Bool → List RunUnitStatus → Bool
unfolding unit_ready
ready settled [] = false
ready settled (unit ∷ units) = all (unit_ready settled) (unit ∷ units)

-- One round: the milliseconds since the wait began when the round starts, what docker then says of
-- the units of each app, and the milliseconds when the round decides.
pub record Poll : Type 0 where
  pub started_at : ℕ
  pub units : Dict Text (List RunUnitStatus)
  pub decided_at : ℕ

abbrev pub settle_ms : ℕ
settle_ms = 10000

abbrev or_no_units : Option (List RunUnitStatus) → List RunUnitStatus
or_no_units none = []
or_no_units (some units) = units

-- the apps that a round finds not ready
unfoldable pub pending_at : Poll → List Text → List Text
unfolding get ready
pending_at poll =
    keep (λ (app : Text).
      not (ready (leb settle_ms poll.started_at) (or_no_units (get poll.units app))))

abbrev none_pending : List Text → Bool
none_pending [] = true
none_pending (app ∷ apps) = false

-- _wait_ready, from its round `n` on: the apps that are still not ready
unfoldable pub wait_ready : ℕ → (ℕ → Poll) → ℕ → List Text → ℕ → Option (List Text)
unfolding pending_at
wait_ready zero polls wait apps n = none
wait_ready (suc fuel) polls wait apps n =
    elim (none_pending (pending_at (polls n) apps) || leb wait (polls n).decided_at) [
      | true ↦ some (pending_at (polls n) apps)
      | false ↦ wait_ready fuel polls wait apps (n + 1)
    ]

-- What the wait comes to: the apps that its last round finds not ready, where either there are none
-- or the time is up.
pub record Waited (polls : ℕ → Poll) (wait : ℕ) (apps : List Text) (result : Option (List Text))
    : Type 0 where
  pub last : ℕ
  pub returned : result ≡ some (pending_at (polls last) apps)
  pub over :
      (none_pending (pending_at (polls last) apps) || leb wait (polls last).decided_at) ≡ true

wait_ready_from :
    (fuel : ℕ) (polls : ℕ → Poll) (wait : ℕ) (apps : List Text) (n : ℕ)
    → ((k : ℕ) → k ≤ (polls k).decided_at)
    → 1 ≤ fuel
    → wait + 1 ≤ n + fuel
    → Waited polls wait apps (wait_ready fuel polls wait apps n)
unfolding wait_ready
wait_ready_from zero polls wait apps n advance more enough = absurd (omega (arith, more))
wait_ready_from (suc fuel) polls wait apps n advance more enough =
    elim (Bool-cases (none_pending (pending_at (polls n) apps) || leb wait (polls n).decided_at)) [
      | inl e ↦ rw (e, wait_ready) (record { last = n; returned = refl; over = e })
      | inr e ↦
          let short : (polls n).decided_at + 1 ≤ wait = ground (arith, e) in
          rw (e, wait_ready)
            (wait_ready_from fuel polls wait apps (n + 1) advance
              (omega (arith, short, advance n, enough)) (omega (arith, enough)))
    ]

-- A wait comes to an end, where the clock goes on by a millisecond at least with each round (the code
-- sleeps for a second). It returns the apps that docker did not show as ready in the last round:
-- none, or else the time is up.
pub wait_ready_lem :
    (polls : ℕ → Poll) (wait : ℕ) (apps : List Text)
    → ((k : ℕ) → k ≤ (polls k).decided_at)
    → Waited polls wait apps (wait_ready (wait + 1) polls wait apps 0)
wait_ready_lem polls wait apps advance =
    wait_ready_from (wait + 1) polls wait apps 0 advance (omega arith) (omega arith)
