-- ===== src/Store/Kelso/Ports.antt =====
-- The host port that KelsoStore.next_free_port of kelso/lib/store.py gives.
use kelso.Common.{
  ℕ, zero, suc, ◌+◌, ◌≤◌, ◌<◌, true, false, Option, none, some, List, [], ◌∷◌, if◌then◌else◌, ltb,
  leb, eq_nat, contains, length, ◌≡◌, refl, ap, arith, Bool-cases, inl, inr,
}
use kelso.Common.Result.{Result, ok, err, ◌>>=◌}
use kelso.Common.Text.{codes}
use kelso.Store.Config.{Error, no_port, ConfigStore}
use kelso.Store.Kelso.{port_range_size, first_free, free_port, occupied_ports, next_free_port}

-- How many ports are at or above `port`.
from_port : List ℕ → ℕ → ℕ
from_port [] port = 0
from_port (x ∷ xs) port = if leb port x then suc (from_port xs port) else from_port xs port

from_port-length : (xs : List ℕ) (port : ℕ) → from_port xs port ≤ length xs
unfolding from_port
from_port-length [] port = omega arith
from_port-length (x ∷ xs) port = ground (arith, from_port-length xs port)

from_port_mono : (xs : List ℕ) (port : ℕ) → from_port xs (port + 1) ≤ from_port xs port
unfolding from_port
from_port_mono [] port = omega arith
from_port_mono (x ∷ xs) port = ground (arith, from_port_mono xs port)

-- A port that is occupied is no longer counted behind it.
from_port-less :
    (xs : List ℕ) (port : ℕ) → contains xs port ≡ true → from_port xs (port + 1) < from_port xs port
unfolding from_port
from_port-less [] port h = cc
from_port-less (x ∷ xs) port h = ground (arith, from_port_mono xs port, from_port-less xs port, h)

-- `p` is the first port from `port` on that is not occupied.
pub record IsFirstFree (occupied : List ℕ) (port p : ℕ) : Type 0 where
  pub from : port ≤ p
  pub free : contains occupied p ≡ false
  pub before : (q : ℕ) → port ≤ q → q < p → contains occupied q ≡ true

abbrev Found : List ℕ → ℕ → Option ℕ → Type 0
Found occupied port none = ⊥
Found occupied port (some p) = IsFirstFree occupied port p

first_free-step :
    (fuel : ℕ) (occupied : List ℕ) (port : ℕ)
    → contains occupied port ≡ true
    → first_free (suc fuel) occupied port ≡ first_free fuel occupied (port + 1)
unfolding first_free
first_free-step fuel occupied port h = rw h refl

first_free-here :
    (fuel : ℕ) (occupied : List ℕ) (port : ℕ)
    → contains occupied port ≡ false
    → first_free (suc fuel) occupied port ≡ some port
unfolding first_free
first_free-here fuel occupied port h = rw h refl

Found-step :
    (occupied : List ℕ) (port : ℕ) (r : Option ℕ)
    → contains occupied port ≡ true
    → Found occupied (port + 1) r
    → Found occupied port r
Found-step occupied port none h f = f
Found-step occupied port (some p) h f = record {
  from = omega (arith, f.from);
  free = f.free;
  before = λ q lo hi. elim (Bool-cases (ltb port q)) [
    | inl above ↦ f.before q (ground arith) hi
    | inr here ↦ let e : q ≡ port = ground (arith, lo, here) in rw e h
  ];
}

-- One more round than there are ports in use is enough.
first_free_lem :
    (fuel : ℕ) (occupied : List ℕ) (port : ℕ)
    → from_port occupied port < fuel
    → Found occupied port (first_free fuel occupied port)
first_free_lem zero occupied port enough = absurd (omega arith)
first_free_lem (suc fuel) occupied port enough = elim (Bool-cases (contains occupied port)) [
  | inl taken ↦ rw (first_free-step fuel occupied port taken) (
      Found-step occupied port (first_free fuel occupied (port + 1)) taken (
        first_free_lem fuel occupied (port + 1)
          (omega (arith, from_port-less occupied port taken))))
  | inr free ↦ rw (first_free-here fuel occupied port free) (record {
    from = omega arith;
    free = free;
    before = λ q lo hi. absurd (omega (arith, lo, hi));
  })
]

-- What `next_free_port` gives, where these ports are in use: the first one from the base on that
-- is free, or no port if the base and the 1000 ports behind it are in use.
abbrev pub Given : ℕ → List ℕ → Result Error ℕ → Type 0
Given port_base occupied (ok p) = IsFirstFree occupied port_base p × (p ≤ port_base + 1000)
Given port_base occupied (err e) =
    (e ≡ no_port) × ((q : ℕ) → port_base ≤ q → q ≤ port_base + 1000 → contains occupied q ≡ true)

bounded_lem :
    (port_base : ℕ) (occupied : List ℕ) (r : Option ℕ)
    → Found occupied port_base r
    → Given port_base occupied (elim r as (λ x. Result Error ℕ) [
      | none ↦ err no_port
      | some port ↦ if ltb (port_base + port_range_size) port then err no_port else ok port
    ])
bounded_lem port_base occupied none f = absurd f
bounded_lem port_base occupied (some p) f =
    elim (Bool-cases (ltb (port_base + port_range_size) p)) [
      | inl over ↦ rw over (refl, λ q lo hi. f.before q lo (ground (arith, over, hi)))
      | inr within ↦ rw within (f, ground (arith, within))
    ]

pub free_port_lem :
    (port_base : ℕ) (occupied : List ℕ) → Given port_base occupied (free_port port_base occupied)
unfolding free_port
free_port_lem port_base occupied =
    bounded_lem port_base occupied (first_free (suc (length occupied)) occupied port_base) (
      first_free_lem (suc (length occupied)) occupied port_base
        (omega (arith, from_port-length occupied port_base)))

last_one :
    (port_base : ℕ) (occupied : List ℕ) (r : Result Error ℕ)
    → Given port_base occupied r
    → ((q : ℕ) → port_base ≤ q → q < port_base + 1000 → contains occupied q ≡ true)
    → contains occupied (port_base + 1000) ≡ false
    → r ≡ ok (port_base + 1000)
last_one port_base occupied (err e) g full next =
    let k : contains occupied (port_base + 1000) ≡ true =
      g.1 (port_base + 1000) (omega arith) (omega arith) in
    cc (k, next)
last_one port_base occupied (ok p) g full next = elim (Bool-cases (ltb p (port_base + 1000))) [
  | inl below ↦
      let k : contains occupied p ≡ true = full p g.0.from (ground (arith, below)) in
      let free = g.0.free in cc (k, free)
  | inr last ↦ let e : p ≡ port_base + 1000 = ground (arith, last, g.1) in ap (λ (n : ℕ). ok n) e
]

module _ {S : Type 0} (store : ConfigStore S) (port_base : ℕ) (s : S) (occupied : List ℕ)
    (stored : occupied_ports (store.scan (codes "routes/") s) ≡ ok occupied) where
  on_ports : next_free_port store port_base s ≡ free_port port_base occupied
  unfolding next_free_port
  on_ports = ap (λ (r : Result Error (List ℕ)). r >>= free_port port_base) stored

  -- Where the entries of the routes have these host ports, `next_free_port` gives the first port
  -- from the base on that none of them has, if it is at most 1000 above the base; otherwise it
  -- raises, and then all the 1001 ports from the base to 1000 above it are in use.
  pub next_free_port_lem : Given port_base occupied (next_free_port store port_base s)
  next_free_port_lem = rw on_ports (free_port_lem port_base occupied)

  -- Where the 1000 ports from the base on are in use, and the one behind them is not, this one is
  -- given: no error is raised, although the limit is 1000 ports.
  pub next_free_port_over :
      ((q : ℕ) → port_base ≤ q → q < port_base + 1000 → contains occupied q ≡ true)
      → contains occupied (port_base + 1000) ≡ false
      → next_free_port store port_base s ≡ ok (port_base + 1000)
  next_free_port_over full next =
      last_one port_base occupied (next_free_port store port_base s) next_free_port_lem full next
