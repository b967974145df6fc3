-- ===== src/Options/Order.antt =====
-- A start_order that kelso/lib/options.py accepts is a group that kelso/lib/lifecycle/updown.py has.
use kelso.Common.{
  ℕ, ◌≤◌, ◌≡◌, arith, true, some, if◌then◌else◌, eq_nat, eq_list, Bool-cases, inl, inr,
}
use kelso.Common.Result.{Result, ok, err, ◌>>=◌, ok_of_bind}
use kelso.Common.Text.{Text, isdigit}
use kelso.Options.Defs.{
  Error, out_of_range, not_whole, lstrip_minus, Whole, whole, minus, to_int, in_bounds, int_between,
  start_order, validate,
}

-- The number that `start_order` stands for, where the value is accepted.
abbrev pub order_of : Whole → ℕ
order_of (whole n) = n
order_of (minus n) = 0

in_bounds_lem : (n : Whole) → in_bounds 0 (some 9) n ≡ true → order_of n ≤ 9
unfolding in_bounds
in_bounds_lem (whole n) h = ground (arith, h)
in_bounds_lem (minus n) h = omega arith

bounded :
    (n : Whole)
    → ◌≡◌ {A = Result Error (Unit {0})}
        (if in_bounds 0 (some 9) n then ok tt else err out_of_range)
        (ok tt)
    → in_bounds 0 (some 9) n ≡ true
bounded n h = elim (Bool-cases (in_bounds 0 (some 9) n)) [
  | inl a ↦ a
  | inr a ↦ let k : err out_of_range ≡ ok tt = rw a at h in cc k
]

-- A value of start_order that is accepted is a whole number from 0 to 9, so that `int` of it, which
-- the start of the box takes, does not raise.
pub start_order-IsGroup :
    (value : Text)
    → validate start_order value ≡ ok tt
    → (n : Whole) × (to_int value ≡ ok n) × (order_of n ≤ 9)
unfolding validate int_between
start_order-IsGroup value h = elim (Bool-cases (isdigit (lstrip_minus value))) [
  | inr a ↦ let k : err not_whole ≡ ok tt = rw a at h in cc k
  | inl a ↦
      let k : (to_int value >>= (λ n. if in_bounds 0 (some 9) n then ok tt else err out_of_range))
          ≡ ok tt =
        rw a at h in
      let n = ok_of_bind (to_int value) _ k in (n.0, n.1, in_bounds_lem n.0 (bounded n.0 n.2))
]
