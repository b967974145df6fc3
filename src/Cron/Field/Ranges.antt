-- ===== src/Cron/Field/Ranges.antt =====
-- The numbers that a field of a schedule names: `_parse_field` of kelso/lib/cronexpr.py.
use kelso.Common.{
  ℕ, zero, suc, ◌+◌, ◌-◌, ◌*◌, ◌/◌, ◌≤◌, ◌<◌, ◌≡◌, refl, sym, ◌∙◌, arith, Bool, true, false, not,
  ◌&&◌, ◌||◌, List, [], ◌∷◌, ◌++◌, leb, ◌==◌, eq_nat, contains, contains-append, ==→eq, inl, inr,
  ◌⊎◌, ◌↔◌, subst,
}
use native.Mathlib.Nat.{le-div_iff_mul-le}
use kelso.Common.Result.{Result, ok, ◌>>◌, require, ok_of_bind}
use kelso.Common.Text.{Text, is_empty, split, partition, Partition}
use kelso.Cron.Field.{
  outside, bad_step, range_from, range, Span, parse_span, parse_step, parse_item, parse_items,
  parse_field,
}

-- `n` is one of the first `left` numbers from `start` on, in steps.
record IsStep (left start step n : ℕ) : Type 0 where
  pub steps : ℕ
  pub enough : steps < left
  pub there : n ≡ start + steps * step

pub contains_or : (a b : Bool) → (a || b) ≡ true → (a ≡ true) ⊎ (b ≡ true)
contains_or true b h = inl refl
contains_or false b h = inr h

contains-IsStep :
    (left start step n : ℕ)
    → contains (range_from left start step) n ≡ true
    → IsStep left start step n
unfolding range_from
contains-IsStep zero start step n h = cc
contains-IsStep (suc left) start step n h =
    elim (contains_or (start == n) (contains (range_from left (start + step) step) n) h) [
      | inl here ↦ record {
        steps = 0;
        enough = omega arith;
        there = sym (==→eq start n here) ∙ omega arith;
      }
      | inr more ↦
          let k = contains-IsStep left (start + step) step n more in
          record {
            steps = suc k.steps;
            enough = omega (arith, k.enough);
            there = k.there ∙ omega arith;
          }
    ]

IsStep-contains :
    (left start step n i : ℕ)
    → i < left
    → n ≡ start + i * step
    → contains (range_from left start step) n ≡ true
unfolding range_from
IsStep-contains zero start step n i below e = absurd (omega arith)
IsStep-contains (suc left) start step n zero below e = ground (arith, e)
IsStep-contains (suc left) start step n (suc i) below e =
    ground (arith, IsStep-contains left (start + step) step n i (omega arith) (e ∙ omega arith))

-- `values` are the numbers of one item of the field: from `low` to `high`, those that its step and
-- its span name and no others.
pub record IsItem (item : Text) (low high : ℕ) (values : List ℕ) : Type 0 where
  pub step : ℕ
  pub span : Span
  pub step_read : parse_step (partition b'/' item).after ≡ ok step
  pub span_read :
      parse_span (partition b'/' item).before (not (is_empty (partition b'/' item).after)) low high
      ≡ ok span
  pub moves : 1 ≤ step
  pub from_low : low ≤ span.start
  pub ordered : span.start ≤ span.end
  pub to_high : span.end ≤ high
  pub only :
      (n : ℕ) → contains values n ≡ true → (i : ℕ) × (n ≡ span.start + i * step) × (n ≤ span.end)
  pub all :
      (i : ℕ) → span.start + i * step ≤ span.end → contains values (span.start + i * step) ≡ true

module _ (start end step : ℕ) (moves : 1 ≤ step) (ordered : start ≤ end) where
  fits_range : (i : ℕ) → i ≤ (end - start) / step → i * step ≤ end - start
  fits_range i h =
      let f : (i ≤ (end - start) / step) ↔ (i * step ≤ end - start) = le-div_iff_mul-le moves in
      f.0 h

  fits_steps : (i : ℕ) → i * step ≤ end - start → i ≤ (end - start) / step
  fits_steps i h =
      let f : (i ≤ (end - start) / step) ↔ (i * step ≤ end - start) = le-div_iff_mul-le moves in
      f.1 h

  contains-range-only :
      (n : ℕ)
      → contains (range start end step) n ≡ true
      → (i : ℕ) × (n ≡ start + i * step) × (n ≤ end)
  unfolding range
  contains-range-only n h =
      let k = contains-IsStep ((end - start) / step + 1) start step n h in
      let within : k.steps * step ≤ end - start = fits_range k.steps (omega (arith, k.enough)) in
      (k.steps, k.there, omega (arith, within, k.there))

  contains-range-all :
      (i : ℕ) → start + i * step ≤ end → contains (range start end step) (start + i * step) ≡ true
  unfolding range
  contains-range-all i h =
      let within : i ≤ (end - start) / step = fits_steps i (omega arith) in
      IsStep-contains ((end - start) / step + 1) start step (start + i * step) i (omega arith) refl

require_lem :
    {E : Type 0} (b : Bool) (e : E)
    → {A : Type 0} (rest : Result E A) (a : A) → (require b e >> rest) ≡ ok a
    → (b ≡ true) × (rest ≡ ok a)
require_lem true e rest a h = (refl, h)
require_lem false e rest a h = cc

leb_le : (m n : ℕ) → leb m n ≡ true → m ≤ n
leb_le m n h = ground arith

in_order : (a b c d : ℕ) → (leb a b && (leb b c && leb c d)) ≡ true → (a ≤ b) × (b ≤ c) × (c ≤ d)
in_order a b c d h = ground arith

-- An item of a field that parses gives the numbers from its start to its end, within the field's
-- range, in its step, which is 1 at least, and no other numbers.
pub parse_item-IsItem :
    (item : Text) (low high : ℕ) (values : List ℕ)
    → parse_item item low high ≡ ok values
    → IsItem item low high values
unfolding parse_item
parse_item-IsItem item low high values h =
    let parts : Partition = partition b'/' item in
    let step = ok_of_bind (parse_step parts.after) _ h in
    let moves = require_lem (leb 1 step.0) bad_step _ values step.2 in
    let span =
      ok_of_bind (parse_span parts.before (not (is_empty parts.after)) low high) _ moves.1 in
    let inside = require_lem _ outside _ values span.2 in
    let names : range span.0.start span.0.end step.0 ≡ values = cc inside.1 in
    let bounds = in_order low span.0.start span.0.end high inside.0 in
    let positive = leb_le 1 step.0 moves.0 in
    record {
      step = step.0;
      span = span.0;
      step_read = step.1;
      span_read = span.1;
      moves = positive;
      from_low = bounds.0;
      ordered = bounds.1;
      to_high = bounds.2;
      only = λ n c.
          contains-range-only span.0.start span.0.end step.0 positive bounds.1 n (rw names c);
      all = λ i c.
          rw (← names) (contains-range-all span.0.start span.0.end step.0 positive bounds.1 i c);
    }

-- Every number of a field that parses is in the field's range.
pub parse_items-range :
    (items : List Text) (low high : ℕ) (values : List ℕ)
    → parse_items items low high ≡ ok values
    → (n : ℕ) → contains values n ≡ true
    → (low ≤ n) × (n ≤ high)
unfolding parse_items
parse_items-range [] low high values h n c =
    let e : [] ≡ values = cc in cc (subst (λ l. contains l n ≡ true) (sym e) c)
parse_items-range (item ∷ items) low high values h n c =
    let first = ok_of_bind (parse_item item low high) _ h in
    let rest = ok_of_bind (parse_items items low high) _ first.2 in
    let names : first.0 ++ rest.0 ≡ values = cc rest.2 in
    let here = parse_item-IsItem item low high first.0 first.1 in
    let split : (contains first.0 n || contains rest.0 n) ≡ true =
      sym (contains-append first.0 rest.0 n) ∙ (rw names c) in
    elim (contains_or (contains first.0 n) (contains rest.0 n) split) [
      | inl a ↦ let k = here.only n a in omega (arith, here.from_low, here.to_high, k.1, k.2)
      | inr b ↦ parse_items-range items low high rest.0 rest.1 n b
    ]

pub parse_field-range :
    (text : Text) (low high : ℕ) (values : List ℕ)
    → parse_field text low high ≡ ok values
    → (n : ℕ) → contains values n ≡ true
    → (low ≤ n) × (n ≤ high)
unfolding parse_field
parse_field-range text low high values h = parse_items-range (split b',' text) low high values h
