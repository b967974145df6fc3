-- ===== src/Cron/Field.antt =====
-- One field of a schedule: `_parse_field` and `_number` of kelso/lib/cronexpr.py. A set of numbers
-- is a list, read through `contains`.
pub mod Ranges
use kelso.Common.{
  ℕ, zero, suc, ◌+◌, ◌-◌, ◌*◌, ◌/◌, ◌≤◌, Bool, true, false, not, ◌&&◌, ◌||◌, List, [], ◌∷◌, ◌++◌,
  ltb, leb, if◌then◌else◌, ◌==◌, eq_nat, eq_list, contains,
}
use kelso.Common.Result.{Result, ok, err, ◌>>=◌, ◌>>◌, require}
use kelso.Common.Text.{Text, codes, is_empty, isdigit, int, split, partition, Partition}

pub data Error : Type 0 where
  not_five_fields bad_step outside not_a_number never_matches : Error

-- _number
unfoldable pub number : Text → Result Error ℕ
number text = do require (isdigit text) not_a_number; ok (int text)

-- range(start, start + step * left, step), by the numbers that are left
unfoldable pub range_from : ℕ → ℕ → ℕ → List ℕ
range_from zero start step = []
range_from (suc left) start step = start ∷ range_from left (start + step) step

-- range(start, end + 1, step), for start ≤ end and a positive step
unfoldable pub range : ℕ → ℕ → ℕ → List ℕ
unfolding range_from
range start end step = range_from ((end - start) / step + 1) start step

pub record Span : Type 0 where
  pub start : ℕ
  pub end : ℕ

-- the span of an item, and the end that a step gives to a single number
unfoldable pub parse_span : Text → Bool → ℕ → ℕ → Result Error Span
unfolding number partition
parse_span span stepped low high =
    if span == codes "*"
    then ok (record { start = low; end = high })
    else if contains span b'-'
    then (do
      let bounds : Partition = partition b'-' span
      start ← number bounds.before
      end ← number bounds.after
      ok (record { start = start; end = end }))
    else (do
      start ← number span
      ok (record { start = start; end = if stepped then high else start }))

-- the step of an item, 1 if there is none
unfoldable pub parse_step : Text → Result Error ℕ
unfolding number
parse_step step_text = if is_empty step_text then ok 1 else number step_text

-- one round of the loop of `_parse_field`
unfoldable pub parse_item : Text → ℕ → ℕ → Result Error (List ℕ)
unfolding parse_span parse_step range partition
parse_item item low high = do
  let parts : Partition = partition b'/' item
  step ← parse_step parts.after
  require (leb 1 step) bad_step
  span ← parse_span parts.before (not (is_empty parts.after)) low high
  require (leb low span.start && (leb span.start span.end && leb span.end high)) outside
  ok (range span.start span.end step)

unfoldable pub parse_items : List Text → ℕ → ℕ → Result Error (List ℕ)
unfolding parse_item
parse_items [] low high = ok []
parse_items (item ∷ items) low high = do
  values ← parse_item item low high
  more ← parse_items items low high
  ok (values ++ more)

-- _parse_field
unfoldable pub parse_field : Text → ℕ → ℕ → Result Error (List ℕ)
unfolding parse_items split
parse_field text low high = parse_items (split b',' text) low high
