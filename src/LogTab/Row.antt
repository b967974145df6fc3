-- ===== src/LogTab/Row.antt =====
-- One record of a logtab, its line in the file, and what may stand in it (kelso/lib/logtab.py:
-- `validate_key`, `validate_value`, `validate_operation`, and the middle of `_records`).
-- `datetime.fromisoformat` is a parameter: the moment that a timestamp names, as a number.
pub mod RoundTrip
use kelso.Common.{
  ℕ, Bool, true, false, ◌&&◌, ◌||◌, not, Option, none, some, List, [], ◌∷◌, ◌++◌, leb, contains,
  if◌then◌else◌, ◌==◌, eq_nat, eq_list, length, all,
}
use kelso.Common.Text.{Text, codes, is_empty, starts_with, split_max, strip, join}

abbrev pub tab : ℕ
tab = 9

abbrev pub newline : ℕ
newline = 10

abbrev pub return : ℕ
return = 13

abbrev pub max_key_length : ℕ
max_key_length = 512

abbrev pub max_val_length : ℕ
max_val_length = 2048

-- LogTab.OPERATIONS
pub data Operation : Type 0 where
  set del clr : Operation

abbrev pub operation_name : Operation → Text
operation_name set = codes "set"
operation_name del = codes "del"
operation_name clr = codes "clr"

unfoldable pub read_operation : Text → Option Operation
read_operation s =
    if s == codes "set"
    then some set
    else if s == codes "del"
    then some del
    else if s == codes "clr"
    then some clr
    else none

pub record Row : Type 0 where
  pub ts : Text
  pub operation : Operation
  pub key : Text
  pub value : Text

-- a character of KEY_RE
abbrev pub key_char : ℕ → Bool
key_char c =
    (leb b'a' c && leb c b'z')
    || ((leb b'A' c && leb c b'Z')
        || ((leb b'0' c && leb c b'9')
            || ((c == b'_') || ((c == b'/') || ((c == b'.') || (c == b'-'))))))

unfoldable pub validate_key : Text → Bool
validate_key key = not (is_empty key) && (leb (length key) max_key_length && all key_char key)

unfoldable pub validate_value : Text → Bool
validate_value val = leb (length val) max_val_length && not (contains val newline)

-- LogTab.FS.join((ts, operation, key, value))
unfoldable pub encode : Row → Text
unfolding join
encode r = join (tab ∷ []) (r.ts ∷ operation_name r.operation ∷ r.key ∷ r.value ∷ [])

module _ (fromisoformat : Text → Option ℕ) where
  with_operation : Text → Text → Text → Option Operation → Option Row
  with_operation ts key value none = none
  with_operation ts key value (some op) = elim (fromisoformat ts) [
    | none ↦ none
    | some t ↦ some (record { ts = ts; operation = op; key = key; value = value })
  ]

  row_of_parts : List Text → Option Row
  unfolding with_operation
  row_of_parts (ts ∷ op ∷ key ∷ value ∷ []) = with_operation ts key value (read_operation op)
  row_of_parts _ = none

  -- line.split(FS, 3) and its checks
  unfoldable pub parse_row : Text → Option Row
  unfolding row_of_parts
  parse_row line = row_of_parts (split_max tab 3 line)

-- A line that `_records` passes over in silence.
unfoldable pub is_comment : Text → Bool
is_comment line = starts_with line (codes "#") || is_empty (strip line)
