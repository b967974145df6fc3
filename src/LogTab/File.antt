-- ===== src/LogTab/File.antt =====
-- The file of a logtab: its lines, as Python reads a text file, and its records
-- (kelso/lib/logtab.py: `_records`, `write_entry`).
-- A generator that may raise is a list of results: a raise ends it.
pub mod Lines
use kelso.Common.{
  ℕ, Bool, true, false, ◌||◌, ◌&&◌, Option, none, some, List, [], ◌∷◌, ◌++◌, if◌then◌else◌, ◌==◌,
  eq_nat,
}
use kelso.Common.Result.{Result, ok, err, ◌>>◌, require}
use kelso.Common.Text.{Text, is_empty, split}
use kelso.LogTab.Row.{
  newline, return, Operation, Row, validate_key, validate_value, encode, parse_row, is_comment,
}

pub data Error : Type 0 where
  invalid_key invalid_value malformed not_found bad_timestamp : Error

-- Universal newlines: `\r\n` and a lone `\r` are read as `\n`. The flag says that the character
-- before was a `\r`.
unfoldable pub translate : Bool → Text → Text
translate after [] = []
translate after (c ∷ s) =
    if c == return
    then newline ∷ translate true s
    else if (c == newline) && after
    then translate false s
    else c ∷ translate false s

-- A text that ends in `\n` has no further line behind it.
abbrev pub drop_last_empty : List Text → List Text
drop_last_empty [] = []
drop_last_empty (l ∷ []) = if is_empty l then [] else l ∷ []
drop_last_empty (l ∷ m ∷ ls) = l ∷ drop_last_empty (m ∷ ls)

-- `for line in f`, each line without its `\n`
unfoldable pub lines : Text → List Text
unfolding translate split
lines content = drop_last_empty (split newline (translate false content))

-- "\n".join(ls) + "\n", which is each line with its end
unfoldable pub unlines : List Text → Text
unlines [] = []
unlines (l ∷ ls) = l ++ newline ∷ unlines ls

-- `yield split`, or `_value_err` and `continue`
abbrev pub yield_row : Bool → Option Row → List (Result Error Row) → List (Result Error Row)
yield_row strict (some row) later = ok row ∷ later
yield_row strict none later = if strict then err malformed ∷ [] else later

module _ (fromisoformat : Text → Option ℕ) (strict : Bool) where
  unfoldable pub records_of : List Text → List (Result Error Row)
  records_of [] = []
  records_of (line ∷ rest) =
      let later = records_of rest in
      if is_comment line then later else yield_row strict (parse_row fromisoformat line) later

  -- LogTab._records
  unfoldable pub records : Text → List (Result Error Row)
  unfolding records_of lines
  records content = records_of (lines content)

-- LogTab.write_entry: what the file holds afterwards. The loop over partial writes adds the whole
-- line, whatever each call takes.
unfoldable pub write_entry : Text → Text → Operation → Text → Text → Result Error Text
write_entry now key operation value content = do
  require (validate_key key) invalid_key
  require (validate_value value) invalid_value
  let row : Row = record { ts = now; operation = operation; key = key; value = value }
  ok (content ++ (encode row ++ newline ∷ []))
