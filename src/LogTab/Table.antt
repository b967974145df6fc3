-- ===== src/LogTab/Table.antt =====
-- class LogTab of kelso/lib/logtab.py: the operations on a table. The state is the text of the
-- file, and a method that writes returns the state that it left, whether or not it raised.
-- `now` is what `now_ts` returns.
pub mod Effect
use mathlib.Core.List.{foldl, reverse}
use kelso.Common.{
  ℕ, zero, suc, ◌+◌, ◌-◌, Bool, true, false, not, ◌&&◌, ◌||◌, Option, none, some, List, [], ◌∷◌,
  ◌++◌, map, ltb, leb, if◌then◌else◌, ◌==◌, eq_nat, eq_list, length, drop, keep, contains,
}
use kelso.Common.Result.{Result, ok, err, ◌>>=◌, ◌>>◌, require}
use kelso.Common.Text.{Text, codes, is_empty, starts_with, ends_with, text_le}
use kelso.Common.Dict.{Dict, get, has, put, pop, pop_where, keys}
use kelso.LogTab.Row.{newline, Operation, set, del, clr, Row, encode, validate_key}
use kelso.LogTab.File.{Error, invalid_key, not_found, bad_timestamp, unlines, records, write_entry}

-- LogTab.Entry
pub record Entry : Type 0 where
  pub ts : Text
  pub value : Text

pub record LogTab : Type 0 where
  pub strict : Bool
  pub compact_size : ℕ
  pub compact_history : ℕ
  pub content : Text

abbrev pub entry_of : Row → Entry
entry_of r = record { ts = r.ts; value = r.value }

-- `match operation` in `load` and in `compact`
abbrev pub apply_operation : Dict Text Entry → Operation → Row → Dict Text Entry
apply_operation results set r = put results r.key (entry_of r)
apply_operation results del r = pop results r.key
apply_operation results clr r = pop_where (λ k. starts_with k r.key) results

unfoldable pub apply : Dict Text Entry → Row → Dict Text Entry
apply results r = apply_operation results r.operation r

-- list(self._records())
unfoldable pub collect : List (Result Error Row) → Result Error (List Row)
collect [] = ok []
collect (err e ∷ rest) = err e
collect (ok r ∷ rest) = do rows ← collect rest; ok (r ∷ rows)

-- until is not None and datetime.fromisoformat(ts) > until
abbrev pub passes : Option ℕ → Option ℕ → Bool
passes none moment = false
passes (some until) none = false
passes (some until) (some moment) = ltb until moment

-- the number of bytes in UTF-8
unfoldable pub st_size : Text → ℕ
st_size [] = 0
st_size (c ∷ s) =
    (if ltb c 128 then 1 else if ltb c 2048 then 2 else if ltb c 65536 then 3 else 4) + st_size s

-- LogTab.__init__ where there is no file yet
unfoldable pub header : Text → Text → Text → Text
unfolding unlines
header now title name =
    let rest : List Text =
      (codes "# " ++ (name ++ (codes ", created " ++ now)))
      ∷ codes "# Format: <date>\\t<set|del|clr>\\t<key>\\t<value>\\n"
      ∷ [] in
    unlines (if is_empty title then rest else (codes "# " ++ title) ∷ rest)

unfoldable pub init : Text → Text → Text → Bool → ℕ → ℕ → LogTab
init now title name strict size history = record {
  strict = strict;
  compact_size = size;
  compact_history = history;
  content = header now title name;
}

-- the order of `(rec[0], rec[2])`: by timestamp, then by key
unfoldable pub row_le : Row → Row → Bool
row_le a b = if a.ts == b.ts then text_le a.key b.key else text_le a.ts b.ts

-- backfill.sort(...): a stable sort
unfoldable pub insert_row : Row → List Row → List Row
insert_row r [] = r ∷ []
insert_row r (x ∷ xs) = let later = insert_row r xs in if row_le r x then r ∷ x ∷ xs else x ∷ later

unfoldable pub sort_rows : List Row → List Row
unfolding insert_row row_le text_le
sort_rows [] = []
sort_rows (r ∷ rs) = insert_row r (sort_rows rs)

abbrev pub row_keys : List Row → List Text
row_keys = map (λ (r : Row). r.key)

-- the entries of `current` that no record of the suffix names
unfoldable pub backfill : List Text → Dict Text Entry → List Row
backfill suffix_keys [] = []
backfill suffix_keys ((key, entry) ∷ current) =
    let later = backfill suffix_keys current in
    if contains suffix_keys key
    then later
    else record { ts = entry.ts; operation = set; key = key; value = entry.value } ∷ later

-- records[-history:] if history else []
unfoldable pub suffix_of : ℕ → List Row → List Row
suffix_of history rows = if history == 0 then [] else drop (length rows - history) rows

abbrev pub compacted : ℕ → List Row → List Row
compacted history rows =
    let suffix = suffix_of history rows in
    sort_rows (backfill (row_keys suffix) (foldl apply [] rows)) ++ suffix

-- what `compact` writes in place of the file
unfoldable pub compact_text : Text → List Row → Text
unfolding unlines
compact_text now rows = unlines (
    (codes "# Compacted logtab at " ++ now)
    ∷ codes "# Format: <date>\\t<set|del|clr>\\t<key>\\t<value>\\n"
    ∷ (map encode rows ++ codes "# end compacted entries" ∷ []))

-- The end of `compact`, from the records that it collected.
unfoldable pub rewrite :
    Text → ℕ → LogTab → Result Error (List Row) → LogTab × Result Error (Unit {0})
unfolding compact_text
rewrite now history t (err e) = (t, err e)
rewrite now history t (ok rows) = (
  if ltb 0 history && ltb (length rows) history
      then t
      else record t { content = compact_text now (compacted history rows) },
  ok tt,
)

module _ (fromisoformat : Text → Option ℕ) where
  -- The loop of `load`: with `until`, it ends before the first later record.
  unfoldable pub load_from :
      Option ℕ → Dict Text Entry → List (Result Error Row) → Result Error (Dict Text Entry)
  unfolding apply
  load_from until results [] = ok results
  load_from until results (err e ∷ rest) = err e
  load_from until results (ok r ∷ rest) =
      let next = load_from until (apply results r) rest in
      if passes until (fromisoformat r.ts) then ok results else next

  -- LogTab.load
  unfoldable pub load : Option Text → LogTab → Result Error (Dict Text Entry)
  unfolding load_from records
  load none t = load_from none [] (records fromisoformat t.strict t.content)
  load (some at) t = elim (fromisoformat at) [
    | none ↦ err bad_timestamp
    | some until ↦ load_from (some until) [] (records fromisoformat t.strict t.content)
  ]

  -- LogTab.read
  unfoldable pub read : Text → LogTab → Result Error (Option Entry)
  unfolding load
  read key t = do table ← load none t; ok (get table key)

  -- LogTab.last_ts
  unfoldable pub last_ts : LogTab → Result Error (Option Text)
  unfolding collect records
  last_ts t = do
    rows ← collect (records fromisoformat t.strict t.content)
    ok (foldl (λ newest (r : Row). some r.ts) none rows)

  abbrev pub check_affix : Text → Result Error (Unit {0})
  check_affix affix = if is_empty affix then ok tt else require (validate_key affix) invalid_key

  abbrev pub matches : Text → Text → Text → Bool
  matches prefix suffix key = starts_with key prefix && ends_with key suffix

  abbrev pub is_set : Operation → Bool
  is_set set = true
  is_set _ = false

  -- LogTab.history
  unfoldable pub history : Text → Text → LogTab → Result Error (List (Text × Entry))
  unfolding collect records
  history prefix suffix t = do
    check_affix prefix
    check_affix suffix
    rows ← collect (records fromisoformat t.strict t.content)
    ok (
        map (λ (r : Row). (r.key, entry_of r))
          (keep (λ r. is_set r.operation && matches prefix suffix r.key) rows))

  -- LogTab.scan
  unfoldable pub scan : Text → Text → LogTab → Result Error (Dict Text Entry)
  unfolding load
  scan prefix suffix t = do
    check_affix prefix
    check_affix suffix
    table ← load none t
    ok (pop_where (λ k. not (matches prefix suffix k)) table)

  -- LogTab.compact
  unfoldable pub compact : Text → ℕ → LogTab → LogTab × Result Error (Unit {0})
  unfolding collect records rewrite
  compact now history t = rewrite now history t (collect (records fromisoformat t.strict t.content))

  -- LogTab._maybe_compact
  unfoldable pub maybe_compact : Text → LogTab → LogTab × Result Error (Unit {0})
  unfolding compact st_size
  maybe_compact now t =
      if ltb 0 t.compact_size && ltb t.compact_size (st_size t.content)
      then compact now t.compact_history t
      else (t, ok tt)

  unfoldable pub written_to : Text → LogTab → Result Error Text → LogTab × Result Error (Unit {0})
  unfolding maybe_compact
  written_to now t (err e) = (t, err e)
  written_to now t (ok content) = maybe_compact now (record t { content = content })

  unfoldable pub add_entry :
      Text → Text → Operation → Text → Text → LogTab → LogTab × Result Error (Unit {0})
  unfolding write_entry written_to
  add_entry now written operation key value t =
      written_to now t (write_entry written key operation value t.content)

  -- LogTab.write, LogTab.clear, LogTab.delete: `written` and `now` are the two readings of the clock
  unfoldable pub write : Text → Text → Text → Text → LogTab → LogTab × Result Error (Unit {0})
  unfolding add_entry
  write now written key value t = add_entry now written set key value t

  unfoldable pub clear : Text → Text → Text → Text → LogTab → LogTab × Result Error (Unit {0})
  unfolding add_entry
  clear now written prefix comment t = add_entry now written clr prefix comment t

  -- `if key not in self.load(): raise`
  unfoldable pub delete_held :
      Text
      → Text
      → Text
      → Text
      → LogTab
      → Result Error (Dict Text Entry)
      → LogTab × Result Error (Unit {0})
  unfolding add_entry
  delete_held now written key comment t (err e) = (t, err e)
  delete_held now written key comment t (ok table) =
      if has table key then add_entry now written del key comment t else (t, err not_found)

  unfoldable pub delete : Text → Text → Text → Text → LogTab → LogTab × Result Error (Unit {0})
  unfolding delete_held
  delete now written key comment t =
      if t.strict
      then delete_held now written key comment t (load none t)
      else add_entry now written del key comment t
