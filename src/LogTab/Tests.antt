-- ===== src/LogTab/Tests.antt =====
-- Runs of the logtab, and its theorems at concrete files. Timestamps are digits here.
use kelso.Common.{
  ℕ, ◌≡◌, refl, true, false, Option, none, some, [], ◌∷◌, ◌++◌, arith, if◌then◌else◌, ◌==◌, eq_nat,
  eq_list, ◌⊎◌,
}
use kelso.Common.Result.{ok, err}
use kelso.Common.Text.{Text, codes, isdigit, int, split, split_max, join, strip}
use kelso.Common.Dict.{Dict, get, has, put, pop, pop_where, keys}
use kelso.LogTab.Row.{
  Row, set, encode, return, read_operation, parse_row, validate_key, validate_value, is_comment,
}
use kelso.LogTab.Row.RoundTrip.{IsRow, parse_row-encode}
use kelso.LogTab.File.{write_entry, invalid_key, invalid_value}
use kelso.LogTab.Table.{
  Entry, LogTab, header, init, load, read, write, clear, delete, compact, history, scan, last_ts,
  sort_rows, backfill, suffix_of, apply, maybe_compact,
}
use kelso.LogTab.Compact.Keeps.{Leaves, compact_keeps}
use kelso.LogTab.Writes.Laws.{IsFile, IsNow, new_record, new_record-IsRow, write_lem}
use kelso.LogTab.Writes.Refused.{IsKey, IsValue, write_refused, write_injects}
use kelso.LogTab.Writes.Whole.{init-IsFile, operations-IsFile}

abbrev iso : Text → Option ℕ
iso s = if isdigit s then some (int s) else none

abbrev empty_table : LogTab
empty_table = init (codes "1") (codes "kelso") (codes "kelsodb.logtab") false 0 0

methods : Unit {0}
unfolding init load read write clear delete compact history scan last_ts get has put pop pop_where
    keys sort_rows backfill suffix_of split split_max join strip validate_key validate_value header
    is_comment encode parse_row read_operation write_entry
methods = tt

abbrev one : LogTab
one = (write iso (codes "2") (codes "2") (codes "routes/a") (codes "x\ty") empty_table).0

abbrev two : LogTab
two = (write iso (codes "3") (codes "3") (codes "meta/b") (codes "z") one).0

read_back :
    read iso (codes "routes/a") two ≡ ok (some (record { ts = codes "2"; value = codes "x\ty" }))
unfolding methods
read_back = refl

cleared :
    read iso (codes "routes/a") (clear iso (codes "4") (codes "4") (codes "routes/") [] two).0
    ≡ ok none
unfolding methods
cleared = refl

compacts :
    load iso none (compact iso (codes "5") 1 two).0
    ≡ ok (
        (codes "routes/a", record { ts = codes "2"; value = codes "x\ty" })
        ∷ (codes "meta/b", record { ts = codes "3"; value = codes "z" })
        ∷ [])
unfolding methods
compacts = refl

clock : IsNow iso (codes "2")
clock = record { moment = 2; dated = refl; no_mark = refl; part = omega arith; line = omega arith }

empty_table-IsFile : IsFile empty_table.content
empty_table-IsFile =
    init-IsFile (codes "1") (codes "kelso") (codes "kelsodb.logtab") false 0 0 (omega arith)
      (omega arith) (omega arith)

empty_table-load : load iso none empty_table ≡ ok []
unfolding methods
empty_table-load = refl

key-valid : validate_key (codes "routes/a") ≡ true
unfolding methods
key-valid = refl

value-valid : validate_value (codes "x\ty") ≡ true
unfolding methods
value-valid = refl

one-load :
    load iso none one
    ≡ ok ((codes "routes/a", record { ts = codes "2"; value = codes "x\ty" }) ∷ [])
unfolding methods
one-load = refl

one-lenient : one.strict ≡ false
unfolding methods
one-lenient = refl

one-IsFile : IsFile one.content
one-IsFile =
    (operations-IsFile iso (codes "2") (codes "2") (codes "routes/a") (codes "x\ty") 0 empty_table
      clock (omega arith) (omega arith) empty_table-IsFile).0

abbrev held : Dict Text Entry
held = (codes "routes/a", record { ts = codes "2"; value = codes "x\ty" }) ∷ []

write_lem_example :
    Leaves iso (write iso (codes "2") (codes "2") (codes "routes/a") (codes "x\ty") one) (λ k.
      if codes "routes/a" == k
      then some (record { ts = codes "2"; value = codes "x\ty" })
      else get held k)
write_lem_example =
    write_lem iso (codes "2") (codes "2") (codes "routes/a") (codes "x\ty") one held clock
      (omega arith) one-IsFile key-valid value-valid (omega arith) one-load

compact_keeps_example : Leaves iso (compact iso (codes "5") 1 one) (get held)
compact_keeps_example = compact_keeps iso (codes "5") 1 one held (omega arith) one-load

refuses_space :
    write iso (codes "2") (codes "2") (codes "a b") (codes "v") one ≡ (one, err invalid_key)
unfolding methods
refuses_space = refl

write_refused_example :
    ((¬ IsKey (codes "a b"))
      × (write iso (codes "2") (codes "2") (codes "a b") (codes "v") one ≡ (one, err invalid_key)))
    ⊎ ((IsKey (codes "a b")
          × (¬ IsValue (codes "v"))
          × (write iso (codes "2") (codes "2") (codes "a b") (codes "v") one
              ≡ (one, err invalid_value)))
        ⊎ (IsKey (codes "a b")
            × IsValue (codes "v")
            × (write iso (codes "2") (codes "2") (codes "a b") (codes "v") one
                ≡ maybe_compact iso (codes "2") (record one {
                  content = one.content ++ (codes "2\tset\ta b\tv" ++ codes "\n");
                }))))
write_refused_example = write_refused iso (codes "2") (codes "2") (codes "a b") (codes "v") one

operations-IsFile_example :
    IsFile (write iso (codes "2") (codes "2") (codes "k") (codes "v") one).0.content
    × IsFile (clear iso (codes "2") (codes "2") (codes "k") (codes "v") one).0.content
    × IsFile (delete iso (codes "2") (codes "2") (codes "k") (codes "v") one).0.content
    × IsFile (compact iso (codes "2") 0 one).0.content
operations-IsFile_example =
    operations-IsFile iso (codes "2") (codes "2") (codes "k") (codes "v") 0 one clock (omega arith)
      (omega arith) one-IsFile

-- A record of another key, to be smuggled in behind a `\r`.
abbrev smuggled : Row
smuggled = new_record (codes "9") (codes "system/x") (codes "w") set

smuggled-IsRow : IsRow iso smuggled
unfolding methods
smuggled-IsRow =
    new_record-IsRow set (codes "system/x") (codes "w")
      (record { moment = 9; dated = refl; no_mark = refl; part = omega arith; line = omega arith })
      refl refl (omega arith)

write_injects_example :
    Leaves iso
      (write iso (codes "2") (codes "2") (codes "k") (codes "v" ++ return ∷ encode smuggled) one)
      (get (apply (apply held (new_record (codes "2") (codes "k") (codes "v") set)) smuggled))
unfolding methods
write_injects_example =
    write_injects iso (codes "2") (codes "2") (codes "k") (codes "v") smuggled one held clock
      (omega arith) one-IsFile refl refl (omega arith) smuggled-IsRow one-load

parse_row-encode_example : parse_row iso (encode smuggled) ≡ some smuggled
parse_row-encode_example = parse_row-encode smuggled-IsRow
