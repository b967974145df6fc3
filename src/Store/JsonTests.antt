-- ===== src/Store/JsonTests.antt =====
-- JsonLogtabStore of kelso/lib/store.py at a concrete file. Timestamps are digits here.
use kelso.Common.{
  ℕ, ◌≡◌, refl, true, false, Option, none, some, [], arith, if◌then◌else◌, ◌==◌, eq_nat, eq_list,
}
use kelso.Common.Result.{ok}
use kelso.Common.Text.{Text, codes, isdigit, int, split_max, split, strip, join}
use kelso.LogTab.Row.{validate_key, validate_value, parse_row, read_operation, is_comment}
use kelso.LogTab.Table.{LogTab, init, load, header}
use kelso.LogTab.Writes.Laws.{IsNow}
use kelso.LogTab.Writes.Whole.{init-IsFile}
use kelso.Store.Json.{Json, null, text}
use kelso.Store.Config.{ConfigStore}
use kelso.Store.App.{
  setting_entry, set_config, config_is, get_config, setting_of, same_setting, write_config,
  stored_value,
}
use kelso.Store.App.Laws.{IsStored, set_config_lem}
use kelso.Store.Memory.{noop_crypto}
use kelso.Store.JsonStore.{Held, json_store, written_table, held_read}
use kelso.Store.Printer.{printer, flat, flat_text, flat_count}
use kelso.Store.JsonLogtab.{json_write, json_read, json_write_lem}

abbrev iso : Text → Option ℕ
iso s = if isdigit s then some (int s) else none

-- for the one text "x", which stands for itself
abbrev dumps_x : Json → Text
dumps_x v = codes "\"x\""

abbrev loads_x : Text → Json
loads_x s = if s == codes "\"x\"" then text (codes "x") else null

abbrev new_table : LogTab
new_table = init (codes "1") (codes "kelso") (codes "kelsodb.logtab") false 0 0

second : IsNow iso (codes "2")
second = record { moment = 2; dated = refl; no_mark = refl; part = omega arith; line = omega arith }

new_table-load : load iso none new_table ≡ ok []
unfolding init load header parse_row read_operation is_comment split split_max strip join
    validate_key validate_value
new_table-load = refl

key_valid : validate_key (codes "repo/main") ≡ true
unfolding validate_key
key_valid = refl

text_valid : validate_value (codes "\"x\"") ≡ true
unfolding validate_value
text_valid = refl

json_write_example :
    ((json_write iso dumps_x loads_x
        (codes "2")
        (codes "2")
        (codes "repo/main")
        (text (codes "x"))
        new_table).1
      ≡ ok tt)
    × ((j : Text)
        → json_read iso dumps_x loads_x j
            (json_write iso dumps_x loads_x
              (codes "2")
              (codes "2")
              (codes "repo/main")
              (text (codes "x"))
              new_table).0
          ≡ (if codes "repo/main" == j
              then ok (text (codes "x"))
              else json_read iso dumps_x loads_x j new_table))
json_write_example =
    json_write_lem iso dumps_x loads_x (codes "2") (codes "2") (codes "repo/main")
      (text (codes "x")) new_table [] second (omega arith)
      (init-IsFile (codes "1") (codes "kelso") (codes "kelsodb.logtab") false 0 0 (omega arith)
        (omega arith) (omega arith))
      key_valid text_valid (omega arith) refl new_table-load

abbrev Stored : Type 0
Stored = Held iso

-- the store of the program, on the printer
unfoldable store : ConfigStore Stored
store = json_store iso printer (codes "2") (codes "2") second (omega arith)

abbrev start : Stored
start = record {
  table = new_table;
  whole =
      init-IsFile (codes "1") (codes "kelso") (codes "kelsodb.logtab") false 0 0 (omega arith)
        (omega arith) (omega arith);
  lenient = unfold init in refl;
  entries = [];
  loads_as = new_table-load;
}

-- the entry of a secret, in the letters of the printer
unfoldable secret_entry : Json
secret_entry = setting_entry true (codes "s3")

config_key_valid : validate_key (codes "config/key") ≡ true
unfolding validate_key
config_key_valid = refl

secret_entry_valid : validate_value (printer.dumps secret_entry) ≡ true
unfolding validate_value printer flat secret_entry flat_text flat_count
secret_entry_valid = refl

-- the table with that entry
unfoldable stored : Stored
unfolding secret_entry store validate_key validate_value printer flat
stored =
    written_table iso printer (codes "2") (codes "2") second (omega arith) (codes "config/key")
      secret_entry start refl refl

-- The store that the program runs on has the laws that the clients use.
set_config_example : IsStored store noop_crypto (codes "key") true (codes "s3") start stored
unfolding store json_store held_read noop_crypto set_config config_is get_config setting_of
    same_setting write_config stored_value stored secret_entry validate_key validate_value printer
    flat
set_config_example =
    set_config_lem store noop_crypto (codes "key") true (codes "s3") start stored refl
