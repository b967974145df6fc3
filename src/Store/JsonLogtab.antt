-- ===== src/Store/JsonLogtab.antt =====
-- JsonLogtabStore of kelso/lib/store.py: JSON values in a logtab. `dumps` and `loads` stand for
-- json.dumps with the separators of the code and json.loads.
use kelso.Common.{
  ℕ, Bool, true, false, Option, none, some, [], ◌∷◌, if◌then◌else◌, ◌==◌, eq_nat, eq_list, ◌≡◌,
  refl, sym, ◌∙◌, ap, length, drop,
}
use kelso.Common.Result.{Result, ok, err, ◌>>=◌}
use kelso.Common.Text.{Text, codes, ends_with, Lacks}
use kelso.Common.Dict.{Dict, get}
use kelso.LogTab.Row.{validate_key, validate_value, return}
use kelso.LogTab.Row.RoundTrip.{IsLine}
use kelso.LogTab.Writes.Laws.{IsFile, IsNow, write_lem}
use kelso.LogTab.File.{Error}
use kelso.LogTab.Table.{LogTab, Entry, write, read, scan, clear, delete, load}
use kelso.Store.Json.{Json, null}

-- what goes wrong: in the table, or the prefix of a clear
pub data StoreError : Type 0 where
  table_error : Error → StoreError
  no_prefix : StoreError

module _ (fromisoformat : Text → Option ℕ) (dumps : Json → Text) (loads : Text → Json) where
  -- JsonLogtabStore.write
  unfoldable pub json_write :
      (now written key : Text) → Json → LogTab → LogTab × Result Error (Unit {0})
  unfolding write
  json_write now written key value t = write fromisoformat now written key (dumps value) t

  abbrev pub value_of : Option Entry → Json
  value_of none = null
  value_of (some entry) = loads entry.value

  -- JsonLogtabStore.read
  unfoldable pub json_read : Text → LogTab → Result Error Json
  unfolding read
  json_read key t = do entry ← read fromisoformat key t; ok (value_of entry)

  -- {k.removeprefix(prefix): json.loads(v.value) …}, of keys that start with the prefix
  unfoldable pub unprefixed : Text → Dict Text Entry → Dict Text Json
  unprefixed prefix [] = []
  unprefixed prefix ((k, entry) ∷ matches) =
      (drop (length prefix) k, loads entry.value) ∷ unprefixed prefix matches

  -- JsonLogtabStore.scan
  unfoldable pub json_scan : Text → Text → LogTab → Result Error (Dict Text Json)
  unfolding scan unprefixed
  json_scan prefix suffix t = do
    matches ← scan fromisoformat prefix suffix t
    ok (unprefixed prefix matches)

  -- JsonLogtabStore.clear, with the comment that the record carries
  unfoldable pub json_clear :
      (now written prefix comment : Text) → LogTab → LogTab × Result StoreError (Unit {0})
  unfolding clear
  json_clear now written prefix comment t =
      if ends_with prefix (codes "/")
      then (let cleared = clear fromisoformat now written prefix comment t in
          (cleared.0, table_result cleared.1))
      else (t, err no_prefix)
    where
      table_result : Result Error (Unit {0}) → Result StoreError (Unit {0})
      table_result (ok done) = ok done
      table_result (err e) = err (table_error e)

  -- JsonLogtabStore.delete
  unfoldable pub json_delete :
      (now written key comment : Text) → LogTab → LogTab × Result Error (Unit {0})
  unfolding delete
  json_delete now written key comment t = delete fromisoformat now written key comment t

  pub json_read_lem :
      (t : LogTab) (d : Dict Text Entry) (j : Text)
      → load fromisoformat none t ≡ ok d
      → json_read j t ≡ ok (value_of (get d j))
  unfolding json_read read
  json_read_lem t d j loaded = rw loaded refl

  overwrites :
      (b : Bool) (now written value : Text) (v : Json) (old : Option Entry)
      → loads value ≡ v
      → value_of (if b then some (record { ts = written; value = value }) else old)
        ≡ (if b then v else value_of old)
  overwrites true now written value v old round = round
  overwrites false now written value v old round = refl

  -- On a file of whole lines that loads, a JSON value whose text the table accepts is written: a
  -- read of its key gives the value back, and a read of another key what it gave before. The text is
  -- read back as the value, and holds no carriage return.
  pub json_write_lem :
      (now written key : Text) (v : Json) (t : LogTab) (d : Dict Text Entry)
      → IsNow fromisoformat written
      → IsLine now
      → IsFile t.content
      → validate_key key ≡ true
      → validate_value (dumps v) ≡ true
      → Lacks return (dumps v)
      → loads (dumps v) ≡ v
      → load fromisoformat none t ≡ ok d
      → ((json_write now written key v t).1 ≡ ok tt)
        × ((j : Text)
            → json_read j (json_write now written key v t).0
              ≡ (if key == j then ok v else json_read j t))
  unfolding json_write
  json_write_lem now written key v t d clock line f valid_key valid_value no_return round loaded =
      let left =
        write_lem fromisoformat now written key (dumps v) t d clock line f valid_key valid_value
          no_return loaded in
      (
        left.returns,
        λ j.
            json_read_lem _ left.table j left.loads
            ∙ ap (λ o. ok (value_of o)) (left.entries j)
            ∙ (ap ok (overwrites (key == j) now written (dumps v) v (get d j) round)
                ∙ (branch (key == j) (value_of (get d j))
                    ∙ ap (λ r. if key == j then ok v else r) (sym (json_read_lem t d j loaded)))),
      )
    where
      branch :
          (b : Bool) (w : Json)
          → ◌≡◌ {A = Result Error Json} (ok (if b then v else w)) (if b then ok v else ok w)
      branch true w = refl
      branch false w = refl
