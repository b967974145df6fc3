-- ===== src/Store/JsonStore.antt =====
-- JsonLogtabStore of kelso/lib/store.py as a ConfigStore: the states are the tables whose file is of
-- whole lines and loads, which every operation keeps. The clock is read at one time.
mod Code
use kelso.Common.{
  ℕ, Bool, true, false, Option, none, some, [], ◌∷◌, ◌++◌, map, if◌then◌else◌, ◌==◌, eq_nat,
  eq_list, ◌≡◌, refl, sym, ap, ◌∙◌, subst, not, Bool-cases, inl, inr,
}
use kelso.Common.Result.{Result, ok, err}
use kelso.Common.Text.{Text, codes, starts_with, ends_with, Lacks}
use kelso.Common.Dict.{Dict, get, pop_where}
use kelso.LogTab.Row.{set, clr, validate_key, validate_value, return}
use kelso.LogTab.Row.RoundTrip.{IsLine}
use kelso.LogTab.Writes.Laws.{IsFile, IsNow, write_lem, clear_lem, delete_lem}
use kelso.LogTab.Writes.Whole.{operations-IsFile, add_entry-strict, delete-strict}
use kelso.LogTab.Compact.Keeps.{Leaves}
use kelso.LogTab.Table.{LogTab, Entry, load, scan, matches, check_affix, write, clear}
use kelso.LogTab.File.{Error as Table_error}
use kelso.Store.Json.{Json, null}
use kelso.Store.JsonLogtab.{
  json_write, json_read, json_scan, json_clear, json_delete, unprefixed, value_of, json_read_lem,
}
use kelso.Store.Memory.{scan_dict, get-scan_dict}
use kelso.Store.Config.{Error, not_writable, bad_prefix, or_null, ConfigStore}

-- json.dumps and json.loads: a text is read back as the value, and no text holds a carriage return.
pub record JsonLibrary : Type 0 where
  pub dumps : Json → Text
  pub loads : Text → Json
  pub loads-dumps : (v : Json) → loads (dumps v) ≡ v
  pub no_return : (v : Json) → Lacks return (dumps v)

-- A table whose file is of whole lines, that is not strict, and that loads.
pub record Held (fromisoformat : Text → Option ℕ) : Type 0 where
  pub table : LogTab
  pub whole : IsFile table.content
  pub lenient : table.strict ≡ false
  pub entries : Dict Text Entry
  pub loads_as : load fromisoformat none table ≡ ok entries

-- the table and the result of an operation, where it returned
abbrev Out : Type 0
Out = LogTab × Result Table_error (Unit {0})

module _ (fromisoformat : Text → Option ℕ) (json : JsonLibrary) (now written : Text)
    (clock : IsNow fromisoformat written) (line : IsLine now) where
  abbrev State : Type 0
  State = Held fromisoformat

  abbrev held_after :
      (out : Out) (at : Text → Option Entry)
      → Leaves fromisoformat out at
      → IsFile out.0.content
      → out.0.strict ≡ false
      → State
  held_after out at left f strict = record {
    table = out.0;
    whole = f;
    lenient = strict;
    entries = left.table;
    loads_as = left.loads;
  }

  abbrev jsons : Dict Text Entry → Dict Text Json
  jsons d = map (λ (item : Text × Entry). (item.0, json.loads (item.1).value)) d

  abbrev value_at : Option Entry → Json
  value_at = value_of fromisoformat json.dumps json.loads

  -- JsonLogtabStore.read and scan, of a table that loads
  unfoldable pub held_read : Text → State → Json
  unfolding get
  held_read k s = or_null (get (jsons s.entries) k)

  unfoldable pub held_scan : Text → State → Dict Text Json
  unfolding scan_dict
  held_scan p s = scan_dict p (jsons s.entries)

  get-jsons : (d : Dict Text Entry) (k : Text) → or_null (get (jsons d) k) ≡ value_at (get d k)
  unfolding get
  get-jsons [] k = refl
  get-jsons ((j, e) ∷ d) k = elim (Bool-cases (j == k)) [
    | inl same ↦ rw same refl
    | inr other ↦ rw other (get-jsons d k)
  ]

  -- What a read gives after an operation, by what the operation leaves.
  left_read :
      (out : Out) (at : Text → Option Entry) (left : Leaves fromisoformat out at)
      (f : IsFile out.0.content) (strict : out.0.strict ≡ false) (j : Text)
      → held_read j (held_after out at left f strict) ≡ value_at (at j)
  unfolding held_read
  left_read out at left f strict j = get-jsons left.table j ∙ ap value_at (left.entries j)

  kept_after :
      (out : Out) (at : Text → Option Entry) (left : Leaves fromisoformat out at)
      (f : IsFile out.0.content) (strict : out.0.strict ≡ false) (t : State) (j : Text)
      → ◌≡◌ {A = Result Error State} (ok (held_after out at left f strict)) (ok t)
      → held_read j t ≡ value_at (at j)
  kept_after out at left f strict t j h =
      subst (λ (u : State). held_read j u ≡ value_at (at j)) (cc h)
        (left_read out at left f strict j)

  value_written :
      (b : Bool) (v : Json) (j : Text) (s : State)
      → value_at
          (if b then some (record { ts = written; value = json.dumps v }) else get s.entries j)
        ≡ (if b then v else held_read j s)
  unfolding held_read
  value_written true v j s = json.loads-dumps v
  value_written false v j s = sym (get-jsons s.entries j)

  value_dropped :
      (b : Bool) (j : Text) (s : State)
      → value_at (if b then none else get s.entries j) ≡ (if b then null else held_read j s)
  unfolding held_read
  value_dropped true j s = refl
  value_dropped false j s = sym (get-jsons s.entries j)

  module _ (k : Text) (v : Json) (s : State) where
    module _ (a : validate_key k ≡ true) (d : validate_value (json.dumps v) ≡ true) where
      abbrev write_out : Out
      write_out = json_write fromisoformat json.dumps json.loads now written k v s.table

      pub write_left : Leaves fromisoformat write_out (λ j.
          if k == j then some (record { ts = written; value = json.dumps v }) else get s.entries j)
      unfolding json_write
      write_left =
          write_lem fromisoformat now written k (json.dumps v) s.table s.entries clock line s.whole
            a d (json.no_return v) s.loads_as

      pub write_whole : IsFile write_out.0.content
      unfolding json_write
      write_whole =
          (operations-IsFile fromisoformat now written k (json.dumps v) 0 s.table clock line
            (json.no_return v) s.whole).0

      pub write_strict : write_out.0.strict ≡ false
      unfolding json_write write
      write_strict =
          add_entry-strict fromisoformat now written k (json.dumps v) s.table set ∙ s.lenient

      abbrev pub written_table : State
      written_table = held_after write_out _ write_left write_whole write_strict

    -- JsonLogtabStore.write
    abbrev write_by :
        (a d : Bool) → validate_key k ≡ a → validate_value (json.dumps v) ≡ d → Result Error State
    write_by false d p q = err not_writable
    write_by true false p q = err not_writable
    write_by true true p q = ok (written_table p q)

    pub write_by_lem :
        (a d : Bool) (p : validate_key k ≡ a) (q : validate_value (json.dumps v) ≡ d) (t : State)
        (j : Text)
        → write_by a d p q ≡ ok t
        → held_read j t ≡ (if k == j then v else held_read j s)
    write_by_lem false d p q t j h = cc h
    write_by_lem true false p q t j h = cc h
    write_by_lem true true p q t j h =
        kept_after (write_out p q) _ (write_left p q) (write_whole p q) (write_strict p q) t j h
        ∙ value_written (k == j) v j s

  module _ (k : Text) (s : State) where
    module _ (a : validate_key k ≡ true) where
      abbrev clear_out : Out
      clear_out = clear fromisoformat now written k [] s.table

      abbrev delete_out : Out
      delete_out = json_delete fromisoformat json.dumps json.loads now written k [] s.table

      pub clear_left :
          Leaves fromisoformat clear_out (λ j. if starts_with j k then none else get s.entries j)
      unfolding validate_value
      clear_left =
          clear_lem fromisoformat now written k [] s.table s.entries clock line s.whole a refl tt
            s.loads_as

      pub delete_left :
          Leaves fromisoformat delete_out (λ j. if k == j then none else get s.entries j)
      unfolding json_delete validate_value
      delete_left =
          delete_lem fromisoformat now written k [] s.table s.entries clock line s.whole a refl tt
            s.loads_as (inl s.lenient)

      pub whole_files : IsFile clear_out.0.content × IsFile delete_out.0.content
      unfolding json_delete
      whole_files =
          let kept =
            operations-IsFile fromisoformat now written k [] 0 s.table clock line tt s.whole in
          (kept.1, kept.2)

      pub clear_strict : clear_out.0.strict ≡ false
      unfolding clear
      clear_strict = add_entry-strict fromisoformat now written k [] s.table clr ∙ s.lenient

      pub delete_strict : delete_out.0.strict ≡ false
      unfolding json_delete
      delete_strict = delete-strict fromisoformat now written k [] s.table s.lenient

    -- JsonLogtabStore.clear
    abbrev clear_by : (slash a : Bool) → validate_key k ≡ a → Result Error State
    clear_by false a p = err bad_prefix
    clear_by true false p = err not_writable
    clear_by true true p =
        ok (held_after (clear_out p) _ (clear_left p) (whole_files p).0 (clear_strict p))

    pub clear_by_lem :
        (slash a : Bool) (p : validate_key k ≡ a) (t : State) (j : Text)
        → clear_by slash a p ≡ ok t
        → held_read j t ≡ (if starts_with j k then null else held_read j s)
    clear_by_lem false a p t j h = cc h
    clear_by_lem true false p t j h = cc h
    clear_by_lem true true p t j h =
        kept_after (clear_out p) _ (clear_left p) (whole_files p).0 (clear_strict p) t j h
        ∙ value_dropped (starts_with j k) j s

    -- JsonLogtabStore.delete
    abbrev delete_by : (a : Bool) → validate_key k ≡ a → Result Error State
    delete_by false p = err not_writable
    delete_by true p =
        ok (held_after (delete_out p) _ (delete_left p) (whole_files p).1 (delete_strict p))

    pub delete_by_lem :
        (a : Bool) (p : validate_key k ≡ a) (t : State) (j : Text)
        → delete_by a p ≡ ok t
        → held_read j t ≡ (if k == j then null else held_read j s)
    delete_by_lem false p t j h = cc h
    delete_by_lem true p t j h =
        kept_after (delete_out p) _ (delete_left p) (whole_files p).1 (delete_strict p) t j h
        ∙ value_dropped (k == j) j s

  pub held_scan_lem :
      (p j : Text) (s : State) → or_null (get (held_scan p s) j) ≡ held_read (p ++ j) s
  unfolding held_scan held_read
  held_scan_lem p j s = ap or_null (get-scan_dict p j (jsons s.entries))

  -- The store of the program, with the laws that its clients rely on.
  unfoldable pub json_store : ConfigStore State
  unfolding held_read held_scan
  json_store = record {
    write = λ k v s. write_by k v s (validate_key k) (validate_value (json.dumps v)) refl refl;
    read = held_read;
    scan = held_scan;
    clear = λ p s. clear_by p s (ends_with p (codes "/")) (validate_key p) refl;
    delete = λ k s. delete_by k s (validate_key k) refl;
    read-write = λ k j v s t h.
        write_by_lem k v s (validate_key k) (validate_value (json.dumps v)) refl refl t j h;
    read-clear =
        λ p j s t h. clear_by_lem p s (ends_with p (codes "/")) (validate_key p) refl t j h;
    read-delete = λ k j s t h. delete_by_lem k s (validate_key k) refl t j h;
    scan-read = held_scan_lem;
  }
