-- ===== src/Store/JsonStore/Code.antt =====
-- The operations of json_store, on a table that loads, are the methods of JsonLogtabStore
-- (kelso/lib/store.py).
use kelso.Common.{
  ℕ, Bool, true, false, Option, [], ◌∷◌, eq_nat, eq_list, ◌≡◌, refl, sym, ap, ◌∙◌, subst, not,
  Bool-cases, inl, inr,
}
use kelso.Common.Result.{Result, ok}
use kelso.Common.Text.{Text, codes, starts_with, ends_with}
use kelso.Common.Dict.{Dict, pop_where}
use kelso.LogTab.Row.{validate_key, validate_value}
use kelso.LogTab.Row.RoundTrip.{IsLine}
use kelso.LogTab.Writes.Laws.{IsNow}
use kelso.LogTab.Table.{Entry, scan, matches, check_affix}
use kelso.LogTab.File.{Error as Table_error}
use kelso.Store.Json.{Json}
use kelso.Store.JsonLogtab.{
  json_write, json_read, json_scan, json_clear, json_delete, unprefixed, json_read_lem,
}
use kelso.Store.Memory.{scan_dict}
use kelso.Store.JsonStore.{
  JsonLibrary, Held, held_after, held_read, held_scan, jsons, get-jsons, write_by, write_out,
  write_left, written_table, clear_by, clear_out, clear_left, whole_files, clear_strict, delete_by,
  delete_out, delete_left, delete_strict,
}

module _ (fromisoformat : Text → Option ℕ) (json : JsonLibrary) (now written : Text)
    (clock : IsNow fromisoformat written) (line : IsLine now) where
  -- A read is the one that the code makes on the table.
  held_read-json_read :
      (k : Text) (s : Held fromisoformat)
      → json_read fromisoformat json.dumps json.loads k s.table
        ≡ ok (held_read fromisoformat json now written clock line k s)
  unfolding held_read
  held_read-json_read k s =
      json_read_lem fromisoformat json.dumps json.loads s.table s.entries k s.loads_as
      ∙ ap (λ (v : Json). ok v)
          (sym (get-jsons fromisoformat json now written clock line s.entries k))

  -- A scan without a suffix is the one that the code makes on the table.
  scan_dict-unprefixed :
      (p : Text) (d : Dict Text Entry)
      → unprefixed fromisoformat json.dumps json.loads p
          (pop_where (λ (k : Text). not (matches fromisoformat p [] k)) d)
        ≡ scan_dict p (jsons fromisoformat json now written clock line d)
  unfolding scan_dict unprefixed pop_where ends_with
  scan_dict-unprefixed p [] = refl
  scan_dict-unprefixed p ((k, e) ∷ d) = elim (Bool-cases (starts_with k p)) [
    | inl has ↦ rw (has, scan_dict-unprefixed p d) refl
    | inr lacks ↦ rw (lacks, scan_dict-unprefixed p d) refl
  ]

  held_scan-json_scan :
      (p : Text) (s : Held fromisoformat)
      → check_affix fromisoformat p ≡ ok tt
      → json_scan fromisoformat json.dumps json.loads p [] s.table
        ≡ ok (held_scan fromisoformat json now written clock line p s)
  unfolding json_scan scan held_scan
  held_scan-json_scan p s valid =
      rw (valid, s.loads_as) (ap (λ (d : Dict Text Json). ok d) (scan_dict-unprefixed p s.entries))

  module _ (k : Text) (v : Json) (s : Held fromisoformat) where
    -- A write that returns is the one that the code makes on the table.
    write_by-json_write :
        (a d : Bool) (p : validate_key k ≡ a) (q : validate_value (json.dumps v) ≡ d)
        (t : Held fromisoformat)
        → write_by fromisoformat json now written clock line k v s a d p q ≡ ok t
        → json_write fromisoformat json.dumps json.loads now written k v s.table ≡ (t.table, ok tt)
    write_by-json_write false d p q t h = cc h
    write_by-json_write true false p q t h = cc h
    write_by-json_write true true p q t h =
        subst
          (λ (u : Held fromisoformat).
            write_out fromisoformat json now written clock line k v s p q ≡ (u.table, ok tt))
          {x = written_table fromisoformat json now written clock line k v s p q} {y = t} (cc h)
          (ap
            (λ (r : Result Table_error (Unit {0})).
              ((write_out fromisoformat json now written clock line k v s p q).0, r))
            (write_left fromisoformat json now written clock line k v s p q).returns)

  module _ (k : Text) (s : Held fromisoformat) where
    -- A clear that returns is the one that the code makes on the table.
    clear_by-json_clear :
        (slash a : Bool) (p : validate_key k ≡ a) (t : Held fromisoformat)
        → ends_with k (codes "/") ≡ slash
        → clear_by fromisoformat json now written clock line k s slash a p ≡ ok t
        → json_clear fromisoformat json.dumps json.loads now written k [] s.table ≡ (t.table, ok tt)
    unfolding json_clear
    clear_by-json_clear false a p t e h = cc h
    clear_by-json_clear true false p t e h = cc h
    clear_by-json_clear true true p t e h =
        subst
          (λ (u : Held fromisoformat).
            json_clear fromisoformat json.dumps json.loads now written k [] s.table
            ≡ (u.table, ok tt))
          {x = held_after fromisoformat json now written clock line
            (clear_out fromisoformat json now written clock line k s p) _
            (clear_left fromisoformat json now written clock line k s p)
            (whole_files fromisoformat json now written clock line k s p).0
            (clear_strict fromisoformat json now written clock line k s p)}
          {y = t} (cc h)
          (rw (e, (clear_left fromisoformat json now written clock line k s p).returns) refl)

    -- A delete that returns is the one that the code makes on the table.
    delete_by-json_delete :
        (a : Bool) (p : validate_key k ≡ a) (t : Held fromisoformat)
        → delete_by fromisoformat json now written clock line k s a p ≡ ok t
        → json_delete fromisoformat json.dumps json.loads now written k [] s.table
          ≡ (t.table, ok tt)
    delete_by-json_delete false p t h = cc h
    delete_by-json_delete true p t h =
        subst
          (λ (u : Held fromisoformat).
            delete_out fromisoformat json now written clock line k s p ≡ (u.table, ok tt))
          {x = held_after fromisoformat json now written clock line
            (delete_out fromisoformat json now written clock line k s p) _
            (delete_left fromisoformat json now written clock line k s p)
            (whole_files fromisoformat json now written clock line k s p).1
            (delete_strict fromisoformat json now written clock line k s p)}
          {y = t} (cc h)
          (ap
            (λ (r : Result Table_error (Unit {0})).
              ((delete_out fromisoformat json now written clock line k s p).0, r))
            (delete_left fromisoformat json now written clock line k s p).returns)
