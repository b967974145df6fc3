-- ===== src/LogTab/Writes/Whole.antt =====
-- Every method of a logtab leaves a file of whole lines (kelso/lib/logtab.py).
use kelso.Common.{
  ℕ, ◌≡◌, refl, ap, ◌∙◌, Bool, true, false, Option, none, List, [], ◌∷◌, ◌++◌, arith, if◌then◌else◌,
  Bool-cases, inl, inr, ◌&&◌, All, All-append, map, eq_nat, eq_list, length, ltb,
}
use kelso.Common.Result.{Result, ok, err}
use kelso.Common.Text.{Text, codes, Lacks, is_empty}
use kelso.Common.Dict.{Dict, has}
use kelso.LogTab.Row.{
  Row, Operation, set, del, clr, encode, newline, return, validate_key, validate_value,
}
use kelso.LogTab.Row.RoundTrip.{IsLine, IsLine-append, IsRow, encode-IsLine}
use kelso.LogTab.File.{Error, write_entry}
use kelso.LogTab.File.Lines.{unlines-snoc}
use kelso.LogTab.Table.{
  Entry, LogTab, header, init, load, compacted, compact_text, rewrite, add_entry, delete_held,
  compact, maybe_compact, write, clear, delete, st_size,
}
use kelso.LogTab.Compact.Keeps.{rows_of, rows_of-IsRow, encode-All}
use kelso.LogTab.Compact.Writable.{compacted-IsRow}
use kelso.LogTab.Writes.Laws.{IsFile, IsNow, new_record, new_record-IsRow}

-- A new table's file is whole lines.
pub init-IsFile :
    (now title name : Text) (strict : Bool) (size history : ℕ)
    → IsLine now
    → IsLine title
    → IsLine name
    → IsFile (init now title name strict size history).content
unfolding init header
init-IsFile now title name strict size history n t m = record {
  ls = if is_empty title then rest else (codes "# " ++ title) ∷ rest;
  whole = refl;
  each = by_title (is_empty title);
}
  where
    rest : List Text
    rest =
        (codes "# " ++ (name ++ (codes ", created " ++ now)))
        ∷ codes "# Format: <date>\\t<set|del|clr>\\t<key>\\t<value>\\n"
        ∷ []

    rest-All : All IsLine rest
    rest-All = (
      IsLine-append (codes "# ") _ (omega arith)
          (IsLine-append name _ m (IsLine-append (codes ", created ") now (omega arith) n)),
      (omega arith, tt),
    )

    by_title : (b : Bool) → All IsLine (if b then rest else (codes "# " ++ title) ∷ rest)
    by_title true = rest-All
    by_title false = (IsLine-append (codes "# ") title (omega arith) t, rest-All)

module _ (fromisoformat : Text → Option ℕ) where
  compact_text-IsFile :
      (now : Text) (rows : List Row)
      → IsLine now
      → All (IsRow fromisoformat) rows
      → IsFile (compact_text now rows)
  unfolding compact_text
  compact_text-IsFile now rows n h = record {
    ls =
        (codes "# Compacted logtab at " ++ now)
        ∷ codes "# Format: <date>\\t<set|del|clr>\\t<key>\\t<value>\\n"
        ∷ (map encode rows ++ codes "# end compacted entries" ∷ []);
    whole = refl;
    each = (
      IsLine-append (codes "# Compacted logtab at ") now (omega arith) n,
      (
        omega arith,
        All-append IsLine (map encode rows) _ (encode-All fromisoformat rows h) (omega arith),
      ),
    );
  }

  pub compact-IsFile :
      (now : Text) (history : ℕ) (t : LogTab)
      → IsLine now
      → IsFile t.content
      → IsFile (compact fromisoformat now history t).0.content
  unfolding compact
  compact-IsFile now history t n f = by_rows (rows_of fromisoformat t) refl
    where
      by_test :
          (b : Bool) (rows : List Row)
          → All (IsRow fromisoformat) rows
          → IsFile
              (if b
                then t
                else record t { content = compact_text now (compacted history rows) }).content
      by_test true rows h = f
      by_test false rows h =
          compact_text-IsFile now _ n (compacted-IsRow fromisoformat history rows h)

      by_rows :
          (c : Result Error (List Row))
          → rows_of fromisoformat t ≡ c
          → IsFile (rewrite now history t c).0.content
      by_rows (err e) p = unfold rewrite in f
      by_rows (ok rows) p =
          unfold rewrite in
          by_test (ltb 0 history && ltb (length rows) history) rows
            (rows_of-IsRow fromisoformat t rows p)

  maybe_compact-IsFile :
      (now : Text) (t : LogTab)
      → IsLine now
      → IsFile t.content
      → IsFile (maybe_compact fromisoformat now t).0.content
  unfolding maybe_compact
  maybe_compact-IsFile now t n f =
      elim (Bool-cases (ltb 0 t.compact_size && ltb t.compact_size (st_size t.content))) [
        | inl big ↦ rw big (compact-IsFile now t.compact_history t n f)
        | inr small ↦ rw small f
      ]

  module _ (now written key value : Text) (t : LogTab) (clock : IsNow fromisoformat written)
      (line : IsLine now) (no_return : Lacks return value) (f : IsFile t.content) where
    appended-IsFile :
        (op : Operation)
        → validate_key key ≡ true
        → validate_value value ≡ true
        → IsFile (t.content ++ (encode (new_record written key value op) ++ newline ∷ []))
    appended-IsFile op k v = record {
      ls = f.ls ++ encode (new_record written key value op) ∷ [];
      whole =
          ap (λ c. c ++ (encode (new_record written key value op) ++ newline ∷ [])) f.whole
          ∙ unlines-snoc f.ls (encode (new_record written key value op));
      each =
          All-append IsLine f.ls _ f.each
            (encode-IsLine (new_record-IsRow op key value clock k v no_return), tt);
    }

    pub add_entry-IsFile :
        (op : Operation) → IsFile (add_entry fromisoformat now written op key value t).0.content
    unfolding add_entry write_entry
    add_entry-IsFile op = elim (Bool-cases (validate_key key)) [
      | inr k ↦ rw k f
      | inl k ↦ elim (Bool-cases (validate_value value)) [
        | inr v ↦ rw (k, v) f
        | inl v ↦ rw (k, v) (maybe_compact-IsFile now _ line (appended-IsFile op k v))
      ]
    ]

    delete-IsFile : IsFile (delete fromisoformat now written key value t).0.content
    unfolding delete
    delete-IsFile = elim (Bool-cases t.strict) [
      | inr lenient ↦ simp lenient (add_entry-IsFile del)
      | inl strict ↦ simp strict (held (load fromisoformat none t))
    ]
      where
        held :
            (c : Result Error (Dict Text Entry))
            → IsFile (delete_held fromisoformat now written key value t c).0.content
        held (err e) = f
        held (ok table) = elim (Bool-cases (has table key)) [
          | inl h ↦ rw h (add_entry-IsFile del)
          | inr h ↦ rw h f
        ]

  -- A file of whole lines stays one under `write`, `clear`, `delete` and `compact`, whether they
  -- return or raise, if the clock reads as a timestamp and the value or comment has no `\r`.
  pub operations-IsFile :
      (now written key value : Text) (history : ℕ) (t : LogTab)
      → IsNow fromisoformat written
      → IsLine now
      → Lacks return value
      → IsFile t.content
      → IsFile (write fromisoformat now written key value t).0.content
        × IsFile (clear fromisoformat now written key value t).0.content
        × IsFile (delete fromisoformat now written key value t).0.content
        × IsFile (compact fromisoformat now history t).0.content
  operations-IsFile now written key value history t c n r f = (
    unfold write in add_entry-IsFile now written key value t c n r f set,
    unfold clear in add_entry-IsFile now written key value t c n r f clr,
    delete-IsFile now written key value t c n r f,
    compact-IsFile now history t n f,
  )

  -- What the table was made for stays as it was.
  maybe_compact-strict :
      (now : Text) (t : LogTab) → (maybe_compact fromisoformat now t).0.strict ≡ t.strict
  unfolding maybe_compact compact
  maybe_compact-strict now t =
      elim (Bool-cases (ltb 0 t.compact_size && ltb t.compact_size (st_size t.content))) [
        | inl big ↦ rw big (by_rows (rows_of fromisoformat t))
        | inr small ↦ rw small refl
      ]
    where
      by_rows :
          (c : Result Error (List Row)) → (rewrite now t.compact_history t c).0.strict ≡ t.strict
      by_rows (err e) = unfold rewrite in refl
      by_rows (ok rows) =
          unfold rewrite in by_test (ltb 0 t.compact_history && ltb (length rows) t.compact_history)
        where
          by_test :
              (b : Bool)
              → (if b then t else record t {
                content = compact_text now (compacted t.compact_history rows);
              }).strict
                ≡ t.strict
          by_test true = refl
          by_test false = refl

  pub add_entry-strict :
      (now written key value : Text) (t : LogTab) (op : Operation)
      → (add_entry fromisoformat now written op key value t).0.strict ≡ t.strict
  unfolding add_entry write_entry
  add_entry-strict now written key value t op = elim (Bool-cases (validate_key key)) [
    | inr k ↦ rw k refl
    | inl k ↦ elim (Bool-cases (validate_value value)) [
      | inr v ↦ rw (k, v) refl
      | inl v ↦
          rw (k, v)
            (maybe_compact-strict now (record t {
              content = t.content ++ (encode (new_record written key value op) ++ newline ∷ []);
            }))
    ]
  ]

  pub delete-strict :
      (now written key value : Text) (t : LogTab)
      → t.strict ≡ false
      → (delete fromisoformat now written key value t).0.strict ≡ false
  unfolding delete
  delete-strict now written key value t lenient =
      simp lenient (add_entry-strict now written key value t del ∙ lenient)
