-- ===== src/LogTab/Compact/Keeps.antt =====
-- The file that `compact` writes is read as the same table.
use mathlib.Core.List.{foldl}
use kelso.Common.{
  ℕ, ◌≡◌, refl, sym, ap, ◌∙◌, subst, Bool, true, false, Option, none, some, List, [], ◌∷◌, ◌++◌,
  arith, if◌then◌else◌, inl, inr, Bool-cases, All, All-append, eq_nat, eq_list, map, ltb, length,
  ◌&&◌,
}
use kelso.Common.Result.{Result, ok, err, ◌>>=◌, ok_of_bind}
use kelso.Common.Text.{Text, codes, starts_with}
use kelso.Common.Dict.{Dict, get}
use kelso.LogTab.Row.{Row, encode, parse_row, is_comment}
use kelso.LogTab.Row.RoundTrip.{
  IsLine, IsLine-append, IsRow, parse_row-encode, encode-IsLine, encode-not-comment, parse_row-inv,
}
use kelso.LogTab.File.{Error, lines, yield_row, records_of, records}
use kelso.LogTab.File.Lines.{lines-unlines, lines-IsLine}
use kelso.LogTab.Table.{
  Entry, LogTab, apply, collect, compacted, compact_text, load_from, load, compact,
}
use kelso.LogTab.Compact.Rows.{compacted-effect}
use kelso.LogTab.Compact.Writable.{compacted-IsRow}

module _ (fromisoformat : Text → Option ℕ) where
  abbrev pub rows_of : LogTab → Result Error (List Row)
  rows_of t = collect (records fromisoformat t.strict t.content)

  pub load_from-collect :
      (xs : List (Result Error Row)) (d : Dict Text Entry)
      → load_from fromisoformat none d xs ≡ (do rows ← collect xs; ok (foldl apply d rows))
  unfolding load_from collect
  load_from-collect [] d = refl
  load_from-collect (err e ∷ xs) d = refl
  load_from-collect (ok r ∷ xs) d = load_from-collect xs (apply d r) ∙ again (collect xs)
    where
      again :
          (c : Result Error (List Row))
          → (do rows ← c; ok (foldl apply (apply d r) rows))
            ≡ (do rows ← (do rest ← c; ok (r ∷ rest)); ok (foldl apply d rows))
      again (ok rows) = refl
      again (err e) = refl

  abbrev AreRows : Result Error (List Row) → Type 0
  AreRows (ok rows) = All (IsRow fromisoformat) rows
  AreRows (err e) = Unit

  AreRows-cons :
      (r : Row) (c : Result Error (List Row))
      → IsRow fromisoformat r
      → AreRows c
      → AreRows (do rows ← c; ok (r ∷ rows))
  AreRows-cons r (ok rows) h a = (h, a)
  AreRows-cons r (err e) h a = tt

  yield_row-AreRows :
      (strict : Bool) (m : Option Row) (later : List (Result Error Row))
      → ((r : Row) → m ≡ some r → IsRow fromisoformat r)
      → AreRows (collect later)
      → AreRows (collect (yield_row strict m later))
  unfolding collect
  yield_row-AreRows strict (some r) later h a = AreRows-cons r (collect later) (h r refl) a
  yield_row-AreRows true none later h a = tt
  yield_row-AreRows false none later h a = a

  -- A row that comes from a file is one that may be written.
  records_of-AreRows :
      (strict : Bool) (ls : List Text)
      → All IsLine ls
      → AreRows (collect (records_of fromisoformat strict ls))
  unfolding records_of
  records_of-AreRows strict [] h = unfold collect in tt
  records_of-AreRows strict (l ∷ ls) h = elim (Bool-cases (is_comment l)) [
    | inl skip ↦ rw skip (records_of-AreRows strict ls h.1)
    | inr line ↦ rw line (
        yield_row-AreRows strict (parse_row fromisoformat l) (records_of fromisoformat strict ls)
          (λ r e. (parse_row-inv fromisoformat l r h.0 (no_mark line) e).0)
          (records_of-AreRows strict ls h.1))
  ]
    where
      no_mark : is_comment l ≡ false → starts_with l (codes "#") ≡ false
      no_mark n = unfold is_comment in ground arith

  pub rows_of-IsRow :
      (t : LogTab) (rows : List Row) → rows_of t ≡ ok rows → All (IsRow fromisoformat) rows
  unfolding records
  rows_of-IsRow t rows e =
      subst AreRows e (records_of-AreRows t.strict (lines t.content) (lines-IsLine t.content))

  -- Writable rows, each on its line, are read back.
  module _ (strict : Bool) where
    pub records_of-encode :
        (rows : List Row) (rest : List Text)
        → All (IsRow fromisoformat) rows
        → records_of fromisoformat strict (map encode rows ++ rest)
          ≡ map ok rows ++ records_of fromisoformat strict rest
    unfolding records_of
    records_of-encode [] rest h = refl
    records_of-encode (r ∷ rows) rest h =
        rw (encode-not-comment h.0, parse_row-encode h.0)
          (ap (λ xs. ok r ∷ xs) (records_of-encode rows rest h.1))

  pub encode-All : (rows : List Row) → All (IsRow fromisoformat) rows → All IsLine (map encode rows)
  encode-All [] h = tt
  encode-All (r ∷ rows) h = (encode-IsLine h.0, encode-All rows h.1)

  collect-map : (rows : List Row) → collect (map ok rows ++ []) ≡ ok rows
  unfolding collect
  collect-map [] = refl
  collect-map (r ∷ rows) = rw (collect-map rows)

  abbrev title : Text → Text
  title now = codes "# Compacted logtab at " ++ now

  abbrev format : Text
  format = codes "# Format: <date>\\t<set|del|clr>\\t<key>\\t<value>\\n"

  abbrev last : Text
  last = codes "# end compacted entries"

  compact_text-lines :
      (now : Text) (rows : List Row)
      → IsLine now
      → All (IsRow fromisoformat) rows
      → lines (compact_text now rows) ≡ title now ∷ format ∷ (map encode rows ++ last ∷ [])
  unfolding compact_text
  compact_text-lines now rows n h = lines-unlines _ (
    IsLine-append (codes "# Compacted logtab at ") now (omega arith) n,
    (
      omega arith,
      All-append IsLine (map encode rows) (last ∷ []) (encode-All rows h) (omega arith),
    ),
  )

  pub collect-compact_text :
      (strict : Bool) (now : Text) (rows : List Row)
      → IsLine now
      → All (IsRow fromisoformat) rows
      → collect (records fromisoformat strict (compact_text now rows)) ≡ ok rows
  unfolding records is_comment
  collect-compact_text strict now rows n h =
      rw (compact_text-lines now rows n h)
        (ap collect (records_of-encode strict rows (last ∷ []) h) ∙ collect-map rows)

  -- What `load` returns, by the rows of the file.
  pub load-rows :
      (t : LogTab) → load fromisoformat none t ≡ (do rows ← rows_of t; ok (foldl apply [] rows))
  unfolding load
  load-rows t = load_from-collect (records fromisoformat t.strict t.content) []

  -- A method returned, and the table that it left is as described.
  pub record Leaves (out : LogTab × Result Error (Unit {0})) (at : Text → Option Entry)
      : Type 0 where
    pub returns : out.1 ≡ ok tt
    pub table : Dict Text Entry
    pub loads : load fromisoformat none out.0 ≡ ok table
    pub entries : (k : Text) → get table k ≡ at k

  load_rewritten :
      (now : Text) (history : ℕ) (t : LogTab) (rows : List Row)
      → IsLine now
      → All (IsRow fromisoformat) rows
      → load fromisoformat none (record t { content = compact_text now (compacted history rows) })
        ≡ ok (foldl apply [] (compacted history rows))
  load_rewritten now history t rows n h =
      load-rows _
      ∙ ap (λ c. c >>= λ rows. ok (foldl apply [] rows))
          (collect-compact_text t.strict now (compacted history rows) n
            (compacted-IsRow fromisoformat history rows h))

  -- Compaction keeps the entry of every key, with any history, of a file with malformed lines too.
  pub compact_keeps :
      (now : Text) (history : ℕ) (t : LogTab) (d : Dict Text Entry)
      → IsLine now
      → load fromisoformat none t ≡ ok d
      → Leaves (compact fromisoformat now history t) (get d)
  unfolding compact
  compact_keeps now history t d n e =
      let (rows, c, f) = ok_of_bind (rows_of t) _ (sym (load-rows t) ∙ e) in
      rw c (by_test rows c (ok-injective f) (ltb 0 history && ltb (length rows) history))
    where
      ok-injective : {A : Type 0} {a b : A} → ◌≡◌ {A = Result Error A} (ok a) (ok b) → a ≡ b
      ok-injective p = cc

      by_test :
          (rows : List Row)
          → rows_of t ≡ ok rows
          → foldl apply [] rows ≡ d
          → (b : Bool)
          → Leaves
              (
                if b then t else record t { content = compact_text now (compacted history rows) },
                ok tt,
              )
              (get d)
      by_test rows c f true = record { returns = refl; table = d; loads = e; entries = λ k. refl }
      by_test rows c f false = record {
        returns = refl;
        table = foldl apply [] (compacted history rows);
        loads = load_rewritten now history t rows n (rows_of-IsRow t rows c);
        entries = λ k. compacted-effect history rows k ∙ ap (λ u. get u k) f;
      }
