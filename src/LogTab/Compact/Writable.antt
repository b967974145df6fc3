-- ===== src/LogTab/Compact/Writable.antt =====
-- The records that `compact` writes are records that may be written, if those that it read are.
use mathlib.Core.List.{foldl}
use kelso.Common.{
  ℕ, subst, Bool, Option, List, [], ◌∷◌, ◌++◌, contains, All, All-append, All-if, eq_nat, eq_list,
  ◌==◌,
}
use kelso.Common.Text.{Text, starts_with}
use kelso.Common.Dict.{Dict, put, pop, pop_where}
use kelso.LogTab.Row.{Row, set, del, clr, Operation}
use kelso.LogTab.Row.RoundTrip.{IsRow}
use kelso.LogTab.Table.{
  Entry, entry_of, apply, apply_operation, row_keys, row_le, insert_row, sort_rows, backfill,
  suffix_of, compacted,
}
use kelso.LogTab.Compact.Rows.{suffix_of-split}

module _ (fromisoformat : Text → Option ℕ) where
  -- The entries of the table come from rows that may be written.
  set_row : Text → Entry → Row
  set_row k e = record { ts = e.ts; operation = set; key = k; value = e.value }

  abbrev HoldsRows : Dict Text Entry → Type 0
  HoldsRows = All (λ (p : Text × Entry). IsRow fromisoformat (set_row p.0 p.1))

  set_row-IsRow :
      (r : Row) → IsRow fromisoformat r → IsRow fromisoformat (set_row r.key (entry_of r))
  unfolding set_row
  set_row-IsRow r h = record {
    moment = h.moment;
    dated = h.dated;
    no_mark = h.no_mark;
    ts_part = h.ts_part;
    key_part = h.key_part;
    ts_line = h.ts_line;
    key_line = h.key_line;
    value_line = h.value_line;
  }

  put-HoldsRows :
      (d : Dict Text Entry) (r : Row)
      → IsRow fromisoformat r
      → HoldsRows d
      → HoldsRows (put d r.key (entry_of r))
  unfolding put
  put-HoldsRows [] r h a = (set_row-IsRow r h, tt)
  put-HoldsRows ((j, e) ∷ d) r h a =
      All-if _ (j == r.key) _ _ (set_row-IsRow r h, a.1) (a.0, put-HoldsRows d r h a.1)

  pop-HoldsRows : (d : Dict Text Entry) (k : Text) → HoldsRows d → HoldsRows (pop d k)
  unfolding pop
  pop-HoldsRows [] k a = tt
  pop-HoldsRows ((j, e) ∷ d) k a = All-if _ (j == k) _ _ a.1 (a.0, pop-HoldsRows d k a.1)

  pop_where-HoldsRows :
      (drops : Text → Bool) (d : Dict Text Entry) → HoldsRows d → HoldsRows (pop_where drops d)
  unfolding pop_where
  pop_where-HoldsRows drops [] a = tt
  pop_where-HoldsRows drops ((j, e) ∷ d) a =
      All-if _ (drops j) _ _ (pop_where-HoldsRows drops d a.1)
        (a.0, pop_where-HoldsRows drops d a.1)

  apply-HoldsRows :
      (d : Dict Text Entry) (r : Row) → IsRow fromisoformat r → HoldsRows d → HoldsRows (apply d r)
  unfolding apply
  apply-HoldsRows d r h a = by_operation r.operation
    where
      by_operation : (o : Operation) → HoldsRows (apply_operation d o r)
      by_operation set = put-HoldsRows d r h a
      by_operation del = pop-HoldsRows d r.key a
      by_operation clr = pop_where-HoldsRows (λ k. starts_with k r.key) d a

  foldl-HoldsRows :
      (rs : List Row) (d : Dict Text Entry)
      → All (IsRow fromisoformat) rs
      → HoldsRows d
      → HoldsRows (foldl apply d rs)
  foldl-HoldsRows [] d h a = a
  foldl-HoldsRows (r ∷ rs) d h a = foldl-HoldsRows rs (apply d r) h.1 (apply-HoldsRows d r h.0 a)

  backfill-IsRow :
      (sk : List Text) (d : Dict Text Entry)
      → HoldsRows d
      → All (IsRow fromisoformat) (backfill sk d)
  unfolding backfill set_row
  backfill-IsRow sk [] a = tt
  backfill-IsRow sk ((j, e) ∷ d) a =
      All-if _ (contains sk j) _ _ (backfill-IsRow sk d a.1) (a.0, backfill-IsRow sk d a.1)

  insert_row-IsRow :
      (r : Row) (rs : List Row)
      → IsRow fromisoformat r
      → All (IsRow fromisoformat) rs
      → All (IsRow fromisoformat) (insert_row r rs)
  unfolding insert_row
  insert_row-IsRow r [] h a = (h, tt)
  insert_row-IsRow r (x ∷ xs) h a =
      All-if _ (row_le r x) _ _ (h, a) (a.0, insert_row-IsRow r xs h a.1)

  sort_rows-IsRow :
      (rs : List Row) → All (IsRow fromisoformat) rs → All (IsRow fromisoformat) (sort_rows rs)
  unfolding sort_rows
  sort_rows-IsRow [] a = tt
  sort_rows-IsRow (r ∷ rs) a = insert_row-IsRow r (sort_rows rs) a.0 (sort_rows-IsRow rs a.1)

  pub compacted-IsRow :
      (history : ℕ) (rows : List Row)
      → All (IsRow fromisoformat) rows
      → All (IsRow fromisoformat) (compacted history rows)
  compacted-IsRow history rows a =
      All-append _ (sort_rows (backfill (row_keys suffix) (foldl apply [] rows))) suffix
        (sort_rows-IsRow _ (backfill-IsRow _ _ (foldl-HoldsRows rows [] a tt)))
        (All-append-inv (suffix_of-split history rows).0 suffix
          (subst (All (IsRow fromisoformat)) (suffix_of-split history rows).1 a))
    where
      suffix : List Row
      suffix = suffix_of history rows

      All-append-inv :
          (xs ys : List Row) → All (IsRow fromisoformat) (xs ++ ys) → All (IsRow fromisoformat) ys
      All-append-inv [] ys h = h
      All-append-inv (x ∷ xs) ys h = All-append-inv xs ys h.1
