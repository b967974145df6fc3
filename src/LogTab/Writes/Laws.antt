-- ===== src/LogTab/Writes/Laws.antt =====
-- An accepted `write`, `clear` or `delete` on a file of whole lines shows in the next `load`.
use mathlib.Core.List.{foldl, foldl-append}
use mathlib.Core.Path.{ap₂}
use kelso.Common.{
  ℕ, ◌≡◌, refl, sym, ap, ◌∙◌, subst, Bool, true, false, Option, none, some, List, [], ◌∷◌, ◌++◌,
  arith, if◌then◌else◌, ◌==◌, eq_nat, eq_list, contains, Bool-cases, inl, inr, ◌⊎◌, not-true-false,
  All, All-append, all, ltb, ◌&&◌,
}
use kelso.Common.Result.{Result, ok, err, ◌>>=◌, ok_of_bind}
use kelso.Common.Text.{Text, codes, starts_with, Lacks}
use kelso.Common.Dict.{Dict, get, has}
use kelso.Common.Dict.Laws.{IsDict}
use kelso.LogTab.Row.{
  Row, Operation, set, del, clr, encode, tab, newline, return, key_char, validate_key,
  validate_value,
}
use kelso.LogTab.Row.RoundTrip.{IsLine, IsRow, parse_row-encode, encode-IsLine, encode-not-comment}
use kelso.LogTab.File.{Error, lines, unlines, records_of, records, write_entry}
use kelso.LogTab.File.Lines.{lines-unlines, unlines-snoc, extend, records_of-append}
use kelso.LogTab.Table.{
  Entry, LogTab, apply, collect, load, maybe_compact, write, clear, delete, st_size,
}
use kelso.LogTab.Table.Effect.{step_at, get-apply, foldl-IsDict}
use kelso.LogTab.Compact.Keeps.{rows_of, load-rows, Leaves, compact_keeps}

-- A file of whole lines, as `__init__`, `write_entry` and `compact` leave it.
pub record IsFile (content : Text) : Type 0 where
  pub ls : List Text
  pub whole : content ≡ unlines ls
  pub each : All IsLine ls

-- What `now_ts` returns: a moment, written with no tab, no end of line and no `#` at its start.
pub record IsNow (fromisoformat : Text → Option ℕ) (now : Text) : Type 0 where
  pub moment : ℕ
  pub dated : fromisoformat now ≡ some moment
  pub no_mark : starts_with now (codes "#") ≡ false
  pub part : Lacks tab now
  pub line : IsLine now

key_chars-Lacks : (b : ℕ) (s : Text) → key_char b ≡ false → all key_char s ≡ true → Lacks b s
key_chars-Lacks b [] n h = tt
key_chars-Lacks b (c ∷ s) n h = (
  λ e. not-here (subst (λ x. key_char x ≡ false) (sym e) n),
  key_chars-Lacks b s n (ground arith),
)
  where
    not-here : key_char c ≡ false → ⊥
    not-here f = ground arith

pub contains-Lacks : (b : ℕ) (s : Text) → contains s b ≡ false → Lacks b s
contains-Lacks b [] h = tt
contains-Lacks b (c ∷ s) h = ((λ e. ground arith), contains-Lacks b s (ground arith))

pub new_record-IsRow :
    {fromisoformat : Text → Option ℕ} {now : Text} (op : Operation) (key value : Text)
    → IsNow fromisoformat now
    → validate_key key ≡ true
    → validate_value value ≡ true
    → Lacks return value
    → IsRow fromisoformat (record { ts = now; operation = op; key = key; value = value })
unfolding validate_key validate_value
new_record-IsRow op key value n k v r = record {
  moment = n.moment;
  dated = n.dated;
  no_mark = n.no_mark;
  ts_part = n.part;
  key_part = key_chars-Lacks tab key refl chars;
  ts_line = n.line;
  key_line = (key_chars-Lacks newline key refl chars, key_chars-Lacks return key refl chars);
  value_line = (contains-Lacks newline value (ground arith), r);
}
  where
    chars : all key_char key ≡ true
    chars = ground arith

abbrev pub new_record : Text → Text → Text → Operation → Row
new_record written key value op = record { ts = written; operation = op; key = key; value = value }

module _ (fromisoformat : Text → Option ℕ) where
  collect-extend :
      (xs : List (Result Error Row)) (r : Row)
      → collect (extend xs (ok r ∷ [])) ≡ (do rows ← collect xs; ok (rows ++ r ∷ []))
  unfolding collect
  collect-extend [] r = refl
  collect-extend (err x ∷ xs) r = refl
  collect-extend (ok x ∷ xs) r =
      ap (λ c. c >>= λ rows. ok (x ∷ rows)) (collect-extend xs r) ∙ swap (collect xs)
    where
      swap :
          (c : Result Error (List Row))
          → ((c >>= λ rows. ok (rows ++ r ∷ [])) >>= λ rows. ok (x ∷ rows))
            ≡ ((c >>= λ rows. ok (x ∷ rows)) >>= λ rows. ok (rows ++ r ∷ []))
      swap (ok rows) = refl
      swap (err e) = refl

  -- A line that is added to whole lines is read as one more record, unless a raise forestalls it.
  records-appended :
      (strict : Bool) (content : Text) (r : Row)
      → IsFile content
      → IsRow fromisoformat r
      → records fromisoformat strict (content ++ (encode r ++ newline ∷ []))
        ≡ extend (records fromisoformat strict content) (ok r ∷ [])
  unfolding records
  records-appended strict content r f h =
      ap (λ ls. records_of fromisoformat strict ls) after
      ∙ records_of-append fromisoformat strict f.ls (encode r ∷ [])
      ∙ ap₂ extend (ap (λ ls. records_of fromisoformat strict ls) (sym before)) one
    where
      before : lines content ≡ f.ls
      before = ap lines f.whole ∙ lines-unlines f.ls f.each

      after : lines (content ++ (encode r ++ newline ∷ [])) ≡ f.ls ++ encode r ∷ []
      after =
          ap lines
            (ap (λ c. c ++ (encode r ++ newline ∷ [])) f.whole ∙ unlines-snoc f.ls (encode r))
          ∙ lines-unlines _ (All-append _ f.ls (encode r ∷ []) f.each (encode-IsLine h, tt))

      one : records_of fromisoformat strict (encode r ∷ []) ≡ ok r ∷ []
      one = unfold records_of in rw (encode-not-comment h, parse_row-encode h)

  appended :
      (t : LogTab) (r : Row) (d : Dict Text Entry)
      → IsFile t.content
      → IsRow fromisoformat r
      → load fromisoformat none t ≡ ok d
      → load fromisoformat none (record t { content = t.content ++ (encode r ++ newline ∷ []) })
        ≡ ok (apply d r)
  appended t r d f h e =
      let (rows, c, g) =
        ok_of_bind (rows_of fromisoformat t) _ (sym (load-rows fromisoformat t) ∙ e) in
      load-rows fromisoformat _
      ∙ ap (λ c. c >>= λ rows. ok (foldl apply [] rows))
          (ap collect (records-appended t.strict t.content r f h)
            ∙ collect-extend _ r
            ∙ ap (λ c. c >>= λ rows. ok (rows ++ r ∷ [])) c)
      ∙ ap ok (foldl-append apply [] rows (r ∷ []) ∙ ap (λ u. apply u r) (cc g))

  load-IsDict : (t : LogTab) (d : Dict Text Entry) → load fromisoformat none t ≡ ok d → IsDict d
  load-IsDict t d e =
      let (rows, c, g) =
        ok_of_bind (rows_of fromisoformat t) _ (sym (load-rows fromisoformat t) ∙ e) in
      subst IsDict {x = foldl apply [] rows} (cc g) (foldl-IsDict rows [] tt)

  pub maybe_compact_keeps :
      (now : Text) (t : LogTab) (d : Dict Text Entry)
      → IsLine now
      → load fromisoformat none t ≡ ok d
      → Leaves fromisoformat (maybe_compact fromisoformat now t) (get d)
  unfolding maybe_compact
  maybe_compact_keeps now t d n e =
      elim (Bool-cases (ltb 0 t.compact_size && ltb t.compact_size (st_size t.content))) [
        | inl big ↦ rw big (compact_keeps fromisoformat now t.compact_history t d n e)
        | inr small ↦
            rw small (record { returns = refl; table = d; loads = e; entries = λ k. refl })
      ]

  -- An accepted entry acts on the table as its record does, whether or not it compacts the file.
  module _ (now written key value : Text) (t : LogTab) (d : Dict Text Entry)
      (clock : IsNow fromisoformat written) (line : IsLine now) (f : IsFile t.content)
      (valid_key : validate_key key ≡ true) (valid_value : validate_value value ≡ true)
      (no_return : Lacks return value) (loaded : load fromisoformat none t ≡ ok d) where
    entry_acts :
        (op : Operation)
        → Leaves fromisoformat
            (maybe_compact fromisoformat now (record t {
              content = t.content ++ (encode (new_record written key value op) ++ newline ∷ []);
            }))
            (λ k. step_at k op (new_record written key value op) (get d k))
    entry_acts op =
        let kept = maybe_compact_keeps now _ (apply d (new_record written key value op)) line (
          appended t (new_record written key value op) d f
            (new_record-IsRow op key value clock valid_key valid_value no_return) loaded) in
        record {
          returns = kept.returns;
          table = kept.table;
          loads = kept.loads;
          entries = λ k.
              kept.entries k
              ∙ get-apply d (new_record written key value op) k (load-IsDict t d loaded);
        }

    -- On a file of whole lines that loads, with a key and a value that are valid, a value that holds no
    -- carriage return, and a clock that reads as a timestamp, of one line, `write` returns, and a load
    -- after it has the value under its key and every other key as before, whether or not the file is
    -- compacted.
    pub write_lem :
        Leaves fromisoformat
          (write fromisoformat now written key value t)
          (λ k. if key == k then some (record { ts = written; value = value }) else get d k)
    unfolding write write_entry
    write_lem = rw (valid_key, valid_value) (entry_acts set)

    -- `clear` takes out every key that starts with the prefix, and no other.
    pub clear_lem :
        Leaves fromisoformat
          (clear fromisoformat now written key value t)
          (λ k. if starts_with k key then none else get d k)
    unfolding clear write_entry
    clear_lem = rw (valid_key, valid_value) (entry_acts clr)

    -- `delete` takes out its key, if the table is not strict or holds it.
    pub delete_lem :
        (t.strict ≡ false) ⊎ (has d key ≡ true)
        → Leaves fromisoformat
            (delete fromisoformat now written key value t)
            (λ k. if key == k then none else get d k)
    unfolding delete write_entry
    delete_lem allowed = elim (Bool-cases t.strict) [
      | inr lenient ↦ simp lenient (rw (valid_key, valid_value) (entry_acts del))
      | inl strict ↦
          simp strict (rw (loaded, held strict allowed, valid_key, valid_value) (entry_acts del))
    ]
      where
        held : t.strict ≡ true → (t.strict ≡ false) ⊎ (has d key ≡ true) → has d key ≡ true
        held s (inl l) = absurd (not-true-false s l)
        held s (inr h) = h
