-- ===== src/LogTab/Writes/Refused.antt =====
-- Writes that are refused, and a value that should have been (kelso/lib/logtab.py:
-- `validate_value` allows a `\r`, and a text file is read with `\r` as an end of line).
use mathlib.Core.List.{foldl, foldl-append}
use mathlib.Core.Path.{ap₂}
use kelso.Common.{
  ℕ, ◌≡◌, ◌≢◌, refl, sym, ap, ◌∙◌, Bool, true, false, Option, none, List, [], ◌∷◌, ◌++◌, arith,
  Bool-cases, inl, inr, ◌&&◌, append_assoc, length-append, contains-append, eq_nat, eq_list, ◌≤◌,
  ◌⊎◌, ◌||◌, leb, length, all, contains, All, not-true-false, ==→eq, ◌==◌,
}
use kelso.Common.Result.{Result, ok, err, ◌>>=◌, ok_of_bind}
use kelso.Common.Text.{Text, codes, Lacks}
use kelso.Common.Dict.{Dict, get}
use kelso.LogTab.Row.{
  Row, set, encode, tab, newline, return, key_char, validate_key, validate_value,
}
use kelso.LogTab.Row.RoundTrip.{IsLine, IsRow, parse_row-encode, encode-IsLine, encode-not-comment}
use kelso.LogTab.File.{Error, lines, records_of, records, write_entry, invalid_key, invalid_value}
use kelso.LogTab.File.Lines.{lines-unlines, lines-return, extend, records_of-append}
use kelso.LogTab.Table.{Entry, LogTab, apply, collect, load, write, maybe_compact}
use kelso.LogTab.Compact.Keeps.{rows_of, load-rows, Leaves}
use kelso.LogTab.Writes.Laws.{
  IsFile, IsNow, new_record, new_record-IsRow, maybe_compact_keeps, contains-Lacks,
}

encode-append :
    (written key p q : Text)
    → encode (new_record written key (p ++ q) set) ≡ encode (new_record written key p set) ++ q
unfolding encode
encode-append written key p q = simp append_assoc

encode-ne-nil : (r : Row) → encode r ≢ []
unfolding encode
encode-ne-nil r e = nonempty r.ts _ e
  where
    nonempty : (s u : Text) → s ++ tab ∷ u ≡ [] → ⊥
    nonempty [] u e = cc
    nonempty (c ∷ s) u e = cc

validate_value-prefix : (p q : Text) → validate_value (p ++ q) ≡ true → validate_value p ≡ true
unfolding validate_value
validate_value-prefix p q h = ground (arith, length-append p q, contains-append p q newline)

-- What a key and a value may be, as the documentation of the table says.
abbrev pub IsKeyChar : ℕ → Type 0
IsKeyChar c =
    ((b'a' ≤ c) × (c ≤ b'z'))
    ⊎ (((b'A' ≤ c) × (c ≤ b'Z'))
        ⊎ (((b'0' ≤ c) × (c ≤ b'9')) ⊎ ((c ≡ b'_') ⊎ ((c ≡ b'/') ⊎ ((c ≡ b'.') ⊎ (c ≡ b'-'))))))

pub record IsKey (key : Text) : Type 0 where
  pub there : 1 ≤ length key
  pub short : length key ≤ 512
  pub letters : All IsKeyChar key

pub record IsValue (value : Text) : Type 0 where
  pub short : length value ≤ 2048
  pub one_line : Lacks newline value

either : {P Q : Type 0} (a b : Bool) → (a ≡ true → P) → (b ≡ true → Q) → (a || b) ≡ true → P ⊎ Q
either true b f g h = inl (f refl)
either false b f g h = inr (g h)

key_char_lem : (c : ℕ) → key_char c ≡ true → IsKeyChar c
key_char_lem c =
    let marks : Bool = (c == b'.') || (c == b'-') in
    let signs : Bool = (c == b'_') || ((c == b'/') || marks) in
    let digits : Bool = leb b'0' c && leb c b'9' in
    let upper : Bool = leb b'A' c && leb c b'Z' in
    either (leb b'a' c && leb c b'z') (upper || (digits || signs))
      (λ h. (ground (arith, h), ground (arith, h)))
      (either upper (digits || signs) (λ h. (ground (arith, h), ground (arith, h)))
        (either digits signs (λ h. (ground (arith, h), ground (arith, h)))
          (either (c == b'_') ((c == b'/') || marks) (λ h. ground (arith, h))
            (either (c == b'/') marks (λ h. ground (arith, h))
              (either (c == b'.') (c == b'-') (λ h. ground (arith, h)) (λ h. ground (arith, h)))))))

char-key_char : (c : ℕ) → IsKeyChar c → key_char c ≡ true
char-key_char c (inl a) = ground (arith, a.0, a.1)
char-key_char c (inr (inl a)) = ground (arith, a.0, a.1)
char-key_char c (inr (inr (inl a))) = ground (arith, a.0, a.1)
char-key_char c (inr (inr (inr (inl a)))) = ground (arith, a)
char-key_char c (inr (inr (inr (inr (inl a))))) = ground (arith, a)
char-key_char c (inr (inr (inr (inr (inr (inl a)))))) = ground (arith, a)
char-key_char c (inr (inr (inr (inr (inr (inr a)))))) = ground (arith, a)

chars_read : (key : Text) → all key_char key ≡ true → All IsKeyChar key
chars_read [] h = tt
chars_read (c ∷ key) h = (key_char_lem c (ground (arith, h)), chars_read key (ground (arith, h)))

chars_pass : (key : Text) → All IsKeyChar key → all key_char key ≡ true
chars_pass [] h = refl
chars_pass (c ∷ key) h =
    let here = char-key_char c h.0 in let rest = chars_pass key h.1 in rw (here, rest) refl

IsKey-read : (key : Text) → validate_key key ≡ true → IsKey key
unfolding validate_key
IsKey-read [] h = cc h
IsKey-read (c ∷ key) h = record {
  there = omega arith;
  short = ground (arith, h);
  letters = chars_read (c ∷ key) (ground (arith, h));
}

key_passes : (key : Text) → IsKey key → validate_key key ≡ true
unfolding validate_key
key_passes [] h = absurd (nothing h.there)
  where
    nothing : 1 ≤ 0 → ⊥
    nothing n = omega (arith, n)
key_passes (c ∷ key) h =
    let short = h.short in
    let here = chars_pass (c ∷ key) h.letters in
    let fits : leb (length (c ∷ key)) 512 ≡ true = ground (arith, short) in rw (fits, here) refl

Lacks-passes : (b : ℕ) (s : Text) → Lacks b s → contains s b ≡ false
Lacks-passes b [] h = refl
Lacks-passes b (c ∷ s) h =
    let other : (c == b) ≡ false = elim (Bool-cases (c == b)) [
      | inl same ↦ absurd (h.0 (==→eq c b same))
      | inr other ↦ other
    ] in
    rw other (Lacks-passes b s h.1)

IsValue-read : (value : Text) → validate_value value ≡ true → IsValue value
unfolding validate_value
IsValue-read value h = record {
  short = ground (arith, h);
  one_line = contains-Lacks newline value (ground (arith, h));
}

value_passes : (value : Text) → IsValue value → validate_value value ≡ true
unfolding validate_value
value_passes value h =
    let short = h.short in
    let here = Lacks-passes newline value h.one_line in
    let fits : leb (length value) 2048 ≡ true = ground (arith, short) in rw (fits, here) refl

module _ (fromisoformat : Text → Option ℕ) (now written key value : Text) (t : LogTab) where
  -- A write refuses a key that is empty, longer than 512 characters, or has a character that is no
  -- letter or digit of ASCII and none of `_/.-`; and then a value that is longer than 2048
  -- characters or has a newline in it. The file is left as it was. Any other key and value are put
  -- behind the file as one line, of the timestamp, `set`, the key and the value with tabs between
  -- them, and the file is compacted if it is due.
  pub write_refused :
      ((¬ IsKey key) × (write fromisoformat now written key value t ≡ (t, err invalid_key)))
      ⊎ ((IsKey key
            × (¬ IsValue value)
            × (write fromisoformat now written key value t ≡ (t, err invalid_value)))
          ⊎ (IsKey key
              × IsValue value
              × (write fromisoformat now written key value t
                  ≡ maybe_compact fromisoformat now (record t {
                    content =
                        t.content
                        ++ ((written ++ (tab ∷ (codes "set" ++ (tab ∷ (key ++ (tab ∷ value))))))
                            ++ newline ∷ []);
                  }))))
  unfolding write write_entry encode
  write_refused = elim (Bool-cases (validate_key key)) [
    | inr bad ↦ inl ((λ good. absurd (not-true-false (key_passes key good) bad)), rw bad refl)
    | inl k ↦ inr (elim (Bool-cases (validate_value value)) [
      | inr bad ↦ inl (
        IsKey-read key k,
        (λ good. absurd (not-true-false (value_passes value good) bad)),
        rw (k, bad) refl,
      )
      | inl v ↦ inr (IsKey-read key k, IsValue-read value v, rw (k, v) refl)
    ])
  ]

module _ (fromisoformat : Text → Option ℕ) where
  -- The lines of a file of whole lines, with one more line that a lone `\r` cuts in two.
  records-cut :
      (strict : Bool) (content : Text) (r other : Row)
      → IsFile content
      → IsRow fromisoformat r
      → IsRow fromisoformat other
      → records fromisoformat strict
          (content ++ ((encode r ++ return ∷ encode other) ++ newline ∷ []))
        ≡ extend (records fromisoformat strict content) (ok r ∷ ok other ∷ [])
  unfolding records
  records-cut strict content r other f h g =
      ap (records_of fromisoformat strict) after
      ∙ records_of-append fromisoformat strict f.ls (encode r ∷ encode other ∷ [])
      ∙ ap₂ extend (ap (records_of fromisoformat strict) (sym before)) two
    where
      before : lines content ≡ f.ls
      before = ap lines f.whole ∙ lines-unlines f.ls f.each

      after :
          lines (content ++ ((encode r ++ return ∷ encode other) ++ newline ∷ []))
          ≡ f.ls ++ encode r ∷ encode other ∷ []
      after =
          ap lines (
            ap₂ (λ (c s : Text). c ++ s) f.whole
              (append_assoc (encode r) (return ∷ encode other) (newline ∷ [])))
          ∙ lines-return f.ls (encode r) (encode other) f.each (encode-IsLine h)
              (encode-ne-nil other) (encode-IsLine g)

      two : records_of fromisoformat strict (encode r ∷ encode other ∷ []) ≡ ok r ∷ ok other ∷ []
      two =
          unfold records_of in
          rw (encode-not-comment h, parse_row-encode h, encode-not-comment g, parse_row-encode g)

  collect-extend_two :
      (xs : List (Result Error Row)) (r s : Row)
      → collect (extend xs (ok r ∷ ok s ∷ [])) ≡ (do rows ← collect xs; ok (rows ++ r ∷ s ∷ []))
  unfolding collect
  collect-extend_two [] r s = refl
  collect-extend_two (err x ∷ xs) r s = refl
  collect-extend_two (ok x ∷ xs) r s =
      ap (λ c. c >>= λ rows. ok (x ∷ rows)) (collect-extend_two xs r s) ∙ swap (collect xs)
    where
      swap :
          (c : Result Error (List Row))
          → ((c >>= λ rows. ok (rows ++ r ∷ s ∷ [])) >>= λ rows. ok (x ∷ rows))
            ≡ ((c >>= λ rows. ok (x ∷ rows)) >>= λ rows. ok (rows ++ r ∷ s ∷ []))
      swap (ok rows) = refl
      swap (err e) = refl

  -- Let a file of whole lines load, and the clock read as a timestamp, of one line. A value that is
  -- accepted, under a valid key, with one carriage return in it and behind that a line of the form of a
  -- record, is read back as what stands before the carriage return, and what stands behind is read as
  -- a record of its own, of any key, whether or not the write compacts the file.
  pub write_injects :
      (now written key p : Text) (other : Row) (t : LogTab) (d : Dict Text Entry)
      → IsNow fromisoformat written
      → IsLine now
      → IsFile t.content
      → validate_key key ≡ true
      → validate_value (p ++ return ∷ encode other) ≡ true
      → Lacks return p
      → IsRow fromisoformat other
      → load fromisoformat none t ≡ ok d
      → Leaves fromisoformat
          (write fromisoformat now written key (p ++ return ∷ encode other) t)
          (get (apply (apply d (new_record written key p set)) other))
  unfolding write write_entry
  write_injects now written key p other t d clock line f k v r h e =
      rw (k, v)
        (maybe_compact_keeps fromisoformat now behind (apply (apply d first) other) line (
          load-rows fromisoformat _
          ∙ ap (λ c. c >>= λ rows. ok (foldl apply [] rows))
              (ap (λ s. collect (records fromisoformat t.strict (t.content ++ (s ++ newline ∷ []))))
                  (encode-append written key p (return ∷ encode other))
                ∙ ap collect (records-cut t.strict t.content first other f first-IsRow h)
                ∙ collect-extend_two (records fromisoformat t.strict t.content) first other
                ∙ ap (λ c. c >>= λ rows. ok (rows ++ first ∷ other ∷ [])) held.1)
          ∙ ap ok (
              foldl-append apply [] held.0 (first ∷ other ∷ [])
              ∙ ap (λ u. apply (apply u first) other) (cc held.2))))
    where
      behind : LogTab
      behind = record t {
        content =
            t.content
            ++ (encode (new_record written key (p ++ return ∷ encode other) set) ++ newline ∷ []);
      }

      first : Row
      first = new_record written key p set

      first-IsRow : IsRow fromisoformat first
      first-IsRow = new_record-IsRow set key p clock k (validate_value-prefix p _ v) r

      held :
          (rows : List Row) × (rows_of fromisoformat t ≡ ok rows)
          × (◌≡◌ {A = Result Error (Dict Text Entry)} (ok (foldl apply [] rows)) (ok d))
      held = ok_of_bind (rows_of fromisoformat t) _ (sym (load-rows fromisoformat t) ∙ e)
