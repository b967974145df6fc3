-- ===== src/LogTab/Row/RoundTrip.antt =====
-- A row that may be written is read back from its line, and only such rows are read.
use kelso.Common.{
  ℕ, ◌≡◌, refl, sym, subst, ◌∙◌, true, false, Option, none, some, List, [], ◌∷◌, ◌++◌, contains,
  eq_nat, eq_list, arith, All-append, ==→eq, contains-append,
}
use kelso.Common.Text.{Text, codes, starts_with, split_max, Lacks, is_space}
use kelso.Common.Text.Laws.{split_max-part, strip_visible, split_max-FourParts}
use kelso.LogTab.Row.{
  tab, newline, return, Operation, set, del, clr, operation_name, read_operation, Row, encode,
  row_of_parts, with_operation, parse_row, is_comment,
}

-- No character at which a line of the file ends.
abbrev pub IsLine : Text → Type 0
IsLine s = Lacks newline s × Lacks return s

pub IsLine-append : (s t : Text) → IsLine s → IsLine t → IsLine (s ++ t)
IsLine-append s t (a, b) (c, d) = (All-append _ s t a c, All-append _ s t b d)

-- What a row needs to be read back.
pub record IsRow (fromisoformat : Text → Option ℕ) (r : Row) : Type 0 where
  pub moment : ℕ
  pub dated : fromisoformat r.ts ≡ some moment
  pub no_mark : starts_with r.ts (codes "#") ≡ false
  pub ts_part : Lacks tab r.ts
  pub key_part : Lacks tab r.key
  pub ts_line : IsLine r.ts
  pub key_line : IsLine r.key
  pub value_line : IsLine r.value

abbrev pub fields : Row → Text
fields r = r.ts ++ tab ∷ operation_name r.operation ++ tab ∷ r.key ++ tab ∷ r.value

encode-eq :
    (r : Row)
    → encode r ≡ r.ts ++ (tab ∷ (operation_name r.operation ++ (tab ∷ (r.key ++ (tab ∷ r.value)))))
unfolding encode
encode-eq r = refl

operation-part : (o : Operation) → Lacks tab (operation_name o)
operation-part set = omega arith
operation-part del = omega arith
operation-part clr = omega arith

operation-IsLine : (o : Operation) → IsLine (operation_name o)
operation-IsLine set = omega arith
operation-IsLine del = omega arith
operation-IsLine clr = omega arith

read_operation-name : (o : Operation) → read_operation (operation_name o) ≡ some o
unfolding read_operation
read_operation-name set = refl
read_operation-name del = refl
read_operation-name clr = refl

-- The letter `e`, `d` or `l` of the operation shows that the line is not blank.
visible : Operation → ℕ
visible set = b's'
visible del = b'd'
visible clr = b'c'

operation-visible :
    (o : Operation)
    → (is_space (visible o) ≡ false) × (contains (operation_name o) (visible o) ≡ true)
unfolding visible
operation-visible set = (refl, refl)
operation-visible del = (refl, refl)
operation-visible clr = (refl, refl)

tab-IsLine : (s : Text) → IsLine s → IsLine (tab ∷ s)
tab-IsLine s h = ((omega arith, h.0), (omega arith, h.1))

mark-append :
    (s t : Text)
    → starts_with s (codes "#") ≡ false
    → starts_with (s ++ tab ∷ t) (codes "#") ≡ false
mark-append [] t h = refl
mark-append (c ∷ s) t h = h

contains_right : (s t : Text) (x : ℕ) → contains t x ≡ true → contains (s ++ tab ∷ t) x ≡ true
contains_right s t x h = rw (contains-append s (tab ∷ t) x) (ground (arith, h))

contains_left : (s t : Text) (x : ℕ) → contains s x ≡ true → contains (s ++ tab ∷ t) x ≡ true
contains_left s t x h = rw (contains-append s (tab ∷ t) x) (ground (arith, h))

module _ {fromisoformat : Text → Option ℕ} {r : Row} (h : IsRow fromisoformat r) where
  -- The line of a writable row is parsed to that row.
  pub parse_row-encode : parse_row fromisoformat (encode r) ≡ some r
  unfolding parse_row split_max
  parse_row-encode = rw (encode-eq r) (
      rw
        (
          split_max-part tab 2 r.ts _ h.ts_part,
          split_max-part tab 1 (operation_name r.operation) _ (operation-part r.operation),
          split_max-part tab 0 r.key r.value h.key_part,
          read_operation-name r.operation,
        )
        (rw (h.dated, with_operation)))

  pub encode-IsLine : IsLine (encode r)
  encode-IsLine = rw (encode-eq r) (
      IsLine-append r.ts _ h.ts_line (
        tab-IsLine _ (
          IsLine-append (operation_name r.operation) _ (operation-IsLine r.operation)
            (tab-IsLine _ (IsLine-append r.key _ h.key_line (tab-IsLine _ h.value_line))))))

  pub encode-not-comment : is_comment (encode r) ≡ false
  unfolding is_comment
  encode-not-comment = rw (encode-eq r) (
      rw (mark-append r.ts _ h.no_mark) (
        strip_visible _ (visible r.operation) (operation-visible r.operation).0 (
          contains_right r.ts _ _
            (contains_left (operation_name r.operation) _ _ (operation-visible r.operation).1))))

read_operation-inv : (s : Text) (o : Operation) → read_operation s ≡ some o → s ≡ operation_name o
unfolding read_operation
read_operation-inv s o h =
    ground (arith, ==→eq s (codes "set"), ==→eq s (codes "del"), ==→eq s (codes "clr"), h)

-- What the parts of a line say of the row that it was parsed to.
record Parsed (fromisoformat : Text → Option ℕ) (ps : List Text) (r : Row) : Type 0 where
  parts : ps ≡ r.ts ∷ operation_name r.operation ∷ r.key ∷ r.value ∷ []
  moment : ℕ
  dated : fromisoformat r.ts ≡ some moment

module _ (fromisoformat : Text → Option ℕ) where
  with_operation-Parsed :
      (ts op key value : Text) (o : Operation) (m : Option ℕ) (r : Row)
      → op ≡ operation_name o
      → fromisoformat ts ≡ m
      → with_operation fromisoformat ts key value (some o) ≡ some r
      → Parsed fromisoformat (ts ∷ op ∷ key ∷ value ∷ []) r
  unfolding with_operation
  with_operation-Parsed ts op key value o none r name e h = cc (rw (e, with_operation) at h)
  with_operation-Parsed ts op key value o (some t) r name e h =
      let at : some (record { ts = ts; operation = o; key = key; value = value }) ≡ some r =
        rw (e, with_operation) at h in
      record { parts = cc (name, at); moment = t; dated = cc (e, at) }

  row_of_parts-Parsed :
      (ps : List Text) (r : Row)
      → row_of_parts fromisoformat ps ≡ some r
      → Parsed fromisoformat ps r
  unfolding row_of_parts
  row_of_parts-Parsed (ts ∷ op ∷ key ∷ value ∷ []) r h = go (read_operation op) refl h
    where
      go :
          (o : Option Operation)
          → read_operation op ≡ o
          → with_operation fromisoformat ts key value o ≡ some r
          → Parsed fromisoformat (ts ∷ op ∷ key ∷ value ∷ []) r
      go none e p = cc
      go (some o) e p =
          with_operation-Parsed ts op key value o (fromisoformat ts) r (read_operation-inv op o e)
            refl p
  row_of_parts-Parsed _ r h = cc

  All-middle : (c : ℕ) (s t : Text) → Lacks c (s ++ tab ∷ t) → Lacks c s × Lacks c t
  All-middle c [] t h = (tt, h.1)
  All-middle c (x ∷ s) t h = let (a, b) = All-middle c s t h.1 in ((h.0, a), b)

  IsLine-middle : (s t : Text) → IsLine (s ++ tab ∷ t) → IsLine s × IsLine t
  IsLine-middle s t h =
      let (a, b) = All-middle newline s t h.0 in
      let (c, d) = All-middle return s t h.1 in ((a, c), (b, d))

  mark-prefix :
      (s t : Text)
      → starts_with (s ++ tab ∷ t) (codes "#") ≡ false
      → starts_with s (codes "#") ≡ false
  mark-prefix [] t h = refl
  mark-prefix (c ∷ s) t h = h

  -- A row that was read from a line of the file is one that may be written, and its line is that
  -- line.
  pub parse_row-inv :
      (line : Text) (r : Row)
      → IsLine line
      → starts_with line (codes "#") ≡ false
      → parse_row fromisoformat line ≡ some r
      → IsRow fromisoformat r × (encode r ≡ line)
  unfolding parse_row
  parse_row-inv line r one mark h =
      let d = row_of_parts-Parsed (split_max tab 3 line) r h in
      let f = split_max-FourParts tab line _ _ _ _ d.parts in
      let (a, b) = IsLine-middle r.ts _ (subst IsLine f.whole one) in
      let (_, c) = IsLine-middle (operation_name r.operation) _ b in
      let (k, v) = IsLine-middle r.key r.value c in
      (
        record {
          moment = d.moment;
          dated = d.dated;
          no_mark =
              mark-prefix r.ts _ (subst (λ l. starts_with l (codes "#") ≡ false) f.whole mark);
          ts_part = f.first;
          key_part = f.third;
          ts_line = a;
          key_line = k;
          value_line = v;
        },
        encode-eq r ∙ sym f.whole,
      )
