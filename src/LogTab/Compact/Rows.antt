-- ===== src/LogTab/Compact/Rows.antt =====
-- The records that `compact` writes have the effect of those that it read.
use mathlib.Core.List.{foldl}
use kelso.Common.{
  ℕ, ◌-◌, ◌≡◌, refl, sym, ap, ◌∙◌, subst, true, false, Option, none, some, List, [], ◌∷◌, ◌++◌,
  append-nil, arith, ◌==◌, ==→eq, ==_refl, ==_sym, not-true-false, eq_nat, eq_list, inl, inr,
  contains, Bool-cases, take, take_append_drop, length,
}
use kelso.Common.Text.{Text}
use kelso.Common.Dict.{Dict, get, keys}
use kelso.Common.Dict.Laws.{IsDict, get-contains}
use kelso.LogTab.Row.{set, Row}
use kelso.LogTab.Table.{
  Entry, apply, row_keys, row_le, insert_row, sort_rows, backfill, suffix_of, compacted,
}
use kelso.LogTab.Table.Effect.{
  step_at, effect, effect-append, effect_idem, effect_named, get-foldl, foldl-IsDict,
}

-- Records that set different keys.
abbrev pub AreSets : List Row → Type 0
AreSets [] = Unit
AreSets (r ∷ rs) = (r.operation ≡ set) × (contains (row_keys rs) r.key ≡ false) × AreSets rs

backfill-keys :
    (sk : List Text) (d : Dict Text Entry) (k : Text)
    → contains (keys d) k ≡ false
    → contains (row_keys (backfill sk d)) k ≡ false
unfolding backfill keys
backfill-keys sk [] k h = refl
backfill-keys sk ((j, e) ∷ d) k h = ground (arith, backfill-keys sk d k)

backfill-AreSets : (sk : List Text) (d : Dict Text Entry) → IsDict d → AreSets (backfill sk d)
unfolding backfill
backfill-AreSets sk [] h = tt
backfill-AreSets sk ((j, e) ∷ d) h = elim (Bool-cases (contains sk j)) [
  | inl c ↦ rw c (backfill-AreSets sk d h.1)
  | inr c ↦ rw c (refl, backfill-keys sk d j h.0, backfill-AreSets sk d h.1)
]

abbrev or_else : Option Entry → Option Entry → Option Entry
or_else none o = o
or_else (some e) o = some e

backfill-effect :
    (sk : List Text) (d : Dict Text Entry) (k : Text) (o : Option Entry)
    → IsDict d
    → contains sk k ≡ false
    → effect k (backfill sk d) o ≡ or_else (get d k) o
unfolding backfill effect get
backfill-effect sk [] k o h n = refl
backfill-effect sk ((j, e) ∷ d) k o h n = ground (
  arith,
  ==→eq j k,
  get-contains d j h.0,
  backfill-effect sk d k (some e) h.1 n,
  backfill-effect sk d k o h.1 n,
)

step_swap :
    (k : Text) (r x : Row) (o : Option Entry)
    → r.operation ≡ set
    → x.operation ≡ set
    → (x.key == r.key) ≡ false
    → step_at k x.operation x (step_at k r.operation r o)
      ≡ step_at k r.operation r (step_at k x.operation x o)
step_swap k r x o s a n =
    rw (s, a) (ground (arith, ==→eq x.key k, ==→eq r.key k, ne→≢ x.key r.key n))
  where
    ne→≢ : (u v : Text) → (u == v) ≡ false → u ≡ v → ⊥
    ne→≢ u v f e = not-true-false (subst (λ w. (u == w) ≡ true) e (==_refl u)) f

-- A record that sets another key may be done before or after.
insert_row-effect :
    (k : Text) (r : Row) (rs : List Row) (o : Option Entry)
    → r.operation ≡ set
    → contains (row_keys rs) r.key ≡ false
    → AreSets rs
    → effect k (insert_row r rs) o ≡ effect k (r ∷ rs) o
unfolding insert_row effect
insert_row-effect k r [] o s n a = refl
insert_row-effect k r (x ∷ xs) o s n a = elim (Bool-cases (row_le r x)) [
  | inl le ↦ rw le
  | inr gt ↦ rw gt (
      insert_row-effect k r xs (step_at k x.operation x o) s (ground arith) a.2
      ∙ ap (effect k xs) (sym (step_swap k r x o s a.0 (ground arith))))
]

insert_row-keys :
    (k : Text) (r : Row) (rs : List Row)
    → contains (row_keys (insert_row r rs)) k ≡ contains (row_keys (r ∷ rs)) k
unfolding insert_row
insert_row-keys k r [] = refl
insert_row-keys k r (x ∷ xs) = ground (arith, insert_row-keys k r xs)

insert_row-AreSets :
    (r : Row) (rs : List Row)
    → r.operation ≡ set
    → contains (row_keys rs) r.key ≡ false
    → AreSets rs
    → AreSets (insert_row r rs)
unfolding insert_row
insert_row-AreSets r [] s n a = (s, refl, tt)
insert_row-AreSets r (x ∷ xs) s n a = elim (Bool-cases (row_le r x)) [
  | inl le ↦ rw le (s, n, a)
  | inr gt ↦ rw gt (
    a.0,
    insert_row-keys x.key r xs ∙ ground (arith, ==_sym r.key x.key),
    insert_row-AreSets r xs s (ground arith) a.2,
  )
]

sort_rows-keys :
    (k : Text) (rs : List Row) → contains (row_keys (sort_rows rs)) k ≡ contains (row_keys rs) k
unfolding sort_rows
sort_rows-keys k [] = refl
sort_rows-keys k (r ∷ rs) = ground (arith, insert_row-keys k r (sort_rows rs), sort_rows-keys k rs)

sort_rows-AreSets : (rs : List Row) → AreSets rs → AreSets (sort_rows rs)
unfolding sort_rows
sort_rows-AreSets [] a = tt
sort_rows-AreSets (r ∷ rs) a =
    insert_row-AreSets r (sort_rows rs) a.0 (sort_rows-keys r.key rs ∙ a.1)
      (sort_rows-AreSets rs a.2)

sort_rows-effect :
    (k : Text) (rs : List Row) (o : Option Entry)
    → AreSets rs
    → effect k (sort_rows rs) o ≡ effect k rs o
unfolding sort_rows effect
sort_rows-effect k [] o a = refl
sort_rows-effect k (r ∷ rs) o a =
    insert_row-effect k r (sort_rows rs) o a.0 (sort_rows-keys r.key rs ∙ a.1)
      (sort_rows-AreSets rs a.2)
    ∙ sort_rows-effect k rs (step_at k r.operation r o) a.2

pub suffix_of-split :
    (history : ℕ) (rows : List Row) → (pre : List Row) × (rows ≡ pre ++ suffix_of history rows)
unfolding suffix_of
suffix_of-split history rows = elim (Bool-cases (history == 0)) [
  | inl z ↦ (rows, rw z (sym (append-nil rows)))
  | inr n ↦ (
    take (length rows - history) rows,
    rw n (sym (take_append_drop (length rows - history) rows)),
  )
]

-- At every key, the records that `compact` writes leave the entry that all records leave.
pub compacted-effect :
    (history : ℕ) (rows : List Row) (k : Text)
    → get (foldl apply [] (compacted history rows)) k ≡ get (foldl apply [] rows) k
unfolding get
compacted-effect history rows k =
    get-foldl (sort_rows (backfill sk d) ++ suffix) [] k tt
    ∙ effect-append k (sort_rows (backfill sk d)) suffix none
    ∙ elim (Bool-cases (contains sk k)) [
      | inl there ↦ effect_named k suffix _ _ there ∙ sym all
      | inr gone ↦
          ap (effect k suffix) (
            sort_rows-effect k (backfill sk d) none (backfill-AreSets sk d d-IsDict)
            ∙ backfill-effect sk d k none d-IsDict gone
            ∙ or_none (get d k)
            ∙ all)
          ∙ effect_idem k suffix _
          ∙ sym all
    ]
  where
    d : Dict Text Entry
    d = foldl apply [] rows

    suffix : List Row
    suffix = suffix_of history rows

    sk : List Text
    sk = row_keys suffix

    d-IsDict : IsDict d
    d-IsDict = foldl-IsDict rows [] tt

    or_none : (o : Option Entry) → or_else o none ≡ o
    or_none none = refl
    or_none (some e) = refl

    all : get d k ≡ effect k suffix (effect k (suffix_of-split history rows).0 none)
    all =
        get-foldl rows [] k tt
        ∙ ap (λ rs. effect k rs none) (suffix_of-split history rows).1
        ∙ effect-append k (suffix_of-split history rows).0 suffix none
