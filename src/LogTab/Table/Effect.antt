-- ===== src/LogTab/Table/Effect.antt =====
-- What a sequence of records does to one key.
use mathlib.Core.List.{foldl}
use kelso.Common.{
  ◌≡◌, refl, sym, ap, ◌∙◌, true, Option, none, some, List, [], ◌∷◌, ◌++◌, arith, if◌then◌else◌,
  ◌==◌, ==→eq, subst, eq_nat, eq_list, ◌⊎◌, inl, inr, contains, Bool-cases,
}
use kelso.Common.Text.{Text, starts_with}
use kelso.Common.Text.Laws.{starts_with_refl}
use kelso.Common.Dict.{Dict, get}
use kelso.Common.Dict.Laws.{
  IsDict, get-put, get-pop, get-pop_where, put-IsDict, pop-IsDict, pop_where-IsDict,
}
use kelso.LogTab.Row.{Operation, set, del, clr, Row}
use kelso.LogTab.Table.{Entry, entry_of, apply, apply_operation, row_keys}

abbrev pub step_at : Text → Operation → Row → Option Entry → Option Entry
step_at k set r o = if r.key == k then some (entry_of r) else o
step_at k del r o = if r.key == k then none else o
step_at k clr r o = if starts_with k r.key then none else o

-- The entry of `k` after the records, from the one before them.
unfoldable pub effect : Text → List Row → Option Entry → Option Entry
effect k [] o = o
effect k (r ∷ rs) o = effect k rs (step_at k r.operation r o)

pub apply-IsDict : (d : Dict Text Entry) (r : Row) → IsDict d → IsDict (apply d r)
unfolding apply
apply-IsDict d r h = by_operation r.operation
  where
    by_operation : (o : Operation) → IsDict (apply_operation d o r)
    by_operation set = put-IsDict d r.key (entry_of r) h
    by_operation del = pop-IsDict d r.key h
    by_operation clr = pop_where-IsDict (λ k. starts_with k r.key) d h

pub get-apply :
    (d : Dict Text Entry) (r : Row) (k : Text)
    → IsDict d
    → get (apply d r) k ≡ step_at k r.operation r (get d k)
unfolding apply
get-apply d r k h = by_operation r.operation
  where
    by_operation : (o : Operation) → get (apply_operation d o r) k ≡ step_at k o r (get d k)
    by_operation set = get-put d r.key k (entry_of r)
    by_operation del = get-pop d r.key k h
    by_operation clr = get-pop_where (λ j. starts_with j r.key) d k

pub foldl-IsDict : (rs : List Row) (d : Dict Text Entry) → IsDict d → IsDict (foldl apply d rs)
foldl-IsDict [] d h = h
foldl-IsDict (r ∷ rs) d h = foldl-IsDict rs (apply d r) (apply-IsDict d r h)

-- The table after the records, at each key.
pub get-foldl :
    (rs : List Row) (d : Dict Text Entry) (k : Text)
    → IsDict d
    → get (foldl apply d rs) k ≡ effect k rs (get d k)
unfolding effect
get-foldl [] d k h = refl
get-foldl (r ∷ rs) d k h =
    get-foldl rs (apply d r) k (apply-IsDict d r h) ∙ ap (effect k rs) (get-apply d r k h)

pub effect-append :
    (k : Text) (rs ss : List Row) (o : Option Entry)
    → effect k (rs ++ ss) o ≡ effect k ss (effect k rs o)
unfolding effect
effect-append k [] ss o = refl
effect-append k (r ∷ rs) ss o = effect-append k rs ss (step_at k r.operation r o)

abbrev Leaves : (Option Entry → Option Entry) → Type 0
Leaves f = (o : Option Entry) → f o ≡ o

abbrev Decides : (Option Entry → Option Entry) → Type 0
Decides f = (o p : Option Entry) → f o ≡ f p

step_cases :
    (k : Text) (r : Row) (op : Operation) → Leaves (step_at k op r) ⊎ Decides (step_at k op r)
step_cases k r set = elim (Bool-cases (r.key == k)) [
  | inl h ↦ inr (λ o p. rw h)
  | inr h ↦ inl (λ o. rw h)
]
step_cases k r del = elim (Bool-cases (r.key == k)) [
  | inl h ↦ inr (λ o p. rw h)
  | inr h ↦ inl (λ o. rw h)
]
step_cases k r clr = elim (Bool-cases (starts_with k r.key)) [
  | inl h ↦ inr (λ o p. rw h)
  | inr h ↦ inl (λ o. rw h)
]

-- Records either leave a key alone, or decide its entry whatever it was.
effect_cases : (k : Text) (rs : List Row) → Leaves (effect k rs) ⊎ Decides (effect k rs)
unfolding effect
effect_cases k [] = inl (λ o. refl)
effect_cases k (r ∷ rs) = elim (effect_cases k rs) [
  | inr c ↦ inr (λ o p. c _ _)
  | inl l ↦ elim (step_cases k r r.operation) [
    | inr c ↦ inr (λ o p. ap (effect k rs) (c o p))
    | inl m ↦ inl (λ o. l _ ∙ m o)
  ]
]

-- Doing the same records again changes nothing.
pub effect_idem :
    (k : Text) (rs : List Row) (o : Option Entry) → effect k rs (effect k rs o) ≡ effect k rs o
effect_idem k rs o = elim (effect_cases k rs) [ inl l ↦ l _ | inr c ↦ c _ _ ]

-- Records that name a key decide its entry.
named : (k : Text) (r : Row) (op : Operation) → (r.key == k) ≡ true → Decides (step_at k op r)
named k r set h o p = rw h
named k r del h o p = rw h
named k r clr h o p =
    rw (subst (λ j. starts_with k j ≡ true) (sym (==→eq r.key k h)) (starts_with_refl k))

pub effect_named :
    (k : Text) (rs : List Row) (o p : Option Entry)
    → contains (row_keys rs) k ≡ true
    → effect k rs o ≡ effect k rs p
unfolding effect
effect_named k [] o p h = cc
effect_named k (r ∷ rs) o p h = elim (Bool-cases (r.key == k)) [
  | inl e ↦ ap (effect k rs) (named k r r.operation e o p)
  | inr n ↦ effect_named k rs _ _ (ground arith)
]
