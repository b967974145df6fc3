-- ===== src/Updown/Sorted.antt =====
-- start_groups of kelso/lib/lifecycle/updown.py: the groups that it gives, lowest first.
use kelso.Common.{
  ℕ, ◌<◌, ◌≡◌, refl, sym, ap, ◌∙◌, subst, arith, Bool, true, false, ◌||◌, Option, none, some, List,
  [], ◌∷◌, ◌++◌, if◌then◌else◌, ltb, ◌==◌, eq_nat, eq_list, contains, keep, Bool-cases, inl, inr,
  ==→eq, nat_beq_iff,
}
use kelso.Common.Result.{Result, ok, ok_of_bind}
use kelso.Common.Text.{Text}
use kelso.Common.Dict.{get, keys}
use kelso.Common.Dict.Laws.{IsDict, get-put}
use kelso.Updown.Groups.{
  Error, Box, Groups, apps_of, add_app, group_apps, insert_group, sort_groups, start_groups,
}
use kelso.Updown.Order.{has_order, add_app-IsDict, add_if, group_apps-get}

-- The groups stand in the order of their numbers, and none stands twice.
abbrev Above : ℕ → Groups → Type 0
Above n [] = Unit
Above n ((m, apps) ∷ groups) = (n < m) × Above n groups

abbrev pub Ascending : Groups → Type 0
Ascending [] = Unit
Ascending ((n, apps) ∷ groups) = Above n groups × Ascending groups

Above-trans : (n m : ℕ) (groups : Groups) → n < m → Above m groups → Above n groups
Above-trans n m [] h a = tt
Above-trans n m ((k, apps) ∷ groups) h a = (omega (arith, h, a.0), Above-trans n m groups h a.1)

keys-insert_group :
    (order : ℕ) (apps : List Text) (groups : Groups) (n : ℕ)
    → contains (keys (insert_group (order, apps) groups)) n
      ≡ ((order == n) || contains (keys groups) n)
unfolding insert_group keys
keys-insert_group order apps [] n = refl
keys-insert_group order apps ((m, others) ∷ groups) n =
    ground (arith, keys-insert_group order apps groups n)

keys-sort_groups :
    (groups : Groups) (n : ℕ) → contains (keys (sort_groups groups)) n ≡ contains (keys groups) n
unfolding sort_groups keys
keys-sort_groups [] n = refl
keys-sort_groups ((order, apps) ∷ groups) n =
    keys-insert_group order apps (sort_groups groups) n
    ∙ ap (λ (b : Bool). (order == n) || b) (keys-sort_groups groups n)

get-insert_group :
    (order : ℕ) (apps : List Text) (groups : Groups) (n : ℕ)
    → contains (keys groups) order ≡ false
    → get (insert_group (order, apps) groups) n ≡ (if order == n then some apps else get groups n)
unfolding insert_group get keys
get-insert_group order apps [] n h = refl
get-insert_group order apps ((m, others) ∷ groups) n h = ground (
  arith,
  get-insert_group order apps groups n,
  nat_beq_iff m n,
  nat_beq_iff order n,
  nat_beq_iff m order,
  h,
)

get-sort_groups :
    (groups : Groups) (n : ℕ) → IsDict groups → get (sort_groups groups) n ≡ get groups n
unfolding sort_groups get
get-sort_groups [] n d = refl
get-sort_groups ((order, apps) ∷ groups) n d =
    get-insert_group order apps (sort_groups groups) n (keys-sort_groups groups order ∙ d.0)
    ∙ ap (λ (o : Option (List Text)). if order == n then some apps else o)
        (get-sort_groups groups n d.1)

Above-insert_group :
    (n order : ℕ) (apps : List Text) (groups : Groups)
    → n < order
    → Above n groups
    → Above n (insert_group (order, apps) groups)
unfolding insert_group
Above-insert_group n order apps [] h a = (h, tt)
Above-insert_group n order apps ((m, others) ∷ groups) h a = elim (Bool-cases (ltb order m)) [
  | inl e ↦ rw e (h, (a.0, a.1))
  | inr e ↦ rw e (a.0, Above-insert_group n order apps groups h a.1)
]

behind : (order m : ℕ) (b : Bool) → ltb order m ≡ false → ((m == order) || b) ≡ false → m < order
behind order m b e h = ground arith

insert_group-Ascending :
    (order : ℕ) (apps : List Text) (groups : Groups)
    → contains (keys groups) order ≡ false
    → Ascending groups
    → Ascending (insert_group (order, apps) groups)
unfolding insert_group keys
insert_group-Ascending order apps [] h a = (tt, tt)
insert_group-Ascending order apps ((m, others) ∷ groups) h a = elim (Bool-cases (ltb order m)) [
  | inl e ↦
      let below : order < m = ground (arith, e) in
      rw e ((below, Above-trans order m groups below a.0), a)
  | inr e ↦
      let above : m < order = behind order m (contains (keys groups) order) e h in
      rw e (
        Above-insert_group m order apps groups above a.0,
        insert_group-Ascending order apps groups (ground (arith, h)) a.1,
      )
]

sort_groups-Ascending : (groups : Groups) → IsDict groups → Ascending (sort_groups groups)
unfolding sort_groups
sort_groups-Ascending [] d = tt
sort_groups-Ascending ((order, apps) ∷ groups) d =
    insert_group-Ascending order apps (sort_groups groups) (keys-sort_groups groups order ∙ d.0)
      (sort_groups-Ascending groups d.1)

add_if-IsDict :
    (b : Bool) (order : ℕ) (app : Text) (groups : Groups)
    → IsDict groups
    → IsDict (add_if b order app groups)
unfolding add_if
add_if-IsDict true order app groups d = add_app-IsDict order app groups d
add_if-IsDict false order app groups d = d

other :
    (which : List ℕ) (order n : ℕ)
    → contains which order ≡ true
    → contains which n ≡ false
    → (order == n) ≡ false
other which order n a h = elim (Bool-cases (order == n)) [
  | inr ne ↦ ne
  | inl same ↦ let e : order ≡ n = ==→eq order n same in cc (ap (contains which) e, a, h)
]

add_if_outside :
    (which : List ℕ) (order : ℕ) (app : Text) (groups : Groups) (n : ℕ)
    → contains which n ≡ false
    → get (add_if (contains which order) order app groups) n ≡ get groups n
unfolding add_if add_app
add_if_outside which order app groups n h = elim (Bool-cases (contains which order)) [
  | inr out ↦ rw out refl
  | inl inside ↦ rw inside (
      get-put groups order n (apps_of (get groups order) ++ (app ∷ []))
      ∙ rw (other which order n inside h) refl)
]

-- The loop keeps a dict a dict, and only writes groups that are asked for.
group_apps_keeps :
    (start_order : Text → Result Error ℕ) (which : List ℕ) (apps : List Text) (groups made : Groups)
    → IsDict groups
    → group_apps start_order which apps groups ≡ ok made
    → IsDict made × ((n : ℕ) → contains which n ≡ false → get made n ≡ get groups n)
unfolding group_apps
group_apps_keeps start_order which [] groups made d h =
    let e : groups ≡ made = cc h in
    (subst IsDict e d, λ n out. ap (λ (g : Groups). get g n) (sym e))
group_apps_keeps start_order which (app ∷ apps) groups made d h =
    let order = ok_of_bind (start_order app) _ h in
    let later =
      group_apps_keeps start_order which apps (add_if (contains which order.0) order.0 app groups)
        made (add_if-IsDict (contains which order.0) order.0 app groups d)
        (unfold add_if in order.2) in
    (later.0, λ n out. later.1 n out ∙ add_if_outside which order.0 app groups n out)

nothing : (n : ℕ) → ◌≡◌ {A = Option (List Text)} (get [] n) none
unfolding get
nothing n = refl

nothing_before : (n : ℕ) (l : List Text) → apps_of (get [] n) ++ l ≡ l
unfolding get
nothing_before n l = refl

-- The groups that `start_groups` gives, if it returns, stand in the order of their numbers, each
-- once. Each group that is asked for has the loaded apps with its number, in their order, and none
-- of the other groups is there.
pub start_groups_lem :
    (box : Box) (which : List ℕ) (groups : Groups)
    → start_groups box which ≡ ok groups
    → Ascending groups
      × ((n : ℕ)
          → contains which n ≡ true
          → apps_of (get groups n) ≡ keep (has_order box.start_order n) box.loaded)
      × ((n : ℕ) → contains which n ≡ false → get groups n ≡ none)
unfolding start_groups
start_groups_lem box which groups h =
    let made = ok_of_bind (group_apps box.start_order which box.loaded []) _ h in
    let e : sort_groups made.0 ≡ groups = cc made.2 in
    let k = group_apps_keeps box.start_order which box.loaded [] made.0 tt made.1 in
    let found = λ (n : ℕ). ap (λ (g : Groups). get g n) (sym e) ∙ get-sort_groups made.0 n k.0 in
    (
      subst Ascending e (sort_groups-Ascending made.0 k.0),
      λ n w.
          ap apps_of (found n)
          ∙ (group_apps-get box.start_order which box.loaded [] made.0 n w made.1
              ∙ nothing_before n (keep (has_order box.start_order n) box.loaded)),
      λ n out. found n ∙ (k.1 n out ∙ nothing n),
    )
