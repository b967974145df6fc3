-- ===== src/Config/RoundTrip.antt =====
-- What parse_route_providers of kelso/lib/config.py gives is printed and read back as it was.
use kelso.Common.{
  ℕ, ◌≡◌, refl, sym, ap, ◌∙◌, subst, arith, false, not, List, [], ◌∷◌, ◌++◌, map, ◌==◌, eq_nat,
  eq_list, contains, Bool-cases, inl, inr, ◌⊎◌, All, ◌≢◌,
}
use mathlib.Core.List.{reverse, reverse-reverse, reverse-append}
use kelso.Common.Result.{ok, err, ◌>>◌, require}
use kelso.Common.Text.{Text, codes, is_empty, is_space, split, join, lstrip, strip, Lacks}
use kelso.Common.Text.Laws.{split-join, split-Lacks}
use kelso.Config.Providers.{
  none_combined, empty_tag, listed_twice, none_tag, any_repeated, check_tags, parse_route_providers,
  format_route_providers,
}

-- A text that starts with no space.
abbrev Visible : Text → Type 0
Visible [] = Unit
Visible (c ∷ s) = is_space c ≡ false

lstrip-Visible : (s : Text) → Visible (lstrip s)
unfolding lstrip
lstrip-Visible [] = tt
lstrip-Visible (c ∷ s) = elim (Bool-cases (is_space c)) [
  | inl space ↦ rw space (lstrip-Visible s)
  | inr other ↦ rw other other
]

Visible-lstrip : (s : Text) → Visible s → lstrip s ≡ s
unfolding lstrip
Visible-lstrip [] v = refl
Visible-lstrip (c ∷ s) v = rw v refl

Visible-front : (y u : Text) → Visible (y ++ u) → Visible y
Visible-front [] u v = tt
Visible-front (c ∷ y) u v = v

-- `t` is a text with something in front of it.
record IsBehind (t s : Text) : Type 0 where
  front : Text
  whole : s ≡ front ++ t

lstrip-IsBehind : (s : Text) → IsBehind (lstrip s) s
unfolding lstrip
lstrip-IsBehind [] = record { front = []; whole = refl }
lstrip-IsBehind (c ∷ s) =
    let k = lstrip-IsBehind s in
    elim (Bool-cases (is_space c)) [
      | inl space ↦
          rw space (record { front = c ∷ k.front; whole = ap (λ (t : Text). c ∷ t) k.whole })
      | inr other ↦ rw other (record { front = []; whole = refl })
    ]

-- The stripped text within the text.
strip-front : (s : Text) → (back : Text) × (lstrip s ≡ strip s ++ back)
unfolding strip
strip-front s =
    let k = lstrip-IsBehind (reverse (lstrip s)) in
    (
      reverse k.front,
      sym (reverse-reverse (lstrip s))
          ∙ (ap (λ (t : Text). reverse t) k.whole
              ∙ reverse-append k.front (lstrip (reverse (lstrip s)))),
    )

strip_end : (s : Text) → Visible (reverse (strip s))
unfolding strip
strip_end s =
    rw (reverse-reverse (lstrip (reverse (lstrip s)))) (lstrip-Visible (reverse (lstrip s)))

stripped : (y : Text) → Visible y → Visible (reverse y) → strip y ≡ y
unfolding strip
stripped y v w =
    ap (λ (t : Text). reverse (lstrip (reverse t))) (Visible-lstrip y v)
    ∙ (ap (λ (t : Text). reverse t) (Visible-lstrip (reverse y) w) ∙ reverse-reverse y)

strip_again : (s : Text) → strip (strip s) ≡ strip s
strip_again s =
    let f = strip-front s in
    let first : Visible (strip s) =
      Visible-front (strip s) f.0 (subst Visible f.1 (lstrip-Visible s)) in
    stripped (strip s) first (strip_end s)

All-parts : (c : ℕ) (a b : Text) → Lacks c (a ++ b) → Lacks c a × Lacks c b
All-parts c [] b h = (tt, h)
All-parts c (x ∷ a) b h = let k = All-parts c a b h.1 in ((h.0, k.0), k.1)

strip-Lacks : (c : ℕ) (s : Text) → Lacks c s → Lacks c (strip s)
strip-Lacks c s h =
    let k = lstrip-IsBehind s in
    let f = strip-front s in
    let inner : Lacks c (lstrip s) =
      (All-parts c k.front (lstrip s) (subst (Lacks c) k.whole h)).1 in
    (All-parts c (strip s) f.0 (subst (Lacks c) f.1 inner)).0

-- Tags as parse_route_providers gives them.
abbrev IsTag : Text → Type 0
IsTag tag = (strip tag ≡ tag) × Lacks b',' tag

map-strip : (tags : List Text) → All IsTag tags → map strip tags ≡ tags
map-strip [] h = refl
map-strip (tag ∷ tags) h = cc (h.0.0, map-strip tags h.1)

All-IsTag-Lacks : (tags : List Text) → All IsTag tags → All (Lacks b',') tags
All-IsTag-Lacks [] h = tt
All-IsTag-Lacks (tag ∷ tags) h = (h.0.1, All-IsTag-Lacks tags h.1)

stripped-IsTag : (parts : List Text) → All (Lacks b',') parts → All IsTag (map strip parts)
stripped-IsTag [] h = tt
stripped-IsTag (p ∷ parts) h = ((strip_again p, strip-Lacks b',' p h.0), stripped-IsTag parts h.1)

join_empty :
    (tag : Text) (tags : List Text) → tag ≢ [] → is_empty (join (codes ",") (tag ∷ tags)) ≡ false
unfolding join
join_empty [] tags n = absurd (n refl)
join_empty (c ∷ tag) [] n = refl
join_empty (c ∷ tag) (t ∷ tags) n = refl

-- What the checks let through: no tags for `none` alone, or the tags that they were given, each
-- checked.
record IsChecked (given tags : List Text) : Type 0 where
  no_none : contains tags none_tag ≡ false
  no_empty : contains tags [] ≡ false
  once : any_repeated tags ≡ false
  from : (tags ≡ []) ⊎ (tags ≡ given)

checked :
    (given tags : List Text)
    → (require (not (contains given none_tag)) none_combined
        >> (require (not (contains given [])) empty_tag
            >> (require (not (any_repeated given)) listed_twice >> ok given)))
      ≡ ok tags
    → IsChecked given tags
checked given tags h = elim (Bool-cases (contains given none_tag)) [
  | inl a ↦ let k : err none_combined ≡ ok tags = rw a at h in cc k
  | inr a ↦ elim (Bool-cases (contains given [])) [
    | inl b ↦ let k : err empty_tag ≡ ok tags = rw (a, b) at h in cc k
    | inr b ↦ elim (Bool-cases (any_repeated given)) [
      | inl c ↦ let k : err listed_twice ≡ ok tags = rw (a, b, c) at h in cc k
      | inr c ↦
          let k : ok given ≡ ok tags = rw (a, b, c) at h in
          let e : given ≡ tags = cc k in
          subst (IsChecked given) e
            (record { no_none = a; no_empty = b; once = c; from = inr refl })
    ]
  ]
]

nothing_repeated : any_repeated [] ≡ false
unfolding any_repeated
nothing_repeated = refl

check_tags-IsChecked : (given tags : List Text) → check_tags given ≡ ok tags → IsChecked given tags
unfolding check_tags
check_tags-IsChecked given tags h = elim (Bool-cases (given == none_tag ∷ [])) [
  | inl alone ↦
      let e : ok [] ≡ ok tags = rw alone at h in
      let f : [] ≡ tags = cc e in
      subst (IsChecked given) f
        (record { no_none = refl; no_empty = refl; once = nothing_repeated; from = inl refl })
  | inr listed ↦ checked given tags (rw listed at h)
]

read_none : parse_route_providers none_tag ≡ ok []
unfolding parse_route_providers check_tags split strip lstrip
read_none = refl

-- `none` alone is not among tags without `none`.
not_alone : (tags : List Text) → contains tags none_tag ≡ false → (tags == none_tag ∷ []) ≡ false
not_alone [] h = refl
not_alone (t ∷ tags) h = ground (arith, h)

check_tags_lem :
    (tags : List Text)
    → contains tags none_tag ≡ false
    → contains tags [] ≡ false
    → any_repeated tags ≡ false
    → check_tags tags ≡ ok tags
unfolding check_tags
check_tags_lem tags a b c = rw (not_alone tags a, a, b, c) refl

not_empty : (tag : Text) (tags : List Text) → contains (tag ∷ tags) [] ≡ false → tag ≢ []
not_empty [] tags h e = cc h
not_empty (c ∷ tag) tags h e = cc e

from_either :
    {given tags : List Text} → (tags ≡ []) ⊎ (tags ≡ given) → All IsTag given → All IsTag tags
from_either (inl e) h = subst (All IsTag) (sym e) tt
from_either (inr e) h = subst (All IsTag) (sym e) h

format-join :
    (tag : Text) (tags : List Text)
    → tag ≢ []
    → format_route_providers (tag ∷ tags) ≡ join (codes ",") (tag ∷ tags)
unfolding format_route_providers
format-join tag tags n = rw (join_empty tag tags n) refl

parse-join :
    (tags : List Text)
    → tags ≢ []
    → All IsTag tags
    → parse_route_providers (join (codes ",") tags) ≡ check_tags tags
unfolding parse_route_providers
parse-join tags n t =
    ap (λ (l : List Text). check_tags (map strip l))
      (split-join b',' tags n (All-IsTag-Lacks tags t))
    ∙ ap (λ (l : List Text). check_tags l) (map-strip tags t)

-- Tags that are checked are read back from the text that they are printed as.
parse-format :
    (tags : List Text)
    → All IsTag tags
    → contains tags none_tag ≡ false
    → contains tags [] ≡ false
    → any_repeated tags ≡ false
    → parse_route_providers (format_route_providers tags) ≡ ok tags
parse-format [] t a b c = unfold format_route_providers join in read_none
parse-format (tag ∷ tags) t a b c =
    ap parse_route_providers (format-join tag tags (not_empty tag tags b))
    ∙ (parse-join (tag ∷ tags) (λ e. cc) t ∙ check_tags_lem (tag ∷ tags) a b c)

-- Providers that parse are printed as a text that parses to the same providers, in their order.
-- None of them is `none` or empty, and none stands there twice.
pub parse_route_providers_lem :
    (raw : Text) (tags : List Text)
    → parse_route_providers raw ≡ ok tags
    → (parse_route_providers (format_route_providers tags) ≡ ok tags)
      × (contains tags none_tag ≡ false)
      × (contains tags [] ≡ false)
      × (any_repeated tags ≡ false)
unfolding parse_route_providers
parse_route_providers_lem raw tags h =
    let k = check_tags-IsChecked (map strip (split b',' raw)) tags h in
    let all_tags = stripped-IsTag (split b',' raw) (split-Lacks b',' raw) in
    (
      parse-format tags (from_either k.from all_tags) k.no_none k.no_empty k.once,
      k.no_none,
      k.no_empty,
      k.once,
    )
