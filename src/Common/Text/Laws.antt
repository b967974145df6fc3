-- ===== src/Common/Text/Laws.antt =====
-- Prefixes, splitting and joining.
use mathlib.Core.Path.{◌≡◌, refl, sym, ap, subst}
use mathlib.Core.Bool.{true, false}
use mathlib.Core.List.{List, [], ◌∷◌, ◌++◌, reverse, reverse-cons}
use mathlib.Core.Logic.{◌≢◌, inl, inr}
use native.Mathlib.Omega.{arith}
use Prim.Native.Nat.{ℕ, suc}
use kelso.Common.Tests.{Bool-cases}
use kelso.Common.Equality.{◌==◌, eq_nat, nat_beq_iff}
use kelso.Common.Lists.{All, contains, contains-append}
use kelso.Common.Text.{
  text_le, Text, starts_with, cons_head, split, split_max, join, Lacks, is_space, is_empty, lstrip,
  strip,
}

pub starts_with_refl : (s : Text) → starts_with s s ≡ true
starts_with_refl [] = refl
starts_with_refl (c ∷ s) = ground (arith, starts_with_refl s)

pub split-ne-nil : (c : ℕ) (s : Text) → split c s ≢ []
unfolding split
split-ne-nil c [] h = cc
split-ne-nil c (x ∷ s) h = ground (arith, split-ne-nil c s)

-- A part without the separator is split off whole.
pub split-part : (c : ℕ) (p s : Text) → Lacks c p → split c (p ++ c ∷ s) ≡ p ∷ split c s
unfolding split
split-part c [] s h = ground arith
split-part c (x ∷ p) s h = ground (arith, split-part c p s h.1)

pub split_whole : (c : ℕ) (p : Text) → Lacks c p → split c p ≡ p ∷ []
unfolding split
split_whole c [] h = refl
split_whole c (x ∷ p) h = ground (arith, split_whole c p h.1)

pub split_max-part :
    (c n : ℕ) (p s : Text) → Lacks c p → split_max c (suc n) (p ++ c ∷ s) ≡ p ∷ split_max c n s
unfolding split_max
split_max-part c n [] s h = ground arith
split_max-part c n (x ∷ p) s h = ground (arith, split_max-part c n p s h.1)

-- No part of a split holds the separator.
pub cons_head-Lacks :
    (c x : ℕ) (ps : List Text) → x ≢ c → All (Lacks c) ps → All (Lacks c) (cons_head x ps)
cons_head-Lacks c x [] n h = ((n, tt), tt)
cons_head-Lacks c x (p ∷ ps) n h = ((n, h.0), h.1)

pub split-Lacks : (c : ℕ) (s : Text) → All (Lacks c) (split c s)
unfolding split
split-Lacks c [] = (tt, tt)
split-Lacks c (x ∷ s) = elim (Bool-cases (x == c)) [
  | inl e ↦ rw e (tt, split-Lacks c s)
  | inr e ↦ rw e (cons_head-Lacks c x (split c s) (λ p. ground arith) (split-Lacks c s))
]

-- Joining the parts of a split gives the text back.
join-cons_head :
    (x c : ℕ) (ps : List Text) → ps ≢ [] → join (c ∷ []) (cons_head x ps) ≡ x ∷ join (c ∷ []) ps
unfolding join
join-cons_head x c [] h = absurd (h refl)
join-cons_head x c (p ∷ []) h = refl
join-cons_head x c (p ∷ q ∷ ps) h = refl

join-nil_cons : (c : ℕ) (ps : List Text) → ps ≢ [] → join (c ∷ []) ([] ∷ ps) ≡ c ∷ join (c ∷ []) ps
unfolding join
join-nil_cons c [] h = absurd (h refl)
join-nil_cons c (p ∷ ps) h = refl

pub join-split : (c : ℕ) (s : Text) → join (c ∷ []) (split c s) ≡ s
unfolding split
join-split c [] = unfold join in refl
join-split c (x ∷ s) = elim (Bool-cases (x == c)) [
  | inl e ↦ rw e (ground (arith, join-nil_cons c (split c s), split-ne-nil c s, join-split c s))
  | inr e ↦ rw e (ground (arith, join-cons_head x c (split c s), split-ne-nil c s, join-split c s))
]

-- Splitting a join gives the parts back, if there is one and none holds the separator.
pub split-join :
    (c : ℕ) (ps : List Text) → ps ≢ [] → All (Lacks c) ps → split c (join (c ∷ []) ps) ≡ ps
unfolding join
split-join c [] n h = absurd (n refl)
split-join c (p ∷ []) n h = split_whole c p h.0
split-join c (p ∷ q ∷ ps) n h =
    rw (split-part c p _ h.0) (ap (λ r. p ∷ r) (split-join c (q ∷ ps) (λ e. cc) h.1))

-- A text with a character that is no space is not empty when stripped.
lstrip-contains :
    (s : Text) (x : ℕ) → is_space x ≡ false → contains s x ≡ true → contains (lstrip s) x ≡ true
unfolding lstrip
lstrip-contains [] x n h = h
lstrip-contains (c ∷ s) x n h = elim (Bool-cases (is_space c)) [
  | inl sp ↦ rw sp (lstrip-contains s x n (later sp))
  | inr no_sp ↦ rw no_sp h
]
  where
    later : is_space c ≡ true → contains s x ≡ true
    later sp = elim (Bool-cases (c == x)) [
      | inl same ↦ cc (n, sp, ap is_space ((nat_beq_iff c x).0 same))
      | inr other ↦ ground arith
    ]

contains-reverse : (s : Text) (x : ℕ) → contains s x ≡ true → contains (reverse s) x ≡ true
contains-reverse [] x h = h
contains-reverse (c ∷ s) x h =
    rw (reverse-cons, contains-append (reverse s) (c ∷ []) x) (ground (arith, contains-reverse s x))

pub strip_visible :
    (s : Text) (x : ℕ) → is_space x ≡ false → contains s x ≡ true → is_empty (strip s) ≡ false
unfolding strip
strip_visible s x n h =
    not_empty _ (
      contains-reverse _ x (lstrip-contains _ x n (contains-reverse _ x (lstrip-contains s x n h))))
  where
    not_empty : (t : Text) → contains t x ≡ true → is_empty t ≡ false
    not_empty [] p = cc
    not_empty (c ∷ t) p = refl

-- What a limited split says of the text: its first part, and the rest that was split further.
pub record FirstPart (c n : ℕ) (s p : Text) (ps : List Text) : Type 0 where
  pub rest : Text
  pub whole : s ≡ p ++ c ∷ rest
  pub part : Lacks c p
  pub further : split_max c n rest ≡ ps

cons_head-inv :
    (x : ℕ) (l : List Text) (p q : Text) (ps : List Text)
    → cons_head x l ≡ p ∷ q ∷ ps
    → (p' : Text) × (l ≡ p' ∷ q ∷ ps) × (p ≡ x ∷ p')
cons_head-inv x [] p q ps h = cc
cons_head-inv x (p' ∷ l) p q ps h = (p', cc, cc)

split_max-first :
    (c n : ℕ) (s p q : Text) (ps : List Text)
    → split_max c (suc n) s ≡ p ∷ q ∷ ps
    → FirstPart c n s p (q ∷ ps)
unfolding split_max
split_max-first c n [] p q ps h = cc
split_max-first c n (x ∷ s) p q ps h = elim (Bool-cases (x == c)) [
  | inl same ↦ at_sep same (rw (same, split_max) at h)
  | inr other ↦ inside other (λ p'. split_max-first c n s p' q ps) (rw (other, split_max) at h)
]
  where
    at_sep : (x == c) ≡ true → [] ∷ split_max c n s ≡ p ∷ q ∷ ps → FirstPart c n (x ∷ s) p (q ∷ ps)
    at_sep same e =
        subst (λ t. FirstPart c n (x ∷ s) t (q ∷ ps)) {x = []} (cc)
          (record {
            rest = s;
            whole = ap (λ y. y ∷ s) ((nat_beq_iff x c).0 same);
            part = tt;
            further = cc;
          })

    inside :
        (x == c) ≡ false
        → ((p' : Text) → split_max c (suc n) s ≡ p' ∷ q ∷ ps → FirstPart c n s p' (q ∷ ps))
        → cons_head x (split_max c (suc n) s) ≡ p ∷ q ∷ ps
        → FirstPart c n (x ∷ s) p (q ∷ ps)
    inside other ih e =
        let (p', l, px) = cons_head-inv x (split_max c (suc n) s) p q ps e in
        let f = ih p' l in
        subst (λ t. FirstPart c n (x ∷ s) t (q ∷ ps)) (sym px)
          (record {
            rest = f.rest;
            whole = ap (λ t. x ∷ t) f.whole;
            part = ((λ same. ground arith), f.part);
            further = f.further;
          })

-- A text that splits into four parts at the first three separators.
pub record FourParts (c : ℕ) (s p q r t : Text) : Type 0 where
  pub whole : s ≡ p ++ (c ∷ (q ++ (c ∷ (r ++ (c ∷ t)))))
  pub first : Lacks c p
  pub second : Lacks c q
  pub third : Lacks c r

pub split_max-FourParts :
    (c : ℕ) (s p q r t : Text) → split_max c 3 s ≡ p ∷ q ∷ r ∷ t ∷ [] → FourParts c s p q r t
split_max-FourParts c s p q r t h =
    let a = split_max-first c 2 s p q (r ∷ t ∷ []) h in
    let b = split_max-first c 1 a.rest q r (t ∷ []) a.further in
    let d = split_max-first c 0 b.rest r t [] b.further in
    record {
      whole = cc (a.whole, b.whole, d.whole, last d.rest d.further);
      first = a.part;
      second = b.part;
      third = d.part;
    }
  where
    last : (u : Text) → split_max c 0 u ≡ t ∷ [] → u ≡ t
    last u e = unfold split_max in cc

-- The order of texts is total, and goes across.
pub text_le_other : (s t : Text) → text_le s t ≡ false → text_le t s ≡ true
unfolding text_le
text_le_other [] t h = cc h
text_le_other (c ∷ s) [] h = refl
text_le_other (c ∷ s) (d ∷ t) h = ground (arith, text_le_other s t, h)

pub text_le_across : (s t u : Text) → text_le s t ≡ true → text_le t u ≡ true → text_le s u ≡ true
unfolding text_le
text_le_across [] t u h k = refl
text_le_across (c ∷ s) [] u h k = cc h
text_le_across (c ∷ s) (d ∷ t) [] h k = cc k
text_le_across (c ∷ s) (d ∷ t) (e ∷ u) h k = ground (arith, text_le_across s t u, h, k)
