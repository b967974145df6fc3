-- ===== src/LogTab/File/Lines.antt =====
-- A file that is made of whole lines is read as those lines.
use kelso.Common.{
  ℕ, ◌≡◌, refl, sym, ap, ◌∙◌, ◌≢◌, Bool, true, false, Option, List, [], ◌∷◌, ◌++◌, All, All-append,
  Bool-cases, inl, inr, ◌&&◌, arith, append_assoc, eq_nat, ◌==◌,
}
use kelso.Common.Result.{Result, ok, err}
use kelso.Common.Text.{Text, split, Lacks}
use kelso.Common.Text.Laws.{split-part, split-Lacks, split-ne-nil, cons_head-Lacks}
use kelso.LogTab.Row.{newline, return, Row}
use kelso.LogTab.Row.RoundTrip.{IsLine}
use kelso.LogTab.File.{Error, translate, drop_last_empty, lines, unlines, records_of}

translate-line :
    (l s : Text) → IsLine l → translate false (l ++ newline ∷ s) ≡ l ++ newline ∷ translate false s
unfolding translate
translate-line [] s h = refl
translate-line (c ∷ l) s ((a, b), (d, e)) = ground (arith, translate-line l s (b, e))

translate-unlines : (ls : List Text) → All IsLine ls → translate false (unlines ls) ≡ unlines ls
unfolding unlines
translate-unlines [] h = unfold translate in refl
translate-unlines (l ∷ ls) h =
    translate-line l (unlines ls) h.0 ∙ ap (λ s. l ++ newline ∷ s) (translate-unlines ls h.1)

drop_last_empty-cons :
    (l : Text) (ls : List Text) → ls ≢ [] → drop_last_empty (l ∷ ls) ≡ l ∷ drop_last_empty ls
drop_last_empty-cons l [] n = absurd (n refl)
drop_last_empty-cons l (m ∷ ls) n = refl

split-unlines : (ls : List Text) → All IsLine ls → drop_last_empty (split newline (unlines ls)) ≡ ls
unfolding unlines
split-unlines [] h = unfold split in refl
split-unlines (l ∷ ls) h =
    ap drop_last_empty (split-part newline l (unlines ls) h.0.0)
    ∙ drop_last_empty-cons l _ (split-ne-nil newline (unlines ls))
    ∙ ap (λ r. l ∷ r) (split-unlines ls h.1)

pub lines-unlines : (ls : List Text) → All IsLine ls → lines (unlines ls) ≡ ls
unfolding lines
lines-unlines ls h = rw (translate-unlines ls h) (split-unlines ls h)

pub unlines-append : (ls ms : List Text) → unlines (ls ++ ms) ≡ unlines ls ++ unlines ms
unfolding unlines
unlines-append [] ms = refl
unlines-append (l ∷ ls) ms = simp (unlines-append ls ms, append_assoc)

pub unlines-snoc :
    (ls : List Text) (l : Text) → unlines ls ++ (l ++ newline ∷ []) ≡ unlines (ls ++ l ∷ [])
unfolding unlines
unlines-snoc ls l = sym (unlines-append ls (l ∷ []))

-- What is read from a file holds no end of line.
translate-Lacks : (after : Bool) (s : Text) → Lacks return (translate after s)
unfolding translate
translate-Lacks after [] = tt
translate-Lacks after (c ∷ s) = elim (Bool-cases (c == return)) [
  | inl cr ↦ rw cr ((omega arith), translate-Lacks true s)
  | inr no_cr ↦ rw no_cr (elim (Bool-cases ((c == newline) && after)) [
    | inl lf ↦ rw lf (translate-Lacks false s)
    | inr no_lf ↦ rw no_lf ((λ e. ground arith), translate-Lacks false s)
  ])
]

split-keeps-Lacks : (b c : ℕ) (s : Text) → Lacks b s → All (Lacks b) (split c s)
unfolding split
split-keeps-Lacks b c [] h = (tt, tt)
split-keeps-Lacks b c (x ∷ s) h = elim (Bool-cases (x == c)) [
  | inl e ↦ rw e (tt, split-keeps-Lacks b c s h.1)
  | inr e ↦ rw e (cons_head-Lacks b x (split c s) h.0 (split-keeps-Lacks b c s h.1))
]

drop_last_empty-All : (P : Text → Type 0) (ls : List Text) → All P ls → All P (drop_last_empty ls)
drop_last_empty-All P [] h = tt
drop_last_empty-All P ([] ∷ []) h = tt
drop_last_empty-All P ((c ∷ l) ∷ []) h = h
drop_last_empty-All P (l ∷ m ∷ ls) h = (h.0, drop_last_empty-All P (m ∷ ls) h.1)

All-both : (P Q : Text → Type 0) (ls : List Text) → All P ls → All Q ls → All (λ l. P l × Q l) ls
All-both P Q [] p q = tt
All-both P Q (l ∷ ls) p q = ((p.0, q.0), All-both P Q ls p.1 q.1)

pub lines-IsLine : (content : Text) → All IsLine (lines content)
unfolding lines
lines-IsLine content =
    let s = translate false content in
    drop_last_empty-All IsLine (split newline s) (
      All-both _ _ (split newline s) (split-Lacks newline s)
        (split-keeps-Lacks return newline s (translate-Lacks false content)))

-- The stream of one file part, and then of another, which a raise forestalls.
abbrev pub extend : List (Result Error Row) → List (Result Error Row) → List (Result Error Row)
extend [] ys = ys
extend (ok r ∷ xs) ys = ok r ∷ extend xs ys
extend (err e ∷ xs) ys = err e ∷ []

module _ (fromisoformat : Text → Option ℕ) (strict : Bool) where
  pub records_of-append :
      (ls ms : List Text)
      → records_of fromisoformat strict (ls ++ ms)
        ≡ extend (records_of fromisoformat strict ls) (records_of fromisoformat strict ms)
  unfolding records_of
  records_of-append [] ms = refl
  records_of-append (l ∷ ls) ms = ground (arith, records_of-append ls ms)

translate-unlines_append :
    (ls : List Text) (s : Text)
    → All IsLine ls
    → translate false (unlines ls ++ s) ≡ unlines ls ++ translate false s
unfolding unlines
translate-unlines_append [] s h = refl
translate-unlines_append (l ∷ ls) s h =
    ap (translate false) (append_assoc l (newline ∷ unlines ls) s)
    ∙ translate-line l (unlines ls ++ s) h.0
    ∙ ap (λ r. l ++ newline ∷ r) (translate-unlines_append ls s h.1)
    ∙ sym (append_assoc l (newline ∷ unlines ls) (translate false s))

translate-return :
    (l s : Text) → IsLine l → translate false (l ++ return ∷ s) ≡ l ++ newline ∷ translate true s
unfolding translate
translate-return [] s h = refl
translate-return (c ∷ l) s ((a, b), (d, e)) = ground (arith, translate-return l s (b, e))

translate_after :
    (l s : Text) → l ≢ [] → IsLine l → translate true (l ++ s) ≡ translate false (l ++ s)
unfolding translate
translate_after [] s n h = absurd (n refl)
translate_after (c ∷ l) s n ((a, b), (d, e)) = ground arith

-- A lone `\r` ends a line as `\n` does.
pub lines-return :
    (ls : List Text) (l m : Text)
    → All IsLine ls
    → IsLine l
    → m ≢ []
    → IsLine m
    → lines (unlines ls ++ (l ++ return ∷ (m ++ newline ∷ []))) ≡ ls ++ l ∷ m ∷ []
unfolding lines
lines-return ls l m hs hl n hm =
    ap (λ s. drop_last_empty (split newline s))
      (translate-unlines_append ls _ hs
        ∙ ap (λ s. unlines ls ++ s)
            (translate-return l _ hl
              ∙ ap (λ s. l ++ newline ∷ s) (translate_after m _ n hm ∙ translate-line m [] hm))
        ∙ ends)
    ∙ split-unlines (ls ++ l ∷ m ∷ []) (All-append _ ls (l ∷ m ∷ []) hs (hl, (hm, tt)))
  where
    ends :
        unlines ls ++ (l ++ newline ∷ (m ++ newline ∷ translate false []))
        ≡ unlines (ls ++ l ∷ m ∷ [])
    ends = unfold translate unlines in sym (unlines-append ls (l ∷ m ∷ []))
