-- ===== src/Common/Insertion.antt =====
-- Python's sorted with a key, by insertion: equal elements keep their order.
use mathlib.Core.Path.{◌≡◌}
use mathlib.Core.Bool.{Bool, true, false}
use mathlib.Core.List.{List, [], ◌∷◌, Perm}
use mathlib.Core.List.Perm
use mathlib.Core.Logic.{◌⊎◌, inl, inr}
use kelso.Common.Tests.{if◌then◌else◌, Bool-cases}
use kelso.Common.Lists.{All, keep}

module _ {ℓ} {A : Type ℓ} where
  -- `a` goes before the first element that it is to stand before
  unfoldable pub insert_by : (A → A → Bool) → A → List A → List A
  insert_by before a [] = a ∷ []
  insert_by before a (b ∷ bs) =
      let rest = insert_by before a bs in if before a b then a ∷ b ∷ bs else b ∷ rest

  unfoldable pub sort_by : (A → A → Bool) → List A → List A
  unfolding insert_by
  sort_by before [] = []
  sort_by before (a ∷ rest) = insert_by before a (sort_by before rest)

  insert_by-Perm :
      (before : A → A → Bool) (a : A) (bs : List A) → Perm (insert_by before a bs) (a ∷ bs)
  unfolding insert_by
  insert_by-Perm before a [] = Perm.refl (a ∷ [])
  insert_by-Perm before a (b ∷ bs) = elim (Bool-cases (before a b)) [
    | inl here ↦ rw here (Perm.refl (a ∷ b ∷ bs))
    | inr later ↦
        rw later (Perm.trans (Perm.cons b (insert_by-Perm before a bs)) (Perm.swap a b bs))
  ]

  pub sort_by-Perm : (before : A → A → Bool) (xs : List A) → Perm (sort_by before xs) xs
  unfolding sort_by
  sort_by-Perm before [] = Perm.refl []
  sort_by-Perm before (a ∷ rest) =
      Perm.trans (insert_by-Perm before a (sort_by before rest))
        (Perm.cons a (sort_by-Perm before rest))

  insert_by-keep :
      (before : A → A → Bool) (p : A → Bool) (a : A) (bs : List A)
      → Perm (keep p (insert_by before a bs)) (keep p (a ∷ bs))
  unfolding insert_by
  insert_by-keep before p a [] = Perm.refl (keep p (a ∷ []))
  insert_by-keep before p a (b ∷ bs) = elim (Bool-cases (before a b)) [
    | inl here ↦ rw here (Perm.refl (keep p (a ∷ b ∷ bs)))
    | inr later ↦
        rw later (moved (Bool-cases (p a)) (Bool-cases (p b)) (insert_by-keep before p a bs))
  ]
    where
      moved :
          (p a ≡ true) ⊎ (p a ≡ false)
          → (p b ≡ true) ⊎ (p b ≡ false)
          → Perm (keep p (insert_by before a bs)) (keep p (a ∷ bs))
          → Perm (keep p (b ∷ insert_by before a bs)) (keep p (a ∷ b ∷ bs))
      moved (inl x) (inl y) rest =
          let without : Perm (keep p (insert_by before a bs)) (a ∷ keep p bs) = rw x at rest in
          rw (x, y) (Perm.trans (Perm.cons b without) (Perm.swap a b (keep p bs)))
      moved (inl x) (inr y) rest = rw y rest
      moved (inr x) (inl y) rest =
          let without : Perm (keep p (insert_by before a bs)) (keep p bs) = rw x at rest in
          rw (x, y) (Perm.cons b without)
      moved (inr x) (inr y) rest = rw y rest

  -- What is kept of the sorted elements are the elements that are kept, in another order.
  pub sort_by-keep :
      (before : A → A → Bool) (p : A → Bool) (xs : List A)
      → Perm (keep p (sort_by before xs)) (keep p xs)
  unfolding sort_by
  sort_by-keep before p [] = Perm.refl []
  sort_by-keep before p (a ∷ rest) =
      Perm.trans (insert_by-keep before p a (sort_by before rest))
        (moved (Bool-cases (p a)) (sort_by-keep before p rest))
    where
      moved :
          (p a ≡ true) ⊎ (p a ≡ false)
          → Perm (keep p (sort_by before rest)) (keep p rest)
          → Perm (keep p (a ∷ sort_by before rest)) (keep p (a ∷ rest))
      moved (inl x) same = rw x (Perm.cons a same)
      moved (inr x) same = rw x same

-- Each element is so related to all that stand behind it.
abbrev pub InOrder {ℓ κ} : {A : Type ℓ} → (A → A → Type κ) → List A → Type κ
InOrder R [] = Unit
InOrder R (x ∷ xs) = All (R x) xs × InOrder R xs

module _ {ℓ κ} {A : Type ℓ} (R : A → A → Type κ) (before : A → A → Bool)
    (yes_there : (a b : A) → before a b ≡ true → R a b)
    (not_there : (a b : A) → before a b ≡ false → R b a)
    (across : (a b c : A) → R a b → R b c → R a c) where
  all_behind : (a b : A) (xs : List A) → R a b → All (R b) xs → All (R a) xs
  all_behind a b [] h k = tt
  all_behind a b (x ∷ xs) h k = (across a b x h k.0, all_behind a b xs h k.1)

  behind_both : (a b : A) (xs : List A) → R b a → All (R b) xs → All (R b) (insert_by before a xs)
  unfolding insert_by
  behind_both a b [] h k = (h, tt)
  behind_both a b (x ∷ xs) h k = elim (Bool-cases (before a x)) [
    | inl here ↦ rw here (h, k)
    | inr later ↦ rw later (k.0, behind_both a b xs h k.1)
  ]

  insert_by-InOrder : (a : A) (xs : List A) → InOrder R xs → InOrder R (insert_by before a xs)
  unfolding insert_by
  insert_by-InOrder a [] h = (tt, tt)
  insert_by-InOrder a (x ∷ xs) h = elim (Bool-cases (before a x)) [
    | inl here ↦ let first = yes_there a x here in rw here ((first, all_behind a x xs first h.0), h)
    | inr later ↦
        rw later (behind_both a x xs (not_there a x later) h.0, insert_by-InOrder a xs h.1)
  ]

  pub sort_by-InOrder : (xs : List A) → InOrder R (sort_by before xs)
  unfolding sort_by
  sort_by-InOrder [] = tt
  sort_by-InOrder (a ∷ rest) = insert_by-InOrder a (sort_by before rest) (sort_by-InOrder rest)

module _ {ℓ κ} {A : Type ℓ} (R : A → A → Type κ) (p : A → Bool) where
  keep-All : (a : A) (xs : List A) → All (R a) xs → All (R a) (keep p xs)
  keep-All a [] h = tt
  keep-All a (x ∷ xs) h = elim (Bool-cases (p x)) [
    | inl kept ↦ rw kept (h.0, keep-All a xs h.1)
    | inr gone ↦ rw gone (keep-All a xs h.1)
  ]

  pub keep-InOrder : (xs : List A) → InOrder R xs → InOrder R (keep p xs)
  keep-InOrder [] h = tt
  keep-InOrder (x ∷ xs) h = elim (Bool-cases (p x)) [
    | inl kept ↦ rw kept (keep-All x xs h.0, keep-InOrder xs h.1)
    | inr gone ↦ rw gone (keep-InOrder xs h.1)
  ]
