-- ===== src/Common/Sort.antt =====
-- Python's `sorted` on texts, and lists that are gathered from the elements of another.
use kelso.Common.{
  Bool, true, false, List, [], ◌∷◌, ◌++◌, if◌then◌else◌, eq_nat, eq_list, ◌≡◌, refl, Bool-cases,
  inl, inr, All,
}
use kelso.Common.Text.{Text, text_le}

unfoldable pub insert_sorted : Text → List Text → List Text
unfolding text_le
insert_sorted t [] = t ∷ []
insert_sorted t (u ∷ us) =
    let rest = insert_sorted t us in if text_le t u then t ∷ u ∷ us else u ∷ rest

-- sorted(ts)
unfoldable pub sorted : List Text → List Text
unfolding insert_sorted
sorted [] = []
sorted (t ∷ ts) = insert_sorted t (sorted ts)

-- the element, where the condition holds: `if b: errors.append(e)`
abbrev pub when {ℓ} : {A : Type ℓ} → Bool → A → List A
when true e = e ∷ []
when false e = []

-- [e for x in xs for e in f(x)]
unfoldable pub gather {ℓ κ} : {A : Type ℓ} {B : Type κ} → (A → List B) → List A → List B
gather f [] = []
gather f (x ∷ xs) = f x ++ gather f xs

module _ {κ} {B : Type κ} where
  pub append_nil : (xs ys : List B) → xs ++ ys ≡ [] → (xs ≡ []) × (ys ≡ [])
  append_nil [] ys h = (refl, h)
  append_nil (x ∷ xs) ys h = cc h

  pub when_nil : (b : Bool) (e : B) → when b e ≡ [] → b ≡ false
  when_nil true e h = cc h
  when_nil false e h = refl

module _ {ℓ κ} {A : Type ℓ} {B : Type κ} where
  pub gather_nil : (f : A → List B) (xs : List A) → gather f xs ≡ [] → All (λ x. f x ≡ []) xs
  unfolding gather
  gather_nil f [] h = tt
  gather_nil f (x ∷ xs) h =
      let parts = append_nil (f x) (gather f xs) h in (parts.0, gather_nil f xs parts.1)

module _ {ℓ κ λ'} {A : Type ℓ} {P : A → Type κ} {Q : A → Type λ'} where
  pub All-map : (xs : List A) → ((x : A) → P x → Q x) → All P xs → All Q xs
  All-map [] f h = tt
  All-map (x ∷ xs) f h = (f x h.0, All-map xs f h.1)

insert_nil : (t : Text) (us : List Text) → insert_sorted t us ≡ [] → ⊥
unfolding insert_sorted
insert_nil t [] h = cc h
insert_nil t (u ∷ us) h = elim (Bool-cases (text_le t u)) [
  | inl a ↦ let k : t ∷ u ∷ us ≡ [] = rw a at h in cc k
  | inr a ↦ let k : u ∷ insert_sorted t us ≡ [] = rw a at h in cc k
]

pub sorted_nil : (ts : List Text) → sorted ts ≡ [] → ts ≡ []
unfolding sorted
sorted_nil [] h = refl
sorted_nil (t ∷ ts) h = absurd (insert_nil t (sorted ts) h)
