-- ===== src/Common/Dict/Laws.antt =====
-- What a `dict` holds after each operation, and that no key stands in it twice.
use mathlib.Core.Path.{◌≡◌, refl, ◌∙◌, subst}
use mathlib.Core.Bool.{Bool, false, ◌||◌}
use mathlib.Core.List.{[], ◌∷◌}
use mathlib.Core.Option.{none, some}
use mathlib.Core.Logic.{inl, inr}
use native.Mathlib.Omega.{arith}
use kelso.Common.Tests.{if◌then◌else◌, Bool-cases}
use kelso.Common.Equality.{Eq, ◌==◌}
use kelso.Common.Lists.{contains}
use kelso.Common.Dict.{Dict, get, has, put, pop, pop_where, keys}

module _ {ℓ κ} {K : Type ℓ} {V : Type κ} ⦃e : Eq K⦄ where
  -- No key stands in the association list twice.
  abbrev pub IsDict : Dict K V → Type 0
  IsDict [] = Unit
  IsDict ((j, v) ∷ d) = (contains (keys d) j ≡ false) × IsDict d

  pub get-put :
      (d : Dict K V) (k j : K) (v : V) → get (put d k v) j ≡ (if k == j then some v else get d j)
  unfolding get put
  get-put [] k j v = refl
  get-put ((i, w) ∷ d) k j v =
      ground (arith, e.decides i k, e.decides i j, e.decides k j, get-put d k j v)

  pub get-contains : (d : Dict K V) (k : K) → contains (keys d) k ≡ false → get d k ≡ none
  unfolding get keys
  get-contains [] k h = refl
  get-contains ((i, w) ∷ d) k h = ground (arith, get-contains d k)

  pub contains-get : (d : Dict K V) (k : K) → contains (keys d) k ≡ has d k
  unfolding keys has
  contains-get [] k = refl
  contains-get ((i, w) ∷ d) k = ground (arith, contains-get d k)

  pub get-pop :
      (d : Dict K V) (k j : K) → IsDict d → get (pop d k) j ≡ (if k == j then none else get d j)
  unfolding get pop
  get-pop [] k j h = ground arith
  get-pop ((i, w) ∷ d) k j h =
      ground
        (arith, e.decides i k, e.decides i j, e.decides k j, get-pop d k j h.1, get-contains d j)

  pub get-pop_where :
      (drops : K → Bool) (d : Dict K V) (j : K)
      → get (pop_where drops d) j ≡ (if drops j then none else get d j)
  unfolding get pop_where
  get-pop_where drops [] j = ground arith
  get-pop_where drops ((i, w) ∷ d) j = ground (arith, e.decides i j, get-pop_where drops d j)

  keys-put :
      (d : Dict K V) (k j : K) (v : V)
      → contains (keys (put d k v)) j ≡ (contains (keys d) j || (k == j))
  unfolding keys put
  keys-put [] k j v = ground arith
  keys-put ((i, w) ∷ d) k j v = ground (arith, e.decides i k, keys-put d k j v)

  keys-pop :
      (d : Dict K V) (k j : K) → contains (keys d) j ≡ false → contains (keys (pop d k)) j ≡ false
  unfolding keys pop
  keys-pop [] k j h = refl
  keys-pop ((i, w) ∷ d) k j h = ground (arith, keys-pop d k j)

  keys-pop_where :
      (drops : K → Bool) (d : Dict K V) (j : K)
      → contains (keys d) j ≡ false
      → contains (keys (pop_where drops d)) j ≡ false
  unfolding keys pop_where
  keys-pop_where drops [] j h = refl
  keys-pop_where drops ((i, w) ∷ d) j h = ground (arith, keys-pop_where drops d j)

  pub put-IsDict : (d : Dict K V) (k : K) (v : V) → IsDict d → IsDict (put d k v)
  unfolding put keys
  put-IsDict [] k v h = (refl, tt)
  put-IsDict ((i, w) ∷ d) k v h = elim (Bool-cases (i == k)) [
    | inl same ↦
        rw same (subst (λ x. contains (keys d) x ≡ false) ((e.decides i k).0 same) h.0, h.1)
    | inr other ↦ rw other (new-key other, put-IsDict d k v h.1)
  ]
    where
      new-key : (i == k) ≡ false → contains (keys (put d k v)) i ≡ false
      new-key other = keys-put d k i v ∙ ground (arith, e.decides k i, e.decides i k, h.0)

  pub pop-IsDict : (d : Dict K V) (k : K) → IsDict d → IsDict (pop d k)
  unfolding pop keys
  pop-IsDict [] k h = tt
  pop-IsDict ((i, w) ∷ d) k h = ground (arith, keys-pop d k i h.0, pop-IsDict d k h.1)

  pub pop_where-IsDict : (drops : K → Bool) (d : Dict K V) → IsDict d → IsDict (pop_where drops d)
  unfolding pop_where keys
  pop_where-IsDict drops [] h = tt
  pop_where-IsDict drops ((i, w) ∷ d) h =
      ground (arith, keys-pop_where drops d i h.0, pop_where-IsDict drops d h.1)
