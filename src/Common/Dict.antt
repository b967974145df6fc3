-- ===== src/Common/Dict.antt =====
-- Python's `dict`, in insertion order: a key that is there keeps its place when it is written
-- again.
pub mod Laws
use mathlib.Core.Bool.{Bool, not}
use mathlib.Core.List.{List, [], ◌∷◌, ◌++◌}
use mathlib.Core.Option.{Option, none, some}
use kelso.Common.Tests.{if◌then◌else◌}
use kelso.Common.Equality.{Eq, ◌==◌}
use kelso.Common.Lists.{keep}

abbrev pub Dict {ℓ κ} : Type ℓ → Type κ → Type (ℓ ⊔ κ)
Dict K V = List (K × V)

module _ {ℓ κ} {K : Type ℓ} {V : Type κ} ⦃e : Eq K⦄ where
  -- d.get(k)
  unfoldable pub get : Dict K V → K → Option V
  get [] k = none
  get ((j, v) ∷ d) k = if j == k then some v else get d k

  -- k in d
  unfoldable pub has : Dict K V → K → Bool
  unfolding get
  has d k = elim (get d k) [ none ↦ Bool.false | some v ↦ Bool.true ]

  -- d[k] = v
  unfoldable pub put : Dict K V → K → V → Dict K V
  put [] k v = (k, v) ∷ []
  put ((j, w) ∷ d) k v = if j == k then (k, v) ∷ d else (j, w) ∷ put d k v

  -- d.pop(k, None)
  unfoldable pub pop : Dict K V → K → Dict K V
  pop [] k = []
  pop ((j, w) ∷ d) k = if j == k then d else (j, w) ∷ pop d k

  -- for k in [k for k in d if drops k]: d.pop(k)
  unfoldable pub pop_where : (K → Bool) → Dict K V → Dict K V
  pop_where drops [] = []
  pop_where drops ((j, w) ∷ d) =
      let rest = pop_where drops d in if drops j then rest else (j, w) ∷ rest

  unfoldable pub keys : Dict K V → List K
  keys [] = []
  keys ((j, w) ∷ d) = j ∷ keys d

  unfoldable pub values : Dict K V → List V
  values [] = []
  values ((j, w) ∷ d) = w ∷ values d

  -- d.update(items), which is also {k: v for k, v in items} on the empty dict
  unfoldable pub put_all : Dict K V → List (K × V) → Dict K V
  unfolding put
  put_all d [] = d
  put_all d ((k, v) ∷ items) = put_all (put d k v) items
