-- ===== src/Spec/Build/Items.antt =====
-- Dicts that are made from items.
use kelso.Common.{
  suc, ◌≤◌, ◌≡◌, refl, ◌∙◌, arith, some, [], ◌∷◌, ◌==◌, eq_nat, eq_list, All, Bool-cases, inl, inr,
  ==_refl,
}
use kelso.Common.Text.{Text}
use kelso.Common.Dict.{Dict, get, put, put_all, keys}
use kelso.Common.Dict.Laws.{get-put}
use kelso.Manifest.Routes.{times}

module _ {κ} {V : Type κ} where
  -- A key that the items do not name keeps its value.
  get-put_all_other :
      (d : Dict Text V) (items : Dict Text V) (k : Text)
      → times k (keys items) ≡ 0
      → get (put_all d items) k ≡ get d k
  unfolding put_all keys
  get-put_all_other d [] k h = refl
  get-put_all_other d ((j, v) ∷ items) k h = elim (Bool-cases (j == k)) [
    | inl same ↦ let n : suc (times k (keys items)) ≡ 0 = rw same at h in absurd (omega (arith, n))
    | inr other ↦
        get-put_all_other (put d j v) items k (rw other at h) ∙ (get-put d j k v ∙ rw other refl)
  ]

  -- Of items whose keys are all different each stands in the dict.
  pub get-put_all :
      (d : Dict Text V) (items : Dict Text V)
      → ((k : Text) → times k (keys items) ≤ 1)
      → All (λ (item : Text × V). get (put_all d items) item.0 ≡ some item.1) items
  unfolding put_all keys
  get-put_all d [] h = tt
  get-put_all d ((k, v) ∷ items) h = (
    get-put_all_other (put d k v) items k alone ∙ (get-put d k k v ∙ rw (==_refl k) refl),
    get-put_all (put d k v) items (λ j. ground (arith, h j)),
  )
    where
      alone : times k (keys items) ≡ 0
      alone = ground (arith, h k, ==_refl k)
