-- ===== src/Common/Result.antt =====
-- Code that raises: the value, or the exception.
use mathlib.Core.Path.{◌≡◌, refl, ap, ◌∙◌}
use mathlib.Core.Bool.{Bool, true, false}
use mathlib.Core.List.{List, [], ◌∷◌}
use kelso.Common.Lists.{All}

pub data Result {ℓ} (E : Type 0) (A : Type ℓ) : Type ℓ where
  ok : A → Result E A
  err : E → Result E A

infixl 5 ◌>>=◌ ◌>>◌
abbrev pub ◌>>=◌ {ℓ κ} :
    {E : Type 0} {A : Type ℓ} {B : Type κ} → Result E A → (A → Result E B) → Result E B
ok a >>= f = f a
err e >>= f = err e

abbrev pub ◌>>◌ {ℓ} : {E : Type 0} {B : Type ℓ} → Result E (Unit {0}) → Result E B → Result E B
m >> k = m >>= λ _. k

-- `if not b: raise e`
abbrev pub require : {E : Type 0} → Bool → E → Result E (Unit {0})
require true e = ok tt
require false e = err e

-- A chain that returned ran its first step, and then the rest on what that returned.
module _ {ℓ κ} {E : Type 0} {A : Type ℓ} {B : Type κ} where
  pub ok_of_bind :
      (first : Result E A) (rest : A → Result E B) {last : B}
      → (first >>= rest) ≡ ok last
      → (a : A) × (first ≡ ok a) × (rest a ≡ ok last)
  ok_of_bind (err e) rest raised = cc
  ok_of_bind (ok a) rest returned = (a, refl, returned)

module _ {ℓ κ} {E : Type 0} {A : Type ℓ} {B : Type κ} where
  -- A chain returns, where its first step does and then the rest.
  pub bind_returns :
      (first : Result E A) (rest : A → Result E B) (a : A)
      → first ≡ ok a
      → (b : B) × (rest a ≡ ok b)
      → (b : B) × ((first >>= rest) ≡ ok b)
  bind_returns first rest a p (b, q) = (b, ap (λ r. r >>= rest) p ∙ q)

-- [f(x) for x in xs]
unfoldable pub traverse {ℓ κ} :
    {E : Type 0} {A : Type ℓ} {B : Type κ} → (A → Result E B) → List A → Result E (List B)
traverse f [] = ok []
traverse f (x ∷ xs) = f x >>= λ y. traverse f xs >>= λ ys. ok (y ∷ ys)

-- The lists are as long as each other, and their elements are related one by one.
pub data Pairwise {ℓ κ ρ} {A : Type ℓ} {B : Type κ} (R : A → B → Type ρ)
    : List A → List B → Type (ℓ ⊔ κ ⊔ ρ) where
  done : Pairwise R [] []
  more :
      {x : A} {y : B} {xs : List A} {ys : List B}
      → R x y
      → Pairwise R xs ys
      → Pairwise R (x ∷ xs) (y ∷ ys)

module _ {ℓ κ ρ} {A : Type ℓ} {B : Type κ} (R : A → B → Type ρ) where
  pub traverse-Pairwise :
      {E : Type 0} (f : A → Result E B) (xs : List A)
      → All (λ x. (y : B) × (f x ≡ ok y) × R x y) xs
      → (ys : List B) × (traverse f xs ≡ ok ys) × Pairwise R xs ys
  unfolding traverse
  traverse-Pairwise f [] h = ([], refl, done)
  traverse-Pairwise f (x ∷ xs) ((y, p, r), h) =
      let rest = traverse-Pairwise f xs h in (y ∷ rest.0, rw (p, rest.1) refl, more r rest.2)
