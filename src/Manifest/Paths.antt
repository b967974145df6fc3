-- ===== src/Manifest/Paths.antt =====
-- Which guest paths _validate_run_volumes of kelso/lib/manifest.py refuses.
use kelso.Common.{
  ℕ, ◌≡◌, ◌≢◌, refl, sym, subst, arith, Bool, true, false, ◌||◌, List, [], ◌∷◌, ◌++◌, if◌then◌else◌,
  ◌==◌, eq_nat, eq_list, All, All-append,
}
use mathlib.Core.List.{reverse, reverse-cons}
use kelso.Common.Text.{Text, codes, is_empty, starts_with, split, join, Lacks}
use kelso.Common.Text.Laws.{split-Lacks}
use kelso.Manifest.Words.{initial_slashes, resolve_components, add_component, components, normpath}
use kelso.Manifest.Checks.{is_reserved}

module _ {ℓ κ} {A : Type ℓ} (P : A → Type κ) where
  All-reverse : (xs : List A) → All P xs → All P (reverse xs)
  All-reverse [] h = h
  All-reverse (x ∷ xs) h =
      subst (All P) (sym (reverse-cons x xs))
        (All-append P (reverse xs) (x ∷ []) (All-reverse xs h.1) (h.0, tt))

add_component_lem :
    (rooted : Bool) (done : List Text) (comp : Text)
    → All (Lacks b'/') done
    → Lacks b'/' comp
    → All (Lacks b'/') (add_component rooted done comp)
add_component_lem rooted [] comp d c = ground (arith, d, c)
add_component_lem rooted (last ∷ comps) comp d c = ground (arith, d, c)

step_lem :
    (rooted skip : Bool) (done : List Text) (comp : Text)
    → All (Lacks b'/') done
    → Lacks b'/' comp
    → All (Lacks b'/') (if skip then done else add_component rooted done comp)
step_lem rooted true done comp d c = d
step_lem rooted false done comp d c = add_component_lem rooted done comp d c

resolve_lem :
    (rooted : Bool) (comps done : List Text)
    → All (Lacks b'/') done
    → All (Lacks b'/') comps
    → All (Lacks b'/') (resolve_components rooted done comps)
unfolding resolve_components
resolve_lem rooted [] done d c = d
resolve_lem rooted (comp ∷ comps) done d c =
    resolve_lem rooted comps
      (if is_empty comp || (comp == codes ".") then done else add_component rooted done comp)
      (step_lem rooted (is_empty comp || (comp == codes ".")) done comp d c.0) c.1

components_lem : (path : Text) → All (Lacks b'/') (components path)
unfolding components
components_lem path =
    All-reverse (Lacks b'/') _ (resolve_lem _ (split b'/' path) [] tt (split-Lacks b'/' path))

-- whether the first component is this one
abbrev pub first_is : Text → List Text → Bool
first_is name [] = false
first_is name (comp ∷ comps) = comp == name

slash_apart : (d : ℕ) → d ≢ b'/' → (b'/' == d) ≡ false
slash_apart d h = ground (arith, h)

slash_behind : (c : ℕ) → c ≢ b'/' → (c == b'/') ≡ false
slash_behind c h = ground (arith, h)

starts_part :
    (p k r : Text)
    → Lacks b'/' p
    → Lacks b'/' k
    → starts_with (p ++ b'/' ∷ r) (k ++ b'/' ∷ []) ≡ (p == k)
starts_part [] [] r hp hk = refl
starts_part [] (d ∷ k) r hp hk = ground (arith, slash_apart d hk.0)
starts_part (c ∷ p) [] r hp hk = ground (arith, slash_behind c hp.0)
starts_part (c ∷ p) (d ∷ k) r hp hk = ground (arith, starts_part p k r hp.1 hk.1)

starts_alone : (p k : Text) → Lacks b'/' p → starts_with p (k ++ b'/' ∷ []) ≡ false
starts_alone [] [] h = refl
starts_alone [] (d ∷ k) h = refl
starts_alone (c ∷ p) [] h = ground (arith, slash_behind c h.0)
starts_alone (c ∷ p) (d ∷ k) h = ground (arith, starts_alone p k h.1)

equal_part : (p k r : Text) → Lacks b'/' k → ((p ++ b'/' ∷ r) == k) ≡ false
equal_part [] [] r h = refl
equal_part [] (d ∷ k) r h = ground (arith, slash_apart d h.0)
equal_part (c ∷ p) [] r h = refl
equal_part (c ∷ p) (d ∷ k) r h = ground (arith, equal_part p k r h.1)

first_lem :
    (k : Text) (comps : List Text)
    → (k == []) ≡ false
    → Lacks b'/' k
    → All (Lacks b'/') comps
    → ((join (codes "/") comps == k) || starts_with (join (codes "/") comps) (k ++ b'/' ∷ []))
      ≡ first_is k comps
unfolding join
first_lem [] comps full hk hc = cc full
first_lem (d ∷ k) [] full hk hc = refl
first_lem k (p ∷ []) full hk hc = ground (arith, starts_alone p k hc.0)
first_lem k (p ∷ q ∷ ps) full hk hc = ground (
  arith,
  equal_part p k (join (codes "/") (q ∷ ps)) hk,
  starts_part p k (join (codes "/") (q ∷ ps)) hc.0 hk,
)

kelso-Lacks : Lacks b'/' (codes "kelso")
kelso-Lacks = (omega arith, (omega arith, (omega arith, (omega arith, (omega arith, tt)))))

-- A guest path that starts with one slash, or with three and more, is refused exactly when its
-- first component, with `.` and `..` resolved, is `kelso`.
pub is_reserved-normpath :
    (path : Text)
    → initial_slashes path ≡ codes "/"
    → is_reserved (normpath path) ≡ first_is (codes "kelso") (components path)
unfolding normpath is_reserved
is_reserved-normpath path one =
    rw one (first_lem (codes "kelso") (components path) refl kelso-Lacks (components_lem path))

-- A guest path that starts with two slashes passes, whatever its components are, so also where the
-- first of them is `kelso`.
pub is_reserved_slashes :
    (path : Text) → initial_slashes path ≡ codes "//" → is_reserved (normpath path) ≡ false
unfolding normpath is_reserved
is_reserved_slashes path two = rw two refl
