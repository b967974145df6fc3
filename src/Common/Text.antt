-- ===== src/Common/Text.antt =====
-- Text as a list of code points, and the methods of Python's `str` that the program uses.
-- `isdigit` and `int` are the ASCII ones: a digit is `0` to `9`.
pub mod Laws
use Prim.Native.Char.{code}
use Prim.Native.String.{String}
use Prim.Native.Nat.{ℕ, zero, suc, ◌+◌, ◌-◌, ◌*◌}
use mathlib.Core.Bool.{Bool, true, false, ◌&&◌, ◌||◌}
use mathlib.Core.List.{List, [], ◌∷◌, ◌++◌, reverse}
use mathlib.Core.Logic.{◌≢◌}
use kelso.Common.Tests.{leb, ltb, if◌then◌else◌}
use kelso.Common.Equality.{◌==◌, eq_nat}
use kelso.Common.Lists.{All, all}

abbrev pub Text : Type 0
Text = List ℕ

-- the code points of a literal
abbrev pub codes : String → Text
codes String.[] = []
codes (String.◌∷◌ c s) = code c ∷ codes s

abbrev pub is_empty : Text → Bool
is_empty [] = true
is_empty (c ∷ s) = false

-- s.startswith(p)
abbrev pub starts_with : Text → Text → Bool
starts_with s [] = true
starts_with [] (d ∷ p) = false
starts_with (c ∷ s) (d ∷ p) = (c == d) && starts_with s p

-- s <= t, by code points
unfoldable pub text_le : Text → Text → Bool
text_le [] t = true
text_le (c ∷ s) [] = false
text_le (c ∷ s) (d ∷ t) = ltb c d || ((c == d) && text_le s t)

-- s.endswith(p)
unfoldable pub ends_with : Text → Text → Bool
ends_with s p = starts_with (reverse s) (reverse p)

abbrev pub cons_head : ℕ → List Text → List Text
cons_head c [] = (c ∷ []) ∷ []
cons_head c (p ∷ ps) = (c ∷ p) ∷ ps

-- s.split(c)
unfoldable pub split : ℕ → Text → List Text
split c [] = [] ∷ []
split c (x ∷ s) = let rest = split c s in if x == c then [] ∷ rest else cons_head x rest

-- s.split(c, n)
unfoldable pub split_max : ℕ → ℕ → Text → List Text
split_max c zero s = s ∷ []
split_max c (suc n) [] = [] ∷ []
split_max c (suc n) (x ∷ s) = elim (x == c) [
  | true ↦ [] ∷ split_max c n s
  | false ↦ cons_head x (split_max c (suc n) s)
]

-- s.partition(c): before, whether `c` was found, after
pub record Partition : Type 0 where
  pub before : Text
  pub found : Bool
  pub after : Text

abbrev pub before_cons : ℕ → Partition → Partition
before_cons x p = record p { before = x ∷ p.before }

unfoldable pub partition : ℕ → Text → Partition
partition c [] = record { before = []; found = false; after = [] }
partition c (x ∷ s) =
    let rest = partition c s in
    if x == c then record { before = []; found = true; after = s } else before_cons x rest

-- sep.join(parts)
unfoldable pub join : Text → List Text → Text
join sep [] = []
join sep (p ∷ []) = p
join sep (p ∷ q ∷ ps) = p ++ (sep ++ join sep (q ∷ ps))

-- c.isspace(): what `strip()` with no argument strips
abbrev pub is_space : ℕ → Bool
is_space c =
    (leb 9 c && leb c 13)
    || ((leb 28 c && leb c 32)
        || ((c == 133)
            || ((c == 160)
                || ((c == 5760)
                    || ((leb 8192 c && leb c 8202)
                        || ((c == 8232)
                            || ((c == 8233) || ((c == 8239) || ((c == 8287) || (c == 12288))))))))))

unfoldable pub lstrip : Text → Text
lstrip [] = []
lstrip (c ∷ s) = let rest = lstrip s in if is_space c then rest else c ∷ s

-- s.strip()
unfoldable pub strip : Text → Text
unfolding lstrip
strip s = reverse (lstrip (reverse (lstrip s)))

abbrev pub add_word : Text → List Text → List Text
add_word [] ws = ws
add_word (c ∷ w) ws = (c ∷ w) ∷ ws

-- s.split(), with the word that is being read
unfoldable pub words_from : Text → Text → List Text
words_from word [] = add_word word []
words_from word (c ∷ s) = elim (is_space c) [
  | true ↦ add_word word (words_from [] s)
  | false ↦ words_from (word ++ c ∷ []) s
]

unfoldable pub words : Text → List Text
unfolding words_from
words = words_from []

abbrev pub is_digit : ℕ → Bool
is_digit c = leb 48 c && leb c 57

-- s.isdigit()
abbrev pub isdigit : Text → Bool
isdigit [] = false
isdigit (c ∷ s) = is_digit c && all is_digit s

abbrev pub digits_from : ℕ → Text → ℕ
digits_from n [] = n
digits_from n (c ∷ s) = digits_from (n * 10 + (c - 48)) s

-- int(s), for an `s` that passed `isdigit`
abbrev pub int : Text → ℕ
int = digits_from 0

abbrev pub Lacks : ℕ → Text → Type 0
Lacks b = All (λ c. c ≢ b)
