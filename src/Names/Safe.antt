-- ===== src/Names/Safe.antt =====
-- What an id of an app or a segment of a GitHub url that passed its check can be.
use kelso.Common.{
  ℕ, ◌≤◌, ◌≡◌, refl, sym, ap, subst, arith, Bool, true, false, not, ◌&&◌, ◌||◌, List, [], ◌∷◌, ◌++◌,
  ◌==◌, eq_nat, eq_list, leb, length, all, contains, Bool-cases, inl, inr, All, ==→eq,
}
use kelso.Common.Result.{ok, ◌>>◌, require, ok_of_bind}
use kelso.Common.Text.{Text, codes, is_empty, split, join}
use kelso.Common.Text.Laws.{join-split}
use kelso.Names.Defs.{
  invalid_identifier, invalid_github, identifier_char, is_identifier, validate_identifier,
  validate_parts, app_id, Kind, user, repo, matches_github, validate_github_segment, is_dots,
  github_char, parts_of, github_segment_max_len, starts_alphanumeric,
}
use mathlib.Core.List.{reverse}

require_ok :
    {E : Type 0} {A : Type 0} (b : Bool) (e : E) (v w : A)
    → (require b e >> ok v) ≡ ok w
    → (b ≡ true) × (v ≡ w)
require_ok true e v w h = (refl, cc h)
require_ok false e v w h = cc h

validate_identifier_lem :
    (value same : Text) → validate_identifier value ≡ ok same → is_identifier value ≡ true
unfolding validate_identifier
validate_identifier_lem value same h =
    (require_ok (is_identifier value) invalid_identifier value same h).0

validate_parts_lem :
    (parts : List Text)
    → validate_parts parts ≡ ok tt
    → All (λ (p : Text). is_identifier p ≡ true) parts
unfolding validate_parts
validate_parts_lem [] h = tt
validate_parts_lem (part ∷ parts) h =
    let first = ok_of_bind (validate_identifier part) _ h in
    (validate_identifier_lem part first.0 first.1, validate_parts_lem parts first.2)

-- The characters of an id.
abbrev id_char : ℕ → Bool
id_char c = identifier_char c || (c == b'.')

all-id_char : (s : Text) → all identifier_char s ≡ true → all id_char s ≡ true
all-id_char [] h = refl
all-id_char (c ∷ s) h = ground (arith, all-id_char s)

all-append : (p : ℕ → Bool) (s t : Text) → all p s ≡ true → all p t ≡ true → all p (s ++ t) ≡ true
all-append p [] t h k = k
all-append p (c ∷ s) t h k = ground (arith, all-append p s t)

identifier_chars : (s : Text) → is_identifier s ≡ true → all identifier_char s ≡ true
unfolding is_identifier
identifier_chars s h = ground (arith, h)

join-id_char :
    (parts : List Text)
    → All (λ (p : Text). is_identifier p ≡ true) parts
    → all id_char (join (codes ".") parts) ≡ true
unfolding join
join-id_char [] h = refl
join-id_char (p ∷ []) h = all-id_char p (identifier_chars p h.0)
join-id_char (p ∷ q ∷ ps) h =
    all-append id_char p (codes "." ++ join (codes ".") (q ∷ ps))
      (all-id_char p (identifier_chars p h.0)) (ground (arith, join-id_char (q ∷ ps) h.1))

contains-all :
    (p : ℕ → Bool) (s : Text) (c : ℕ) → all p s ≡ true → p c ≡ false → contains s c ≡ false
contains-all p [] c h n = refl
contains-all p (d ∷ s) c h n = elim (Bool-cases (d == c)) [
  | inl same ↦ let e : d ≡ c = ==→eq d c same in cc (ap p e, n, both h)
  | inr other ↦ ground (arith, contains-all p s c, h, n, other)
]
  where
    both : (p d && all p s) ≡ true → p d ≡ true
    both h = ground (arith, h)

-- A text whose parts are identifiers is none whose parts are not.
not_dots :
    (s dots : Text)
    → (All (λ (p : Text). is_identifier p ≡ true) (split b'.' dots) → ⊥)
    → All (λ (p : Text). is_identifier p ≡ true) (split b'.' s)
    → (s == dots) ≡ false
not_dots s dots bad h = elim (Bool-cases (s == dots)) [
  | inr ne ↦ ne
  | inl same ↦ absurd (
      bad (
        subst (λ (t : Text). All (λ (p : Text). is_identifier p ≡ true) (split b'.' t))
          (==→eq s dots same) h))
]

empty_part : All (λ (p : Text). is_identifier p ≡ true) (split b'.' (codes "..")) → ⊥
unfolding split is_identifier
empty_part h = cc h.0

empty_parts : All (λ (p : Text). is_identifier p ≡ true) (split b'.' (codes ".")) → ⊥
unfolding split is_identifier
empty_parts h = cc h.0

-- An id of an app that was accepted is its parts with dots between them, and each part is an
-- identifier: not empty, of at most 64 letters, digits, `_` and `-`. So the id holds no slash, and
-- it names one entry of a directory, which is neither the directory nor its parent.
pub app_id-IsSafe :
    (value id : Text)
    → app_id value ≡ ok id
    → (id ≡ value)
      × (join (codes ".") (parts_of id) ≡ id)
      × All (λ (p : Text). is_identifier p ≡ true) (parts_of id)
      × (contains id b'/' ≡ false)
      × ((id == codes "..") ≡ false)
      × ((id == codes ".") ≡ false)
unfolding app_id parts_of
app_id-IsSafe value id h =
    let valid = ok_of_bind (validate_parts (split b'.' value)) _ h in
    let same : value ≡ id = cc valid.2 in
    let parts = validate_parts_lem (split b'.' value) valid.1 in
    let joined = join-split b'.' value in
    subst
      (λ (i : Text).
        (i ≡ value)
        × (join (codes ".") (split b'.' i) ≡ i)
        × All (λ (p : Text). is_identifier p ≡ true) (split b'.' i)
        × (contains i b'/' ≡ false)
        × ((i == codes "..") ≡ false)
        × ((i == codes ".") ≡ false))
      same
      (
        refl,
        joined,
        parts,
        contains-all id_char value b'/'
            (subst (λ (t : Text). all id_char t ≡ true) joined
              (join-id_char (split b'.' value) parts))
            refl,
        not_dots value (codes "..") empty_part parts,
        not_dots value (codes ".") empty_parts parts,
      )

github_chars :
    (kind : Kind) (value : Text) → matches_github kind value ≡ true → all github_char value ≡ true
unfolding matches_github
github_chars user value h = ground (arith, h)
github_chars repo value h = ground (arith, h)

-- The name of a user starts with no dot.
user_dots :
    (value dots : Text)
    → starts_alphanumeric dots ≡ false
    → (all github_char value && (starts_alphanumeric value && starts_alphanumeric (reverse value)))
      ≡ true
    → (value == dots) ≡ false
user_dots value dots none_there h = elim (Bool-cases (value == dots)) [
  | inr ne ↦ ne
  | inl same ↦
      let e : value ≡ dots = ==→eq value dots same in
      let k : starts_alphanumeric value ≡ true = ground (arith, h) in
      cc (ap (λ (t : Text). starts_alphanumeric t) e, none_there, k)
]

dots_out :
    (kind : Kind) (value : Text)
    → is_dots kind value ≡ false
    → matches_github kind value ≡ true
    → ((value == codes ".") ≡ false) × ((value == codes "..") ≡ false)
unfolding matches_github
dots_out repo value d h = ground (arith, d)
dots_out user value d h = (user_dots value (codes ".") refl h, user_dots value (codes "..") refl h)

github_facts :
    (kind : Kind) (value same : Text)
    → same ≡ value
    → ((not (is_empty value) && leb (length value) github_segment_max_len)
        && (not (is_dots kind value) && matches_github kind value))
      ≡ true
    → (same ≡ value)
      × (is_empty value ≡ false)
      × (length value ≤ 100)
      × (contains value b'/' ≡ false)
      × ((value == codes ".") ≡ false)
      × ((value == codes "..") ≡ false)
github_facts kind value same e h =
    let matches : matches_github kind value ≡ true = ground (arith, h) in
    let no_dots : is_dots kind value ≡ false = ground (arith, h) in
    let short : length value ≤ 100 = ground (arith, h) in
    let full : is_empty value ≡ false = ground (arith, h) in
    let d = dots_out kind value no_dots matches in
    (
      e,
      full,
      short,
      contains-all github_char value b'/' (github_chars kind value matches) refl,
      d.0,
      d.1,
    )

-- A segment of a GitHub url that was accepted is unchanged, has 1 to 100 characters and no slash,
-- and it is neither `.` nor `..`.
pub github_segment-IsSafe :
    (kind : Kind) (value same : Text)
    → validate_github_segment kind value ≡ ok same
    → (same ≡ value)
      × (is_empty value ≡ false)
      × (length value ≤ 100)
      × (contains value b'/' ≡ false)
      × ((value == codes ".") ≡ false)
      × ((value == codes "..") ≡ false)
unfolding validate_github_segment
github_segment-IsSafe kind value same h =
    let k = require_ok _ invalid_github value same h in github_facts kind value same (sym k.1) k.0
