-- ===== src/Names/Defs.antt =====
-- The checks of names in kelso/lib/util.py, and AppID of kelso/lib/apps.py.
use kelso.Common.{
  ℕ, Bool, false, not, ◌&&◌, ◌||◌, List, [], ◌∷◌, ◌==◌, eq_nat, eq_list, leb, length, all,
}
use mathlib.Core.List.{reverse}
use kelso.Common.Result.{Result, ok, ◌>>=◌, ◌>>◌, require}
use kelso.Common.Text.{Text, codes, is_empty, split, is_digit}

pub data Error : Type 0 where
  invalid_identifier invalid_github : Error

abbrev identifier_max_len : ℕ
identifier_max_len = 64

abbrev pub is_letter : ℕ → Bool
is_letter c = (leb b'a' c && leb c b'z') || (leb b'A' c && leb c b'Z')

abbrev is_alphanumeric : ℕ → Bool
is_alphanumeric c = is_letter c || is_digit c

-- a character of _IDENTIFIER_RE
abbrev pub identifier_char : ℕ → Bool
identifier_char c = is_alphanumeric c || ((c == b'_') || (c == b'-'))

unfoldable pub is_identifier : Text → Bool
is_identifier value =
    not (is_empty value) && (leb (length value) identifier_max_len && all identifier_char value)

unfoldable pub validate_identifier : Text → Result Error Text
unfolding is_identifier
validate_identifier value = require (is_identifier value) invalid_identifier >> ok value

abbrev pub github_segment_max_len : ℕ
github_segment_max_len = 100

-- a character of _GITHUB_REPO_RE
abbrev pub github_char : ℕ → Bool
github_char c = is_alphanumeric c || ((c == b'.') || ((c == b'_') || (c == b'-')))

abbrev pub starts_alphanumeric : Text → Bool
starts_alphanumeric [] = false
starts_alphanumeric (c ∷ s) = is_alphanumeric c

pub data Kind : Type 0 where
  user repo : Kind

-- whether the text matches the pattern of its kind, all of it
unfoldable pub matches_github : Kind → Text → Bool
matches_github repo value = not (is_empty value) && all github_char value
matches_github user value =
    all github_char value && (starts_alphanumeric value && starts_alphanumeric (reverse value))

abbrev pub is_dots : Kind → Text → Bool
is_dots repo value = (value == codes ".") || (value == codes "..")
is_dots user value = false

unfoldable pub validate_github_segment : Kind → Text → Result Error Text
unfolding matches_github
validate_github_segment kind value =
    require
      ((not (is_empty value) && leb (length value) github_segment_max_len)
        && (not (is_dots kind value) && matches_github kind value))
      invalid_github
    >> ok value

unfoldable pub validate_parts : List Text → Result Error (Unit {0})
unfolding validate_identifier
validate_parts [] = ok tt
validate_parts (part ∷ parts) = validate_identifier part >>= λ same. validate_parts parts

-- AppID.__new__, of a text
unfoldable pub app_id : Text → Result Error Text
unfolding validate_parts split
app_id value = validate_parts (split b'.' value) >> ok value

-- AppID.parts
unfoldable pub parts_of : Text → List Text
unfolding split
parts_of id = split b'.' id

-- parts[-1], where there is a part
abbrev last_part : List Text → Text
last_part [] = []
last_part (part ∷ []) = part
last_part (part ∷ next ∷ parts) = last_part (next ∷ parts)

-- AppID.stem
unfoldable pub stem : Text → Text
unfolding parts_of
stem id = last_part (parts_of id)
