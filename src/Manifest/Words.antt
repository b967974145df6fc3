-- ===== src/Manifest/Words.antt =====
-- The readers of text that the checks of kelso/lib/manifest.py use: EnvTemplate of
-- kelso/lib/util.py, and shlex.split and posixpath.normpath of the standard library.
use kelso.Common.{
  ℕ, zero, suc, Bool, true, false, not, ◌&&◌, ◌||◌, List, [], ◌∷◌, ◌++◌, if◌then◌else◌, ◌==◌,
  eq_nat, eq_list, contains, length, drop,
}
use mathlib.Core.List.{reverse}
use kelso.Common.Text.{Text, codes, is_empty, starts_with, split, join}
use kelso.Names.Defs.{is_letter, identifier_char}

abbrev take_while : (ℕ → Bool) → Text → Text
take_while p [] = []
take_while p (c ∷ s) = let rest = take_while p s in if p c then c ∷ rest else []

abbrev drop_while : (ℕ → Bool) → Text → Text
drop_while p [] = []
drop_while p (c ∷ s) = let rest = drop_while p s in if p c then rest else c ∷ s

-- up to n times a dot and some characters of an identifier
unfoldable pub dotted : ℕ → Text → Text
dotted zero s = []
dotted (suc n) [] = []
dotted (suc n) (c ∷ s) =
    let rest = dotted n (drop_while identifier_char s) in
    let part = take_while identifier_char s in
    if (c == b'.') && not (is_empty part) then c ∷ (part ++ rest) else []

-- the longest match of EnvTemplate.idpattern at the front, or the empty text. The template's flags
-- ignore case.
unfoldable pub id_at : Text → Text
unfolding dotted
id_at [] = []
id_at (c ∷ s) =
    if is_letter c || (c == b'_')
    then c ∷ (take_while identifier_char s ++ dotted 2 (drop_while identifier_char s))
    else []

-- the identifier in `{identifier}` at the front, or the empty text
unfoldable pub braced_at : Text → Text
unfolding id_at
braced_at [] = []
braced_at (c ∷ s) =
    let id = id_at s in
    if (c == b'{') && starts_with (drop (length id) s) (codes "}") then id else []

-- what a `$` refers to, by what follows it
unfoldable pub placeholder : Text → Text
unfolding braced_at
placeholder s = let id = id_at s in if is_empty id then braced_at s else id

-- the identifiers behind each `$`, where a `$` that an earlier one escapes is passed over
unfoldable pub placeholders : Bool → Text → List Text
unfolding placeholder
placeholders escaped [] = []
placeholders escaped (c ∷ s) =
    let opens = not escaped && (c == b'$') in
    let escapes = opens && starts_with s (codes "$") in
    let rest = placeholders escapes s in
    let found = placeholder s in
    if opens && (not escapes && not (is_empty found)) then found ∷ rest else rest

abbrev add_new : Text → List Text → List Text
add_new t ts = if contains ts t then ts else t ∷ ts

unfoldable pub distinct : List Text → List Text
distinct [] = []
distinct (t ∷ ts) = add_new t (distinct ts)

-- EnvTemplate(value).get_identifiers(), in some order
unfoldable pub get_identifiers : Text → List Text
unfolding placeholders distinct
get_identifiers value = distinct (placeholders false value)

pub data Quoting : Type 0 where
  plain single double escaped_plain escaped_double : Quoting

abbrev next_quoting : Quoting → ℕ → Quoting
next_quoting plain c =
    if c == b'\''
    then single
    else if c == b'"'
    then double
    else if c == b'\\'
    then escaped_plain
    else plain
next_quoting single c = if c == b'\'' then plain else single
next_quoting double c = if c == b'"' then plain else if c == b'\\' then escaped_double else double
next_quoting escaped_plain c = plain
next_quoting escaped_double c = double

abbrev is_plain : Quoting → Bool
is_plain plain = true
is_plain single = false
is_plain double = false
is_plain escaped_plain = false
is_plain escaped_double = false

unfoldable pub quoting_after : Quoting → Text → Quoting
quoting_after state [] = state
quoting_after state (c ∷ s) = quoting_after (next_quoting state c) s

-- whether shlex.split(args) returns: no quotation is left open, and no backslash at the end
unfoldable pub can_split : Text → Bool
unfolding quoting_after
can_split args = is_plain (quoting_after plain args)

-- a component of a path, on those before it, the last one first
abbrev pub add_component : Bool → List Text → Text → List Text
add_component rooted [] comp = if (comp == codes "..") && rooted then [] else comp ∷ []
add_component rooted (last ∷ comps) comp =
    if not (comp == codes "..") || (last == codes "..") then comp ∷ last ∷ comps else comps

unfoldable pub resolve_components : Bool → List Text → List Text → List Text
resolve_components rooted done [] = done
resolve_components rooted done (comp ∷ comps) =
    let skip = is_empty comp || (comp == codes ".") in
    resolve_components rooted (if skip then done else add_component rooted done comp) comps

-- the slashes that normpath keeps at the front: POSIX leaves the meaning of two open
unfoldable pub initial_slashes : Text → Text
initial_slashes path =
    if starts_with path (codes "//") && not (starts_with path (codes "///"))
    then codes "//"
    else if starts_with path (codes "/")
    then codes "/"
    else []

abbrev or_dot : Text → Text
or_dot [] = codes "."
or_dot (c ∷ s) = c ∷ s

unfoldable pub components : Text → List Text
unfolding resolve_components split
components path = reverse (resolve_components (starts_with path (codes "/")) [] (split b'/' path))

-- posixpath.normpath(path)
unfoldable pub normpath : Text → Text
unfolding initial_slashes components join
normpath path = or_dot (initial_slashes path ++ join (codes "/") (components path))
