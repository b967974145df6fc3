-- ===== src/Repos/Url.antt =====
-- GithubFolder and parse_github_url of kelso/lib/repo.py.
use kelso.Common.{
  ℕ, Bool, false, not, ◌&&◌, ◌||◌, Option, none, some, List, [], ◌∷◌, ◌++◌, if◌then◌else◌, ltb,
  ◌==◌, eq_nat, eq_list, all, any,
}
use kelso.Common.Result.{Result, ok, err, ◌>>=◌, ◌>>◌, require}
use kelso.Common.Text.{Text, codes, is_empty, starts_with, split, join}
use kelso.Names.Defs.{user, repo, github_char, validate_github_segment, validate_identifier}

pub data UrlError : Type 0 where
  unsupported_url malformed_url bad_user bad_repo empty_ref bad_ref malformed_segment
        unprintable_segment unusable_name :
      UrlError

abbrev pub github_scheme : Text
github_scheme = codes "github://"

pub record GithubFolder : Type 0 where
  pub owner : Text
  pub repository : Text
  pub ref : Text
  pub path : List Text

-- GithubFolder.url
unfoldable pub url : GithubFolder → Text
unfolding join
url folder =
    join (codes "/")
      ((github_scheme ++ folder.owner) ∷ folder.repository ∷ folder.ref ∷ folder.path)

-- GithubFolder.clone_url
unfoldable clone_url : GithubFolder → Text
clone_url folder =
    codes "https://github.com/"
    ++ (folder.owner ++ (codes "/" ++ (folder.repository ++ codes ".git")))

-- GithubFolder.repo_path
unfoldable repo_path : GithubFolder → Text
unfolding join
repo_path folder = join (codes "/") folder.path

-- the text behind the prefix, where it has it
unfoldable pub behind : Text → Text → Option Text
behind [] s = some s
behind (c ∷ prefix) [] = none
behind (c ∷ prefix) (d ∷ s) = let rest = behind prefix s in if c == d then rest else none

unfoldable pub has_two_dots : Text → Bool
has_two_dots [] = false
has_two_dots (c ∷ s) = starts_with (c ∷ s) (codes "..") || has_two_dots s

-- a ref that `git fetch` may be handed
unfoldable pub is_ref : Text → Bool
unfolding has_two_dots
is_ref ref = all github_char ref && (not (starts_with ref (codes "-")) && not (has_two_dots ref))

unfoldable pub check_segment : Text → Result UrlError (Unit {0})
check_segment segment =
    require (not (is_empty segment || ((segment == codes ".") || (segment == codes ".."))))
      malformed_segment
    >> require (not (any (λ (c : ℕ). ltb c b' ' || (c == 127)) segment)) unprintable_segment

unfoldable pub check_segments : List Text → Result UrlError (Unit {0})
unfolding check_segment
check_segments [] = ok tt
check_segments (segment ∷ segments) = check_segment segment >> check_segments segments

-- what validate_github_segment raises
abbrev pub raised_as : {A : Type 0} {E : Type 0} → UrlError → Result E A → Result UrlError A
raised_as e (ok a) = ok a
raised_as e (err was) = err e

-- parse_github_url, behind the scheme, of the parts between the slashes
unfoldable pub folder_of : List Text → Result UrlError GithubFolder
unfolding is_ref check_segments
folder_of [] = err malformed_url
folder_of (owner ∷ []) = err malformed_url
folder_of (owner ∷ repository ∷ []) = err malformed_url
folder_of (owner ∷ repository ∷ ref ∷ path) =
    raised_as bad_user (validate_github_segment user owner) >>= λ user_name.
    raised_as bad_repo (validate_github_segment repo repository) >>= λ repo_name.
    require (not (is_empty ref)) empty_ref
    >> (require (is_ref ref) bad_ref
        >> (check_segments path
            >> ok (record { owner = user_name; repository = repo_name; ref = ref; path = path })))

unfoldable pub parse_github_url : Text → Result UrlError GithubFolder
unfolding behind folder_of split
parse_github_url raw = elim (behind github_scheme raw) [
  | none ↦ err unsupported_url
  | some rest ↦ folder_of (split b'/' rest)
]

-- name_from_url
unfoldable name_from_url : Text → Result UrlError Text
unfolding parse_github_url
name_from_url raw = parse_github_url raw >>= λ folder.
    raised_as unusable_name (validate_identifier folder.repository)
