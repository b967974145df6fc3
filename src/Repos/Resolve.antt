-- ===== src/Repos/Resolve.antt =====
-- _resolve_repos of kelso/lib/config.py, over the tables of the configuration. A path is its text.
use kelso.Common.{not, Option, none, some, List, [], ◌∷◌, ◌++◌, ◌==◌, eq_nat, eq_list}
use kelso.Common.Result.{Result, ok, err, ◌>>=◌, ◌>>◌, require}
use kelso.Common.Text.{Text, codes, join}
use kelso.Common.Dict.{Dict, has, put}
use kelso.Names.Defs.{is_identifier}
use kelso.Repos.Url.{GithubFolder, UrlError, parse_github_url}

pub record RepoEntry : Type 0 where
  pub path : Option Text
  pub url : Option Text

-- The `repo` key of the file: no table, or tables, of which pydantic refuses some.
pub data RepoTable : Type 0 where
  no_table : RepoTable
  tables : Dict Text (Option RepoEntry) → RepoTable

pub record Repo : Type 0 where
  pub name : Text
  pub folder : Text
  -- what it mirrors, and where its checkout is
  pub mirror : Option (GithubFolder × Text)

pub data Refusal : Type 0 where
  not_table : Refusal
  bad_entry not_one bad_name is_local : (name : Text) → Refusal
  bad_url : (name : Text) → UrlError → Refusal
  taken : (name path : Text) → Refusal

abbrev pub local_repo : Text
local_repo = codes "local"

module _ (expand : Text → Text) (repos_root : Text) where
  -- repos_root / name
  abbrev pub below_root : Text → Text
  below_root name = repos_root ++ (codes "/" ++ name)

  -- a repo that a url names
  unfoldable pub mirror_of : Text → GithubFolder → Repo
  unfolding join
  mirror_of name remote = record {
    name = name;
    folder = join (codes "/") (below_root name ∷ remote.path);
    mirror = some (remote, below_root name);
  }

  -- what an entry names, with the places that are taken by then
  unfoldable pub resolve_source :
      Dict Text Text → Text → Option Text → Option Text → Result Refusal (Repo × Text)
  unfolding mirror_of has
  resolve_source taken_by name none none = err (not_one name)
  resolve_source taken_by name (some path) (some url) = err (not_one name)
  resolve_source taken_by name none (some url) = elim (parse_github_url url) [
    | err e ↦
        require (is_identifier name) (bad_name name)
        >> (require (not (name == local_repo)) (is_local name) >> err (bad_url name e))
    | ok remote ↦
        require (is_identifier name) (bad_name name)
        >> (require (not (name == local_repo)) (is_local name)
            >> ok (mirror_of name remote, below_root name))
  ]
  resolve_source taken_by name (some path) none =
      require (is_identifier name) (bad_name name)
      >> (require (not (name == local_repo)) (is_local name)
          >> (require (not (has taken_by (expand path))) (taken name (expand path))
              >> ok (record { name = name; folder = expand path; mirror = none }, expand path)))

  unfoldable pub resolve_entry :
      Dict Text Text → Text × Option RepoEntry → Result Refusal (Repo × Text)
  unfolding resolve_source
  resolve_entry taken_by (name, none) = err (bad_entry name)
  resolve_entry taken_by (name, some entry) = resolve_source taken_by name entry.path entry.url

  -- the loop over the entries
  unfoldable pub resolve_loop :
      Dict Text Text → Dict Text (Option RepoEntry) → Result Refusal (List Repo)
  unfolding resolve_entry put
  resolve_loop taken_by [] = ok []
  resolve_loop taken_by (item ∷ items) = resolve_entry taken_by item >>= λ found.
      resolve_loop (put taken_by found.1 item.0) items >>= λ repos. ok (found.0 ∷ repos)

  unfoldable pub resolve_tables : RepoTable → Result Refusal (List Repo)
  unfolding resolve_loop
  resolve_tables no_table = err not_table
  resolve_tables (tables entries) = resolve_loop ((below_root local_repo, local_repo) ∷ []) entries

  -- _resolve_repos: a table that is refused is as good as none
  unfoldable pub resolve_repos : RepoTable → List Repo
  unfolding resolve_tables
  resolve_repos table = elim (resolve_tables table) [ err refusal ↦ [] | ok repos ↦ repos ]
