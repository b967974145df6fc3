-- ===== src/Repos/Tests.antt =====
-- Repositories, as config.toml may name them.
use kelso.Common.{Option, none, some, List, [], ◌∷◌, eq_nat, eq_list, ◌≡◌, refl}
use kelso.Common.Result.{ok, err}
use kelso.Common.Text.{Text, codes, split, join}
use kelso.Common.Dict.{Dict, get, has, put}
use kelso.Names.Defs.{validate_github_segment, is_identifier, matches_github}
use kelso.Repos.Url.{
  GithubFolder, bad_ref, malformed_segment, parse_github_url, folder_of, behind, is_ref,
  has_two_dots, check_segments, check_segment,
}
use kelso.Repos.Resolve.{
  RepoEntry, Repo, taken, tables, resolve_tables, resolve_loop, resolve_entry, resolve_source,
  mirror_of, local_repo,
}
use kelso.Repos.Read.{IsFolder, parse_github_url-IsFolder}
use kelso.Repos.Apart.{IsRepos, resolve_tables-IsRepos, resolve_tables_shares}

abbrev address : Text
address = codes "github://nepthar/kelso/main/apps"

abbrev whole_address : Text
whole_address = codes "github://nepthar/kelso/main"

abbrev apps : GithubFolder
apps = record {
  owner = codes "nepthar";
  repository = codes "kelso";
  ref = codes "main";
  path = codes "apps" ∷ [];
}

abbrev whole : GithubFolder
whole = record {
  owner = codes "nepthar";
  repository = codes "kelso";
  ref = codes "main";
  path = [];
}

reads_apps : parse_github_url address ≡ ok apps
unfolding parse_github_url folder_of behind is_ref has_two_dots check_segments check_segment split
    validate_github_segment matches_github
reads_apps = refl

reads_whole : parse_github_url whole_address ≡ ok whole
unfolding parse_github_url folder_of behind is_ref has_two_dots check_segments check_segment split
    validate_github_segment matches_github
reads_whole = refl

refuses_option : parse_github_url (codes "github://a/b/-x") ≡ err bad_ref
unfolding parse_github_url folder_of behind is_ref has_two_dots check_segments check_segment split
    validate_github_segment matches_github
refuses_option = refl

refuses_parent : parse_github_url (codes "github://a/b/c/..") ≡ err malformed_segment
unfolding parse_github_url folder_of behind is_ref has_two_dots check_segments check_segment split
    validate_github_segment matches_github
refuses_parent = refl

parse_github_url_example : IsFolder address apps
parse_github_url_example = parse_github_url-IsFolder address apps reads_apps

-- the paths here are absolute
abbrev absolute : Text → Text
absolute path = path

abbrev entries : Dict Text (Option RepoEntry)
entries =
    (codes "dev", some (record { path = some (codes "/code"); url = none }))
    ∷ ((codes "kelso", some (record { path = none; url = some address })) ∷ [])

abbrev both : List Repo
both =
    record { name = codes "dev"; folder = codes "/code"; mirror = none }
    ∷ (record {
      name = codes "kelso";
      folder = codes "/repos/kelso/apps";
      mirror = some (apps, codes "/repos/kelso");
    }
        ∷ [])

resolves_both : resolve_tables absolute (codes "/repos") (tables entries) ≡ ok both
unfolding resolve_tables resolve_loop resolve_entry resolve_source mirror_of put has get join
    is_identifier parse_github_url folder_of behind is_ref has_two_dots check_segments check_segment
    split validate_github_segment matches_github
resolves_both = refl

refuses_taken :
    resolve_tables absolute (codes "/repos") (
      tables ((codes "dev", some (record { path = some (codes "/repos/local"); url = none })) ∷ []))
    ≡ err (taken (codes "dev") (codes "/repos/local"))
unfolding resolve_tables resolve_loop resolve_entry resolve_source put has get is_identifier
refuses_taken = refl

resolve_tables_example : IsRepos ((codes "/repos/local", local_repo) ∷ []) entries both
resolve_tables_example = resolve_tables-IsRepos absolute (codes "/repos") entries both resolves_both

resolve_tables_shares_example :
    resolve_tables absolute (codes "/repos") (
      tables (
        (codes "dev", some (record { path = some (codes "/repos/kelso"); url = none }))
        ∷ ((codes "kelso", some (record { path = none; url = some whole_address })) ∷ [])))
    ≡ ok (
        record { name = codes "dev"; folder = codes "/repos/kelso"; mirror = none }
        ∷ (record {
          name = codes "kelso";
          folder = codes "/repos/kelso";
          mirror = some (whole, codes "/repos/kelso");
        }
            ∷ []))
unfolding is_identifier
resolve_tables_shares_example =
    resolve_tables_shares absolute (codes "/repos") (codes "dev") (codes "kelso")
      (codes "/repos/kelso") whole_address whole refl refl refl refl reads_whole refl refl refl
