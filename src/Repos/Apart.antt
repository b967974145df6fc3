-- ===== src/Repos/Apart.antt =====
-- Whether two repositories of the configuration may have one place.
use kelso.Common.{
  Bool, true, false, not, Option, none, some, List, [], ◌∷◌, map, if◌then◌else◌, ◌==◌, eq_nat,
  eq_list, contains, ◌≡◌, refl, sym, ◌∙◌, subst, arith, All, inl, inr, ◌⊎◌, ==_sym,
}
use mathlib.Core.Path.{ap₂}
use kelso.Common.Result.{Result, ok, err, ◌>>◌, require, ok_of_bind}
use kelso.Common.Text.{Text, join}
use kelso.Common.Dict.{Dict, get, has, put, keys}
use kelso.Common.Dict.Laws.{get-put}
use kelso.Common.Sort.{All-map}
use kelso.Names.Defs.{is_identifier}
use kelso.Repos.Url.{GithubFolder, UrlError, parse_github_url}
use kelso.Repos.Resolve.{
  RepoEntry, Repo, bad_name, is_local, bad_url, taken, local_repo, mirror_of, resolve_source,
  resolve_entry, resolve_loop, tables, resolve_tables, below_root,
}
use kelso.Repos.Read.{required, not-true, ok_injects}

-- the folders of the repositories that are no mirrors
abbrev own_folder : Repo → List Text → List Text
own_folder r rest = elim r.mirror [ none ↦ r.folder ∷ rest | some mirrored ↦ rest ]

unfoldable pub own_folders : List Repo → List Text
own_folders [] = []
own_folders (r ∷ repos) = own_folder r (own_folders repos)

-- No path is there twice.
abbrev pub Distinct : List Text → Type 0
Distinct [] = Unit
Distinct (p ∷ ps) = (contains ps p ≡ false) × Distinct ps

-- What the tables of repositories give.
pub record IsRepos (places : Dict Text Text) (entries : Dict Text (Option RepoEntry))
    (repos : List Repo) : Type 0 where
  -- one for each table, of its name, which is an identifier and not the one built in
  pub names : map (λ (r : Repo). r.name) repos ≡ keys entries
  pub valid :
      All (λ (r : Repo). (is_identifier r.name ≡ true) × ((r.name == local_repo) ≡ false)) repos
  -- the folders that are no mirrors are not taken, and differ from each other
  pub fresh : All (λ (p : Text). has places p ≡ false) (own_folders repos)
  pub apart : Distinct (own_folders repos)

has-put :
    (d : Dict Text Text) (k v p : Text)
    → has (put d k v) p ≡ false
    → (has d p ≡ false) × ((k == p) ≡ false)
unfolding has
has-put d k v p h = absent (k == p) (get d p) (
    subst (λ (o : Option Text). elim o [ none ↦ false | some w ↦ true ] ≡ false) (get-put d k p v)
      h)
  where
    absent :
        (b : Bool) (o : Option Text)
        → elim (if b then some v else o) [ none ↦ false | some w ↦ true ] ≡ false
        → (elim o [ none ↦ false | some w ↦ true ] ≡ false) × (b ≡ false)
    absent true o n = cc n
    absent false o n = (n, refl)

not_among :
    (p : Text) (ps : List Text) → All (λ (q : Text). (p == q) ≡ false) ps → contains ps p ≡ false
not_among p [] h = refl
not_among p (q ∷ ps) h = rw (==_sym q p ∙ h.0) (not_among p ps h.1)

module _ (expand : Text → Text) (repos_root : Text) where
  -- A repository that is no mirror is at the place that it takes, which was free.
  record IsEntry (places : Dict Text Text) (name : Text) (found : Repo × Text) : Type 0 where
    same_name : (found.0).name ≡ name
    valid_name : (is_identifier name ≡ true) × ((name == local_repo) ≡ false)
    place :
        (rest : List Text)
        → (own_folder found.0 rest ≡ rest)
          ⊎ ((own_folder found.0 rest ≡ found.1 ∷ rest) × (has places found.1 ≡ false))

  source_lem :
      (places : Dict Text Text) (name : Text) (path url : Option Text) (found : Repo × Text)
      → resolve_source expand repos_root places name path url ≡ ok found
      → IsEntry places name found
  unfolding resolve_source mirror_of
  source_lem places name none none found h = cc h
  source_lem places name (some path) (some url) found h = cc h
  source_lem places name none (some url) found h = mirrored (parse_github_url url) h
    where
      mirrored :
          (r : Result UrlError GithubFolder)
          → elim r [
            | err e ↦
                require (is_identifier name) (bad_name name)
                >> (require (not (name == local_repo)) (is_local name) >> err (bad_url name e))
            | ok remote ↦
                require (is_identifier name) (bad_name name)
                >> (require (not (name == local_repo)) (is_local name)
                    >> ok (
                      mirror_of expand repos_root name remote,
                      below_root expand repos_root name,
                    ))
          ]
            ≡ ok found
          → IsEntry places name found
      mirrored (err e) k =
          let a = required (is_identifier name) (bad_name name) _ k in
          let b = required (not (name == local_repo)) (is_local name) (err (bad_url name e)) a.1 in
          cc (b.1)
      mirrored (ok remote) k =
          let a = required (is_identifier name) (bad_name name) _ k in
          let b = required (not (name == local_repo)) (is_local name) _ a.1 in
          subst (IsEntry places name) (ok_injects _ found b.1) (record {
            same_name = refl;
            valid_name = (a.0, not-true _ b.0);
            place = λ (rest : List Text). inl refl;
          })
  source_lem places name (some path) none found h =
      let a = required (is_identifier name) (bad_name name) _ h in
      let b = required (not (name == local_repo)) (is_local name) _ a.1 in
      let c = required (not (has places (expand path))) (taken name (expand path)) _ b.1 in
      subst (IsEntry places name) (ok_injects _ found c.1) (record {
        same_name = refl;
        valid_name = (a.0, not-true _ b.0);
        place = λ (rest : List Text). inr (refl, not-true _ c.0);
      })

  names_lem :
      (places : Dict Text Text) (item : Text × Option RepoEntry) (found : Repo × Text)
      → resolve_entry expand repos_root places item ≡ ok found
      → IsEntry places item.0 found
  unfolding resolve_entry
  names_lem places (name, none) found h = cc h
  names_lem places (name, some entry) found h = source_lem places name entry.path entry.url found h

  later :
      (places : Dict Text Text) (place name : Text) (ps : List Text)
      → All (λ (p : Text). has (put places place name) p ≡ false) ps
      → All (λ (p : Text). (has places p ≡ false) × ((place == p) ≡ false)) ps
  later places place name ps h = All-map ps (λ p free. has-put places place name p free) h

  loop_lem :
      (places : Dict Text Text) (entries : Dict Text (Option RepoEntry)) (repos : List Repo)
      → resolve_loop expand repos_root places entries ≡ ok repos
      → IsRepos places entries repos
  unfolding resolve_loop keys own_folders
  loop_lem places [] repos h =
      subst (IsRepos places []) (ok_injects [] repos h)
        (record { names = refl; valid = tt; fresh = tt; apart = tt })
  loop_lem places (item ∷ items) repos h =
      let a = ok_of_bind (resolve_entry expand repos_root places item) _ h in
      let b = ok_of_bind (resolve_loop expand repos_root (put places (a.0).1 item.0) items) _ a.2 in
      let entry = names_lem places item a.0 a.1 in
      let rest = loop_lem (put places (a.0).1 item.0) items b.0 b.1 in
      let free = later places (a.0).1 item.0 (own_folders b.0) rest.fresh in
      let both = placed entry b.0 rest free in
      subst (IsRepos places (item ∷ items)) (ok_injects _ repos b.2) (record {
        names = ap₂ (λ (x : Text) (xs : List Text). x ∷ xs) entry.same_name rest.names;
        valid = (
          subst (λ (n : Text). (is_identifier n ≡ true) × ((n == local_repo) ≡ false))
              (sym entry.same_name) entry.valid_name,
          rest.valid,
        );
        fresh = both.0;
        apart = both.1;
      })
    where
      placed :
          {found : Repo × Text}
          → IsEntry places item.0 found
          → (rest : List Repo) → IsRepos (put places found.1 item.0) items rest
          → All (λ (p : Text). (has places p ≡ false) × ((found.1 == p) ≡ false)) (own_folders rest)
          → All (λ (p : Text). has places p ≡ false) (own_folder found.0 (own_folders rest))
            × Distinct (own_folder found.0 (own_folders rest))
      placed {found} entry rest known free = elim (entry.place (own_folders rest)) [
        | inl mirror ↦
            subst (λ (ps : List Text). All (λ (p : Text). has places p ≡ false) ps × Distinct ps)
              (sym mirror) (All-map (own_folders rest) (λ p n. n.0) free, known.apart)
        | inr own ↦
            subst (λ (ps : List Text). All (λ (p : Text). has places p ≡ false) ps × Distinct ps)
              (sym own.0)
              (
                (own.1, All-map (own_folders rest) (λ p n. n.0) free),
                (
                  not_among found.1 (own_folders rest)
                      (All-map (own_folders rest) (λ p n. n.1) free),
                  known.apart,
                ),
              )
      ]

  -- Where the tables of repositories are taken, there is a repository for each, with a name that is an
  -- identifier and not `local`, and no two that are directories of the operator have one place, nor
  -- has one the place of `local`.
  pub resolve_tables-IsRepos :
      (entries : Dict Text (Option RepoEntry)) (repos : List Repo)
      → resolve_tables expand repos_root (tables entries) ≡ ok repos
      → IsRepos ((below_root expand repos_root local_repo, local_repo) ∷ []) entries repos
  unfolding resolve_tables
  resolve_tables-IsRepos entries repos h = loop_lem _ entries repos h

  -- A directory of the operator that is the place of a mirror is taken where its table is before that
  -- of the mirror: both have one folder, though two repositories are not to have one location.
  pub resolve_tables_shares :
      (one two path address : Text) (remote : GithubFolder)
      → is_identifier one ≡ true
      → is_identifier two ≡ true
      → (one == local_repo) ≡ false
      → (two == local_repo) ≡ false
      → parse_github_url address ≡ ok remote
      → remote.path ≡ []
      → expand path ≡ below_root expand repos_root two
      → (below_root expand repos_root local_repo == below_root expand repos_root two) ≡ false
      → resolve_tables expand repos_root (
          tables (
            (one, some (record { path = some path; url = none }))
            ∷ ((two, some (record { path = none; url = some address })) ∷ [])))
        ≡ ok (
            record { name = one; folder = below_root expand repos_root two; mirror = none }
            ∷ (record {
              name = two;
              folder = below_root expand repos_root two;
              mirror = some (remote, below_root expand repos_root two);
            }
                ∷ []))
  unfolding resolve_tables resolve_loop resolve_entry resolve_source mirror_of has get join
  resolve_tables_shares one two path address remote a b c d e f g h =
      ground (arith, a, b, c, d, e, f, g, h)
