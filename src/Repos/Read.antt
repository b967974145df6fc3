-- ===== src/Repos/Read.antt =====
-- What a url of a repository that parse_github_url takes is.
use kelso.Common.{
  ℕ, Bool, true, false, not, ◌&&◌, ◌||◌, Option, none, some, List, [], ◌∷◌, ◌++◌, leb, ◌==◌, eq_nat,
  eq_list, ◌≡◌, refl, subst, length, sym, ap, ◌∙◌, Bool-cases, inl, inr, All, ==→eq,
}
use mathlib.Core.Path.{ap₂}
use kelso.Common.Result.{Result, ok, err, ◌>>◌, require, ok_of_bind}
use kelso.Common.Text.{Text, codes, is_empty, split, join}
use kelso.Common.Text.Laws.{join-split}
use kelso.Names.Defs.{
  Kind, user, repo, validate_github_segment, github_segment_max_len, is_dots, matches_github,
  invalid_github,
}
use kelso.Repos.Url.{
  UrlError, github_scheme, GithubFolder, url, behind, is_ref, check_segment, check_segments,
  raised_as, folder_of, parse_github_url, bad_user, bad_repo, malformed_segment, empty_ref, bad_ref,
}

behind_lem : (prefix s rest : Text) → behind prefix s ≡ some rest → s ≡ prefix ++ rest
unfolding behind
behind_lem [] s rest h = cc h
behind_lem (c ∷ prefix) [] rest h = cc h
behind_lem (c ∷ prefix) (d ∷ s) rest h = elim (Bool-cases (c == d)) [
  | inl same ↦
      ap₂ (λ (x : ℕ) (xs : Text). x ∷ xs) (sym (==→eq c d same))
        (behind_lem prefix s rest (rw same at h))
  | inr other ↦ let k : Option.none ≡ some rest = rw other at h in cc k
]

-- What went on behind a `require` met it.
pub required :
    {A E : Type 0} (b : Bool) (e : E) (next : Result E A) {last : A}
    → (require b e >> next) ≡ ok last
    → (b ≡ true) × (next ≡ ok last)
required true e next h = (refl, h)
required false e next h = cc h

-- What a url that is read says.
pub record IsFolder (raw : Text) (folder : GithubFolder) : Type 0 where
  pub same_url : url folder ≡ raw
  -- the ref is no option of git, and no segment of the path leads elsewhere
  pub safe_ref : is_ref folder.ref ≡ true
  pub safe_path :
      All
        (λ (segment : Text).
          (is_empty segment || ((segment == codes ".") || (segment == codes ".."))) ≡ false)
        folder.path

pub not-true : (b : Bool) → not b ≡ true → b ≡ false
not-true true h = cc h
not-true false h = refl

segments_lem :
    (segments : List Text)
    → check_segments segments ≡ ok tt
    → All
        (λ (segment : Text).
          (is_empty segment || ((segment == codes ".") || (segment == codes ".."))) ≡ false)
        segments
unfolding check_segments check_segment
segments_lem [] h = tt
segments_lem (segment ∷ segments) h =
    let first = ok_of_bind (check_segment segment) (λ _. check_segments segments) h in
    let shape =
      required (not (is_empty segment || ((segment == codes ".") || (segment == codes ".."))))
        malformed_segment _ first.1 in
    (not-true _ shape.0, segments_lem segments first.2)

raised_lem :
    {A E : Type 0} (e : UrlError) (r : Result E A) (a : A) → raised_as e r ≡ ok a → r ≡ ok a
raised_lem e (ok b) a h = cc h
raised_lem e (err was) a h = cc h

same_segment :
    (kind : Kind) (value same : Text) → validate_github_segment kind value ≡ ok same → value ≡ same
unfolding validate_github_segment
same_segment kind value same h =
    let first =
      required
        ((not (is_empty value) && leb (length value) github_segment_max_len)
          && (not (is_dots kind value) && matches_github kind value))
        invalid_github (ok value) h in
    cc first.1

pub ok_injects : {A E : Type 0} (a b : A) → ◌≡◌ {A = Result E A} (ok a) (ok b) → a ≡ b
ok_injects a b h = cc h

folder_lem :
    (parts : List Text) (folder : GithubFolder)
    → folder_of parts ≡ ok folder
    → (parts ≡ folder.owner ∷ folder.repository ∷ folder.ref ∷ folder.path)
      × (is_ref folder.ref ≡ true)
      × (check_segments folder.path ≡ ok tt)
unfolding folder_of
folder_lem [] folder h = cc h
folder_lem (owner ∷ []) folder h = cc h
folder_lem (owner ∷ repository ∷ []) folder h = cc h
folder_lem (owner ∷ repository ∷ ref ∷ path) folder h =
    let a = ok_of_bind (raised_as bad_user (validate_github_segment user owner)) _ h in
    let b = ok_of_bind (raised_as bad_repo (validate_github_segment repo repository)) _ a.2 in
    let folder_read : GithubFolder = record {
      owner = a.0;
      repository = b.0;
      ref = ref;
      path = path;
    } in
    let last = check_segments path >> ok folder_read in
    let c = required (not (is_empty ref)) empty_ref (require (is_ref ref) bad_ref >> last) b.2 in
    let d = required (is_ref ref) bad_ref last c.1 in
    let e = ok_of_bind (check_segments path) (λ _. ok folder_read) d.1 in
    let same = ok_injects folder_read folder e.2 in
    let o = same_segment user owner a.0 (raised_lem _ _ _ a.1) in
    let r = same_segment repo repository b.0 (raised_lem _ _ _ b.1) in
    (
      ap₂ (λ (x y : Text). x ∷ y ∷ ref ∷ path) o r
          ∙ ap (λ (f : GithubFolder). f.owner ∷ f.repository ∷ f.ref ∷ f.path) same,
      subst (λ (f : GithubFolder). is_ref f.ref ≡ true) same d.0,
      subst (λ (f : GithubFolder). check_segments f.path ≡ ok tt) same e.1,
    )

-- A url that parse_github_url takes is the url of the folder that it gives, whose ref and whose path
-- are safe to hand to git and to join to a folder.
pub parse_github_url-IsFolder :
    (raw : Text) (folder : GithubFolder) → parse_github_url raw ≡ ok folder → IsFolder raw folder
unfolding parse_github_url url
parse_github_url-IsFolder raw folder h = read (behind github_scheme raw) refl h
  where
    read :
        (o : Option Text)
        → behind github_scheme raw ≡ o
        → elim o [ none ↦ err UrlError.unsupported_url | some rest ↦ folder_of (split b'/' rest) ]
          ≡ ok folder
        → IsFolder raw folder
    read none b k = cc k
    read (some rest) b k =
        let parts = folder_lem (split b'/' rest) folder k in
        record {
          same_url =
              ap (λ (s : Text). github_scheme ++ s)
                (ap (join (codes "/")) (sym parts.0) ∙ join-split b'/' rest)
              ∙ sym (behind_lem github_scheme raw rest b);
          safe_ref = parts.1;
          safe_path = segments_lem folder.path parts.2;
        }
