-- ===== src/Names/Tests.antt =====
-- Names as kelso/lib/util.py and kelso/lib/apps.py check them.
use kelso.Common.{eq_nat, eq_list, ◌≡◌, refl}
use kelso.Common.Result.{ok, err}
use kelso.Common.Text.{codes, split}
use kelso.Names.Defs.{
  invalid_identifier, invalid_github, is_identifier, validate_identifier, validate_parts, app_id,
  parts_of, stem, user, repo, matches_github, validate_github_segment,
}

takes_app : app_id (codes "org.wiki_2") ≡ ok (codes "org.wiki_2")
unfolding app_id validate_parts validate_identifier is_identifier split
takes_app = refl

refuses_parent : app_id (codes "..") ≡ err invalid_identifier
unfolding app_id validate_parts validate_identifier is_identifier split
refuses_parent = refl

last_of_parts : stem (codes "org.wiki_2") ≡ codes "wiki_2"
unfolding stem parts_of split
last_of_parts = refl

takes_repo : validate_github_segment repo (codes "_vibes_") ≡ ok (codes "_vibes_")
unfolding validate_github_segment matches_github
takes_repo = refl

refuses_user : validate_github_segment user (codes "_vibes_") ≡ err invalid_github
unfolding validate_github_segment matches_github
refuses_user = refl
