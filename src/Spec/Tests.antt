-- ===== src/Spec/Tests.antt =====
-- kelso/lib/spec.py at concrete manifests.
use kelso.Common.{eq_nat, eq_list, ◌≡◌, refl, false, ◌∷◌, []}
use kelso.Common.Result.{ok}
use kelso.Common.Sort.{insert_sorted, sorted, gather}
use kelso.Common.Text.{codes, text_le}
use kelso.Common.Dict.{get, keys}
use kelso.Store.Json.{null}
use kelso.Manifest.Samples.{shop, read_shop}
use kelso.Manifest.Sound.{parse_manifest_lem}
use kelso.Manifest.Parses.{shop_parses}
use kelso.Manifest.Port.{fixed, tcp}
use kelso.Manifest.Entries.{http}
use kelso.Spec.Defs.{
  AppSpec, AppRoute, config, advanced, subdomain_of, unlisted_compose_options, item_of,
}
use kelso.Spec.Build.{build, build_config}
use kelso.Spec.Units.{IsSpec}
use kelso.Spec.Built.{build_lem}
use kelso.Spec.Settings.{build_config_lem, or_else, declared, default_setting}

build_example : (spec : AppSpec) × (build shop (codes "shop") ≡ ok spec) × IsSpec shop spec
build_example =
    build_lem shop (codes "shop")
      ((parse_manifest_lem read_shop [] (codes "shop") shop shop_parses).1)

build_config_example :
    get (build_config (codes "shop") shop) (codes "title")
    ≡ or_else (declared advanced shop.adv_config (codes "title")) (
        or_else
          (declared config shop.config (codes "title"))
          (default_setting (codes "shop") (codes "title")))
unfolding keys
build_config_example = build_config_lem shop (codes "shop") (codes "title") (refl, tt) tt

abbrev files_route : AppRoute
files_route = record {
  route_name = codes "files";
  run_unit_name = codes "main";
  host_port = fixed 8080;
  container_port = 80;
  proto = tcp;
  private = false;
  scheme = http;
  desc = [];
}

names_subdomain : subdomain_of files_route (codes "shop") ≡ codes "files-shop"
unfolding subdomain_of
names_subdomain = refl

warns_of_privileged :
    unlisted_compose_options
      ((codes "privileged", null) ∷ (codes "init", null) ∷ (codes "cap_add", null) ∷ [])
    ≡ (codes "cap_add", null) ∷ (codes "privileged", null) ∷ []
unfolding unlisted_compose_options item_of sorted insert_sorted text_le keys gather get
warns_of_privileged = refl
