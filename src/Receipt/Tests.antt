-- ===== src/Receipt/Tests.antt =====
-- kelso/lib/receipt.py at a concrete app.
use kelso.Common.{true, false, none, some, [], ◌∷◌, eq_nat, eq_list, ◌≡◌, refl, inr}
use kelso.Common.Text.{Text, codes}
use kelso.Common.Result.{Result, ok, err, traverse}
use kelso.Store.Config.{Error, invalid_token}
use kelso.Common.Sort.{gather}
use kelso.Store.App.{Setting, setting}
use kelso.Manifest.Samples.{shop}
use kelso.Manifest.Entries.{host_files, data_files}
use kelso.Spec.Defs.{AppSpec, AppVolume, config, compose_warnings}
use kelso.Receipt.Defs.{config_lines, config_line, setting_shown, writable_bind, danger_callouts}
use kelso.Receipt.Shown.{config_lines_lem, IsContained, danger_callouts-IsContained}

abbrev files : AppVolume
files = record { kind = data_files; name = codes "files"; src = none; desc = []; readonly = false }

abbrev spec : AppSpec
spec = record {
  app = codes "shop";
  manifest = shop;
  run_units = [];
  routes = [];
  config =
      (
        codes "password",
        record {
          name = codes "password";
          secret = true;
          default = none;
          desc = [];
          section = config;
        },
      )
      ∷ [];
  volumes = (codes "files", files) ∷ [];
  commands = [];
}

-- a store with one secret
abbrev stores : Text → Text → Result Error Setting
stores value name = ok (setting true value)

config_lines_example :
    config_lines spec (some (stores (codes "one")))
    ≡ config_lines spec (some (stores (codes "other")))
config_lines_example =
    config_lines_lem spec (stores (codes "one")) (stores (codes "other")) (inr (refl, refl), tt)

shows_no_secret :
    config_lines spec (some (stores (codes "one"))) ≡ ok (codes "password: (secret)" ∷ [])
unfolding config_lines config_line setting_shown traverse
shows_no_secret = refl

abbrev undecryptable : Text → Result Error Setting
undecryptable name = err invalid_token

raises_undecryptable : config_lines spec (some undecryptable) ≡ err invalid_token
unfolding config_lines config_line setting_shown traverse
raises_undecryptable = refl

calls_out_bind :
    danger_callouts
      (record spec { volumes = (codes "files", record files { kind = host_files }) ∷ [] })
    ≡ writable_bind (codes "files") ∷ []
unfolding danger_callouts gather compose_warnings
calls_out_bind = refl

no_danger : danger_callouts spec ≡ []
unfolding danger_callouts gather compose_warnings
no_danger = refl

danger_callouts_example : IsContained spec
danger_callouts_example = danger_callouts-IsContained spec no_danger
