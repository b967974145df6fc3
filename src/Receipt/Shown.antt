-- ===== src/Receipt/Shown.antt =====
-- What is shown of an app, and what is not: kelso/lib/receipt.py.
use kelso.Common.{
  Bool, true, false, not, ◌&&◌, some, [], ◌∷◌, ◌++◌, map, eq_nat, eq_list, ◌≡◌, refl, sym, ◌∙◌, All,
  ◌⊎◌, inl, inr,
}
use kelso.Common.Text.{Text, codes}
use kelso.Common.Result.{Result, ok, err, traverse}
use kelso.Store.Config.{Error}
use kelso.Common.Dict.{Dict}
use kelso.Common.Sort.{gather, when, append_nil, when_nil, gather_nil, All-map}
use kelso.Store.App.{Setting, unset, setting}
use kelso.Manifest.Entries.{ConnectionEntry}
use kelso.Manifest.Valid.{map_nil}
use kelso.Manifest.Validate.{is_on_host}
use kelso.Spec.Defs.{AppSpec, AppConfig, AppVolume, compose_warnings}
use kelso.Receipt.Defs.{
  setting_shown, config_line, config_lines, host_networking, connects, free_form, is_host_kind,
  danger_callouts,
}

abbrev pub is_secret : Result Error Setting → Bool
is_secret (ok unset) = false
is_secret (ok (setting secret value)) = secret
is_secret (err e) = false

-- the stores agree, but for what is stored as a secret
abbrev pub Agrees : (Text → Result Error Setting) → (Text → Result Error Setting) → Text → Type 0
Agrees stored other name =
    (stored name ≡ other name)
    ⊎ ((is_secret (stored name) ≡ true) × (is_secret (other name) ≡ true))

secret_shown :
    (entry : AppConfig) (name : Text) (get_config : Text → Result Error Setting)
    (s : Result Error Setting)
    → get_config name ≡ s
    → is_secret s ≡ true
    → config_line (some get_config) (name, entry) ≡ ok (name ++ (codes ": " ++ codes "(secret)"))
unfolding config_line setting_shown
secret_shown entry name get_config (ok unset) e h = cc h
secret_shown entry name get_config (ok (setting true value)) e h = rw e refl
secret_shown entry name get_config (ok (setting false value)) e h = cc h
secret_shown entry name get_config (err x) e h = cc h

same_shown :
    (stored other : Text → Result Error Setting) (name : Text) (entry : AppConfig)
    → Agrees stored other name
    → config_line (some stored) (name, entry) ≡ config_line (some other) (name, entry)
unfolding config_line
same_shown stored other name entry (inl same) = rw same refl
same_shown stored other name entry (inr secrets) =
    secret_shown entry name stored (stored name) refl secrets.0
    ∙ sym (secret_shown entry name other (other name) refl secrets.1)

same_lines :
    (stored other : Text → Result Error Setting) (config : Dict Text AppConfig)
    → All (λ (item : Text × AppConfig). Agrees stored other item.0) config
    → traverse (config_line (some stored)) config ≡ traverse (config_line (some other)) config
unfolding traverse
same_lines stored other [] h = refl
same_lines stored other ((name, entry) ∷ config) h =
    rw (same_shown stored other name entry h.0, same_lines stored other config h.1) refl

-- The lines on the settings of an app tell nothing of what is stored as a secret: two stores that
-- differ in the values of secrets only, each of which decrypts, have the same lines, or the reading of
-- another setting raises the same exception.
pub config_lines_lem :
    (spec : AppSpec) (stored other : Text → Result Error Setting)
    → All (λ (item : Text × AppConfig). Agrees stored other item.0) spec.config
    → config_lines spec (some stored) ≡ config_lines spec (some other)
unfolding config_lines
config_lines_lem spec stored other h = same_lines stored other spec.config h

-- An app that is kept to itself.
pub record IsContained (spec : AppSpec) : Type 0 where
  pub own_network : is_on_host (spec.manifest.app).network_mode ≡ false
  pub no_writable_bind :
      All
        (λ (item : Text × AppVolume). (is_host_kind (item.1).kind && not (item.1).readonly) ≡ false)
        spec.volumes
  pub no_connection : spec.manifest.connections ≡ []
  pub no_warning : compose_warnings spec ≡ []

-- An app without a danger called out has its own network, no folder of the host that it can write to,
-- no connection to an admin socket, and no option of compose that kelso does not know.
pub danger_callouts-IsContained : (spec : AppSpec) → danger_callouts spec ≡ [] → IsContained spec
unfolding danger_callouts
danger_callouts-IsContained spec h =
    let a = append_nil (when (is_on_host (spec.manifest.app).network_mode) host_networking) _ h in
    let b = append_nil (gather _ spec.volumes) _ a.1 in
    let c =
      append_nil
        (map (λ (item : Text × ConnectionEntry). connects item.0 (item.1).kind)
          spec.manifest.connections)
        _ b.1 in
    record {
      own_network = when_nil _ host_networking a.0;
      no_writable_bind =
          All-map spec.volumes (λ item none_here. when_nil _ _ none_here)
            (gather_nil _ spec.volumes b.0);
      no_connection = map_nil _ spec.manifest.connections c.0;
      no_warning = map_nil free_form (compose_warnings spec) c.1;
    }
