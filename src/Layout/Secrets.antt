-- ===== src/Layout/Secrets.antt =====
-- What a page that shows the environment of a unit tells of its secrets.
use kelso.Common.{
  true, Option, none, some, [], ◌∷◌, map, if◌then◌else◌, eq_nat, eq_list, ◌≡◌, refl, ap, ◌∙◌, All,
  ◌⊎◌, inl, inr, ℕ,
}
use mathlib.Core.Path.{ap₂}
use kelso.Common.Result.{Result, ok, ◌>>=◌}
use kelso.Common.Text.{Text, codes}
use kelso.Common.Dict.{Dict, get, put_all}
use kelso.Spec.Defs.{AppSpec, AppConfig, AppRunUnit}
use kelso.Layout.Data.{AppRunData, ConfigValue, env_val}
use kelso.Layout.Environment.{
  env_substitutions, substituted, shown_item, shown_environment, substitution_items,
  connection_items, route_of, LayoutError,
}

-- the same run, with other values of the settings
abbrev pub with_values : AppRunData → Dict Text ConfigValue → AppRunData
with_values run_data other = record run_data { config_values = other }

shown_lem :
    (decimal : ℕ → Text) (values other : Dict Text ConfigValue) (config : Dict Text AppConfig)
    → All
        (λ (item : Text × AppConfig).
          ((item.1).secret ≡ true) ⊎ (get values item.0 ≡ get other item.0))
        config
    → map (shown_item decimal values) config ≡ map (shown_item decimal other) config
unfolding shown_item
shown_lem decimal values other [] h = refl
shown_lem decimal values other ((name, config) ∷ items) h =
    ap₂ (λ (x : Text × Text) (xs : Dict Text Text). x ∷ xs) (shown h.0)
      (shown_lem decimal values other items h.1)
  where
    shown :
        (config.secret ≡ true) ⊎ (get values name ≡ get other name)
        → shown_item decimal values (name, config) ≡ shown_item decimal other (name, config)
    shown (inl secret) = rw secret refl
    shown (inr same) =
        ap
          (λ (o : Option ConfigValue). (
            name,
            if config.secret
                then codes "<secret>"
                else elim o [ none ↦ [] | some value ↦ env_val value ],
          ))
          same

same_substitutions :
    (decimal : ℕ → Text) (spec : AppSpec) (unit : AppRunUnit) (run_data : AppRunData)
    (other : Dict Text ConfigValue)
    → env_substitutions decimal spec unit run_data
      ≡ env_substitutions decimal spec unit (with_values run_data other)
unfolding env_substitutions substitution_items connection_items route_of
same_substitutions decimal spec unit run_data other = refl

-- What is shown of the environment of a unit does not depend on a secret: two runs that differ in
-- the values of secrets only show the same, or raise the same.
pub shown_environment_lem :
    (decimal : ℕ → Text) (spec : AppSpec) (unit : AppRunUnit) (run_data : AppRunData)
    (other : Dict Text ConfigValue)
    → All
        (λ (item : Text × AppConfig).
          ((item.1).secret ≡ true) ⊎ (get run_data.config_values item.0 ≡ get other item.0))
        spec.config
    → shown_environment decimal spec unit run_data
      ≡ shown_environment decimal spec unit (with_values run_data other)
unfolding shown_environment
shown_environment_lem decimal spec unit run_data other h =
    ap
      (λ (items : Dict Text Text). env_substitutions decimal spec unit run_data >>= λ mapping.
        ok (substituted decimal (put_all mapping items) unit.environment))
      (shown_lem decimal run_data.config_values other spec.config h)
    ∙ ap
        (λ (r : Result LayoutError (Dict Text Text)). r >>= λ mapping. ok (
          substituted decimal (put_all mapping (map (shown_item decimal other) spec.config))
            unit.environment))
        (same_substitutions decimal spec unit run_data other)
