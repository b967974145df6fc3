-- ===== src/Layout/Environment.antt =====
-- The environment of a run unit, of kelso/lib/run_layout.py, with EnvTemplate.safe_substitute.
use kelso.Common.{
  ℕ, zero, suc, ◌+◌, true, false, not, Option, none, some, List, [], ◌∷◌, ◌++◌, map, if◌then◌else◌,
  ◌==◌, eq_nat, eq_list, length,
}
use kelso.Common.Result.{Result, ok, err, ◌>>=◌, traverse}
use kelso.Common.Text.{Text, codes, is_empty, starts_with, join}
use kelso.Common.Dict.{Dict, get, put_all}
use kelso.Common.Sort.{gather}
use kelso.Manifest.Words.{id_at, braced_at}
use kelso.Spec.Defs.{AppSpec, AppConfig, AppRunUnit, BoundVolume, AppRoute, env_name}
use kelso.Layout.Data.{AppRunData, ConfigValue, env_val, AssignedRoute}

-- What is done about a `$`, by what follows it: it stays, or a text takes the place of it and of so
-- many characters behind it.
pub data Placeholder : Type 0 where
  stays : Placeholder
  becomes : Text → ℕ → Placeholder

-- a known identifier is replaced, with the characters of its placeholder
abbrev pub replaced : Option Text → ℕ → Placeholder
replaced none width = stays
replaced (some value) width = becomes value width

unfoldable placeholder_at : Dict Text Text → Text → Placeholder
unfolding id_at braced_at get
placeholder_at mapping s =
    let id = id_at s in
    let braced = braced_at s in
    if starts_with s (codes "$")
    then becomes (codes "$") 1
    else if not (is_empty id)
    then replaced (get mapping id) (length id)
    else if not (is_empty braced)
    then replaced (get mapping braced) (length braced + 2)
    else stays

-- EnvTemplate(s).safe_substitute(mapping), where so many characters are already replaced
unfoldable substitute_from : Dict Text Text → ℕ → Text → Text
unfolding placeholder_at
substitute_from mapping skip [] = []
substitute_from mapping (suc skip) (c ∷ s) = substitute_from mapping skip s
substitute_from mapping zero (c ∷ s) = elim (c == b'$') [
  | false ↦ c ∷ substitute_from mapping zero s
  | true ↦ elim (placeholder_at mapping s) [
    | stays ↦ c ∷ substitute_from mapping zero s
    | becomes value width ↦ value ++ substitute_from mapping width s
  ]
]

unfoldable pub safe_substitute : Dict Text Text → Text → Text
unfolding substitute_from
safe_substitute mapping = substitute_from mapping zero

-- the KeyError of data.routes[name]
pub data LayoutError : Type 0 where
  no_route : Text → LayoutError

-- data.routes[name]
unfoldable pub route_of : AppRunData → Text × AppRoute → Result LayoutError (Text × AssignedRoute)
unfolding get
route_of run_data (name, route) = elim (get run_data.routes name) [
  | none ↦ err (no_route name)
  | some assigned ↦ ok (name, assigned)
]

-- f"conn.{name}.{prop}", for the connections of a unit that the machine has
unfoldable pub connection_items : AppRunData → Text → Dict Text Text
unfolding get
connection_items run_data name = elim (get run_data.connections name) [
  | none ↦ []
  | some connection ↦
      map (λ (prop : Text × Text). (codes "conn." ++ (name ++ (codes "." ++ prop.0)), prop.1))
        connection.properties
]

-- f"{key}:{val}"
abbrev env_kvpair : Text → Text → Text
env_kvpair key val = key ++ (codes ":" ++ val)

abbrev pub text_or : Option Text → Text
text_or none = []
text_or (some t) = t

abbrev spaced : Option (List Text) → Text
spaced none = []
spaced (some words) = unfold join in join (codes " ") words

module _ (decimal : ℕ → Text) where
  -- the items of _env_substitutions, of the routes of the unit; `decimal` is `str` of a number
  unfoldable pub substitution_items :
      AppSpec → AppRunUnit → AppRunData → List (Text × AssignedRoute) → Dict Text Text
  unfolding connection_items env_name gather join
  substitution_items spec unit run_data routes =
      gather (connection_items run_data) unit.connections
      ++ (map (λ (item : Text × AppConfig). (item.0, codes "${" ++ (env_name item.1 ++ codes "}")))
            spec.config
          ++ (map (λ (item : Text × Text). (codes "routes." ++ item.0, item.1)) run_data.route_urls
              ++ ((codes "klso.domain", text_or run_data.app_domain)
                  ∷ (
                    codes "klso.volumes",
                    join (codes ",") (
                        map (λ (item : Text × BoundVolume). env_kvpair item.0 (item.1).guest_path)
                          unit.volumes),
                  )
                  ∷ (codes "klso.cmd", spaced unit.command)
                  ∷ (
                    codes "klso.routes",
                    join (codes ",") (
                        map
                          (λ (item : Text × AssignedRoute).
                            env_kvpair item.0 (decimal (item.1).container_port))
                          routes),
                  )
                  ∷ [])))

  -- _env_substitutions
  unfoldable pub env_substitutions :
      AppSpec → AppRunUnit → AppRunData → Result LayoutError (Dict Text Text)
  unfolding substitution_items route_of traverse put_all
  env_substitutions spec unit run_data = traverse (route_of run_data) unit.routes >>= λ routes.
      ok (put_all [] (substitution_items spec unit run_data routes))

  -- the environment with the placeholders that have a value replaced
  unfoldable pub substituted : Dict Text Text → Dict Text Text → Dict Text Text
  unfolding safe_substitute
  substituted mapping environment =
      map (λ (item : Text × Text). (item.0, safe_substitute mapping item.1)) environment

  -- what a page shows for a setting
  unfoldable pub shown_item : Dict Text ConfigValue → Text × AppConfig → Text × Text
  unfolding get
  shown_item values (name, config) = (
    name,
    if config.secret
        then codes "<secret>"
        else elim (get values name) [ none ↦ [] | some value ↦ env_val value ],
  )

  -- shown_environment
  unfoldable pub shown_environment :
      AppSpec → AppRunUnit → AppRunData → Result LayoutError (Dict Text Text)
  unfolding env_substitutions shown_item substituted put_all
  shown_environment spec unit run_data = env_substitutions spec unit run_data >>= λ mapping. ok (
      substituted (put_all mapping (map (shown_item run_data.config_values) spec.config))
        unit.environment)
