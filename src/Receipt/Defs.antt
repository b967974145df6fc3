-- ===== src/Receipt/Defs.antt =====
-- The parts of kelso/lib/receipt.py that decide what is shown. A danger is what its text is made of.
use kelso.Common.{
  ℕ, Bool, true, false, not, ◌&&◌, Option, none, some, List, [], ◌∷◌, ◌++◌, map, if◌then◌else◌, ltb,
  eq_nat, eq_list,
}
use kelso.Common.Text.{Text, codes}
use kelso.Common.Result.{Result, ok, ◌>>=◌, traverse}
use kelso.Store.Config.{Error}
use kelso.Common.Dict.{Dict, get, values}
use kelso.Common.Sort.{gather, when}
use kelso.Store.App.{Setting, unset, setting}
use kelso.Manifest.Entries.{
  ConnectionEntry, VolumeKind, host_files, app_files, data_files, temp_files, bulk_files, log_files,
  Scheme, http, https,
}
use kelso.Manifest.Validate.{is_on_host}
use kelso.Manifest.Port.{HostPort, assign, fixed}
use kelso.Spec.Defs.{
  AppSpec, AppConfig, AppVolume, AppRoute, ComposeWarning, compose_warnings, has_default,
}
use kelso.Layout.Data.{AppRunData}
use kelso.Layout.Machine.{Machine}
use kelso.Layout.Routes.{provider_route_urls}
use kelso.Layout.Environment.{text_or}

-- the addresses of one route, if it has some
abbrev named_urls : Text → List Text → Dict Text (List Text)
named_urls name [] = []
named_urls name (address ∷ addresses) = (name, address ∷ addresses) ∷ []

unfoldable route_addresses : Machine → AppRunData → Text × AppRoute → Dict Text (List Text)
unfolding get values provider_route_urls
route_addresses m run_data (name, route) = elim (get run_data.routes name) [
  | none ↦ []
  | some loaded ↦ named_urls name (values (provider_route_urls m loaded))
]

-- published_route_urls
unfoldable published_route_urls : Machine → AppSpec → AppRunData → Dict Text (List Text)
unfolding route_addresses gather
published_route_urls m spec run_data = gather (route_addresses m run_data) spec.routes

-- published_urls
unfoldable published_urls : Machine → AppSpec → AppRunData → List Text
unfolding published_route_urls gather
published_urls m spec run_data =
    gather (λ (item : Text × List Text). item.1) (published_route_urls m spec run_data)

abbrev scheme_text : Scheme → Text
scheme_text http = codes "http"
scheme_text https = codes "https"

abbrev port_on_host : HostPort → Option ℕ
port_on_host assign = none
port_on_host (fixed port) = if ltb 0 port then some port else none

module _ (decimal : ℕ → Text) where
  abbrev at_port : AppRoute → Text → ℕ → Text
  at_port route host port =
      scheme_text route.scheme ++ (codes "://" ++ (host ++ (codes ":" ++ decimal port)))

  abbrev url_at : AppSpec → AppRoute → Text → Option ℕ → Option Text
  url_at spec route host (some port) = some (at_port route host port)
  url_at spec route host none =
      if is_on_host (spec.manifest.app).network_mode
      then some (at_port route host route.container_port)
      else none

  -- host_url, of a route of the app
  unfoldable host_url : AppSpec → Option AppRunData → Text → AppRoute → Text → Option Text
  unfolding get
  host_url spec none name route host = url_at spec route host none
  host_url spec (some run_data) name route host =
      url_at spec route host (elim (get run_data.routes name) [
        | none ↦ none
        | some assigned ↦ port_on_host assigned.host_port
      ])

-- what is shown where no value is stored
unfoldable default_shown : AppConfig → Text
unfolding has_default
default_shown entry =
    if has_default entry then text_or entry.default ++ codes " (default)" else codes "(required)"

unfoldable pub setting_shown : AppConfig → Setting → Text
unfolding default_shown
setting_shown entry unset = default_shown entry
setting_shown entry (setting true value) = codes "(secret)"
setting_shown entry (setting false value) = value

abbrev line_of : Text → Text → Text
line_of name display = name ++ (codes ": " ++ display)

-- What get_config gives is shown, or raises where a secret does not decrypt. An app that is not loaded
-- has no store to look into.
unfoldable pub config_line :
    Option (Text → Result Error Setting) → Text × AppConfig → Result Error Text
unfolding default_shown setting_shown
config_line none (name, entry) =
    ok (line_of name (if entry.secret then codes "(secret)" else default_shown entry))
config_line (some get_config) (name, entry) = do
  found ← get_config name
  ok (line_of name (setting_shown entry found))

-- config_lines
unfoldable pub config_lines :
    AppSpec → Option (Text → Result Error Setting) → Result Error (List Text)
unfolding config_line traverse
config_lines spec store = traverse (config_line store) spec.config

pub data Danger : Type 0 where
  host_networking : Danger
  writable_bind : (volume : Text) → Danger
  connects : (name kind : Text) → Danger
  free_form : ComposeWarning → Danger

abbrev pub is_host_kind : VolumeKind → Bool
is_host_kind host_files = true
is_host_kind app_files = false
is_host_kind data_files = false
is_host_kind temp_files = false
is_host_kind bulk_files = false
is_host_kind log_files = false

-- danger_callouts
unfoldable pub danger_callouts : AppSpec → List Danger
unfolding gather compose_warnings
danger_callouts spec =
    when (is_on_host (spec.manifest.app).network_mode) host_networking
    ++ (gather
          (λ (item : Text × AppVolume).
            when (is_host_kind (item.1).kind && not (item.1).readonly) (writable_bind item.0))
          spec.volumes
        ++ (map (λ (item : Text × ConnectionEntry). connects item.0 (item.1).kind)
              spec.manifest.connections
            ++ map free_form (compose_warnings spec)))
