-- ===== src/Config/Load.antt =====
-- load_config_file and Config of kelso/lib/config.py.
use kelso.Common.{
  ℕ, ◌||◌, Option, none, some, List, [], ◌∷◌, ◌++◌, map, if◌then◌else◌, ◌==◌, eq_nat, eq_list,
}
use kelso.Common.Result.{Result, ok, err}
use kelso.Common.Text.{Text, codes, is_empty, ends_with, text_le}
use kelso.Common.Dict.{Dict, get, put}
use kelso.Config.Providers.{none_tag}
use kelso.Config.File.{
  RouteProviderEntry, noop, HostVolumeEntry, BackupEntry, ConfigFile, ConfigError, validate_config,
}
use kelso.Layout.Machine.{HostVolume}
use kelso.Repos.Resolve.{Repo, RepoTable, local_repo, resolve_repos, below_root}

pub record Config : Type 0 where
  pub repos_root : Text
  pub repos : List Repo
  pub master_key : Text
  pub port_base : ℕ
  pub kelso_address : Text
  pub default_route_provider : Text
  pub route_providers : Dict Text RouteProviderEntry
  pub host_volumes : Dict Text HostVolume
  pub backup : BackupEntry

pub data LoadError : Type 0 where
  -- tomllib or pydantic refuse it
  unreadable : LoadError
  not_valid : List ConfigError → LoadError

abbrev placeholder_domain : Text
placeholder_domain = codes "kelso.localhost"

-- the provider that is always there
abbrev pub builtin : RouteProviderEntry
builtin = record { kind = noop; domain = placeholder_domain; args = [] }

-- The tables of the file, with that of the repositories, which is looked at last.
abbrev pub Document : Type 0
Document = ConfigFile × RepoTable

module _ (expand : Text → Text) (master_key : Text) where
  unfoldable pub host_volume_of : Text × HostVolumeEntry → Text × HostVolume
  host_volume_of (tag, entry) = (
    tag,
    record {
      path = expand entry.path;
      readonly = entry.readonly;
      require_mount = entry.require_mount;
    },
  )

  -- the Config of a file that is valid; its `none` provider is the first, as the file has none
  unfoldable pub config_of : Document → Config
  unfolding host_volume_of resolve_repos
  config_of (parsed, table) =
      let root = expand parsed.repos_root in
      record {
        repos_root = root;
        repos =
            record { name = local_repo; folder = below_root expand root local_repo; mirror = none }
            ∷ resolve_repos expand root table;
        master_key = master_key;
        port_base = parsed.port_base;
        kelso_address = parsed.kelso_address;
        default_route_provider = parsed.default_route_provider;
        route_providers = (none_tag, builtin) ∷ parsed.route_provider;
        host_volumes = map host_volume_of parsed.host_volume;
        backup = parsed.backup;
      }

  abbrev pub when_valid : List ConfigError → Config → Result LoadError Config
  when_valid [] config = ok config
  when_valid (e ∷ errors) config = err (not_valid (e ∷ errors))

  -- load_config_file, of a text that `read` reads
  unfoldable pub load_config_file : (Text → Option Document) → Text → Result LoadError Config
  unfolding config_of validate_config
  load_config_file read content = elim (read content) [
    | none ↦ err unreadable
    | some document ↦ when_valid (validate_config document.0) (config_of document)
  ]

-- Config.provider_domain
unfoldable pub provider_domain : Config → Text → Text
unfolding get
provider_domain config tag =
    if is_empty tag || (tag == none_tag)
    then placeholder_domain
    else elim (get config.route_providers tag) [
      | none ↦ placeholder_domain
      | some entry ↦ entry.domain
    ]

-- sorted(providers.items()), by tag
unfoldable pub insert_item {ℓ} : {V : Type ℓ} → Text × V → Dict Text V → Dict Text V
unfolding text_le
insert_item c [] = c ∷ []
insert_item c (d ∷ ds) =
    let rest = insert_item c ds in if text_le c.0 d.0 then c ∷ d ∷ ds else d ∷ rest

unfoldable pub sorted_items {ℓ} : {V : Type ℓ} → Dict Text V → Dict Text V
unfolding insert_item
sorted_items [] = []
sorted_items (c ∷ cs) = insert_item c (sorted_items cs)

-- refs.setdefault(name, []).append(key)
unfoldable add_reference : Dict Text (List Text) → Text → Text → Dict Text (List Text)
unfolding get put
add_reference refs name key =
    put refs name (elim (get refs name) [ none ↦ key ∷ [] | some found ↦ found ++ (key ∷ []) ])

-- the args of a provider that name a secret
unfoldable add_args : Text → Dict Text (List Text) → Dict Text Text → Dict Text (List Text)
unfolding add_reference ends_with
add_args tag refs [] = refs
add_args tag refs ((arg, name) ∷ args) =
    let next =
      if ends_with arg (codes "_secret")
      then add_reference refs name (codes "route_provider." ++ (tag ++ (codes ".args." ++ arg)))
      else refs in
    add_args tag next args

unfoldable add_providers :
    Dict Text (List Text) → Dict Text RouteProviderEntry → Dict Text (List Text)
unfolding add_args sorted_items
add_providers refs [] = refs
add_providers refs ((tag, entry) ∷ providers) =
    add_providers (add_args tag refs (sorted_items entry.args)) providers

-- Config.secret_references
unfoldable secret_references : Config → Dict Text (List Text)
unfolding add_providers sorted_items
secret_references config = add_providers [] (sorted_items config.route_providers)
