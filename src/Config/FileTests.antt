-- ===== src/Config/FileTests.antt =====
-- config.toml at concrete tables.
use kelso.Common.{
  true, false, Option, none, some, List, [], ◌∷◌, if◌then◌else◌, ◌==◌, eq_nat, eq_list, ◌≡◌, refl,
}
use kelso.Common.Result.{ok}
use kelso.Common.Text.{Text, codes}
use kelso.Common.Dict.{get, has, put, keys}
use kelso.Common.Sort.{gather, sorted, insert_sorted}
use kelso.Names.Defs.{is_identifier}
use kelso.Repos.Resolve.{tables}
use kelso.Config.File.{
  RouteProviderEntry, nginx_proxy_manager, ConfigFile, needs_address, validate_config,
  check_schedule, proxying, check_default,
}
use kelso.Config.Load.{Config, Document, load_config_file, config_of, host_volume_of}
use kelso.Config.Valid.{IsConfig, load_config_file-IsConfig}
use kelso.Config.Edit.{
  Ctx, Flags, set_host_volume, edit_config, commit_changed, commit, check_path, put_volume,
}
use kelso.Config.Edited.{Edit, sets_volume, sets_address, run_edits, run_edits_lem}
use kelso.Config.Written.{host_volume_at, set_host_volume_lem}

abbrev web : RouteProviderEntry
web = record {
  kind = nginx_proxy_manager;
  domain = codes "example.org";
  args = (codes "password_secret", codes "web") ∷ [];
}

abbrev parsed : ConfigFile
parsed = record {
  repos_root = codes "/repos";
  port_base = 41000;
  kelso_address = codes "10.0.0.1";
  default_route_provider = codes "web";
  route_provider = (codes "web", web) ∷ [];
  host_volume =
      (codes "media", record { path = codes "/media"; readonly = true; require_mount = true }) ∷ [];
  backup = record {
    schedule = none;
    require_mount = false;
    kept = record { daily = 3; weekly = 2; monthly = 1; manual = 5 };
  };
}

abbrev absolute : Text → Text
absolute path = path

abbrev moved : Document
moved = (
  record parsed {
    host_volume =
        (codes "media", record { path = codes "/new"; readonly = false; require_mount = false })
        ∷ [];
  },
  tables [],
)

-- two files
abbrev read : Text → Option Document
read [] = some (parsed, tables [])
read (c ∷ s) = some moved

abbrev dumps : Text → Document → Text
dumps old document = codes "new"

abbrev config : Config
config = config_of absolute [] (parsed, tables [])

abbrev ctx : Ctx
ctx = record { config = config; exists = λ (path : Text). true; is_dir = λ (path : Text). true }

abbrev writable : Flags
writable = record { readonly = false; require_mount = false }

asks_for_address :
    validate_config (record parsed { kelso_address = [] }) ≡ needs_address (codes "web" ∷ []) ∷ []
unfolding validate_config check_schedule proxying check_default gather sorted insert_sorted keys has
    get is_identifier
asks_for_address = refl

loads : load_config_file absolute [] read [] ≡ ok config
unfolding load_config_file validate_config check_schedule proxying check_default gather sorted
    insert_sorted keys has get is_identifier
loads = refl

load_config_file_example : IsConfig config
load_config_file_example = load_config_file-IsConfig absolute [] read [] config loads

sets :
    (set_host_volume absolute [] read dumps ctx (codes "media") (codes "/new") writable []).1
    ≡ ok tt
unfolding set_host_volume edit_config commit_changed commit check_path put_volume put config_of
    host_volume_of load_config_file validate_config check_schedule proxying check_default gather
    sorted insert_sorted keys has get is_identifier
sets = refl

set_host_volume_example :
    (after_it : Config) × (load_config_file absolute [] read
        (set_host_volume absolute [] read dumps ctx (codes "media") (codes "/new") writable []).0
      ≡ ok after_it)
    × ((j : Text)
        → get after_it.host_volumes j ≡ (
            if codes "media" == j
            then some (host_volume_at absolute [] read dumps (codes "/new") writable)
            else get config.host_volumes j))
unfolding put_volume put
set_host_volume_example =
    set_host_volume_lem absolute [] read dumps ctx (codes "media") (codes "/new") writable []
      (parsed, tables []) moved refl refl refl sets

abbrev edits : List Edit
edits = sets_address [] ∷ (sets_volume ctx (codes "media") (codes "/new") writable ∷ [])

run_edits_example :
    (after_all : Config) × (load_config_file absolute [] read
        (run_edits absolute [] read dumps edits [])
      ≡ ok after_all)
run_edits_example = run_edits_lem absolute [] read dumps edits [] config loads
