-- ===== src/Config/Edit.antt =====
-- kelso/lib/config_edit.py: the edits of config.toml. The state is the text of the file; tomlkit reads
-- it into the same tables as tomllib does, and prints the changed tables over the old text.
use kelso.Common.{Bool, true, false, not, Option, none, some, if◌then◌else◌, ◌==◌, eq_nat, eq_list}
use kelso.Common.Result.{Result, ok, err, ◌>>◌, require}
use kelso.Common.Text.{Text, is_empty}
use kelso.Common.Dict.{has, put, pop}
use kelso.Names.Defs.{is_identifier}
use kelso.Repos.Resolve.{RepoEntry, no_table, tables, local_repo}
use kelso.Config.File.{RouteProviderEntry, HostVolumeEntry}
use kelso.Config.Load.{Config, LoadError, Document, load_config_file}

pub data EditError : Type 0 where
  file_unreadable volume_exists no_such_volume no_directory not_directory bad_tag
        one_of_path_and_url builtin_repo repo_exists no_such_repo no_such_provider empty_address
        key_error not_a_table :
      EditError
  -- the result would not load
  refused : LoadError → EditError

-- what an edit asks of its context: the configuration as it was loaded, and the file system
pub record Ctx : Type 0 where
  pub config : Config
  pub exists : Text → Bool
  pub is_dir : Text → Bool

-- the flags of an entry, as _entry writes them
pub record Flags : Type 0 where
  pub readonly : Bool
  pub require_mount : Bool

pub record RepoSource : Type 0 where
  pub path : Text
  pub url : Text

-- A change of the tables.
abbrev pub Change : Type 0
Change = Document → Result EditError Document

unfoldable pub put_volume : Text → HostVolumeEntry → Change
unfolding put
put_volume tag entry (parsed, table) =
    ok (record parsed { host_volume = put parsed.host_volume tag entry }, table)

-- del document[key], which raises where it is not there
unfoldable del_volume : Text → Change
unfolding has pop
del_volume tag (parsed, table) =
    require (has parsed.host_volume tag) key_error
    >> ok (record parsed { host_volume = pop parsed.host_volume tag }, table)

-- path or url, whichever is not empty
abbrev repo_entry : RepoSource → RepoEntry
repo_entry source =
    if is_empty source.path
    then record { path = none; url = some source.url }
    else record { path = some source.path; url = none }

unfoldable put_repo : Text → RepoSource → Change
unfolding has put
put_repo name source (parsed, no_table) = err not_a_table
put_repo name source (parsed, tables repos) =
    require (not (has repos name)) repo_exists
    >> ok (parsed, tables (put repos name (some (repo_entry source))))

unfoldable pub del_repo : Text → Change
unfolding has pop
del_repo name (parsed, no_table) = err not_a_table
del_repo name (parsed, tables repos) =
    require (has repos name) no_such_repo >> ok (parsed, tables (pop repos name))

unfoldable put_provider : Text → RouteProviderEntry → Change
unfolding put
put_provider tag entry (parsed, table) =
    ok (record parsed { route_provider = put parsed.route_provider tag entry }, table)

unfoldable pub del_provider : Text → Change
unfolding has pop
del_provider tag (parsed, table) =
    require (has parsed.route_provider tag) no_such_provider
    >> ok (record parsed { route_provider = pop parsed.route_provider tag }, table)

unfoldable put_address : Text → Change
put_address address (parsed, table) = ok (record parsed { kelso_address = address }, table)

module _ (expand : Text → Text) (master_key : Text) (read : Text → Option Document)
    (dumps : Text → Document → Text) where
  abbrev pub replaced_if :
      Text → Text → Result LoadError Config → Text × Result EditError (Unit {0})
  replaced_if content text (err e) = (content, err (refused e))
  replaced_if content text (ok config) = (text, ok tt)

  -- _commit: the new text, where it loads
  unfoldable pub commit : Text → Text → Text × Result EditError (Unit {0})
  unfolding load_config_file
  commit content text = replaced_if content text (load_config_file expand master_key read text)

  unfoldable pub commit_changed :
      Text → Result EditError Document → Text × Result EditError (Unit {0})
  unfolding commit
  commit_changed content (err e) = (content, err e)
  commit_changed content (ok document) = commit content (dumps content document)

  -- edit_config around the change. A text that tomlkit parses to tables of other types than those of
  -- the configuration is refused here; the code changes it, and commits it where it then loads.
  unfoldable pub edit_config : Change → Text → Text × Result EditError (Unit {0})
  unfolding commit_changed
  edit_config change content = elim (read content) [
    | none ↦ (content, err file_unreadable)
    | some document ↦ commit_changed content (change document)
  ]

  -- an edit whose checks are met
  abbrev pub after :
      Result EditError (Unit {0}) → Change → Text → Text × Result EditError (Unit {0})
  after (err e) change content = (content, err e)
  after (ok t) change content = edit_config change content

  -- _check_path
  unfoldable pub check_path : Ctx → Text → Result EditError (Unit {0})
  check_path ctx raw =
      require (ctx.exists (expand raw)) no_directory
      >> require (ctx.is_dir (expand raw)) not_directory

  abbrev pub entry_of : Text → Flags → HostVolumeEntry
  entry_of path flags = record {
    path = path;
    readonly = flags.readonly;
    require_mount = flags.require_mount;
  }

  unfoldable pub add_host_volume :
      Ctx → Text → Text → Flags → Text → Text × Result EditError (Unit {0})
  unfolding edit_config check_path put_volume has
  add_host_volume ctx tag path flags =
      after
        (require (is_identifier tag) bad_tag
          >> (require (not (has (ctx.config).host_volumes tag)) volume_exists
              >> check_path ctx path))
        (put_volume tag (entry_of path flags))

  unfoldable pub set_host_volume :
      Ctx → Text → Text → Flags → Text → Text × Result EditError (Unit {0})
  unfolding edit_config check_path put_volume has
  set_host_volume ctx tag path flags =
      after (require (has (ctx.config).host_volumes tag) no_such_volume >> check_path ctx path)
        (put_volume tag (entry_of path flags))

  unfoldable pub remove_host_volume : Ctx → Text → Text → Text × Result EditError (Unit {0})
  unfolding edit_config del_volume has
  remove_host_volume ctx tag =
      after (require (has (ctx.config).host_volumes tag) no_such_volume) (del_volume tag)

  abbrev same_bool : Bool → Bool → Bool
  same_bool true b = b
  same_bool false b = not b

  unfoldable pub add_repo : Text → RepoSource → Text → Text × Result EditError (Unit {0})
  unfolding edit_config put_repo
  add_repo name source =
      after
        (require (is_identifier name) bad_tag
          >> (require (not (same_bool (is_empty source.path) (is_empty source.url)))
                one_of_path_and_url
              >> require (not (name == local_repo)) builtin_repo))
        (put_repo name source)

  unfoldable pub remove_repo : Text → Text → Text × Result EditError (Unit {0})
  unfolding edit_config del_repo
  remove_repo name = after (ok tt) (del_repo name)

  unfoldable pub set_route_provider :
      Text → RouteProviderEntry → Text → Text × Result EditError (Unit {0})
  unfolding edit_config put_provider
  set_route_provider tag entry =
      after (require (is_identifier tag) bad_tag) (put_provider tag entry)

  unfoldable pub remove_route_provider : Text → Text → Text × Result EditError (Unit {0})
  unfolding edit_config del_provider
  remove_route_provider tag = after (ok tt) (del_provider tag)

  unfoldable pub set_kelso_address : Text → Text → Text × Result EditError (Unit {0})
  unfolding edit_config put_address
  set_kelso_address address =
      after (require (not (is_empty address)) empty_address) (put_address address)
