-- ===== src/Config/Edited.antt =====
-- What the edits of config.toml leave: kelso/lib/config_edit.py.
use kelso.Common.{Option, none, some, List, [], ◌∷◌, eq_nat, eq_list, ◌≡◌, refl, ap, ◌∙◌}
use kelso.Common.Result.{Result, ok, err}
use kelso.Common.Text.{Text}
use kelso.Config.File.{RouteProviderEntry}
use kelso.Config.Load.{Config, LoadError, Document, load_config_file}
use kelso.Config.Edit.{
  Ctx, Flags, RepoSource, Change, EditError, commit, commit_changed, edit_config, after,
  add_host_volume, set_host_volume, remove_host_volume, add_repo, remove_repo, set_route_provider,
  remove_route_provider, set_kelso_address, del_repo, del_provider, file_unreadable, replaced_if,
}

-- Each edit, with its arguments.
pub data Edit : Type 0 where
  adds_volume sets_volume : Ctx → (tag path : Text) → Flags → Edit
  removes_volume : Ctx → (tag : Text) → Edit
  adds_repo : (name : Text) → RepoSource → Edit
  removes_repo : (name : Text) → Edit
  sets_provider : (tag : Text) → RouteProviderEntry → Edit
  removes_provider : (tag : Text) → Edit
  sets_address : Text → Edit

module _ (expand : Text → Text) (master_key : Text) (read : Text → Option Document)
    (dumps : Text → Document → Text) where
  unfoldable run_edit : Edit → Text → Text × Result EditError (Unit {0})
  unfolding add_host_volume set_host_volume remove_host_volume add_repo remove_repo
      set_route_provider remove_route_provider set_kelso_address
  run_edit (adds_volume ctx tag path flags) =
      add_host_volume expand master_key read dumps ctx tag path flags
  run_edit (sets_volume ctx tag path flags) =
      set_host_volume expand master_key read dumps ctx tag path flags
  run_edit (removes_volume ctx tag) = remove_host_volume expand master_key read dumps ctx tag
  run_edit (adds_repo name source) = add_repo expand master_key read dumps name source
  run_edit (removes_repo name) = remove_repo expand master_key read dumps name
  run_edit (sets_provider tag entry) = set_route_provider expand master_key read dumps tag entry
  run_edit (removes_provider tag) = remove_route_provider expand master_key read dumps tag
  run_edit (sets_address address) = set_kelso_address expand master_key read dumps address

  -- the file after the edits, one by one
  unfoldable pub run_edits : List Edit → Text → Text
  unfolding run_edit
  run_edits [] content = content
  run_edits (edit ∷ edits) content = run_edits edits (run_edit edit content).0

  -- The file is as it was, where the edit raised; else it loads.
  abbrev pub Keeps : Text → Text × Result EditError (Unit {0}) → Type 0
  Keeps content (after_it, err e) = after_it ≡ content
  Keeps content (after_it, ok t) =
      (config : Config) × (load_config_file expand master_key read after_it ≡ ok config)

  commit-Keeps :
      (content text : Text) → Keeps content (commit expand master_key read dumps content text)
  unfolding commit
  commit-Keeps content text = kept (load_config_file expand master_key read text) refl
    where
      kept :
          (r : Result LoadError Config)
          → load_config_file expand master_key read text ≡ r
          → Keeps content (replaced_if expand master_key read dumps content text r)
      kept (err e) same = refl
      kept (ok config) same = (config, same)

  after-Keeps :
      (checks : Result EditError (Unit {0})) (change : Change) (content : Text)
      → Keeps content (after expand master_key read dumps checks change content)
  unfolding edit_config commit_changed
  after-Keeps (err e) change content = refl
  after-Keeps (ok t) change content = of_document (read content)
    where
      of_change :
          (r : Result EditError Document)
          → Keeps content (commit_changed expand master_key read dumps content r)
      of_change (err e) = refl
      of_change (ok document) = commit-Keeps content (dumps content document)

      of_document :
          (o : Option Document)
          → Keeps content (elim o [
            | none ↦ (content, err file_unreadable)
            | some document ↦ commit_changed expand master_key read dumps content (change document)
          ])
      of_document none = refl
      of_document (some document) = of_change (change document)

  run_edit-Keeps : (edit : Edit) (content : Text) → Keeps content (run_edit edit content)
  unfolding run_edit add_host_volume set_host_volume remove_host_volume add_repo remove_repo
      set_route_provider remove_route_provider set_kelso_address
  run_edit-Keeps (adds_volume ctx tag path flags) content = after-Keeps _ _ content
  run_edit-Keeps (sets_volume ctx tag path flags) content = after-Keeps _ _ content
  run_edit-Keeps (removes_volume ctx tag) content = after-Keeps _ _ content
  run_edit-Keeps (adds_repo name source) content = after-Keeps _ _ content
  run_edit-Keeps (removes_repo name) content = after-Keeps (ok tt) (del_repo name) content
  run_edit-Keeps (sets_provider tag entry) content = after-Keeps _ _ content
  run_edit-Keeps (removes_provider tag) content = after-Keeps (ok tt) (del_provider tag) content
  run_edit-Keeps (sets_address address) content = after-Keeps _ _ content

  -- Whatever edits run, one after the other, with whatever configuration each started from: a file
  -- that loads is a file that loads.
  pub run_edits_lem :
      (edits : List Edit) (content : Text) (config : Config)
      → load_config_file expand master_key read content ≡ ok config
      → (after_all : Config) × (load_config_file expand master_key read (run_edits edits content)
          ≡ ok after_all)
  unfolding run_edits
  run_edits_lem [] content config h = (config, h)
  run_edits_lem (edit ∷ edits) content config h =
      let one = loads (run_edit edit content) (run_edit-Keeps edit content) in
      run_edits_lem edits (run_edit edit content).0 one.0 one.1
    where
      loads :
          (r : Text × Result EditError (Unit {0}))
          → Keeps content r
          → (config_after : Config) × (load_config_file expand master_key read r.0
              ≡ ok config_after)
      loads (text, err e) same = (config, ap (load_config_file expand master_key read) same ∙ h)
      loads (text, ok t) there = there
