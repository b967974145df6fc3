-- ===== src/Config/Written.antt =====
-- What an edit of config.toml that goes through writes: kelso/lib/config_edit.py.
use kelso.Common.{
  Bool, true, false, Option, none, some, List, [], ◌∷◌, map, if◌then◌else◌, ◌==◌, eq_nat, eq_list,
  ◌≡◌, refl, sym, ap, ◌∙◌, subst, Bool-cases, inl, inr,
}
use kelso.Common.Result.{Result, ok, err}
use kelso.Common.Text.{Text}
use kelso.Common.Dict.{Dict, get, put}
use kelso.Common.Dict.Laws.{get-put}
use kelso.Repos.Read.{ok_injects}
use kelso.Config.File.{HostVolumeEntry, ConfigError, validate_config}
use kelso.Config.Load.{
  Config, LoadError, Document, load_config_file, config_of, host_volume_of, when_valid,
}
use kelso.Layout.Machine.{HostVolume}
use kelso.Config.Edit.{
  Ctx, Flags, Change, EditError, commit, commit_changed, edit_config, after, entry_of, put_volume,
  set_host_volume, file_unreadable, replaced_if,
}

module _ (expand : Text → Text) (master_key : Text) (read : Text → Option Document)
    (dumps : Text → Document → Text) where
  -- the entry, as the configuration has it
  abbrev pub host_volume_at : Text → Flags → HostVolume
  host_volume_at path flags = record {
    path = expand path;
    readonly = flags.readonly;
    require_mount = flags.require_mount;
  }

  abbrev volume_of : Option HostVolumeEntry → Option HostVolume
  volume_of none = none
  volume_of (some e) = some (host_volume_of expand master_key ([], e)).1

  get-map :
      (d : Dict Text HostVolumeEntry) (k : Text)
      → get (map (host_volume_of expand master_key) d) k ≡ volume_of (get d k)
  unfolding get host_volume_of
  get-map [] k = refl
  get-map ((j, e) ∷ d) k = elim (Bool-cases (j == k)) [
    | inl same ↦ rw same refl
    | inr other ↦ rw other (get-map d k)
  ]

  -- the volumes of the configuration, with one more
  put_lem :
      (d : Dict Text HostVolumeEntry) (tag path j : Text) (flags : Flags)
      → get
          (map
            (host_volume_of expand master_key)
            (put d tag (entry_of expand master_key read dumps path flags)))
          j
        ≡ (if tag == j
            then some (host_volume_at path flags)
            else get (map (host_volume_of expand master_key) d) j)
  put_lem d tag path j flags =
      get-map (put d tag (entry_of expand master_key read dumps path flags)) j
      ∙ (ap volume_of (get-put d tag j (entry_of expand master_key read dumps path flags))
          ∙ by_tag (tag == j))
    where
      by_tag :
          (b : Bool)
          → volume_of
              (if b then some (entry_of expand master_key read dumps path flags) else get d j)
            ≡ (if b
                then some (host_volume_at path flags)
                else get (map (host_volume_of expand master_key) d) j)
      by_tag true = unfold host_volume_of in refl
      by_tag false = sym (get-map d j)

  valid_lem :
      (errors : List ConfigError) (config loaded : Config)
      → when_valid expand master_key errors config ≡ ok loaded
      → when_valid expand master_key errors config ≡ ok config
  valid_lem [] config loaded h = refl
  valid_lem (e ∷ errors) config loaded h = cc h

  committed :
      (content text : Text) (document : Document)
      → read text ≡ some document
      → (commit expand master_key read dumps content text).1 ≡ ok tt
      → load_config_file expand master_key read (commit expand master_key read dumps content text).0
        ≡ ok (config_of expand master_key document)
  unfolding commit
  committed content text document h k =
      by_load (load_config_file expand master_key read text) refl k
    where
      reads :
          load_config_file expand master_key read text
          ≡ when_valid expand master_key
              (validate_config document.0)
              (config_of expand master_key document)
      reads = rw (load_config_file, h) refl

      by_load :
          (r : Result LoadError Config)
          → load_config_file expand master_key read text ≡ r
          → (replaced_if expand master_key read dumps content text r).1 ≡ ok tt
          → load_config_file expand master_key read
              (replaced_if expand master_key read dumps content text r).0
            ≡ ok (config_of expand master_key document)
      by_load (err e) same n = cc n
      by_load (ok config) same n =
          reads
          ∙ valid_lem (validate_config document.0) (config_of expand master_key document) config
              (sym reads ∙ same)

  -- An edit that goes through leaves a file that loads as the changed tables.
  after_lem :
      (checks : Result EditError (Unit {0})) (change : Change) (content : Text)
      (document changed : Document)
      → read content ≡ some document
      → change document ≡ ok changed
      → read (dumps content changed) ≡ some changed
      → (after expand master_key read dumps checks change content).1 ≡ ok tt
      → load_config_file expand master_key read
          (after expand master_key read dumps checks change content).0
        ≡ ok (config_of expand master_key changed)
  unfolding edit_config commit_changed
  after_lem (err e) change content document changed there same law done = cc done
  after_lem (ok t) change content document changed there same law done =
      let path : edit_config expand master_key read dumps change content
          ≡ commit expand master_key read dumps content (dumps content changed) =
        ap
          (λ (o : Option Document). elim o [
            | none ↦ (content, err file_unreadable)
            | some d ↦ commit_changed expand master_key read dumps content (change d)
          ])
          there
        ∙ ap (commit_changed expand master_key read dumps content) same in
      subst
        (λ (r : Text × Result EditError (Unit {0})).
          load_config_file expand master_key read r.0 ≡ ok (config_of expand master_key changed))
        (sym path)
        (committed content (dumps content changed) changed law
          (sym (ap (λ (r : Text × Result EditError (Unit {0})). r.1) path) ∙ done))

  -- An edit that sets a host volume and goes through leaves a file that loads, in which the volume is
  -- what was given and every other is what it was, if the changed tables are read as they were printed.
  pub set_host_volume_lem :
      (ctx : Ctx) (tag path : Text) (flags : Flags) (content : Text) (document changed : Document)
      → read content ≡ some document
      → put_volume tag (entry_of expand master_key read dumps path flags) document ≡ ok changed
      → read (dumps content changed) ≡ some changed
      → (set_host_volume expand master_key read dumps ctx tag path flags content).1 ≡ ok tt
      → (config : Config) × (load_config_file expand master_key read
            (set_host_volume expand master_key read dumps ctx tag path flags content).0
          ≡ ok config)
        × ((j : Text)
            → get config.host_volumes j ≡ (
                if tag == j
                then some (host_volume_at path flags)
                else get (config_of expand master_key document).host_volumes j))
  unfolding set_host_volume config_of put_volume
  set_host_volume_lem ctx tag path flags content (parsed, table) changed there same law done = (
    config_of expand master_key changed,
    after_lem _ (put_volume tag (entry_of expand master_key read dumps path flags)) content
        (parsed, table) changed there same law done,
    λ (j : Text).
        subst
          (λ (d : Document). get (config_of expand master_key d).host_volumes j ≡ (
            if tag == j
            then some (host_volume_at path flags)
            else get (map (host_volume_of expand master_key) parsed.host_volume) j))
          (ok_injects _ changed same) (put_lem parsed.host_volume tag path j flags),
  )
