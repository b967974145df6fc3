-- ===== src/Lifecycle/Volumes.antt =====
-- kelso/lib/lifecycle/volumes.py: the volumes on disk, and what may be removed of them. The disk, the
-- loaded apps and docker are given, as far as they are asked.
use kelso.Common.{
  ℕ, Bool, true, false, ◌&&◌, Option, none, some, List, [], ◌∷◌, ◌++◌, map, keep, if◌then◌else◌,
  ◌==◌, eq_nat, eq_list,
}
use kelso.Common.Result.{Result, ok, err, ◌>>=◌}
use kelso.Common.Text.{Text}
use kelso.Common.Dict.{Dict, get}
use kelso.Common.Sort.{sorted}
use kelso.Names.Defs.{Error, app_id}
use kelso.Manifest.Entries.{
  VolumeKind, app_files, data_files, temp_files, bulk_files, log_files, host_files,
}
use kelso.Spec.Defs.{AppSpec, AppVolume}
use kelso.Config.Load.{sorted_items}

-- why a volume is on disk
pub data VolumeUse : Type 0 where
  in_use idle unloaded orphaned unknown : VolumeUse

pub record VolumeOnDisk : Type 0 where
  pub owner : Text
  pub name : Text
  pub kind : VolumeKind
  pub use_of_it : VolumeUse

-- What the machine says.
pub record Disk : Type 0 where
  -- the folders of each volume root that is a folder, by app, the roots in the order of their names
  pub roots : List (VolumeKind × Dict Text (List Text))
  -- ctx.loaded_spec, where it raises no ValueError, ctx.is_loaded, and whether units of the app run
  pub loaded_spec : Text → Option AppSpec
  pub is_loaded : Text → Bool
  pub is_running : Text → Bool

abbrev pub kind_code : VolumeKind → ℕ
kind_code app_files = 0
kind_code data_files = 1
kind_code temp_files = 2
kind_code bulk_files = 3
kind_code log_files = 4
kind_code host_files = 5

-- the use, by what the manifest says of the name
abbrev pub declared_use : Bool → VolumeKind → Option AppVolume → VolumeUse
declared_use running kind none = orphaned
declared_use running kind (some declared) =
    if kind_code declared.kind == kind_code kind
    then (if running then in_use else idle)
    else orphaned

-- _use
unfoldable pub use_of : Disk → Text → Text → VolumeKind → VolumeUse
unfolding get
use_of disk app name kind = elim (disk.loaded_spec app) [
  | none ↦ if disk.is_loaded app then unknown else unloaded
  | some spec ↦ declared_use (disk.is_running app) kind (get spec.volumes name)
]

unfoldable pub volume_at : Disk → VolumeKind → Text → Text → VolumeOnDisk
unfolding use_of
volume_at disk kind app name = record {
  owner = app;
  name = name;
  kind = kind;
  use_of_it = use_of disk app name kind;
}

-- the folders of the apps of a root; the name of one must be an id
unfoldable pub app_volumes :
    Disk → VolumeKind → Dict Text (List Text) → Result Error (List VolumeOnDisk)
unfolding volume_at sorted
app_volumes disk kind [] = ok []
app_volumes disk kind ((app, names) ∷ apps) = app_id app >>= λ same.
    app_volumes disk kind apps >>= λ rest.
    ok (map (volume_at disk kind same) (sorted names) ++ rest)

unfoldable pub root_volumes :
    Disk → List (VolumeKind × Dict Text (List Text)) → Result Error (List VolumeOnDisk)
unfolding app_volumes sorted_items
root_volumes disk [] = ok []
root_volumes disk ((kind, apps) ∷ roots) = app_volumes disk kind (sorted_items apps) >>= λ here.
    root_volumes disk roots >>= λ rest. ok (here ++ rest)

-- volumes_on_disk
unfoldable pub volumes_on_disk : Disk → Result Error (List VolumeOnDisk)
unfolding root_volumes
volumes_on_disk disk = root_volumes disk disk.roots

pub data RemoveError : Type 0 where
  bad_folder : Error → RemoveError
  no_orphan : RemoveError

abbrev pub is_orphaned : VolumeUse → Bool
is_orphaned orphaned = true
is_orphaned in_use = false
is_orphaned idle = false
is_orphaned unloaded = false
is_orphaned unknown = false

abbrev pub may_remove : Text → Text → VolumeOnDisk → Bool
may_remove app name v = (v.owner == app) && ((v.name == name) && is_orphaned v.use_of_it)

abbrev pub some_orphan : List VolumeOnDisk → Result RemoveError (List VolumeOnDisk)
some_orphan [] = err no_orphan
some_orphan (v ∷ vs) = ok (v ∷ vs)

-- remove_orphaned_volume: the volumes whose folders are deleted
unfoldable pub remove_orphaned_volume : Disk → Text → Text → Result RemoveError (List VolumeOnDisk)
unfolding volumes_on_disk
remove_orphaned_volume disk app name = elim (volumes_on_disk disk) [
  | err e ↦ err (bad_folder e)
  | ok found ↦ some_orphan (keep (may_remove app name) found)
]
