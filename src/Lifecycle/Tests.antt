-- ===== src/Lifecycle/Tests.antt =====
-- kelso/lib/lifecycle/volumes.py at a concrete disk.
use kelso.Common.{
  false, Option, none, some, List, [], ◌∷◌, if◌then◌else◌, ◌==◌, eq_nat, eq_list, ◌≡◌, refl, All,
}
use kelso.Common.Result.{ok, err}
use kelso.Common.Text.{Text, codes, split, text_le}
use kelso.Common.Dict.{Dict, get}
use kelso.Common.Sort.{sorted, insert_sorted}
use kelso.Config.Load.{sorted_items, insert_item}
use kelso.Names.Defs.{
  app_id, validate_parts, validate_identifier, is_identifier, invalid_identifier,
}
use kelso.Manifest.Entries.{data_files}
use kelso.Manifest.Samples.{shop}
use kelso.Spec.Defs.{AppSpec}
use kelso.Lifecycle.Volumes.{
  VolumeOnDisk, orphaned, Disk, use_of, volume_at, app_volumes, root_volumes, volumes_on_disk,
  no_orphan, remove_orphaned_volume,
}
use kelso.Lifecycle.Orphans.{IsOrphan, remove_orphaned_volume_lem}

abbrev bare : AppSpec
bare = record {
  app = codes "shop";
  manifest = shop;
  run_units = [];
  routes = [];
  config = [];
  volumes = [];
  commands = [];
}

-- the apps that are loaded
abbrev loaded : Text → Option AppSpec
loaded app = if app == codes "shop" then some bare else none

abbrev disk : Dict Text (List Text) → Disk
disk apps = record {
  roots = (data_files, apps) ∷ [];
  loaded_spec = loaded;
  is_loaded = λ (app : Text). app == codes "shop";
  is_running = λ (app : Text). false;
}

abbrev two_apps : Dict Text (List Text)
two_apps =
    (codes "shop", codes "old" ∷ (codes "files" ∷ [])) ∷ ((codes "gone", codes "old" ∷ []) ∷ [])

abbrev old : VolumeOnDisk
old = record { owner = codes "shop"; name = codes "old"; kind = data_files; use_of_it = orphaned }

removes_old : remove_orphaned_volume (disk two_apps) (codes "shop") (codes "old") ≡ ok (old ∷ [])
unfolding remove_orphaned_volume volumes_on_disk root_volumes app_volumes volume_at use_of
    sorted_items insert_item sorted insert_sorted text_le app_id validate_parts validate_identifier
    is_identifier split get
removes_old = refl

keeps_gone : remove_orphaned_volume (disk two_apps) (codes "gone") (codes "old") ≡ err no_orphan
unfolding remove_orphaned_volume volumes_on_disk root_volumes app_volumes volume_at use_of
    sorted_items insert_item sorted insert_sorted text_le app_id validate_parts validate_identifier
    is_identifier split get
keeps_gone = refl

-- the folder that a file system has at its root
raises_at_lost :
    volumes_on_disk (disk ((codes "lost+found", []) ∷ two_apps)) ≡ err invalid_identifier
unfolding volumes_on_disk root_volumes app_volumes volume_at use_of sorted_items insert_item sorted
    insert_sorted text_le app_id validate_parts validate_identifier is_identifier split get
raises_at_lost = refl

remove_orphaned_volume_example :
    All (IsOrphan (disk two_apps) (codes "shop") (codes "old")) (old ∷ [])
remove_orphaned_volume_example =
    remove_orphaned_volume_lem (disk two_apps) (codes "shop") (codes "old") (old ∷ []) removes_old
