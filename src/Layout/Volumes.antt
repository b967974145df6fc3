-- ===== src/Layout/Volumes.antt =====
-- _load_volume_links of kelso/lib/run_layout.py.
use kelso.Common.{
  Bool, true, false, not, ◌&&◌, none, some, List, [], ◌∷◌, ◌++◌, if◌then◌else◌, eq_nat, eq_list,
}
use kelso.Common.Text.{Text, codes}
use kelso.Common.Dict.{Dict, get}
use kelso.Common.Sort.{gather}
use kelso.Manifest.Entries.{
  VolumeKind, app_files, data_files, temp_files, bulk_files, log_files, host_files,
}
use kelso.Spec.Defs.{AppVolume, run_rel_path, src_or}
use kelso.Layout.Data.{
  Issue, unbound_volume, unknown_host_volume, readonly_host_volume, missing_host_path,
  unmounted_host_path, dangling_root, missing_volume_path, VolumeLink,
}
use kelso.Layout.Machine.{HostVolume, Machine}

-- the source and the target of a volume, or what is wrong with it
pub data Resolved : Type 0 where
  paths : (source target : Text) → Resolved
  wrong : Issue → Resolved

-- a host volume that is bound
unfoldable host_volume_paths : Machine → Text → AppVolume → HostVolume → Resolved
host_volume_paths m name volume host =
    if host.readonly && not volume.readonly
    then wrong (readonly_host_volume name)
    else if not (m.exists host.path)
    then wrong (missing_host_path name)
    else if host.require_mount && not (m.is_mount host.path)
    then wrong (unmounted_host_path name)
    else paths host.path host.path

unfoldable bound_volume_paths : Machine → Text → AppVolume → Resolved
unfolding get host_volume_paths
bound_volume_paths m name volume = elim (get m.binds name) [
  | none ↦ wrong (unbound_volume name)
  | some tag ↦ elim (get m.host_volumes tag) [
    | none ↦ wrong (unknown_host_volume name)
    | some host ↦ host_volume_paths m name volume host
  ]
]

-- a volume below a volume root, which may be a link that leads nowhere; its folder is made on load
unfoldable root_volume_paths : Machine → Text → Text → AppVolume → Resolved
root_volume_paths m app name volume = elim (m.dangling_volume_root volume.kind) [
  | some target ↦ wrong (dangling_root name)
  | none ↦
      let path = m.volume_root volume.kind ++ (codes "/" ++ (app ++ (codes "/" ++ volume.name))) in
      paths path path
]

-- a file or folder of the bundle, which must be there
unfoldable bundle_volume_paths : Machine → Text → Text → AppVolume → Resolved
bundle_volume_paths m run_path name volume =
    let source = run_path ++ (codes "/app_bundle/" ++ src_or volume.src volume.name) in
    if m.exists source
    then paths source (codes "../../app_bundle/" ++ src_or volume.src volume.name)
    else wrong (missing_volume_path name)

unfoldable volume_paths : Machine → Text → Text → Text → AppVolume → Resolved
unfolding bound_volume_paths root_volume_paths bundle_volume_paths
volume_paths m app run_path name volume = elim volume.kind [
  | host_files ↦ bound_volume_paths m name volume
  | app_files ↦ bundle_volume_paths m run_path name volume
  | data_files ↦ root_volume_paths m app name volume
  | temp_files ↦ root_volume_paths m app name volume
  | bulk_files ↦ root_volume_paths m app name volume
  | log_files ↦ root_volume_paths m app name volume
]

abbrev makes_folder : VolumeKind → Bool
makes_folder app_files = false
makes_folder host_files = false
makes_folder data_files = true
makes_folder temp_files = true
makes_folder bulk_files = true
makes_folder log_files = true

unfoldable pub link_of : Text → Text → AppVolume → Resolved → Dict Text VolumeLink × List Issue
unfolding run_rel_path
link_of run_path name volume (wrong issue) = ([], issue ∷ [])
link_of run_path name volume (paths source target) = (
  (
    name,
    record {
      source = source;
      target = target;
      destination = run_path ++ (codes "/" ++ run_rel_path volume);
      mkdir = makes_folder volume.kind;
    },
  )
      ∷ [],
  [],
)

unfoldable pub volume_link :
    Machine → Text → Text → Text × AppVolume → Dict Text VolumeLink × List Issue
unfolding volume_paths link_of
volume_link m app run_path (name, volume) =
    link_of run_path name volume (volume_paths m app run_path name volume)

-- _load_volume_links
unfoldable pub load_volume_links :
    Machine → Text → Text → Dict Text AppVolume → Dict Text VolumeLink × List Issue
unfolding volume_link gather
load_volume_links m app run_path volumes = (
  gather (λ (item : Text × AppVolume). (volume_link m app run_path item).0) volumes,
  gather (λ (item : Text × AppVolume). (volume_link m app run_path item).1) volumes,
)
