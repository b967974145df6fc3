-- ===== src/Lifecycle/Orphans.antt =====
-- What kelso/lib/lifecycle/volumes.py deletes.
use kelso.Common.{
  Bool, true, false, ◌&&◌, Option, none, some, List, [], ◌∷◌, ◌++◌, map, keep, if◌then◌else◌, ◌==◌,
  eq_nat, eq_list, ◌≡◌, refl, subst, All, Bool-cases, inl, inr, ==→eq,
}
use kelso.Common.Result.{Result, ok, err, ok_of_bind}
use kelso.Common.Text.{Text}
use kelso.Common.Dict.{Dict, get}
use kelso.Common.Sort.{sorted}
use kelso.Repos.Read.{ok_injects}
use kelso.Names.Defs.{Error, app_id}
use kelso.Manifest.Entries.{VolumeKind}
use kelso.Spec.Defs.{AppSpec, AppVolume}
use kelso.Config.Load.{sorted_items}
use kelso.Lifecycle.Volumes.{
  VolumeUse, in_use, idle, unloaded, unknown, VolumeOnDisk, Disk, kind_code, declared_use, use_of,
  volume_at, app_volumes, root_volumes, volumes_on_disk, bad_folder, is_orphaned, may_remove,
  some_orphan, remove_orphaned_volume,
}

-- the manifest does not have the name as a volume of the kind
abbrev pub Undeclared : VolumeKind → Option AppVolume → Type 0
Undeclared kind none = Unit
Undeclared kind (some declared) = (kind_code declared.kind == kind_code kind) ≡ false

-- A volume that nobody wants: its app is loaded, with a manifest that does not have it.
pub record IsOrphan (disk : Disk) (app name : Text) (v : VolumeOnDisk) : Type 0 where
  pub of_app : v.owner ≡ app
  pub of_name : v.name ≡ name
  pub undeclared :
      (spec : AppSpec) × (disk.loaded_spec app ≡ some spec)
      × Undeclared v.kind (get spec.volumes name)

append_all :
    (P : VolumeOnDisk → Type 0) (xs ys : List VolumeOnDisk) → All P xs → All P ys → All P (xs ++ ys)
append_all P [] ys h k = k
append_all P (x ∷ xs) ys h k = (h.0, append_all P xs ys h.1 k)

-- the use is the one that _use finds
abbrev Used : Disk → VolumeOnDisk → Type 0
Used disk v = v.use_of_it ≡ use_of disk v.owner v.name v.kind

mapped :
    (disk : Disk) (kind : VolumeKind) (app : Text) (names : List Text)
    → All (Used disk) (map (volume_at disk kind app) names)
unfolding volume_at
mapped disk kind app [] = tt
mapped disk kind app (name ∷ names) = (refl, mapped disk kind app names)

app_volumes-Used :
    (disk : Disk) (kind : VolumeKind) (apps : Dict Text (List Text)) (found : List VolumeOnDisk)
    → app_volumes disk kind apps ≡ ok found
    → All (Used disk) found
unfolding app_volumes
app_volumes-Used disk kind [] found h = subst (All (Used disk)) (ok_injects [] found h) tt
app_volumes-Used disk kind ((app, names) ∷ apps) found h =
    let a = ok_of_bind (app_id app) _ h in
    let b = ok_of_bind (app_volumes disk kind apps) _ a.2 in
    subst (All (Used disk)) (ok_injects _ found b.2) (
      append_all (Used disk) _ _ (mapped disk kind a.0 (sorted names))
        (app_volumes-Used disk kind apps b.0 b.1))

root_volumes-Used :
    (disk : Disk) (roots : List (VolumeKind × Dict Text (List Text))) (found : List VolumeOnDisk)
    → root_volumes disk roots ≡ ok found
    → All (Used disk) found
unfolding root_volumes
root_volumes-Used disk [] found h = subst (All (Used disk)) (ok_injects [] found h) tt
root_volumes-Used disk ((kind, apps) ∷ roots) found h =
    let a = ok_of_bind (app_volumes disk kind (sorted_items apps)) _ h in
    let b = ok_of_bind (root_volumes disk roots) _ a.2 in
    subst (All (Used disk)) (ok_injects _ found b.2) (
      append_all (Used disk) _ _ (app_volumes-Used disk kind (sorted_items apps) a.0 a.1)
        (root_volumes-Used disk roots b.0 b.1))

orphan_lem :
    (disk : Disk) (app name : Text) (kind : VolumeKind)
    → is_orphaned (use_of disk app name kind) ≡ true
    → (spec : AppSpec) × (disk.loaded_spec app ≡ some spec)
      × Undeclared kind (get spec.volumes name)
unfolding use_of
orphan_lem disk app name kind h = by_spec (disk.loaded_spec app) refl h
  where
    undeclared :
        (running : Bool) (o : Option AppVolume)
        → is_orphaned (declared_use running kind o) ≡ true
        → Undeclared kind o
    undeclared running none n = tt
    undeclared running (some declared) n =
        elim (Bool-cases (kind_code declared.kind == kind_code kind)) [
          | inl same ↦
              let k : is_orphaned (if running then in_use else idle) ≡ true = rw same at n in
              elim (Bool-cases running) [
                | inl a ↦ let c : false ≡ true = rw a at k in cc c
                | inr b ↦ let c : false ≡ true = rw b at k in cc c
              ]
          | inr other ↦ other
        ]

    by_spec :
        (o : Option AppSpec)
        → disk.loaded_spec app ≡ o
        → is_orphaned (elim o [
          | none ↦ if disk.is_loaded app then unknown else unloaded
          | some spec ↦ declared_use (disk.is_running app) kind (get spec.volumes name)
        ])
          ≡ true
        → (spec : AppSpec) × (disk.loaded_spec app ≡ some spec)
          × Undeclared kind (get spec.volumes name)
    by_spec none same n = elim (Bool-cases (disk.is_loaded app)) [
      | inl a ↦ let c : false ≡ true = rw a at n in cc c
      | inr b ↦ let c : false ≡ true = rw b at n in cc c
    ]
    by_spec (some spec) same n =
        (spec, same, undeclared (disk.is_running app) (get spec.volumes name) n)

both_true : (a b : Bool) → (a && b) ≡ true → (a ≡ true) × (b ≡ true)
both_true true b h = (refl, h)
both_true false b h = cc h

kept_orphans :
    (disk : Disk) (app name : Text) (vs : List VolumeOnDisk)
    → All (Used disk) vs
    → All (IsOrphan disk app name) (keep (may_remove app name) vs)
kept_orphans disk app name [] h = tt
kept_orphans disk app name (v ∷ vs) h = elim (Bool-cases (may_remove app name v)) [
  | inl removes ↦ rw removes (orphan removes, kept_orphans disk app name vs h.1)
  | inr other ↦ rw other (kept_orphans disk app name vs h.1)
]
  where
    orphan : may_remove app name v ≡ true → IsOrphan disk app name v
    orphan removes =
        let a = both_true (v.owner == app) _ removes in
        let b = both_true (v.name == name) _ a.1 in
        let of_app = ==→eq v.owner app a.0 in
        let of_name = ==→eq v.name name b.0 in
        record {
          of_app = of_app;
          of_name = of_name;
          undeclared = orphan_lem disk app name v.kind (
              subst (λ (x : Text). is_orphaned (use_of disk x name v.kind) ≡ true) of_app
                (subst (λ (x : Text). is_orphaned (use_of disk v.owner x v.kind) ≡ true) of_name
                  (subst (λ (u : VolumeUse). is_orphaned u ≡ true) h.0 b.1)));
        }

-- What remove_orphaned_volume deletes is orphaned: the app is loaded, its manifest parses, and the
-- manifest has no volume of that name and kind. A volume of an app that is not loaded is never deleted.
pub remove_orphaned_volume_lem :
    (disk : Disk) (app name : Text) (removed : List VolumeOnDisk)
    → remove_orphaned_volume disk app name ≡ ok removed
    → All (IsOrphan disk app name) removed
unfolding remove_orphaned_volume volumes_on_disk
remove_orphaned_volume_lem disk app name removed h = of_disk (root_volumes disk disk.roots) refl h
  where
    kept : (vs : List VolumeOnDisk) → some_orphan vs ≡ ok removed → vs ≡ removed
    kept [] k = cc k
    kept (v ∷ vs) k = ok_injects _ removed k

    of_disk :
        (r : Result Error (List VolumeOnDisk))
        → root_volumes disk disk.roots ≡ r
        → elim r [
          | err e ↦ err (bad_folder e)
          | ok found ↦ some_orphan (keep (may_remove app name) found)
        ]
          ≡ ok removed
        → All (IsOrphan disk app name) removed
    of_disk (err e) same k = cc k
    of_disk (ok found) same k =
        subst (All (IsOrphan disk app name)) (kept (keep (may_remove app name) found) k)
          (kept_orphans disk app name found (root_volumes-Used disk disk.roots found same))
