-- ===== src/Backup/Listing.antt =====
-- The backups of a repository, and the forgetting of what has expired, of kelso/lib/backup.py.
use kelso.Common.{
  ℕ, ◌+◌, Bool, true, false, ◌&&◌, Option, none, some, List, [], ◌∷◌, ◌++◌, map, if◌then◌else◌,
  ◌==◌, eq_nat, eq_list, length, take, keep, ◌≡◌, refl, ◌∙◌, ap, sym, append_assoc, append-nil,
  ==→eq,
}
use kelso.Common.Result.{Result, ok, ◌>>=◌}
use kelso.Common.Text.{Text, codes, text_le}
use kelso.Common.Dict.{Dict, get, put, values}
use kelso.Common.Dict.Laws.{get-put}
use kelso.Common.Sort.{gather}
use kelso.Names.Defs.{Error, app_id}
use kelso.Backup.Expired.{Backup, BackupKeep, Periods, expired}

-- Snapshot of kelso/lib/restic.py
pub record Snapshot : Type 0 where
  pub id : Text
  pub time : Text
  pub tags : Dict Text Text
  pub size : ℕ

-- tags.get(name, default)
unfoldable pub tag_or : Dict Text Text → Text → Text → Text
unfolding get
tag_or tags name default = elim (get tags name) [ none ↦ default | some value ↦ value ]

-- the key of a backup: its app and its run
abbrev Key : Type 0
Key = Text × Text

abbrev same_key : Key → Key → Bool
same_key (app, run) (other_app, other_run) = (app == other_app) && (run == other_run)

-- the backup that the first of its snapshots makes, with no snapshot in it
unfoldable pub new_backup : Text → Snapshot → Backup
unfolding tag_or
new_backup app snap = record {
  app = some app;
  run = tag_or snap.tags (codes "run") (take 8 snap.id);
  time = snap.time;
  reason = tag_or snap.tags (codes "reason") [];
  version = tag_or snap.tags (codes "version") [];
  kelso_id = tag_or snap.tags (codes "kelso_id") [];
  snapshots = [];
  size = 0;
}

-- the snapshot as a part of its backup
unfoldable pub add_snapshot : Snapshot → Backup → Backup
unfolding tag_or put
add_snapshot snap backup = record backup {
  snapshots = put backup.snapshots (tag_or snap.tags (codes "part") (codes "data")) snap.id;
  size = backup.size + snap.size;
}

-- found[key], made where it is not there
unfoldable pub place_snapshot : Key → Text → Snapshot → List (Key × Backup) → List (Key × Backup)
unfolding new_backup add_snapshot
place_snapshot key app snap [] = (key, add_snapshot snap (new_backup app snap)) ∷ []
place_snapshot key app snap ((k, backup) ∷ found) =
    let rest = place_snapshot key app snap found in
    if same_key k key then (k, add_snapshot snap backup) ∷ found else (k, backup) ∷ rest

-- the loop of `backups`
unfoldable pub group_snapshots :
    List (Key × Backup) → List Snapshot → Result Error (List (Key × Backup))
unfolding place_snapshot tag_or get app_id
group_snapshots found [] = ok found
group_snapshots found (snap ∷ snaps) = elim (get snap.tags (codes "app")) [
  | none ↦ group_snapshots found snaps
  | some app ↦ app_id app >>= λ id.
      group_snapshots (place_snapshot (app, tag_or snap.tags (codes "run") snap.id) id snap found)
        snaps
]

-- sorted(..., key=lambda b: b.run), which keeps the order of equal runs
unfoldable pub insert_oldest : Backup → List Backup → List Backup
unfolding text_le
insert_oldest b [] = b ∷ []
insert_oldest b (x ∷ xs) =
    let later = insert_oldest b xs in if text_le b.run x.run then b ∷ x ∷ xs else x ∷ later

unfoldable pub oldest_first : List Backup → List Backup
unfolding insert_oldest
oldest_first [] = []
oldest_first (b ∷ bs) = insert_oldest b (oldest_first bs)

-- backups, of the snapshots that restic lists
unfoldable pub backups : List Snapshot → Result Error (List Backup)
unfolding group_snapshots oldest_first
backups snaps = group_snapshots [] snaps >>= λ found.
    ok (oldest_first (map (λ (item : Key × Backup). item.1) found))

-- the Backup that stands for a snapshot of kelso's own state
unfoldable state_backup : Snapshot → Backup
unfolding tag_or
state_backup snap = record {
  app = none;
  run = tag_or snap.tags (codes "run") snap.id;
  time = snap.time;
  reason = tag_or snap.tags (codes "reason") [];
  version = [];
  kelso_id = tag_or snap.tags (codes "kelso_id") [];
  snapshots = (codes "state", snap.id) ∷ [];
  size = 0;
}

-- str(backup.app), and the empty text for kelso's state
abbrev owner_of : Backup → Text
owner_of backup = elim backup.app [ none ↦ [] | some app ↦ app ]

abbrev or_no_backups : Option (List Backup) → List Backup
or_no_backups none = []
or_no_backups (some owned) = owned

-- by_owner.setdefault(owner, []).append(backup)
unfoldable add_owned : Dict Text (List Backup) → Backup → Dict Text (List Backup)
unfolding get put
add_owned by_owner backup =
    put by_owner (owner_of backup) (or_no_backups (get by_owner (owner_of backup)) ++ backup ∷ [])

-- by_owner
unfoldable group_owners : Dict Text (List Backup) → List Backup → Dict Text (List Backup)
unfolding add_owned
group_owners by_owner [] = by_owner
group_owners by_owner (b ∷ bs) = group_owners (add_owned by_owner b) bs

-- the snapshots of what has expired of one owner
unfoldable owner_doomed : Periods → BackupKeep → Text × List Backup → List Text
unfolding expired gather values
owner_doomed p policy (owner, owned) =
    gather (λ (backup : Backup). values backup.snapshots) (expired p policy owned)

-- doomed
unfoldable doomed : Periods → BackupKeep → List Backup → List Snapshot → List Text
unfolding owner_doomed group_owners state_backup gather
doomed p policy of_apps of_state =
    gather (owner_doomed p policy) (group_owners [] (of_apps ++ map state_backup of_state))

pub data ForgetEvent : Type 0 where
  forgotten : List Text → ForgetEvent
  pruned : ForgetEvent

abbrev forget_events : Bool → List Text → List ForgetEvent
forget_events prune [] = []
forget_events true (id ∷ ids) = forgotten (id ∷ ids) ∷ (pruned ∷ [])
forget_events false (id ∷ ids) = forgotten (id ∷ ids) ∷ []

-- forget_expired: what restic is told, and the number that it returns
unfoldable pub forget_expired :
    Periods
    → BackupKeep
    → Bool
    → List Snapshot
    → List Snapshot
    → Result Error (List ForgetEvent × ℕ)
unfolding backups doomed
forget_expired p policy prune snaps of_state = backups snaps >>= λ of_apps.
    let ids = doomed p policy of_apps of_state in ok (forget_events prune ids, length ids)

-- delete
unfoldable delete_backup : Backup → List ForgetEvent
unfolding values
delete_backup backup = forgotten (values backup.snapshots) ∷ (pruned ∷ [])

owned_step :
    (same : Bool) (o old : Option (List Backup)) (b : Backup) (bs : List Backup)
    → (same ≡ true → o ≡ old)
    → or_no_backups (if same then some (or_no_backups o ++ b ∷ []) else old) ++ bs
      ≡ or_no_backups old ++ (if same then b ∷ bs else bs)
owned_step true o old b bs h = rw (h refl) (append_assoc (or_no_backups old) (b ∷ []) bs)
owned_step false o old b bs h = refl

-- Retention looks at each owner's backups, and only those, in their order: the list that it is given
-- for an owner is that of the owner's backups, where kelso's own state is an owner of its own.
group_owners_lem :
    (by_owner : Dict Text (List Backup)) (bs : List Backup) (owner : Text)
    → or_no_backups (get (group_owners by_owner bs) owner)
      ≡ or_no_backups (get by_owner owner) ++ keep (λ (b : Backup). owner_of b == owner) bs
unfolding group_owners add_owned
group_owners_lem by_owner [] owner = sym (append-nil (or_no_backups (get by_owner owner)))
group_owners_lem by_owner (b ∷ bs) owner =
    group_owners_lem (add_owned by_owner b) bs owner
    ∙ (ap (λ o. or_no_backups o ++ keep (λ (x : Backup). owner_of x == owner) bs)
          (get-put by_owner (owner_of b) owner
            (or_no_backups (get by_owner (owner_of b)) ++ b ∷ []))
        ∙ owned_step (owner_of b == owner) (get by_owner (owner_of b)) (get by_owner owner) b
            (keep (λ (x : Backup). owner_of x == owner) bs)
            (λ same. ap (get by_owner) (==→eq (owner_of b) owner same)))
