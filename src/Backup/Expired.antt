-- ===== src/Backup/Expired.antt =====
-- `expired` of kelso/lib/backup.py, with the keep policy of kelso/lib/config.py.
use kelso.Common.{
  ℕ, Bool, true, false, not, Option, List, [], ◌∷◌, ◌++◌, map, ◌==◌, eq_nat, eq_list, contains,
  length, take, keep,
}
use kelso.Common.Text.{Text, codes, text_le}
use kelso.Common.Dict.{Dict}
use kelso.Common.Insertion.{sort_by}

pub record Backup : Type 0 where
  pub app : Option Text
  pub run : Text
  pub time : Text
  pub reason : Text
  pub version : Text
  pub kelso_id : Text
  pub snapshots : Dict Text Text
  pub size : ℕ

pub record BackupKeep : Type 0 where
  pub daily : ℕ
  pub weekly : ℕ
  pub monthly : ℕ
  pub manual : ℕ

-- What strftime makes of a time: the name of its day, of its week and of its month.
pub record Periods : Type 0 where
  pub day : Text → Text
  pub week : Text → Text
  pub month : Text → Text

-- sorted(..., key=lambda b: b.run, reverse=True), which keeps the order of equal runs
unfoldable pub is_newer : Backup → Backup → Bool
unfolding text_le
is_newer b x = text_le x.run b.run

unfoldable pub newest_first : List Backup → List Backup
unfolding is_newer sort_by
newest_first backups = sort_by is_newer backups

abbrev pub of_reason : Text → List Backup → List Backup
of_reason reason = keep (λ (b : Backup). b.reason == reason)

-- The runs that the loop over one period keeps, where `seen` are the periods seen.
unfoldable pub period_runs : (Backup → Text) → ℕ → List Text → List Backup → List Text
period_runs bucket count seen [] = []
period_runs bucket count seen (b ∷ bs) = elim (contains seen (bucket b)) [
  | true ↦ period_runs bucket count seen bs
  | false ↦ elim (length seen == count) [
    | true ↦ []
    | false ↦ b.run ∷ period_runs bucket count (seen ++ bucket b ∷ []) bs
  ]
]

abbrev pub runs : List Backup → List Text
runs = map (λ (b : Backup). b.run)

-- The runs that `expired` keeps.
unfoldable pub kept_runs : Periods → BackupKeep → List Backup → List Text
unfolding period_runs
kept_runs p policy newest =
    let scheduled = of_reason (codes "scheduled") newest in
    period_runs (λ (b : Backup). p.day b.time) policy.daily [] scheduled
    ++ (period_runs (λ (b : Backup). p.week b.time) policy.weekly [] scheduled
        ++ (period_runs (λ (b : Backup). p.month b.time) policy.monthly [] scheduled
            ++ (runs (take policy.manual (of_reason (codes "manual") newest))
                ++ (runs (take 1 (of_reason (codes "update") newest))
                    ++ runs (take 1 (of_reason (codes "pre-restore") newest))))))

unfoldable pub expired : Periods → BackupKeep → List Backup → List Backup
unfolding kept_runs newest_first
expired p policy backups =
    let kept = kept_runs p policy (newest_first backups) in
    keep (λ (b : Backup). not (contains kept b.run)) backups
