-- ===== src/Backup/Newest.antt =====
-- What `expired` of kelso/lib/backup.py keeps of each day, week and month.
use kelso.Common.{
  ℕ, zero, suc, ◌-◌, ◌≤◌, true, false, not, List, [], ◌∷◌, ◌++◌, ◌==◌, eq_nat, eq_list, contains,
  length, take, keep, ◌≡◌, refl, sym, ap, ◌∙◌, arith, Bool-cases, inl, inr, contains-append, ==→eq,
  length-append,
}
use mathlib.Core.List.{Perm}
use kelso.Common.Insertion.{InOrder, sort_by-InOrder, sort_by-Perm}
use kelso.Common.Text.{Text, codes, text_le}
use kelso.Common.Text.Laws.{text_le_other, text_le_across}
use kelso.Backup.Expired.{
  Backup, BackupKeep, Periods, newest_first, is_newer, of_reason, period_runs, runs, kept_runs,
  expired,
}

module _ (bucket : Backup → Text) where
  -- The first backup of each period in the list: the newest one, where the newest stands first.
  unfoldable pub firsts : List Backup → List Backup
  firsts [] = []
  firsts (b ∷ bs) = b ∷ keep (λ (c : Backup). not (bucket b == bucket c)) (firsts bs)

  abbrev unseen : List Text → List Backup → List Backup
  unseen seen = keep (λ (c : Backup). not (contains seen (bucket c)))

  unseen-again :
      (seen : List Text) (x : Text) (bs : List Backup)
      → contains seen x ≡ true
      → unseen seen (keep (λ (c : Backup). not (x == bucket c)) bs) ≡ unseen seen bs
  unseen-again seen x [] h = refl
  unseen-again seen x (b ∷ bs) h = elim (Bool-cases (x == bucket b)) [
    | inl same ↦
        let e : contains seen (bucket b) ≡ true =
          ap (contains seen) (sym (==→eq x (bucket b) same)) ∙ h in
        rw (same, e) (unseen-again seen x bs h)
    | inr other ↦ rw other (ground (arith, unseen-again seen x bs h))
  ]

  unseen-more :
      (seen : List Text) (x : Text) (bs : List Backup)
      → unseen seen (keep (λ (c : Backup). not (x == bucket c)) bs) ≡ unseen (seen ++ (x ∷ [])) bs
  unseen-more seen x [] = refl
  unseen-more seen x (b ∷ bs) =
      ground (arith, unseen-more seen x bs, contains-append seen (x ∷ []) (bucket b))

  period_runs-seen :
      (count : ℕ) (seen : List Text) (b : Backup) (bs : List Backup)
      → contains seen (bucket b) ≡ true
      → period_runs bucket count seen (b ∷ bs) ≡ period_runs bucket count seen bs
  unfolding period_runs
  period_runs-seen count seen b bs h = ground (arith, h)

  period_runs-full :
      (count : ℕ) (seen : List Text) (b : Backup) (bs : List Backup)
      → contains seen (bucket b) ≡ false
      → (length seen == count) ≡ true
      → period_runs bucket count seen (b ∷ bs) ≡ []
  unfolding period_runs
  period_runs-full count seen b bs h e = ground (arith, h, e)

  period_runs-new :
      (count : ℕ) (seen : List Text) (b : Backup) (bs : List Backup)
      → contains seen (bucket b) ≡ false
      → (length seen == count) ≡ false
      → period_runs bucket count seen (b ∷ bs)
        ≡ b.run ∷ period_runs bucket count (seen ++ (bucket b ∷ [])) bs
  unfolding period_runs
  period_runs-new count seen b bs h e = ground (arith, h, e)

  none_left :
      (count : ℕ) (seen : List Text) (n : ℕ) → period_runs bucket count seen [] ≡ runs (take n [])
  unfolding period_runs
  none_left count seen zero = refl
  none_left count seen (suc n) = refl

  period_runs_lem :
      (count : ℕ) (seen : List Text) (bs : List Backup)
      → length seen ≤ count
      → period_runs bucket count seen bs
        ≡ runs (take (count - length seen) (unseen seen (firsts bs)))
  unfolding firsts
  period_runs_lem count seen [] h = none_left count seen (count - length seen)
  period_runs_lem count seen (b ∷ bs) h = elim (Bool-cases (contains seen (bucket b))) [
    | inl old ↦
        rw (period_runs-seen count seen b bs old, old, unseen-again seen (bucket b) (firsts bs) old)
          (period_runs_lem count seen bs h)
    | inr new ↦ elim (Bool-cases (length seen == count)) [
      | inl full ↦
          let e : count - length seen ≡ 0 = ground (arith, full) in
          rw (period_runs-full count seen b bs new full, e) refl
      | inr room ↦
          let e : count - length seen ≡ suc (count - length (seen ++ (bucket b ∷ []))) =
            ground (arith, room, h, length-append seen (bucket b ∷ [])) in
          rw
            (
              period_runs-new count seen b bs new room,
              new,
              e,
              unseen-more seen (bucket b) (firsts bs),
            )
            (ap (λ (l : List Text). b.run ∷ l)
              (period_runs_lem count (seen ++ (bucket b ∷ [])) bs
                (ground (arith, room, h, length-append seen (bucket b ∷ [])))))
    ]
  ]

  unseen_all : (bs : List Backup) → unseen [] bs ≡ bs
  unseen_all [] = refl
  unseen_all (b ∷ bs) = ap (λ (l : List Backup). b ∷ l) (unseen_all bs)

  -- From the start, the loop keeps the newest backup of each of the last `count` periods.
  period_runs-firsts :
      (count : ℕ) (bs : List Backup)
      → period_runs bucket count [] bs ≡ runs (take count (firsts bs))
  period_runs-firsts count bs =
      let e : count - 0 ≡ count = omega arith in
      period_runs_lem count [] bs (omega arith)
      ∙ (ap (λ (n : ℕ). runs (take n (unseen [] (firsts bs)))) e
          ∙ ap (λ (l : List Backup). runs (take count l)) (unseen_all (firsts bs)))

-- A backup that the policy is to keep: among the newest of their days, weeks or months if it is
-- scheduled, and among the newest of its reason otherwise.
unfoldable pub wanted : Periods → BackupKeep → List Backup → List Backup
unfolding firsts
wanted p policy newest =
    let scheduled = of_reason (codes "scheduled") newest in
    take policy.daily (firsts (λ (b : Backup). p.day b.time) scheduled)
    ++ (take policy.weekly (firsts (λ (b : Backup). p.week b.time) scheduled)
        ++ (take policy.monthly (firsts (λ (b : Backup). p.month b.time) scheduled)
            ++ (take policy.manual (of_reason (codes "manual") newest)
                ++ (take 1 (of_reason (codes "update") newest)
                    ++ take 1 (of_reason (codes "pre-restore") newest)))))

runs-append : (x y : List Backup) → runs (x ++ y) ≡ runs x ++ runs y
runs-append [] y = refl
runs-append (b ∷ x) y = ap (λ (l : List Text). b.run ∷ l) (runs-append x y)

runs_of_both :
    (a b : List Text) (x y : List Backup) → a ≡ runs x → b ≡ runs y → a ++ b ≡ runs (x ++ y)
runs_of_both a b x y e f =
    ap (λ (l : List Text). l ++ b) e
    ∙ (ap (λ (l : List Text). runs x ++ l) f ∙ sym (runs-append x y))

kept_runs-wanted :
    (p : Periods) (policy : BackupKeep) (newest : List Backup)
    → kept_runs p policy newest ≡ runs (wanted p policy newest)
unfolding kept_runs wanted
kept_runs-wanted p policy newest =
    let scheduled = of_reason (codes "scheduled") newest in
    runs_of_both _ _ _ _ (period_runs-firsts (λ (b : Backup). p.day b.time) policy.daily scheduled)
      (runs_of_both _ _ _ _
        (period_runs-firsts (λ (b : Backup). p.week b.time) policy.weekly scheduled)
        (runs_of_both _ _ _ _
          (period_runs-firsts (λ (b : Backup). p.month b.time) policy.monthly scheduled)
          (runs_of_both _ _ (take policy.manual (of_reason (codes "manual") newest)) _ refl (
            runs_of_both _ _ (take 1 (of_reason (codes "update") newest))
              (take 1 (of_reason (codes "pre-restore") newest)) refl refl))))

-- `b` is no newer than `a`
abbrev pub IsNewest : Backup → Backup → Type 0
IsNewest a b = text_le b.run a.run ≡ true

-- Let the backups stand newest first, by their runs. Those that have expired are, in the order given,
-- those whose run is that of no backup that is wanted. Wanted are, of the scheduled ones, the first
-- of each of the first days, weeks and months that have one, as many as the policy says, and the
-- first ones of the other reasons: as many manual ones as the policy says, one before an update and
-- one before a restore.
pub expired_lem :
    (p : Periods) (policy : BackupKeep) (backups : List Backup)
    → (newest : List Backup) × InOrder IsNewest newest
      × Perm newest backups
      × (expired p policy backups
          ≡ keep (λ (b : Backup). not (contains (runs (wanted p policy newest)) b.run)) backups)
unfolding expired newest_first is_newer
expired_lem p policy backups = (
  newest_first backups,
  sort_by-InOrder IsNewest is_newer (λ a b h. h) (λ a b h. text_le_other b.run a.run h)
      (λ a b c h k. text_le_across c.run b.run a.run k h) backups,
  sort_by-Perm is_newer backups,
  rw (kept_runs-wanted p policy (newest_first backups)) refl,
)
