-- ===== src/Ticks/Due.antt =====
-- Which jobs a tick of kelso/lib/lifecycle/cron.py runs.
use kelso.Common.{
  Bool, true, false, not, ◌&&◌, leb, some, List, [], ◌∷◌, ◌++◌, if◌then◌else◌, eq_nat, eq_list,
  keep, ◌≡◌, refl, ap, ◌∙◌, sym, ◌≤◌, arith,
}
use mathlib.Core.List.{Perm}
use kelso.Common.Result.{Result, ok, ◌>>=◌, traverse}
use kelso.Common.Insertion.{InOrder, sort_by-InOrder, sort_by-keep, keep-InOrder}
use kelso.Common.Sort.{gather}
use kelso.Cron.Calendar.{DateTime, stamp}
use kelso.Ticks.Defs.{
  CronRun, TickInputs, TickEvent, Outcome, run_job, is_skipped, tick_loop, cron_runs, tick,
  app_runs, soonest_first, run_le, TickError,
}

-- the loop's own test
abbrev runs_now : DateTime → CronRun → Bool
runs_now now run = not (is_skipped now run)

-- whether a job is to run: its time has come, be it this very minute, and its unit is up
abbrev pub is_due : DateTime → CronRun → Bool
is_due now run = leb (stamp run.next_at) (stamp now) && run.runnable

-- `a` is due no later than `b`
abbrev pub IsSooner : CronRun → CronRun → Type 0
IsSooner a b = stamp a.next_at ≤ stamp b.next_at

loop_step :
    (skip : Bool) (events : List TickEvent) (run : CronRun) (rest : List TickEvent × List CronRun)
    → (if skip then rest else (events ++ rest.0, run ∷ rest.1)) ≡ (
      (if not skip then events ++ rest.0 else rest.0),
      (if not skip then run ∷ rest.1 else rest.1),
    )
loop_step true events run rest = refl
loop_step false events run rest = refl

gather_kept :
    {A B : Type 0} (f : A → List B) (p : Bool) (x : A) (xs : List A)
    → gather f (if p then x ∷ xs else xs) ≡ (if p then f x ++ gather f xs else gather f xs)
unfolding gather
gather_kept f true x xs = refl
gather_kept f false x xs = refl

loop_lem :
    (outcome : CronRun → Outcome) (now : DateTime) (runs : List CronRun)
    → tick_loop outcome now runs ≡ (
      gather (λ (run : CronRun). run_job run (outcome run)) (keep (runs_now now) runs),
      keep (runs_now now) runs,
    )
unfolding tick_loop gather
loop_lem outcome now [] = refl
loop_lem outcome now (run ∷ runs) =
    ap
      (λ rest.
        if is_skipped now run then rest else (run_job run (outcome run) ++ rest.0, run ∷ rest.1))
      (loop_lem outcome now runs)
    ∙ (loop_step (is_skipped now run) (run_job run (outcome run)) run _
        ∙ ap (λ (events : List TickEvent). (events, keep (runs_now now) (run ∷ runs)))
            (sym (
              gather_kept (λ (run : CronRun). run_job run (outcome run)) (runs_now now run) run
                (keep (runs_now now) runs))))

same_test :
    (now : DateTime) (runs : List CronRun) → keep (runs_now now) runs ≡ keep (is_due now) runs
unfolding is_skipped
same_test now [] = refl
same_test now (run ∷ runs) =
    let same : runs_now now run ≡ is_due now run = ground arith in
    ap (λ (b : Bool). if b then run ∷ keep (runs_now now) runs else keep (runs_now now) runs) same
    ∙ ap (λ (rest : List CronRun). if is_due now run then run ∷ rest else rest) (same_test now runs)

sorted-InOrder : (runs : List CronRun) → InOrder IsSooner (soonest_first runs)
unfolding soonest_first run_le
sorted-InOrder runs =
    sort_by-InOrder IsSooner run_le (λ a b h. ground (arith, h)) (λ a b h. ground (arith, h))
      (λ a b c h k. omega (arith, h, k)) runs

-- Let a tick hold the lock, and let `found` be the jobs of the apps that are loaded. The jobs that it
-- runs are those of them whose time has come and whose unit is up, each as often as it was found; they
-- are run soonest first, whatever becomes of the ones before, and returned. Every other job is left
-- alone.
pub tick_lem :
    (o : TickInputs) (outcome : CronRun → Outcome) (found : List (List CronRun))
    → traverse (app_runs o) o.observations ≡ ok found
    → (ran : List CronRun) × InOrder IsSooner ran
      × Perm ran (keep (is_due o.now) (gather (λ (rs : List CronRun). rs) found))
      × (tick o true outcome
          ≡ ok (some (gather (λ (run : CronRun). run_job run (outcome run)) ran, ran)))
unfolding tick cron_runs soonest_first
tick_lem o outcome found h =
    let all = gather (λ (rs : List CronRun). rs) found in
    (
      keep (is_due o.now) (soonest_first all),
      keep-InOrder IsSooner (is_due o.now) (soonest_first all) (sorted-InOrder all),
      sort_by-keep run_le (is_due o.now) all,
      ap
            (λ (r : Result TickError (List (List CronRun))).
              (r >>= λ runs. ok (soonest_first (gather (λ (rs : List CronRun). rs) runs)))
              >>= λ runs. ok (some (tick_loop outcome o.now runs)))
            h
          ∙ ap (λ x. ok (some x))
              (loop_lem outcome o.now (soonest_first all)
                ∙ ap
                    (λ (ran : List CronRun).
                      (gather (λ (run : CronRun). run_job run (outcome run)) ran, ran))
                    (same_test o.now (soonest_first all))),
    )
