-- ===== src/Jobs/Runner/Stranded.antt =====
-- What `_run` of kelso/jobs/runner.py leaves behind where no context can be made: the factory of
-- kelso/daemon/server.py raises RuntimeError, or ValueError on a configuration that is not valid.
use kelso.Common.{
  ◌≡◌, refl, sym, ap, ◌∙◌, subst, arith, Bool, true, false, ◌&&◌, ◌||◌, Option, none, some, List,
  [], ◌∷◌, ◌==◌, eq_nat, eq_list, contains, contains-append, any, ==_refl,
}
use kelso.Common.Result.{ok, ok_of_bind}
use kelso.Common.Text.{Text}
use kelso.Common.Dict.{Dict, get, put, values}
use kelso.Common.Dict.Laws.{get-put, put-IsDict}
use kelso.Jobs.Runner.Trim.{trim-get}
use kelso.Jobs.Job.{Args, queued, JobType, Job, prepare, World, Raised, expected, start, work}
use kelso.Jobs.Runner.{
  JobRunner, new_runner, max_history, is_active, is_finished, settle, enqueue, submit, busy_with,
  submit_scheduled, crash, begin_run, finish_run,
}
use kelso.Jobs.Runner.Steps.{
  Step, submits, begins, ends, Steps, stay, next_step, Holds, Holds-other, Distinct, IsRunner,
  prepare-queued,
}
use kelso.Jobs.Runner.Kept.{
  not_both, begin_run_made, begin_run_raised, finish_run_idle, finish_run_at, Step-IsRunner,
  Steps-IsRunner, reached-IsRunner,
}

-- The job of `id` waits in the history, and nothing is there to run it.
record IsStranded (id : Text) (job : Job) (r : JobRunner) : Type 0 where
  there : get r.jobs id ≡ some job
  waits : job.state ≡ queued
  out : contains r.queue id ≡ false
  elsewhere : (i : Text) → r.active ≡ some i → (i == id) ≡ false

module _ (id : Text) (job : Job) where
  put-stranded :
      (jobs : Dict Text Job) (i : Text) (other : Job)
      → (i == id) ≡ false
      → get jobs id ≡ some job
      → get (put jobs i other) id ≡ some job
  put-stranded jobs i other ne h = get-put jobs i id other ∙ ground (arith, ne, h)

  enqueue-IsStranded :
      (r : JobRunner) (other : Job)
      → IsRunner r
      → get r.jobs other.id ≡ none
      → IsStranded id job r
      → IsStranded id job (enqueue other r)
  unfolding enqueue
  enqueue-IsStranded r other v new k =
      let ne =
        Holds-other r.jobs other.id id queued new
          (record { job = job; there = k.there; in_state = k.waits }) in
      record {
        there =
            trim-get max_history (put r.jobs other.id other) id job
              (put-IsDict r.jobs other.id other v.dict) (ap is_finished k.waits)
              (put-stranded r.jobs other.id other ne k.there);
        waits = k.waits;
        out = contains-append r.queue (other.id ∷ []) id ∙ ground (arith, k.out, ne);
        elsewhere = k.elsewhere;
      }

  submit-IsStranded :
      (r s : JobRunner) (job_type : Option JobType) (parse : Args → Option (Option Text)) (i : Text)
      (args : Args)
      → IsRunner r
      → get r.jobs i ≡ none
      → submit job_type parse i args r ≡ ok s
      → IsStranded id job r
      → IsStranded id job s
  unfolding submit
  submit-IsStranded r s none parse i args v new h k = cc
  submit-IsStranded r s (some job_type) parse i args v new h k =
      let made = ok_of_bind (prepare parse i job_type args) _ h in
      let e = prepare-queued parse i job_type args made.0 made.1 in
      subst (IsStranded id job) (cc made.2)
        (enqueue-IsStranded r made.0 v (ap (get r.jobs) e.0 ∙ new) k)

  -- The worker takes another id from the queue.
  taken-IsStranded :
      (r : JobRunner) (i : Text) (ids : List Text) (other : Job) (active : Option Text)
      → r.queue ≡ i ∷ ids
      → ((j : Text) → active ≡ some j → i ≡ j)
      → IsStranded id job r
      → IsStranded id job (record r { queue = ids; jobs = put r.jobs i other; active = active })
  taken-IsStranded r i ids other active q now k =
      let both : ((i == id) || contains ids id) ≡ false =
        ap (λ (l : List Text). contains l id) (sym q) ∙ k.out in
      let ne : (i == id) ≡ false = ground (arith, both) in
      record {
        there = put-stranded r.jobs i other ne k.there;
        waits = k.waits;
        out = ground (arith, both);
        elsewhere = λ j a. ap (λ (l : Text). l == id) (sym (now j a)) ∙ ne;
      }

  begin_run-IsStranded :
      (w : World) (r : JobRunner) (i : Text) (ids : List Text)
      → IsRunner r
      → r.active ≡ none
      → r.queue ≡ i ∷ ids
      → IsStranded id job r
      → IsStranded id job (begin_run w i (record r { queue = ids }))
  begin_run-IsStranded w r i ids v idle q k = by_ctx w.ctx refl
    where
      held : Holds r.jobs i queued
      held = v.waiting i (ap (λ (l : List Text). contains l i) q ∙ ground (arith, ==_refl i))

      by_ctx :
          (c : Option Raised)
          → w.ctx ≡ c
          → IsStranded id job (begin_run w i (record r { queue = ids }))
      by_ctx (some kind) e =
          subst (IsStranded id job)
            (sym (begin_run_raised w i (record r { queue = ids }) held.job kind held.there e))
            (taken-IsStranded r i ids (crash kind held.job) r.active q
              (λ j a. absurd (not_both r.active j idle a)) k)
      by_ctx none e =
          subst (IsStranded id job)
            (sym (begin_run_made w i (record r { queue = ids }) held.job held.there e))
            (taken-IsStranded r i ids (start w held.job) (some i) q (λ j a. cc a) k)

  finish_run-IsStranded :
      (w : World) (r : JobRunner)
      → IsRunner r
      → IsStranded id job r
      → IsStranded id job (finish_run w r)
  finish_run-IsStranded w r v k = by_active r.active refl
    where
      by_active : (a : Option Text) → r.active ≡ a → IsStranded id job (finish_run w r)
      by_active none e = subst (IsStranded id job) (sym (finish_run_idle w r e)) k
      by_active (some i) e =
          let h = v.at i e in
          subst (IsStranded id job) (sym (finish_run_at w r i h.job e h.there)) (record {
            there = put-stranded r.jobs i (settle (work w h.job)) (k.elsewhere i e) k.there;
            waits = k.waits;
            out = k.out;
            elsewhere = λ j a. cc a;
          })

  Step-IsStranded :
      (r s : JobRunner) → Step r s → IsRunner r → IsStranded id job r → IsStranded id job s
  Step-IsStranded r s (submits job_type parse i args new h) v k =
      submit-IsStranded r s job_type parse i args v new h k
  Step-IsStranded r s (begins w i ids idle q e) v k =
      subst (IsStranded id job) e (begin_run-IsStranded w r i ids v idle q k)
  Step-IsStranded r s (ends w e) v k = subst (IsStranded id job) e (finish_run-IsStranded w r v k)

  Steps-IsStranded :
      (r s : JobRunner) → Steps r s → IsRunner r → IsStranded id job r → IsStranded id job s
  Steps-IsStranded r s stay v k = k
  Steps-IsStranded r s (next_step {s = m} more step) v k =
      Step-IsStranded m s step (Steps-IsRunner r m more v) (Steps-IsStranded r m more v k)

any-values :
    (p : Job → Bool) (jobs : Dict Text Job) (id : Text) (job : Job)
    → get jobs id ≡ some job
    → p job ≡ true
    → any p (values jobs) ≡ true
unfolding get values
any-values p [] id job h y = cc
any-values p ((i, w) ∷ jobs) id job h y = ground (arith, any-values p jobs id job, y, h)

stranded-busy :
    (id : Text) (job : Job) (s : JobRunner)
    → IsStranded id job s
    → busy_with job.job_type.name s ≡ true
unfolding busy_with
stranded-busy id job s k =
    any-values (λ (j : Job). (j.job_type.name == job.job_type.name) && is_active j.state) s.jobs id
      job k.there (rw (==_refl job.job_type.name, k.waits) refl)

busy_skips :
    (job_type : JobType) (parse : Option (Args → Option (Option Text))) (new : Text) (s : JobRunner)
    → busy_with job_type.name s ≡ true
    → submit_scheduled job_type parse new s ≡ s
unfolding submit_scheduled
busy_skips job_type parse new s h = rw h refl

left_behind :
    (r : JobRunner) (w : World) (id : Text) (ids : List Text) (job : Job)
    → IsRunner r
    → get r.jobs id ≡ some job
    → job.state ≡ queued
    → r.active ≡ none
    → r.queue ≡ id ∷ ids
    → w.ctx ≡ some expected
    → IsStranded id job (begin_run w id (record r { queue = ids }))
unfolding crash
left_behind r w id ids job v h waits idle q raises =
    let distinct : Distinct (id ∷ ids) = subst Distinct q v.once in
    subst (IsStranded id job)
      (sym (begin_run_raised w id (record r { queue = ids }) job expected h raises))
      (record {
        there = get-put r.jobs id id job ∙ rw (==_refl id) refl;
        waits = waits;
        out = distinct.0;
        elsewhere = λ j a. absurd (not_both r.active j idle a);
      })

-- Where the worker takes a job and the context cannot be made, for a ValueError or a RuntimeError,
-- the job stays in the history as queued whatever steps follow, although it is in no queue. From
-- then on no scheduled job of its verb is submitted.
pub run_strands :
    (r s : JobRunner) (w : World) (id : Text) (ids : List Text)
    → Steps new_runner r
    → r.active ≡ none
    → r.queue ≡ id ∷ ids
    → w.ctx ≡ some expected
    → Steps (begin_run w id (record r { queue = ids })) s
    → (job : Job) × (get s.jobs id ≡ some job)
      × (job.state ≡ queued)
      × (contains s.queue id ≡ false)
      × ((parse : Option (Args → Option (Option Text))) (new : Text)
          → submit_scheduled job.job_type parse new s ≡ s)
run_strands r s w id ids reached idle q raises more =
    let v = reached-IsRunner r reached in
    let held =
      v.waiting id (ap (λ (l : List Text). contains l id) q ∙ ground (arith, ==_refl id)) in
    let t : JobRunner = begin_run w id (record r { queue = ids }) in
    let step : Step r t = begins w id ids idle q refl in
    let left : IsStranded id held.job t =
      left_behind r w id ids held.job v held.there held.in_state idle q raises in
    let k = Steps-IsStranded id held.job t s more (Step-IsRunner r t step v) left in
    (
      held.job,
      k.there,
      k.waits,
      k.out,
      λ parse new. busy_skips held.job.job_type parse new s (stranded-busy id held.job s k),
    )
