-- ===== src/Jobs/Runner/Pending.antt =====
-- run_pending of kelso/jobs/runner.py, for a runner with no worker thread.
use kelso.Common.{
  ◌≡◌, refl, sym, ap, ◌∙◌, subst, arith, true, false, Option, none, some, List, [], ◌∷◌, ◌==◌,
  eq_nat, eq_list, contains, length, Bool-cases, inl, inr, ==_refl, ==→eq,
}
use kelso.Common.Result.{ok}
use kelso.Common.Text.{Text}
use kelso.Common.Dict.{Dict, get, put}
use kelso.Common.Dict.Laws.{get-put}
use kelso.Jobs.Job.{queued, Job, World, Raised, start, work, close, execute_quiet, execute_recorded}
use kelso.Jobs.Runner.{
  JobRunner, new_runner, is_finished, crash, settle, begin_run, finish_run, run, run_queue,
  run_pending,
}
use kelso.Jobs.Runner.Steps.{Step, begins, ends, Steps, Holds, Distinct, IsRunner}
use kelso.Jobs.Runner.Kept.{
  begin_run_made, begin_run_raised, finish_run_idle, finish_run_at, Step-IsRunner, reached-IsRunner,
}

-- A run ends, whatever its work comes to.
settle-finished : (w : World) (job : Job) → is_finished (settle (work w job)).state ≡ true
unfolding settle work execute_quiet execute_recorded close crash
settle-finished w job = ground arith

-- The job of `id` is held and has ended.
record HasEnded (jobs : Dict Text Job) (id : Text) : Type 0 where
  job : Job
  there : get jobs id ≡ some job
  ended : is_finished job.state ≡ true

run_made :
    (w : World) (id : Text) (r : JobRunner) (job : Job)
    → get r.jobs id ≡ some job
    → w.ctx ≡ none
    → run w id r ≡ record r {
      jobs = put (put r.jobs id (start w job)) id (settle (work w (start w job)));
      active = none;
    }
unfolding run
run_made w id r job h e =
    ap (finish_run w) (begin_run_made w id r job h e)
    ∙ finish_run_at w (record r { jobs = put r.jobs id (start w job); active = some id }) id
        (start w job) refl (get-put r.jobs id id (start w job) ∙ rw (==_refl id) refl)

run_raised :
    (w : World) (id : Text) (r : JobRunner) (job : Job) (kind : Raised)
    → get r.jobs id ≡ some job
    → w.ctx ≡ some kind
    → r.active ≡ none
    → run w id r ≡ record r { jobs = put r.jobs id (crash kind job) }
unfolding run
run_raised w id r job kind h e idle =
    ap (finish_run w) (begin_run_raised w id r job kind h e)
    ∙ finish_run_idle w (record r { jobs = put r.jobs id (crash kind job) }) idle

-- What a run of the job of `id` leaves.
record AfterRun (w : World) (id : Text) (r s : JobRunner) : Type 0 where
  idle : s.active ≡ none
  same_queue : s.queue ≡ r.queue
  others : (other : Text) → (id == other) ≡ false → get s.jobs other ≡ get r.jobs other
  ended : w.ctx ≡ none → HasEnded s.jobs id

run-AfterRun :
    (w : World) (id : Text) (r : JobRunner) (job : Job)
    → get r.jobs id ≡ some job
    → r.active ≡ none
    → AfterRun w id r (run w id r)
run-AfterRun w id r job h idle = by_ctx w.ctx refl
  where
    by_ctx : (c : Option Raised) → w.ctx ≡ c → AfterRun w id r (run w id r)
    by_ctx (some kind) e =
        subst (AfterRun w id r) (sym (run_raised w id r job kind h e idle)) (record {
          idle = idle;
          same_queue = refl;
          others = λ other ne. get-put r.jobs id other (crash kind job) ∙ rw ne refl;
          ended = λ n. cc (n, e);
        })
    by_ctx none e =
        let last : Job = settle (work w (start w job)) in
        subst (AfterRun w id r) (sym (run_made w id r job h e)) (record {
          idle = refl;
          same_queue = refl;
          others = λ other ne.
              get-put (put r.jobs id (start w job)) id other last
              ∙ (rw ne (get-put r.jobs id other (start w job) ∙ rw ne refl));
          ended = λ n. record {
            job = last;
            there = get-put (put r.jobs id (start w job)) id id last ∙ rw (==_refl id) refl;
            ended = settle-finished w (start w job);
          };
        })

-- A runner whose worker is at no job, with this queue.
record IsIdle (ids : List Text) (r : JobRunner) : Type 0 where
  valid : IsRunner r
  idle : r.active ≡ none
  queue_is : r.queue ≡ ids

first_held :
    (id : Text) (ids : List Text) (r : JobRunner) → IsIdle (id ∷ ids) r → Holds r.jobs id queued
first_held id ids r k =
    k.valid.waiting id
      (ap (λ (l : List Text). contains l id) k.queue_is ∙ ground (arith, ==_refl id))

first_once :
    (id : Text) (ids : List Text) (r : JobRunner) → IsIdle (id ∷ ids) r → contains ids id ≡ false
first_once id ids r k = let d : Distinct (id ∷ ids) = subst Distinct k.queue_is k.valid.once in d.0

-- One round of the loop: the first id leaves the queue, and its job is run.
round_AfterRun :
    (w : World) (id : Text) (ids : List Text) (r : JobRunner)
    → IsIdle (id ∷ ids) r
    → AfterRun w id (record r { queue = ids }) (run w id (record r { queue = ids }))
round_AfterRun w id ids r k =
    let h = first_held id ids r k in
    run-AfterRun w id (record r { queue = ids }) h.job h.there k.idle

round-IsIdle :
    (w : World) (id : Text) (ids : List Text) (r : JobRunner)
    → IsIdle (id ∷ ids) r
    → IsIdle ids (run w id (record r { queue = ids }))
unfolding run
round-IsIdle w id ids r k =
    let a : AfterRun w id (record r { queue = ids }) (run w id (record r { queue = ids })) =
      round_AfterRun w id ids r k in
    let b : JobRunner = begin_run w id (record r { queue = ids }) in
    let one : Step r b = begins w id ids k.idle k.queue_is refl in
    let two : Step b (finish_run w b) = ends w refl in
    record {
      valid = Step-IsRunner b (finish_run w b) two (Step-IsRunner r b one k.valid);
      idle = a.idle;
      queue_is = a.same_queue;
    }

-- The entries of ids that are not in the queue stay.
run_queue_others :
    (worlds : Text → World) (ids : List Text) (r : JobRunner) (other : Text)
    → IsIdle ids r
    → contains ids other ≡ false
    → get (run_queue worlds ids r).jobs other ≡ get r.jobs other
unfolding run_queue
run_queue_others worlds [] r other k h = refl
run_queue_others worlds (id ∷ ids) r other k h =
    run_queue_others worlds ids (run (worlds id) id (record r { queue = ids })) other
      (round-IsIdle (worlds id) id ids r k) (ground (arith, h))
    ∙ (round_AfterRun (worlds id) id ids r k).others other (ground (arith, h))

run_queue_ended :
    (worlds : Text → World) (ids : List Text) (r : JobRunner) (id : Text)
    → IsIdle ids r
    → contains ids id ≡ true
    → (worlds id).ctx ≡ none
    → HasEnded (run_queue worlds ids r).jobs id
unfolding run_queue
run_queue_ended worlds [] r id k h c = cc h
run_queue_ended worlds (i ∷ ids) r id k h c =
    let next : IsIdle ids (run (worlds i) i (record r { queue = ids })) =
      round-IsIdle (worlds i) i ids r k in
    elim (Bool-cases (i == id)) [
      | inl same ↦
          let e : i ≡ id = ==→eq i id same in
          let a =
            (round_AfterRun (worlds i) i ids r k).ended (ap (λ (j : Text). (worlds j).ctx) e ∙ c) in
          let out : contains ids id ≡ false = ap (contains ids) (sym e) ∙ first_once i ids r k in
          record {
            job = a.job;
            there =
                run_queue_others worlds ids (run (worlds i) i (record r { queue = ids })) id next
                  out
                ∙ (ap (get (run (worlds i) i (record r { queue = ids })).jobs) (sym e) ∙ a.there);
            ended = a.ended;
          }
      | inr other ↦
          run_queue_ended worlds ids (run (worlds i) i (record r { queue = ids })) id next
            (ground (arith, h, other)) c
    ]

run_queue_emptied :
    (worlds : Text → World) (ids : List Text) (r : JobRunner) → (run_queue worlds ids r).queue ≡ []
unfolding run_queue
run_queue_emptied worlds [] r = refl
run_queue_emptied worlds (id ∷ ids) r =
    run_queue_emptied worlds ids (run (worlds id) id (record r { queue = ids }))

-- Without a worker thread, and reached by steps, a runner that is at no job comes to the end of
-- its queue: it gives the number of the jobs that were queued, the queue is empty, and each of
-- these jobs whose context could be made is done or failed.
pub run_pending_lem :
    (worlds : Text → World) (r : JobRunner)
    → Steps new_runner r
    → r.active ≡ none
    → r.worker ≡ false
    → (s : JobRunner) × (run_pending worlds r ≡ ok (s, length r.queue))
      × (s.queue ≡ [])
      × ((id : Text)
          → contains r.queue id ≡ true
          → (worlds id).ctx ≡ none
          → (job : Job) × (get s.jobs id ≡ some job) × (is_finished job.state ≡ true))
unfolding run_pending
run_pending_lem worlds r reached idle alone =
    let k : IsIdle r.queue r = record {
      valid = reached-IsRunner r reached;
      idle = idle;
      queue_is = refl;
    } in
    (
      run_queue worlds r.queue r,
      ground (arith, alone),
      run_queue_emptied worlds r.queue r,
      λ id h c. let e = run_queue_ended worlds r.queue r id k h c in (e.job, e.there, e.ended),
    )
