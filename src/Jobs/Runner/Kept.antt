-- ===== src/Jobs/Runner/Kept.antt =====
-- What the steps of JobRunner in kelso/jobs/runner.py keep: an id in the queue is that of a queued job.
use kelso.Common.{
  ◌≡◌, refl, sym, ap, ◌∙◌, subst, arith, true, false, Option, none, some, List, [], ◌∷◌, ◌++◌, ◌==◌,
  eq_nat, eq_list, contains, contains-append, Bool-cases, inl, inr, ◌⊎◌, ==_refl, ==_sym, ==→eq,
}
use kelso.Common.Result.{ok, ok_of_bind}
use kelso.Common.Text.{Text}
use kelso.Common.Dict.{Dict, get, put}
use kelso.Common.Dict.Laws.{IsDict, put-IsDict}
use kelso.Jobs.Job.{Args, State, queued, running, JobType, Job, prepare, World, Raised, start, work}
use kelso.Jobs.Runner.{
  JobRunner, new_runner, max_history, is_finished, trim, enqueue, submit, crash, begin_run, settle,
  finish_run,
}
use kelso.Jobs.Runner.Trim.{trim-IsDict}
use kelso.Jobs.Runner.Steps.{
  Step, submits, begins, ends, Steps, stay, next_step, Holds, Distinct, IsRunner,
  new_runner-IsRunner, prepare-queued, Holds-put, Holds-here, Holds-trim, Holds-other,
}

Distinct-append :
    (ids : List Text) (id : Text)
    → contains ids id ≡ false
    → Distinct ids
    → Distinct (ids ++ (id ∷ []))
Distinct-append [] id new d = (refl, tt)
Distinct-append (i ∷ ids) id new d = (
  contains-append ids (id ∷ []) i ∙ ground (arith, new, d.0, ==_sym i id),
  Distinct-append ids id (ground (arith, new)) d.1,
)

queue_new :
    (r : JobRunner) (id : Text) → IsRunner r → get r.jobs id ≡ none → contains r.queue id ≡ false
queue_new r id v new = elim (Bool-cases (contains r.queue id)) [
  | inr out ↦ out
  | inl held ↦ cc (new, (v.waiting id held).there)
]

enqueue-IsRunner :
    (r : JobRunner) (job : Job)
    → IsRunner r
    → get r.jobs job.id ≡ none
    → job.state ≡ queued
    → IsRunner (enqueue job r)
unfolding enqueue
enqueue-IsRunner r job v new waits = record {
  dict = trim-IsDict max_history (put r.jobs job.id job) added;
  waiting = λ id h. elim (waiting_there id h) [
    | inl old ↦ kept id queued refl (v.waiting id old)
    | inr same ↦
        subst (λ i. Holds (trim max_history (put r.jobs job.id job)) i queued) same
          (Holds-trim (put r.jobs job.id job) job.id queued added refl
            (subst (Holds (put r.jobs job.id job) job.id) waits (Holds-here r.jobs job.id job)))
  ];
  once = Distinct-append r.queue job.id (queue_new r job.id v new) v.once;
  at = λ id h. kept id running refl (v.at id h);
}
  where
    added : IsDict (put r.jobs job.id job)
    added = put-IsDict r.jobs job.id job v.dict

    kept :
        (id : Text) (state : State)
        → is_finished state ≡ false
        → Holds r.jobs id state
        → Holds (trim max_history (put r.jobs job.id job)) id state
    kept id state busy h =
        Holds-trim (put r.jobs job.id job) id state added busy
          (Holds-put r.jobs job.id job id state (Holds-other r.jobs job.id id state new h) h)

    waiting_there :
        (id : Text)
        → contains (r.queue ++ (job.id ∷ [])) id ≡ true
        → (contains r.queue id ≡ true) ⊎ (job.id ≡ id)
    waiting_there id h = elim (Bool-cases (contains r.queue id)) [
      | inl old ↦ inl old
      | inr not_there ↦
          inr (
            ==→eq job.id id
              (ground (arith, h, not_there, contains-append r.queue (job.id ∷ []) id)))
    ]

submit-IsRunner :
    (r s : JobRunner) (job_type : Option JobType) (parse : Args → Option (Option Text)) (id : Text)
    (args : Args)
    → IsRunner r
    → get r.jobs id ≡ none
    → submit job_type parse id args r ≡ ok s
    → IsRunner s
unfolding submit
submit-IsRunner r s none parse id args v new h = cc
submit-IsRunner r s (some job_type) parse id args v new h =
    let made = ok_of_bind (prepare parse id job_type args) _ h in
    let e = prepare-queued parse id job_type args made.0 made.1 in
    subst IsRunner (cc made.2) (enqueue-IsRunner r made.0 v (ap (get r.jobs) e.0 ∙ new) e.1)

-- Another id in the queue than its first one.
behind-first :
    (ids : List Text) (id other : Text)
    → contains ids id ≡ false
    → contains ids other ≡ true
    → (id == other) ≡ false
behind-first ids id other out there = elim (Bool-cases (id == other)) [
  | inr ne ↦ ne
  | inl same ↦ let e : id ≡ other = ==→eq id other same in cc (ap (contains ids) e, out, there)
]

-- The worker takes the first id, and leaves `job` there.
taken-IsRunner :
    (r : JobRunner) (id : Text) (ids : List Text) (job : Job) (active : Option Text)
    → IsRunner r
    → r.queue ≡ id ∷ ids
    → ((i : Text) → active ≡ some i → (id ≡ i) × (job.state ≡ running))
    → IsRunner (record r { queue = ids; jobs = put r.jobs id job; active = active })
taken-IsRunner r id ids job active v q now =
    let distinct : Distinct (id ∷ ids) = subst Distinct q v.once in
    record {
      dict = put-IsDict r.jobs id job v.dict;
      waiting = λ i h.
          Holds-put r.jobs id job i queued (behind-first ids id i distinct.0 h)
            (v.waiting i (ap (λ (l : List Text). contains l i) q ∙ ground (arith, h)));
      once = distinct.1;
      at = λ i h.
          let n = now i h in
          subst (λ k. Holds (put r.jobs id job) k running) n.0
            (subst (Holds (put r.jobs id job) id) n.1 (Holds-here r.jobs id job));
    }

pub begin_run_made :
    (w : World) (id : Text) (r : JobRunner) (job : Job)
    → get r.jobs id ≡ some job
    → w.ctx ≡ none
    → begin_run w id r ≡ record r { jobs = put r.jobs id (start w job); active = some id }
unfolding begin_run
begin_run_made w id r job h e = ground (arith, e, h)

pub begin_run_raised :
    (w : World) (id : Text) (r : JobRunner) (job : Job) (kind : Raised)
    → get r.jobs id ≡ some job
    → w.ctx ≡ some kind
    → begin_run w id r ≡ record r { jobs = put r.jobs id (crash kind job) }
unfolding begin_run
begin_run_raised w id r job kind h e = ground (arith, e, h)

pub not_both : (a : Option Text) (i : Text) → a ≡ none → a ≡ some i → ⊥
not_both a i e f = cc (e, f)

start-running : (w : World) (job : Job) → (start w job).state ≡ running
unfolding start
start-running w job = refl

begin_run-IsRunner :
    (w : World) (r : JobRunner) (id : Text) (ids : List Text)
    → IsRunner r
    → r.active ≡ none
    → r.queue ≡ id ∷ ids
    → IsRunner (begin_run w id (record r { queue = ids }))
begin_run-IsRunner w r id ids v idle q = by_ctx w.ctx refl
  where
    held : Holds r.jobs id queued
    held = v.waiting id (ap (λ (l : List Text). contains l id) q ∙ ground (arith, ==_refl id))

    by_ctx : (c : Option Raised) → w.ctx ≡ c → IsRunner (begin_run w id (record r { queue = ids }))
    by_ctx (some kind) e =
        subst IsRunner
          (sym (begin_run_raised w id (record r { queue = ids }) held.job kind held.there e))
          (taken-IsRunner r id ids (crash kind held.job) r.active v q
            (λ i a. absurd (not_both r.active i idle a)))
    by_ctx none e =
        subst IsRunner (sym (begin_run_made w id (record r { queue = ids }) held.job held.there e))
          (taken-IsRunner r id ids (start w held.job) (some id) v q
            (λ i a. (cc a, start-running w held.job)))

pub finish_run_idle : (w : World) (r : JobRunner) → r.active ≡ none → finish_run w r ≡ r
unfolding finish_run
finish_run_idle w r e = ground (arith, e)

pub finish_run_at :
    (w : World) (r : JobRunner) (id : Text) (job : Job)
    → r.active ≡ some id
    → get r.jobs id ≡ some job
    → finish_run w r ≡ record r { jobs = put r.jobs id (settle (work w job)); active = none }
unfolding finish_run
finish_run_at w r id job e h = ground (arith, e, h)

-- A running job is not one that is queued.
apart :
    (jobs : Dict Text Job) (id other : Text)
    → Holds jobs id running
    → Holds jobs other queued
    → (id == other) ≡ false
apart jobs id other h q = elim (Bool-cases (id == other)) [
  | inr ne ↦ ne
  | inl same ↦
      let e : id ≡ other = ==→eq id other same in
      let one : some h.job ≡ some q.job = sym h.there ∙ (ap (get jobs) e ∙ q.there) in
      cc (one, h.in_state, q.in_state)
]

finish_run-IsRunner : (w : World) (r : JobRunner) → IsRunner r → IsRunner (finish_run w r)
finish_run-IsRunner w r v = by_active r.active refl
  where
    by_active : (a : Option Text) → r.active ≡ a → IsRunner (finish_run w r)
    by_active none e = subst IsRunner (sym (finish_run_idle w r e)) v
    by_active (some id) e =
        let h = v.at id e in
        subst IsRunner (sym (finish_run_at w r id h.job e h.there)) (record {
          dict = put-IsDict r.jobs id (settle (work w h.job)) v.dict;
          waiting = λ i q.
              Holds-put r.jobs id (settle (work w h.job)) i queued
                (apart r.jobs id i h (v.waiting i q)) (v.waiting i q);
          once = v.once;
          at = λ i a. cc a;
        })

pub Step-IsRunner : (r s : JobRunner) → Step r s → IsRunner r → IsRunner s
Step-IsRunner r s (submits job_type parse id args new h) v =
    submit-IsRunner r s job_type parse id args v new h
Step-IsRunner r s (begins w id ids idle q e) v =
    subst IsRunner e (begin_run-IsRunner w r id ids v idle q)
Step-IsRunner r s (ends w e) v = subst IsRunner e (finish_run-IsRunner w r v)

pub Steps-IsRunner : (r s : JobRunner) → Steps r s → IsRunner r → IsRunner s
Steps-IsRunner r s stay v = v
Steps-IsRunner r s (next_step {s = m} more step) v =
    Step-IsRunner m s step (Steps-IsRunner r m more v)

-- However submissions and the worker's steps follow each other from the empty runner: every id in
-- the queue stands there once and is that of a job in the history that is queued, so a trim never
-- drops it, and the job that the worker is at is in the history and running.
pub reached-IsRunner : (r : JobRunner) → Steps new_runner r → IsRunner r
reached-IsRunner r steps = Steps-IsRunner new_runner r steps new_runner-IsRunner
