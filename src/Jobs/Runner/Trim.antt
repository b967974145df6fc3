-- ===== src/Jobs/Runner/Trim.antt =====
-- `_trim` of kelso/jobs/runner.py drops the oldest finished jobs, as many as are over the budget.
use kelso.Common.{
  ℕ, zero, suc, ◌+◌, ◌-◌, ◌≤◌, ◌≡◌, refl, sym, ap, ◌∙◌, arith, Bool, true, false, ◌||◌, some, List,
  [], ◌∷◌, ◌++◌, if◌then◌else◌, ◌==◌, eq_nat, eq_list, leb, length, contains, Bool-cases, inl, inr,
  ==_refl, ==_sym, subst, contains-append, append_assoc,
}
use kelso.Common.Text.{Text}
use kelso.Common.Dict.{Dict, get, pop, keys}
use kelso.Common.Dict.Laws.{IsDict, pop-IsDict}
use kelso.Jobs.Job.{Job}
use kelso.Jobs.Runner.{is_finished, has_finished, trim_loop, trim}

-- The dict without its first `n` finished jobs, or without all of them where there are fewer.
unfoldable pub drop_finished : ℕ → Dict Text Job → Dict Text Job
drop_finished zero jobs = jobs
drop_finished (suc n) [] = []
drop_finished (suc n) ((id, job) ∷ jobs) =
    let less = drop_finished n jobs in
    let same = drop_finished (suc n) jobs in
    if is_finished job.state then less else (id, job) ∷ same

-- Reading and removing the first entry behind other keys.
get-behind :
    (kept : Dict Text Job) (id : Text) (job : Job) (rest : Dict Text Job)
    → contains (keys kept) id ≡ false
    → get (kept ++ ((id, job) ∷ rest)) id ≡ some job
unfolding get keys
get-behind [] id job rest h = rw (==_refl id) refl
get-behind ((i, w) ∷ kept) id job rest h = ground (arith, get-behind kept id job rest)

pop-behind :
    (kept : Dict Text Job) (id : Text) (job : Job) (rest : Dict Text Job)
    → contains (keys kept) id ≡ false
    → pop (kept ++ ((id, job) ∷ rest)) id ≡ kept ++ rest
unfolding pop keys
pop-behind [] id job rest h = rw (==_refl id) refl
pop-behind ((i, w) ∷ kept) id job rest h = ground (arith, pop-behind kept id job rest)

keys-append : (a b : Dict Text Job) → keys (a ++ b) ≡ keys a ++ keys b
unfolding keys
keys-append [] b = refl
keys-append ((i, w) ∷ a) b = ap (λ l. i ∷ l) (keys-append a b)

-- The keys kept so far are none of those to come.
IsDict-behind :
    (kept : Dict Text Job) (id : Text) (job : Job) (rest : Dict Text Job)
    → IsDict (kept ++ ((id, job) ∷ rest))
    → contains (keys kept) id ≡ false
unfolding keys
IsDict-behind [] id job rest h = refl
IsDict-behind ((i, w) ∷ kept) id job rest h =
    let others : (contains (keys kept) i || ((id == i) || contains (keys rest) i)) ≡ false =
      sym (contains-append (keys kept) (id ∷ keys rest) i)
      ∙ (ap (λ (l : List Text). contains l i) (sym (keys-append kept ((id, job) ∷ rest))) ∙ h.0) in
    ground (arith, others, ==_sym i id, IsDict-behind kept id job rest h.1)

IsDict-without :
    (kept : Dict Text Job) (id : Text) (job : Job) (rest : Dict Text Job)
    → IsDict (kept ++ ((id, job) ∷ rest))
    → IsDict (kept ++ rest)
IsDict-without kept id job rest h =
    subst IsDict (pop-behind kept id job rest (IsDict-behind kept id job rest h))
      (pop-IsDict (kept ++ ((id, job) ∷ rest)) id h)

drop_finished_nil : (n : ℕ) → drop_finished n [] ≡ []
unfolding drop_finished
drop_finished_nil zero = refl
drop_finished_nil (suc n) = refl

drop-ended :
    (n : ℕ) (id : Text) (job : Job) (rest : Dict Text Job)
    → is_finished job.state ≡ true
    → drop_finished (suc n) ((id, job) ∷ rest) ≡ drop_finished n rest
unfolding drop_finished
drop-ended n id job rest h = rw h refl

drop-busy :
    (n : ℕ) (id : Text) (job : Job) (rest : Dict Text Job)
    → is_finished job.state ≡ false
    → drop_finished (suc n) ((id, job) ∷ rest) ≡ (id, job) ∷ drop_finished (suc n) rest
unfolding drop_finished
drop-busy n id job rest h = rw h refl

length-behind :
    (kept : Dict Text Job) (x : Text × Job) (rest : Dict Text Job)
    → length (kept ++ (x ∷ rest)) ≡ suc (length (kept ++ rest))
length-behind [] x rest = refl
length-behind (y ∷ kept) x rest = ap suc (length-behind kept x rest)

module _ (budget : ℕ) where
  -- one round of the loop, on a job that is over the budget
  over :
      (kept : Dict Text Job) (id : Text) (job : Job) (rest : Dict Text Job)
      → IsDict (kept ++ ((id, job) ∷ rest))
      → leb (length (kept ++ ((id, job) ∷ rest))) budget ≡ false
      → trim_loop budget (keys ((id, job) ∷ rest)) (kept ++ ((id, job) ∷ rest))
        ≡ trim_loop budget
            (keys rest)
            (if is_finished job.state then kept ++ rest else kept ++ ((id, job) ∷ rest))
  unfolding trim_loop has_finished keys
  over kept id job rest h big =
      let e = IsDict-behind kept id job rest h in
      ground (arith, big, get-behind kept id job rest e, pop-behind kept id job rest e)

  within :
      (ids : List Text) (jobs : Dict Text Job)
      → leb (length jobs) budget ≡ true
      → trim_loop budget ids jobs ≡ jobs
  unfolding trim_loop
  within [] jobs h = refl
  within (id ∷ ids) jobs h = ground (arith, h)

  all_seen :
      (kept : Dict Text Job) (n : ℕ) → trim_loop budget [] (kept ++ []) ≡ kept ++ drop_finished n []
  unfolding trim_loop
  all_seen kept n = rw (drop_finished_nil n) refl

  -- A job that is not finished is left, and the loop goes on behind it.
  shift :
      (kept : Dict Text Job) (id : Text) (job : Job) (rest : Dict Text Job)
      → is_finished job.state ≡ false
      → (n : ℕ) → length (kept ++ ((id, job) ∷ rest)) - budget ≡ suc n
      → trim_loop budget (keys rest) ((kept ++ ((id, job) ∷ [])) ++ rest)
        ≡ (kept ++ ((id, job) ∷ []))
          ++ drop_finished (length ((kept ++ ((id, job) ∷ [])) ++ rest) - budget) rest
      → trim_loop budget (keys rest) (kept ++ ((id, job) ∷ rest))
        ≡ kept ++ drop_finished (length (kept ++ ((id, job) ∷ rest)) - budget) ((id, job) ∷ rest)
  shift kept id job rest busy n e h =
      let k : trim_loop budget (keys rest) (kept ++ ((id, job) ∷ rest))
          ≡ (kept ++ ((id, job) ∷ []))
            ++ drop_finished (length (kept ++ ((id, job) ∷ rest)) - budget) rest =
        subst
          (λ (l : Dict Text Job).
            trim_loop budget (keys rest) l
            ≡ (kept ++ ((id, job) ∷ [])) ++ drop_finished (length l - budget) rest)
          (append_assoc kept ((id, job) ∷ []) rest) h in
      k
      ∙ (rw (e, drop-busy n id job rest busy)
          (append_assoc kept ((id, job) ∷ []) (drop_finished (suc n) rest)))

  trim_loop-drop :
      (rest kept : Dict Text Job)
      → IsDict (kept ++ rest)
      → trim_loop budget (keys rest) (kept ++ rest)
        ≡ kept ++ drop_finished (length (kept ++ rest) - budget) rest
  unfolding keys drop_finished
  trim_loop-drop [] kept h = all_seen kept (length (kept ++ []) - budget)
  trim_loop-drop ((id, job) ∷ rest) kept h =
      elim (Bool-cases (leb (length (kept ++ ((id, job) ∷ rest))) budget)) [
        | inl small ↦
            let none_over : length (kept ++ ((id, job) ∷ rest)) - budget ≡ 0 = ground arith in
            rw none_over (within (id ∷ keys rest) (kept ++ ((id, job) ∷ rest)) small)
        | inr big ↦
            let e : length (kept ++ ((id, job) ∷ rest)) - budget
                ≡ suc (length (kept ++ rest) - budget) =
              ground (arith, big, length-behind kept (id, job) rest) in
            over kept id job rest h big ∙ (elim (Bool-cases (is_finished job.state)) [
              | inl ended ↦
                  rw (ended, e, drop-ended (length (kept ++ rest) - budget) id job rest ended)
                    (trim_loop-drop rest kept (IsDict-without kept id job rest h))
              | inr busy ↦ rw busy (
                  shift kept id job rest busy (length (kept ++ rest) - budget) e (
                    trim_loop-drop rest (kept ++ ((id, job) ∷ []))
                      (subst IsDict (sym (append_assoc kept ((id, job) ∷ []) rest)) h)))
            ])
      ]

-- Trimming the history drops the oldest finished jobs, as many as the history is longer than the
-- budget or all of them where they are fewer, and no other job. The other jobs keep their order.
pub trim_lem :
    (budget : ℕ) (jobs : Dict Text Job)
    → IsDict jobs
    → trim budget jobs ≡ drop_finished (length jobs - budget) jobs
unfolding trim
trim_lem budget jobs h = elim (Bool-cases (leb (length jobs) budget)) [
  | inr big ↦ rw big (trim_loop-drop budget jobs [] h)
  | inl small ↦
      let e : length jobs - budget ≡ 0 = ground arith in
      rw (small, e) (unfold drop_finished in refl)
]

abbrev any_finished : Dict Text Job → Bool
any_finished [] = false
any_finished ((id, job) ∷ jobs) = is_finished job.state || any_finished jobs

drop_finished-length :
    (n : ℕ) (jobs : Dict Text Job)
    → any_finished (drop_finished n jobs) ≡ true
    → length (drop_finished n jobs) + n ≡ length jobs
unfolding drop_finished
drop_finished-length zero jobs h = omega arith
drop_finished-length (suc n) [] h = cc
drop_finished-length (suc n) ((id, job) ∷ jobs) h =
    ground (arith, drop_finished-length n jobs, drop_finished-length (suc n) jobs)

-- A trimmed history in which a finished job is left is within the budget.
pub trim_fits :
    (budget : ℕ) (jobs : Dict Text Job)
    → IsDict jobs
    → any_finished (trim budget jobs) ≡ true
    → length (trim budget jobs) ≤ budget
trim_fits budget jobs h left =
    let e = trim_lem budget jobs h in
    let l =
      drop_finished-length (length jobs - budget) jobs
        (subst (λ d. any_finished d ≡ true) e left) in
    rw e (omega (arith, l))

-- What the drop leaves: every entry of a job that is not finished.
drop_finished-get :
    (n : ℕ) (jobs : Dict Text Job) (id : Text) (job : Job)
    → is_finished job.state ≡ false
    → get jobs id ≡ some job
    → get (drop_finished n jobs) id ≡ some job
unfolding drop_finished get
drop_finished-get zero jobs id job busy h = h
drop_finished-get (suc n) [] id job busy h = h
drop_finished-get (suc n) ((i, w) ∷ jobs) id job busy h =
    ground (
      arith,
      drop_finished-get n jobs id job busy,
      drop_finished-get (suc n) jobs id job busy,
      busy,
    )

drop_finished-contains :
    (n : ℕ) (jobs : Dict Text Job) (id : Text)
    → contains (keys jobs) id ≡ false
    → contains (keys (drop_finished n jobs)) id ≡ false
unfolding drop_finished keys
drop_finished-contains zero jobs id h = h
drop_finished-contains (suc n) [] id h = h
drop_finished-contains (suc n) ((i, w) ∷ jobs) id h =
    ground (arith, drop_finished-contains n jobs id, drop_finished-contains (suc n) jobs id, h)

drop_finished-IsDict : (n : ℕ) (jobs : Dict Text Job) → IsDict jobs → IsDict (drop_finished n jobs)
unfolding drop_finished keys
drop_finished-IsDict zero jobs h = h
drop_finished-IsDict (suc n) [] h = h
drop_finished-IsDict (suc n) ((i, w) ∷ jobs) h = elim (Bool-cases (is_finished w.state)) [
  | inl e ↦ rw e (drop_finished-IsDict n jobs h.1)
  | inr e ↦ rw e (drop_finished-contains (suc n) jobs i h.0, drop_finished-IsDict (suc n) jobs h.1)
]

pub trim-get :
    (budget : ℕ) (jobs : Dict Text Job) (id : Text) (job : Job)
    → IsDict jobs
    → is_finished job.state ≡ false
    → get jobs id ≡ some job
    → get (trim budget jobs) id ≡ some job
trim-get budget jobs id job d busy h =
    rw (trim_lem budget jobs d) (drop_finished-get (length jobs - budget) jobs id job busy h)

pub trim-IsDict : (budget : ℕ) (jobs : Dict Text Job) → IsDict jobs → IsDict (trim budget jobs)
trim-IsDict budget jobs d =
    rw (trim_lem budget jobs d) (drop_finished-IsDict (length jobs - budget) jobs d)
