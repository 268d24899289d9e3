-- ===== src/Job/Lifecycle.antt =====
-- The statuses that a job goes through.
use hospitus.Shared.{
  ℕ, ◌<◌, ◌≡◌, ◌≢◌, ◌⊎◌, refl, Bool, true, false, List, [], ◌∷◌, Option, none, some, arith, inl,
  inr, get_elem?, count, get_elem?-modify, get_elem?-concat, get_elem?_of_ge, Option-cases, Text,
  Dict, lookup,
}
use hospitus.Job.{
  Job, JobStatus, pending, running, completed, failed, canceled, update_progress, set_result,
  new_job,
}
use hospitus.Job.Manager.{
  JobManager, Event, submits, cancels, deletes, takes, reports, sets_result, finishes, shuts_down,
  cancels_all, cleans_up, Outcome, panicked, submit, cancel_job, delete_job, begin_execute,
  take_task, finish_execute, settle, begin_shutdown, cancel_all, cleanup_old_jobs, step, run, start,
  cancel, close_done, status_of,
}
use hospitus.Job.Places.{IsPlaced, step-IsPlaced}

-- The diagram, a status that stays included. A panic is the one way out of `canceled`.
abbrev pub may_follow : JobStatus → JobStatus → Bool
may_follow pending completed = false
may_follow pending failed = false
may_follow pending _ = true
may_follow running pending = false
may_follow running _ = true
may_follow completed completed = true
may_follow completed _ = false
may_follow failed failed = true
may_follow failed _ = false
may_follow canceled canceled = true
may_follow canceled failed = true
may_follow canceled _ = false

abbrev pub Follows : Option JobStatus → Option JobStatus → Type 0
Follows none t = Unit
Follows (some s) none = ⊥
Follows (some s) (some t) = may_follow s t ≡ true

take_task-Follows :
    (jm : JobManager) (now a : ℕ) (q : List ℕ)
    → jm.queue ≡ q
    → IsPlaced jm
    → Follows (status_of jm a) (status_of (take_task q jm now) a)
unfolding take_task begin_execute
take_task-Follows jm now a [] e inv = ground arith
take_task-Follows jm now a (b ∷ rest) e inv = ground (
  arith,
  inv a,
  inv b,
  get_elem?-modify jm.heap b a (start now),
  get_elem?-modify jm.heap b a close_done,
)

settle-Follows :
    (all : Bool) (outcome : Outcome) (now : ℕ) (j : Job)
    → (j.status ≡ running) ⊎ (j.status ≡ canceled)
    → may_follow j.status (settle all outcome now j).status ≡ true
unfolding settle
settle-Follows all outcome now j h = ground arith

finish_execute-Follows :
    (b a : ℕ) (jm : JobManager) (outcome : Outcome) (now : ℕ)
    → 0 < count b jm.executing
    → IsPlaced jm
    → Follows (status_of jm a) (status_of (finish_execute b jm outcome now) a)
unfolding finish_execute
finish_execute-Follows b a jm outcome now busy inv = elim (Option-cases (get_elem? jm.heap b)) [
  | inl missing ↦ ground (arith, inv a, inv b)
  | inr (j, found) ↦ ground (
    arith,
    inv a,
    inv b,
    get_elem?-modify jm.heap b a (settle jm.all_canceled outcome now),
    settle-Follows jm.all_canceled outcome now j,
  )
]

cancel_job-Follows :
    (jm : JobManager) (id : Text) (now a : ℕ)
    → Follows (status_of jm a) (status_of (cancel_job jm id now).0 a)
unfolding cancel_job
cancel_job-Follows jm id now a = elim (Option-cases (lookup id jm.jobs)) [
  | inl missing ↦ ground arith
  | inr (b, found) ↦ ground (arith, get_elem?-modify jm.heap b a (cancel now))
]

submit-Follows :
    (jm : JobManager) (bytes : Option (List ℕ)) (t d : Text) (m : Dict Text) (now a : ℕ)
    → Follows (status_of jm a) (status_of (submit jm bytes t d m now).0 a)
unfolding submit
submit-Follows jm none t d m now a = ground arith
submit-Follows jm (some bytes) t d m now a =
    ground (arith, get_elem?-concat jm.heap (new_job bytes t d m now) a, get_elem?_of_ge jm.heap a)

-- In a manager whose jobs are placed, every step moves each job along the diagram or leaves its
-- status alone.
pub step-Follows :
    (jm : JobManager) (e : Event) (a : ℕ)
    → IsPlaced jm
    → Follows (status_of jm a) (status_of (step jm e) a)
unfolding step update_progress set_result
step-Follows jm (submits bytes t d m now) a inv = submit-Follows jm bytes t d m now a
step-Follows jm (cancels id now) a inv = cancel_job-Follows jm id now a
step-Follows jm (deletes id) a inv = unfold delete_job in ground arith
step-Follows jm (takes now) a inv = take_task-Follows jm now a jm.queue refl inv
step-Follows jm (reports b p msg) a inv =
    ground (arith, get_elem?-modify jm.heap b a (update_progress p msg))
step-Follows jm (sets_result b r) a inv =
    ground (arith, get_elem?-modify jm.heap b a (set_result r))
step-Follows jm (finishes b outcome now) a inv =
    ground
      (arith, λ (h : 0 < count b jm.executing). finish_execute-Follows b a jm outcome now h inv)
step-Follows jm shuts_down a inv = unfold begin_shutdown in ground arith
step-Follows jm cancels_all a inv = unfold cancel_all in ground arith
step-Follows jm (cleans_up now) a inv = unfold cleanup_old_jobs in ground arith

-- What a status can still become.
abbrev pub MayEnd : JobStatus → Option JobStatus → Type 0
MayEnd s none = ⊥
MayEnd completed (some t) = t ≡ completed
MayEnd failed (some t) = t ≡ failed
MayEnd canceled (some t) = (t ≡ canceled) ⊎ (t ≡ failed)
MayEnd running (some t) = t ≢ pending
MayEnd pending (some t) = Unit

MayEnd-Follows : (s : JobStatus) (o p : Option JobStatus) → MayEnd s o → Follows o p → MayEnd s p
MayEnd-Follows completed o p m f = ground arith
MayEnd-Follows _ o p m f = ground arith

run_from-MayEnd :
    (s : JobStatus) (es : List Event) (jm : JobManager) (a : ℕ)
    → IsPlaced jm
    → MayEnd s (status_of jm a)
    → MayEnd s (status_of (run jm es) a)
unfolding run
run_from-MayEnd s [] jm a inv m = m
run_from-MayEnd s (e ∷ es) jm a inv m =
    run_from-MayEnd s es (step jm e) a (step-IsPlaced jm e inv)
      (MayEnd-Follows s (status_of jm a) (status_of (step jm e) a) m (step-Follows jm e a inv))

MayEnd-refl : (s : JobStatus) → MayEnd s (some s)
MayEnd-refl pending = tt
MayEnd-refl running = λ e. cc
MayEnd-refl completed = refl
MayEnd-refl failed = refl
MayEnd-refl canceled = inl refl

-- Whatever happens to a manager whose jobs are placed, a completed or failed job keeps its status,
-- a canceled one stays canceled or has failed, and a running one is never pending again.
pub run-MayEnd :
    (jm : JobManager) (es : List Event) (a : ℕ) (s : JobStatus)
    → IsPlaced jm
    → status_of jm a ≡ some s
    → MayEnd s (status_of (run jm es) a)
run-MayEnd jm es a s inv e = run_from-MayEnd s es jm a inv (rw e (MayEnd-refl s))

-- A job that was canceled by the user and whose function panics ends as failed.
pub settle-panicked :
    (all : Bool) (r : Text) (now : ℕ) (j : Job) → (settle all (panicked r) now j).status ≡ failed
unfolding settle
settle-panicked all r now j = refl
