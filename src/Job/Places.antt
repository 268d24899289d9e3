-- ===== src/Job/Places.antt =====
-- Where a job is: in the queue, with a worker, or done.
use hospitus.Shared.{
  ℕ, ◌+◌, ◌<◌, ◌≡◌, ◌⊎◌, refl, Bool, true, false, List, [], ◌∷◌, Option, none, some, arith, length,
  get_elem?, count, count-concat, count-without, get_elem?-modify, get_elem?-concat, Option-cases,
  lookup, inl, inr, get_elem?_of_ge, Text, Dict,
}
use hospitus.Job.{
  Job, pending, running, completed, canceled, float_one, update_progress, set_result, new_job,
}
use hospitus.Job.Progress.{InUnit, float_zero-InUnit, float_one-InUnit, clamp-InUnit}
use hospitus.Job.Manager.{
  JobManager, Event, submits, cancels, deletes, takes, reports, sets_result, finishes, shuts_down,
  cancels_all, cleans_up, Outcome, submit, cancel_job, delete_job, begin_execute, take_task,
  finish_execute, settle, begin_shutdown, cancel_all, cleanup_old_jobs, step, run, is_active,
  new_job_manager, JobManagerConfig, start, cancel, close_done,
}

abbrev pub flag : Bool → ℕ
flag true = 1
flag false = 0

abbrev pub is_some : Option ℕ → Bool
is_some none = false
is_some (some t) = true

-- What holds of a job that stands `q` times in the queue and `e` times among the executing.
pub record JobFits (q e : ℕ) (j : Job) : Type 0 where
  pub one_place : q + e + flag j.done ≡ 1
  pub queued : q ≡ 1 → (j.status ≡ pending) ⊎ (j.status ≡ canceled)
  pub unstarted : q ≡ 1 → j.cancel_set ≡ false
  pub executing : e ≡ 1 → (j.status ≡ running) ⊎ (j.status ≡ canceled)
  pub finished : j.done ≡ true → is_active j.status ≡ false
  pub stamped : is_some j.completed_at ≡ true → is_active j.status ≡ false
  pub settled : is_active j.status ≡ false → is_some j.completed_at ≡ true
  pub full : j.status ≡ completed → j.progress ≡ float_one
  pub within : InUnit j.progress

abbrev pub SlotFits : ℕ → ℕ → Option Job → Type 0
SlotFits q e none = (q ≡ 0) × (e ≡ 0)
SlotFits q e (some j) = JobFits q e j

abbrev pub IsPlaced : JobManager → Type 0
IsPlaced jm = (a : ℕ) → SlotFits (count a jm.queue) (count a jm.executing) (get_elem? jm.heap a)

pub begin_execute-IsPlaced :
    (b : ℕ) (rest : List ℕ) (jm : JobManager) (now : ℕ)
    → jm.queue ≡ b ∷ rest
    → IsPlaced jm
    → IsPlaced (begin_execute b (record jm { queue = rest }) now)
unfolding begin_execute
begin_execute-IsPlaced b rest jm now e inv a = ground (
  arith,
  inv a,
  inv b,
  get_elem?-modify jm.heap b a (start now),
  get_elem?-modify jm.heap b a close_done,
)

take_task-IsPlaced :
    (jm : JobManager) (now : ℕ) → IsPlaced jm → IsPlaced (take_task jm.queue jm now)
unfolding take_task
take_task-IsPlaced jm now inv = go jm.queue refl
  where
    go : (q : List ℕ) → jm.queue ≡ q → IsPlaced (take_task q jm now)
    go [] e = inv
    go (b ∷ rest) e = begin_execute-IsPlaced b rest jm now e inv

settle-JobFits :
    (all : Bool) (outcome : Outcome) (now : ℕ) (j : Job)
    → JobFits 0 1 j
    → JobFits 0 0 (settle all outcome now j)
unfolding settle
settle-JobFits all outcome now j f = ground (arith, float_one-InUnit)

finish_execute-IsPlaced :
    (b : ℕ) (jm : JobManager) (outcome : Outcome) (now : ℕ)
    → 0 < count b jm.executing
    → IsPlaced jm
    → IsPlaced (finish_execute b jm outcome now)
unfolding finish_execute
finish_execute-IsPlaced b jm outcome now busy inv a = elim (Option-cases (get_elem? jm.heap b)) [
  | inl missing ↦ ground (arith, inv a, inv b)
  | inr (j, found) ↦ ground (
    arith,
    inv a,
    inv b,
    get_elem?-modify jm.heap b a (settle jm.all_canceled outcome now),
    count-without b a jm.executing,
    settle-JobFits jm.all_canceled outcome now j,
  )
]

submit-IsPlaced :
    (jm : JobManager) (bytes : Option (List ℕ)) (t d : Text) (m : Dict Text) (now : ℕ)
    → IsPlaced jm
    → IsPlaced (submit jm bytes t d m now).0
unfolding submit new_job
submit-IsPlaced jm none t d m now inv a = inv a
submit-IsPlaced jm (some bytes) t d m now inv a = ground (
  arith,
  inv a,
  get_elem?-concat jm.heap (new_job bytes t d m now) a,
  float_zero-InUnit,
  get_elem?_of_ge jm.heap a,
  count-concat a (length jm.heap) jm.queue,
)

cancel_job-IsPlaced :
    (jm : JobManager) (id : Text) (now : ℕ) → IsPlaced jm → IsPlaced (cancel_job jm id now).0
unfolding cancel_job
cancel_job-IsPlaced jm id now inv a = elim (Option-cases (lookup id jm.jobs)) [
  | inl missing ↦ ground (arith, inv a)
  | inr (b, found) ↦ ground (arith, inv a, inv b, get_elem?-modify jm.heap b a (cancel now))
]

-- Every step keeps the jobs placed.
pub step-IsPlaced : (jm : JobManager) (e : Event) → IsPlaced jm → IsPlaced (step jm e)
unfolding step update_progress set_result
step-IsPlaced jm (submits bytes t d m now) inv a = submit-IsPlaced jm bytes t d m now inv a
step-IsPlaced jm (cancels id now) inv a = cancel_job-IsPlaced jm id now inv a
step-IsPlaced jm (deletes id) inv a = unfold delete_job in ground (arith, inv a)
step-IsPlaced jm (takes now) inv a = take_task-IsPlaced jm now inv a
step-IsPlaced jm (reports b p msg) inv a =
    ground
      (arith, inv a, inv b, get_elem?-modify jm.heap b a (update_progress p msg), clamp-InUnit p)
step-IsPlaced jm (sets_result b r) inv a =
    ground (arith, inv a, inv b, get_elem?-modify jm.heap b a (set_result r))
step-IsPlaced jm (finishes b outcome now) inv a = ground (
  arith,
  inv a,
  λ (h : 0 < count b jm.executing). finish_execute-IsPlaced b jm outcome now h inv a,
)
step-IsPlaced jm shuts_down inv a = unfold begin_shutdown in ground (arith, inv a)
step-IsPlaced jm cancels_all inv a = unfold cancel_all in inv a
step-IsPlaced jm (cleans_up now) inv a = unfold cleanup_old_jobs in inv a

new_job_manager-IsPlaced : (cfg : JobManagerConfig) → IsPlaced (new_job_manager cfg)
unfolding new_job_manager
new_job_manager-IsPlaced cfg a = (refl, refl)

run_from-IsPlaced : (es : List Event) (jm : JobManager) → IsPlaced jm → IsPlaced (run jm es)
unfolding run
run_from-IsPlaced [] jm inv = inv
run_from-IsPlaced (e ∷ es) jm inv = run_from-IsPlaced es (step jm e) (step-IsPlaced jm e inv)

-- In every run from a new manager each job is at all times in one place: once in the queue and
-- pending or canceled, or with one worker and running or canceled, or done and ended. A job has a
-- time of completion exactly when it has ended, its progress is a number from 0 to 1, and 1 when it
-- has completed.
pub run-IsPlaced :
    (cfg : JobManagerConfig) (es : List Event) → IsPlaced (run (new_job_manager cfg) es)
run-IsPlaced cfg es = run_from-IsPlaced es (new_job_manager cfg) (new_job_manager-IsPlaced cfg)
