-- ===== src/Job/Queue.antt =====
-- Submission: the bounded queue, and the shutdown that closes it.
use hospitus.Shared.{
  ℕ, ap, ◌≤◌, ◌<◌, ◌≡◌, refl, Bool, true, false, ltb, List, [], ◌∷◌, ◌++◌, Option, none, some,
  arith, length, length-append, get_elem?, get_elem?-concat, Text, Dict, lookup, insert, remove,
  lookup-insert, lookup-remove, same_refl, same_iff,
}
use hospitus.Job.{Job, new_job}
use hospitus.Job.Manager.{
  JobManager, JobManagerConfig, Result, ok, err, Event, submits, cancels, deletes, takes, reports,
  sets_result, finishes, shuts_down, cancels_all, cleans_up, submit, cancel_job, delete_job,
  begin_execute, take_task, finish_execute, begin_shutdown, cancel_all, cleanup_old_jobs, step, run,
  new_job_manager, queue_full, shutdown_begun, send_on_closed_queue,
}

pub record QueueFits (jm : JobManager) : Type 0 where
  pub bounded : length jm.queue ≤ jm.config.queue_size
  pub has_room : 0 < jm.config.queue_size
  pub closed_in_shutdown : jm.queue_closed ≡ jm.shutting_down
  pub stopped_in_shutdown : jm.stop_closed ≡ jm.shutting_down

new_job_manager-QueueFits : (cfg : JobManagerConfig) → QueueFits (new_job_manager cfg)
unfolding new_job_manager
new_job_manager-QueueFits cfg = ground arith

take_task-QueueFits :
    (jm : JobManager) (now : ℕ) (q : List ℕ)
    → jm.queue ≡ q
    → QueueFits jm
    → QueueFits (take_task q jm now)
unfolding take_task begin_execute
take_task-QueueFits jm now [] e f = f
take_task-QueueFits jm now (b ∷ rest) e f = ground (arith, ap length e)

-- Every step keeps the queue within its capacity, and closed exactly in a shutdown.
pub step-QueueFits : (jm : JobManager) (e : Event) → QueueFits jm → QueueFits (step jm e)
unfolding step
step-QueueFits jm (submits none t d m now) f = unfold submit in f
step-QueueFits jm (submits (some bytes) t d m now) f =
    unfold submit in ground (arith, length-append jm.queue (length jm.heap ∷ []))
step-QueueFits jm (cancels id now) f = unfold cancel_job in ground arith
step-QueueFits jm (deletes id) f = unfold delete_job in ground arith
step-QueueFits jm (takes now) f = take_task-QueueFits jm now jm.queue refl f
step-QueueFits jm (reports b p msg) f = ground arith
step-QueueFits jm (sets_result b r) f = ground arith
step-QueueFits jm (finishes b outcome now) f = unfold finish_execute in ground arith
step-QueueFits jm shuts_down f = unfold begin_shutdown in ground arith
step-QueueFits jm cancels_all f = unfold cancel_all in ground arith
step-QueueFits jm (cleans_up now) f = unfold cleanup_old_jobs in ground arith

run_from-QueueFits : (es : List Event) (jm : JobManager) → QueueFits jm → QueueFits (run jm es)
unfolding run
run_from-QueueFits [] jm f = f
run_from-QueueFits (e ∷ es) jm f = run_from-QueueFits es (step jm e) (step-QueueFits jm e f)

-- No call of `Submit` sends on the closed channel, which would panic.
abbrev pub IsSafeToSubmit : JobManager → Type 0
IsSafeToSubmit jm =
    (bytes : Option (List ℕ)) (t d : Text) (m : Dict Text) (now : ℕ)
    → ¬ ((submit jm bytes t d m now).1 ≡ err send_on_closed_queue)

QueueFits-IsSafeToSubmit : (jm : JobManager) → QueueFits jm → IsSafeToSubmit jm
unfolding submit
QueueFits-IsSafeToSubmit jm f none t d m now h = ground (arith, h)
QueueFits-IsSafeToSubmit jm f (some bytes) t d m now h = ground (arith, h, f.closed_in_shutdown)

-- In every run from a new manager the queue holds no more tasks than its capacity, which is not 0,
-- both channels are closed exactly when a shutdown has begun, and no call of `Submit` that comes then
-- sends on the closed channel.
pub run-QueueFits :
    (cfg : JobManagerConfig) (es : List Event)
    → let jm = run (new_job_manager cfg) es in QueueFits jm × IsSafeToSubmit jm
run-QueueFits cfg es =
    let f = run_from-QueueFits es (new_job_manager cfg) (new_job_manager-QueueFits cfg) in
    (f, QueueFits-IsSafeToSubmit (run (new_job_manager cfg) es) f)

-- The outcome of `Submit` by whether a shutdown has begun and whether the queue has room.
abbrev pub SubmitFits : JobManager → Job → JobManager × Result ℕ → Bool → Bool → Type 0
SubmitFits jm job r true room = r ≡ (jm, err shutdown_begun)
SubmitFits jm job r false true =
    (r.1 ≡ ok (length jm.heap))
    × (r.0.queue ≡ jm.queue ++ length jm.heap ∷ [])
    × (get_elem? r.0.heap (length jm.heap) ≡ some job)
    × (lookup job.id r.0.jobs ≡ some (length jm.heap))
SubmitFits jm job r false false =
    (r.1 ≡ err queue_full)
    × (r.0.queue ≡ jm.queue)
    × (r.0.heap ≡ jm.heap)
    × ((id : Text) → lookup id r.0.jobs ≡ lookup id jm.jobs)

module _ (jm : JobManager) (bytes : List ℕ) (t d : Text) (m : Dict Text) (now : ℕ)
    (f : QueueFits jm) where
  submit_refused :
      jm.shutting_down ≡ true → submit jm (some bytes) t d m now ≡ (jm, err shutdown_begun)
  unfolding submit
  submit_refused h = rw h

  submit_queued :
      jm.shutting_down ≡ false
      → length jm.queue < jm.config.queue_size
      → let job = new_job bytes t d m now in
        submit jm (some bytes) t d m now ≡ (
          record jm {
            heap = jm.heap ++ job ∷ [];
            jobs = insert job.id (length jm.heap) jm.jobs;
            queue = jm.queue ++ length jm.heap ∷ [];
          },
          ok (length jm.heap),
        )
  unfolding submit
  submit_queued h room = ground arith

  submit_full :
      jm.shutting_down ≡ false
      → jm.config.queue_size ≤ length jm.queue
      → let id = (new_job bytes t d m now).id in
        submit jm (some bytes) t d m now
        ≡ (record jm { jobs = remove id (insert id (length jm.heap) jm.jobs) }, err queue_full)
  unfolding submit
  submit_full h room = ground arith

  submit_cases :
      (shut room : Bool)
      → lookup (new_job bytes t d m now).id jm.jobs ≡ none
      → jm.shutting_down ≡ shut
      → ltb (length jm.queue) jm.config.queue_size ≡ room
      → SubmitFits jm (new_job bytes t d m now) (submit jm (some bytes) t d m now) shut room
  submit_cases true room fresh shut r = submit_refused shut
  submit_cases false true fresh shut r =
      let job = new_job bytes t d m now in
      rw (submit_queued shut (ground arith)) (
        refl,
        refl,
        ground (arith, get_elem?-concat jm.heap job (length jm.heap)),
        ground (arith, lookup-insert job.id job.id (length jm.heap) jm.jobs, same_refl job.id),
      )
  submit_cases false false fresh shut r =
      let job = new_job bytes t d m now in
      rw (submit_full shut (ground arith)) (
        refl,
        refl,
        refl,
        λ id. ground (
          arith,
          lookup-remove job.id id (insert job.id (length jm.heap) jm.jobs),
          lookup-insert job.id id (length jm.heap) jm.jobs,
          same_iff job.id id,
        ),
      )

  -- With a fresh identifier `Submit` refuses in a shutdown and changes nothing; with room it queues
  -- a new pending job last, under that identifier; and with the queue full it refuses, and leaves
  -- the queue, the jobs and every lookup as they were.
  pub submit-SubmitFits :
      lookup (new_job bytes t d m now).id jm.jobs ≡ none
      → SubmitFits jm
          (new_job bytes t d m now)
          (submit jm (some bytes) t d m now)
          jm.shutting_down
          (ltb (length jm.queue) jm.config.queue_size)
  submit-SubmitFits fresh = submit_cases jm.shutting_down _ fresh refl refl
