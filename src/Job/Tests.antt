-- ===== src/Job/Tests.antt =====
-- Runs of the job manager, and the theorems at them.
use hospitus.Shared.{
  ℕ, ◌≡◌, refl, List, [], ◌∷◌, none, some, Text, codes, lookup, insert, same, IsMap,
}
use hospitus.Job.{running, failed, canceled, nan, units, one_units, less, clamp, new_job, hex}
use hospitus.Job.Manager.{
  JobManager, Event, submits, cancels, takes, finishes, shuts_down, returned, panicked,
  new_job_manager, default_job_manager_config, submit, cancel_job, take_task, begin_execute,
  finish_execute, settle, begin_shutdown, step, run, status_of,
}
use hospitus.Job.Progress.{InUnit, clamp-InUnit}
use hospitus.Job.Places.{IsPlaced, run-IsPlaced}
use hospitus.Job.Lifecycle.{Follows, MayEnd, step-Follows, run-MayEnd}
use hospitus.Job.Queue.{QueueFits, IsSafeToSubmit, run-QueueFits}
use hospitus.Job.Drain.{work}

abbrev fresh_manager : JobManager
fresh_manager = new_job_manager default_job_manager_config

abbrev fetch : List ℕ → Event
fetch bytes = submits (some bytes) (codes "image.fetch") (codes "fetch") [] 10

abbrev first_id : Text
first_id = codes "job-00ff"

-- Two jobs, of which one runs; the other is canceled in the queue.
abbrev history : List Event
history = fetch (0 ∷ 255 ∷ []) ∷ fetch (1 ∷ 2 ∷ []) ∷ takes 20 ∷ cancels (codes "job-0102") 30 ∷ []

abbrev busy : JobManager
busy = run fresh_manager history

busy_statuses : (status_of busy 0 ≡ some running) × (status_of busy 1 ≡ some canceled)
unfolding run step submit cancel_job take_task begin_execute new_job_manager new_job hex lookup
    insert same
busy_statuses = (refl, refl)

busy_first : lookup first_id busy.jobs ≡ some 0
unfolding run step submit cancel_job take_task begin_execute new_job_manager new_job hex lookup
    insert same
busy_first = refl

run-IsPlaced_example : IsPlaced busy
run-IsPlaced_example = run-IsPlaced default_job_manager_config history

step-Follows_example : Follows (status_of busy 0) (status_of (step busy (finishes 0 returned 40)) 0)
step-Follows_example = step-Follows busy (finishes 0 returned 40) 0 run-IsPlaced_example

-- A canceled job whose function panics ends as failed.
run-MayEnd_example :
    MayEnd canceled (status_of (run busy (takes 35 ∷ finishes 1 returned 40 ∷ [])) 1)
run-MayEnd_example =
    run-MayEnd busy (takes 35 ∷ finishes 1 returned 40 ∷ []) 1 canceled run-IsPlaced_example
      busy_statuses.1

canceled_may_fail :
    status_of (run busy (cancels first_id 35 ∷ finishes 0 (panicked (codes "nil map")) 40 ∷ [])) 0
    ≡ some failed
unfolding run step submit cancel_job take_task begin_execute finish_execute settle new_job_manager
    new_job hex lookup insert same
canceled_may_fail = refl

run-QueueFits_example : QueueFits busy × IsSafeToSubmit busy
run-QueueFits_example = run-QueueFits default_job_manager_config history

busy_lacks : lookup (new_job (7 ∷ []) [] [] [] 50).id busy.jobs ≡ none
unfolding run step submit cancel_job take_task begin_execute new_job_manager new_job hex lookup
    insert same
busy_lacks = refl

busy-IsMap : IsMap busy.jobs
unfolding run step submit cancel_job take_task begin_execute new_job_manager new_job hex lookup
    insert same
busy-IsMap = (refl, (refl, tt))

abbrev waiting : List Event
waiting = fetch (0 ∷ 255 ∷ []) ∷ fetch (1 ∷ 2 ∷ []) ∷ cancels first_id 15 ∷ shuts_down ∷ []

abbrev closing : JobManager
closing = run fresh_manager waiting

-- Two workers: the second takes its task before the first has finished.
abbrev draining : List Event
draining = takes 20 ∷ takes 21 ∷ finishes 1 returned 30 ∷ takes 31 ∷ []

drained_works : work (run closing draining) ≡ 0
unfolding run step submit cancel_job begin_shutdown take_task begin_execute finish_execute settle
    new_job_manager new_job hex lookup insert same
drained_works = refl

clamp-InUnit_example : InUnit (clamp nan)
clamp-InUnit_example = clamp-InUnit nan

clamp_nan : clamp nan ≡ units 0
unfolding clamp less one_units
clamp_nan = refl
