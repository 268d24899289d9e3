-- ===== src/Job/Manager.antt =====
-- pkg/job/job.go: the manager. Each function is one critical section of the code, so an
-- interleaving of clients, workers and job functions is a list of events.
use mathlib.Core.Option
use mathlib.Core.Logic.{ite}
use hospitus.Shared.{
  ℕ, ◌+◌, ◌-◌, ◌*◌, Bool, true, false, not, ◌&&◌, ◌||◌, List, [], ◌∷◌, ◌++◌, Option, none, some,
  ltb, leb, if◌then◌else◌, length, get_elem?, modify, keep, without, count, Text, codes, Dict,
  lookup, insert, remove,
}
use hospitus.Job.{
  Job, JobStatus, pending, running, completed, failed, canceled, JobStatus-discrete, status_name,
  Float64, float_one, update_progress, set_result, new_job,
}

pub data JobError : Type 0 where
  job_not_found : Text → JobError
  queue_full shutdown_begun no_random_id send_on_closed_queue : JobError
  job_not_cancellable job_active : JobStatus → JobError

pub data Result {ℓ} (A : Type ℓ) : Type ℓ where
  ok : A → Result A
  err : JobError → Result A

-- Durations are in nanoseconds. A negative setting acts as 0 does.
pub record JobManagerConfig : Type 0 where
  pub workers : ℕ
  pub queue_size : ℕ
  pub cleanup_interval : ℕ
  pub max_job_age : ℕ

abbrev pub minute : ℕ
minute = 60_000_000_000

abbrev pub default_job_manager_config : JobManagerConfig
default_job_manager_config = record {
  workers = 4;
  queue_size = 100;
  cleanup_interval = 5 * minute;
  max_job_age = 24 * 60 * minute;
}

-- `heap` holds every job that was queued, by its address. `jobs` is the map of the code, and
-- `queue` the buffer of its channel. `executing` holds the jobs whose `JobFunc` runs. `updates` is
-- the log of the calls of the update hook: the address and the status that it saw.
pub record JobManager : Type 0 where
  pub config : JobManagerConfig
  pub heap : List Job
  pub jobs : Dict ℕ
  pub queue : List ℕ
  pub executing : List ℕ
  pub stop_closed : Bool
  pub queue_closed : Bool
  pub shutting_down : Bool
  pub all_canceled : Bool
  pub updates : List (ℕ × JobStatus)

abbrev or_default : ℕ → ℕ → ℕ
or_default given fallback = if leb given 0 then fallback else given

unfoldable pub new_job_manager : JobManagerConfig → JobManager
new_job_manager cfg = record {
  config = record {
    workers = or_default cfg.workers 4;
    queue_size = or_default cfg.queue_size 100;
    cleanup_interval = or_default cfg.cleanup_interval (5 * minute);
    max_job_age = or_default cfg.max_job_age (24 * 60 * minute);
  };
  heap = [];
  jobs = [];
  queue = [];
  executing = [];
  stop_closed = false;
  queue_closed = false;
  shutting_down = false;
  all_canceled = false;
  updates = [];
}

-- `notifyUpdate`, with a hook that records its calls.
abbrev pub notify_update : ℕ → JobStatus → JobManager → JobManager
notify_update a s jm = record jm { updates = jm.updates ++ (a, s) ∷ [] }

-- What `rand.Read` gives is an argument: `none` where it fails. A job that is not queued is
-- garbage, and takes no address.
unfoldable pub submit :
    JobManager → Option (List ℕ) → Text → Text → Dict Text → ℕ → JobManager × Result ℕ
submit jm none job_type description metadata now = (jm, err no_random_id)
submit jm (some bytes) job_type description metadata now =
    let job = new_job bytes job_type description metadata now in
    let a = length jm.heap in
    let registered = record jm { jobs = insert job.id a jm.jobs } in
    if jm.shutting_down
    then (jm, err shutdown_begun)
    else if jm.queue_closed
    then (registered, err send_on_closed_queue)
    else if ltb (length jm.queue) jm.config.queue_size
    then (record registered { heap = jm.heap ++ job ∷ []; queue = jm.queue ++ a ∷ [] }, ok a)
    else (record registered { jobs = remove job.id registered.jobs }, err queue_full)

unfoldable pub get_job : JobManager → Text → Result ℕ
get_job jm id = elim (lookup id jm.jobs) [ none ↦ err (job_not_found id) | some a ↦ ok a ]

abbrev pub status_of : JobManager → ℕ → Option JobStatus
status_of jm a = Option.map (λ j. j.status) (get_elem? jm.heap a)

abbrev has_status : JobManager → JobStatus → ℕ → Bool
has_status jm s a = elim (status_of jm a) [
  | none ↦ false
  | some t ↦ ite (JobStatus-discrete t s) true false
]

abbrev addresses : Dict ℕ → List ℕ
addresses [] = []
addresses ((id, a) ∷ m) = a ∷ addresses m

unfoldable pub list_jobs : JobManager → Option JobStatus → List ℕ
list_jobs jm none = addresses jm.jobs
list_jobs jm (some s) = keep (has_status jm s) (addresses jm.jobs)

abbrev pub is_active : JobStatus → Bool
is_active pending = true
is_active running = true
is_active _ = false

-- `job.cancel` is nil before the job starts.
abbrev pub cancel : ℕ → Job → Job
cancel now j = record j {
  status = canceled;
  message = codes "Canceled by user";
  completed_at = some now;
  ctx_canceled = j.ctx_canceled || j.cancel_set;
}

unfoldable pub cancel_job : JobManager → Text → ℕ → JobManager × Result (Unit {0})
cancel_job jm id now = elim (lookup id jm.jobs) [
  | none ↦ (jm, err (job_not_found id))
  | some a ↦ elim (status_of jm a) [
    | none ↦ (jm, err (job_not_found id))
    | some s ↦
        if is_active s
        then (notify_update a canceled (record jm { heap = modify jm.heap a (cancel now) }), ok tt)
        else (jm, err (job_not_cancellable s))
  ]
]

unfoldable pub delete_job : JobManager → Text → JobManager × Result (Unit {0})
delete_job jm id = elim (lookup id jm.jobs) [
  | none ↦ (jm, err (job_not_found id))
  | some a ↦ elim (status_of jm a) [
    | none ↦ (jm, err (job_not_found id))
    | some s ↦
        if is_active s
        then (jm, err (job_active s))
        else (record jm { jobs = remove id jm.jobs }, ok tt)
  ]
]

-- `stats[key]++`.
abbrev pub bump : Text → Dict ℕ → Dict ℕ
bump key m = elim (lookup key m) [ none ↦ insert key 1 m | some n ↦ insert key (n + 1) m ]

unfoldable pub count_statuses : JobManager → Dict ℕ → Dict ℕ → Dict ℕ
count_statuses jm [] counted = counted
count_statuses jm ((id, a) ∷ m) counted =
    count_statuses jm m
      (elim (status_of jm a) [ none ↦ counted | some s ↦ bump (status_name s) counted ])

unfoldable pub stats : JobManager → Dict ℕ
stats jm =
    insert (codes "queue_depth") (length jm.queue)
      (insert (codes "total") (length jm.jobs) (count_statuses jm jm.jobs []))

-- What `shutdownOnce` runs.
unfoldable pub begin_shutdown : JobManager → JobManager
begin_shutdown jm =
    if jm.shutting_down
    then jm
    else record jm { shutting_down = true; stop_closed = true; queue_closed = true }

-- The last line of `Shutdown`, after the wait.
unfoldable pub cancel_all : JobManager → JobManager
cancel_all jm = record jm { all_canceled = true }

abbrev pub close_done : Job → Job
close_done j = record j { done = true }

abbrev pub start : ℕ → Job → Job
start now j = record j {
  status = running;
  started_at = some now;
  message = codes "Starting...";
  cancel_set = true;
}

-- `executeJob` up to the call of the job's function.
unfoldable pub begin_execute : ℕ → JobManager → ℕ → JobManager
begin_execute a jm now = elim (status_of jm a) [
  | none ↦ jm
  | some canceled ↦ record jm { heap = modify jm.heap a close_done }
  | some _ ↦ record jm { heap = modify jm.heap a (start now); executing = a ∷ jm.executing }
]

-- A worker receives a task, from `jm.queue` as it runs or as it drains.
unfoldable pub take_task : List ℕ → JobManager → ℕ → JobManager
take_task [] jm now = jm
take_task (a ∷ rest) jm now = begin_execute a (record jm { queue = rest }) now

pub data Outcome : Type 0 where
  returned : Outcome
  failed_with : Text → Outcome
  panicked : Text → Outcome

abbrev pub or_now : Option ℕ → ℕ → Option ℕ
or_now none now = some now
or_now (some t) now = some t

abbrev pub keep_canceled : ℕ → Job → Job
keep_canceled now j = record j {
  message = codes "Canceled";
  completed_at = or_now j.completed_at now;
  done = true;
}

abbrev pub complete : ℕ → Job → Job
complete now j = record j {
  completed_at = some now;
  status = completed;
  progress = float_one;
  message = codes "Completed";
  done = true;
}

abbrev pub fail : Text → Text → ℕ → Job → Job
fail error message now j = record j {
  completed_at = some now;
  status = failed;
  error = error;
  message = message;
  done = true;
}

abbrev pub cancel_by_context : ℕ → Job → Job
cancel_by_context now j = record j {
  completed_at = some now;
  status = canceled;
  message = codes "Canceled";
  done = true;
}

-- The rest of `executeJob` for one job: a panic comes from its deferred function, which does not
-- look at the status.
unfoldable pub settle : Bool → Outcome → ℕ → Job → Job
settle all_canceled outcome now j = elim outcome [
  | panicked r ↦ fail (codes "panic: " ++ r) (codes "Failed (panic)") now j
  | returned ↦ elim j.status [ canceled ↦ keep_canceled now j | _ ↦ complete now j ]
  | failed_with e ↦ elim j.status [
    | canceled ↦ keep_canceled now j
    | _ ↦
        if j.ctx_canceled || all_canceled
        then cancel_by_context now j
        else fail e (codes "Failed") now j
  ]
]

-- Whether the hook is called: not for a job that was canceled before its function returned.
abbrev pub hook_called : Outcome → JobStatus → Bool
hook_called (panicked r) s = true
hook_called returned canceled = false
hook_called (failed_with e) canceled = false
hook_called _ _ = true

unfoldable pub finish_execute : ℕ → JobManager → Outcome → ℕ → JobManager
finish_execute a jm outcome now = elim (get_elem? jm.heap a) [
  | none ↦ jm
  | some j ↦
      let settled = settle jm.all_canceled outcome now in
      let done = record jm {
        heap = modify jm.heap a settled;
        executing = without a jm.executing;
      } in
      if hook_called outcome j.status then notify_update a (settled j).status done else done
]

-- `completedAt.Before(now - maxAge)` for a job that is no longer active.
unfoldable pub is_old : JobManager → ℕ → ℕ → ℕ → Bool
is_old jm now max_age a = elim (get_elem? jm.heap a) [
  | none ↦ false
  | some j ↦
      not (is_active j.status)
      && elim j.completed_at [ none ↦ false | some t ↦ ltb t (now - max_age) ]
]

unfoldable pub sweep : JobManager → ℕ → ℕ → Dict ℕ → Dict ℕ
sweep jm now max_age [] = []
sweep jm now max_age ((id, a) ∷ m) =
    let rest = sweep jm now max_age m in if is_old jm now max_age a then rest else (id, a) ∷ rest

unfoldable pub cleanup_old_jobs : JobManager → ℕ → JobManager × ℕ
cleanup_old_jobs jm now =
    let swept = sweep jm now jm.config.max_job_age jm.jobs in
    (record jm { jobs = swept }, length jm.jobs - length swept)

-- What happens to a manager. A job's function is heard of only while it runs.
pub data Event : Type 0 where
  submits : Option (List ℕ) → Text → Text → Dict Text → ℕ → Event
  cancels : Text → ℕ → Event
  deletes : Text → Event
  takes : ℕ → Event
  reports : ℕ → Float64 → Text → Event
  sets_result : ℕ → Dict Text → Event
  finishes : ℕ → Outcome → ℕ → Event
  shuts_down cancels_all : Event
  cleans_up : ℕ → Event

abbrev pub while_executing : JobManager → ℕ → JobManager → JobManager
while_executing jm a after = if ltb 0 (count a jm.executing) then after else jm

unfoldable pub step : JobManager → Event → JobManager
step jm (submits bytes t d m now) = (submit jm bytes t d m now).0
step jm (cancels id now) = (cancel_job jm id now).0
step jm (deletes id) = (delete_job jm id).0
step jm (takes now) = take_task jm.queue jm now
step jm (reports a p msg) =
    while_executing jm a (record jm { heap = modify jm.heap a (update_progress p msg) })
step jm (sets_result a r) =
    while_executing jm a (record jm { heap = modify jm.heap a (set_result r) })
step jm (finishes a outcome now) = while_executing jm a (finish_execute a jm outcome now)
step jm shuts_down = begin_shutdown jm
step jm cancels_all = cancel_all jm
step jm (cleans_up now) = (cleanup_old_jobs jm now).0

unfoldable pub run : JobManager → List Event → JobManager
run jm [] = jm
run jm (e ∷ es) = run (step jm e) es
