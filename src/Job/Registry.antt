-- ===== src/Job/Registry.antt =====
-- The map of jobs: who is in it, and who leaves it.
use hospitus.Shared.{
  ℕ, ◌+◌, ◌≡◌, refl, Bool, true, false, not, ◌&&◌, ltb, [], ◌∷◌, Option, none, some, arith, inl,
  inr, length, get_elem?, get_elem?-modify, Option-cases, Text, Dict, lookup, insert, lookup-insert,
  lookup-remove, same, same_iff, if◌then◌else◌, IsMap,
}
use hospitus.Job.{Job, JobStatus, new_job, canceled}
use hospitus.Job.Manager.{
  JobManager, Result, ok, err, Event, submits, cancels, deletes, takes, reports, sets_result,
  finishes, shuts_down, cancels_all, cleans_up, submit, cancel_job, delete_job, begin_execute,
  take_task, finish_execute, begin_shutdown, cancel_all, cleanup_old_jobs, step, is_active, is_old,
  sweep, status_of, job_not_found, job_active, job_not_cancellable, cancel,
}

-- What `CancelJob` and `DeleteJob` answer, by the job's status.
abbrev pub cancel_answer : Text → Option JobStatus → Result (Unit {0})
cancel_answer id none = err (job_not_found id)
cancel_answer id (some s) = if is_active s then ok tt else err (job_not_cancellable s)

abbrev pub delete_answer : Text → Option JobStatus → Result (Unit {0})
delete_answer id none = err (job_not_found id)
delete_answer id (some s) = if is_active s then err (job_active s) else ok tt

abbrev pub status_by_id : JobManager → Text → Option JobStatus
status_by_id jm id = elim (lookup id jm.jobs) [ none ↦ none | some a ↦ status_of jm a ]

-- `CancelJob` succeeds for an active job and only for one, which is canceled from then on.
pub cancel_job_lem :
    (jm : JobManager) (id : Text) (now : ℕ)
    → ((cancel_job jm id now).1 ≡ cancel_answer id (status_by_id jm id))
      × (status_by_id (cancel_job jm id now).0 id
          ≡ elim (cancel_job jm id now).1 [ ok _ ↦ some canceled | err _ ↦ status_by_id jm id ])
unfolding cancel_job
cancel_job_lem jm id now = elim (Option-cases (lookup id jm.jobs)) [
  | inl missing ↦ ground arith
  | inr (a, found) ↦ ground (arith, get_elem?-modify jm.heap a a (cancel now))
]

-- `DeleteJob` succeeds for a job that is no longer active and only for one; it then takes that
-- identifier out of the map, and else changes nothing.
pub delete_job_lem :
    (jm : JobManager) (id j : Text)
    → ((delete_job jm id).1 ≡ delete_answer id (status_by_id jm id))
      × (lookup j (delete_job jm id).0.jobs ≡ elim (delete_job jm id).1 [
        | ok _ ↦ if same id j then none else lookup j jm.jobs
        | err _ ↦ lookup j jm.jobs
      ])
unfolding delete_job
delete_job_lem jm id j = elim (Option-cases (lookup id jm.jobs)) [
  | inl missing ↦ ground arith
  | inr (a, found) ↦ ground (arith, lookup-remove id j jm.jobs)
]

-- A job that is no longer active, and that ended more than `age` before `now`.
abbrev pub expired : ℕ → ℕ → Option Job → Bool
expired now age none = false
expired now age (some j) = elim j.completed_at [
  | none ↦ false
  | some t ↦ not (is_active j.status) && ltb (t + age) now
]

is_old-expired :
    (jm : JobManager) (now age a : ℕ) → is_old jm now age a ≡ expired now age (get_elem? jm.heap a)
unfolding is_old
is_old-expired jm now age a = elim (Option-cases (get_elem? jm.heap a)) [
  | inl missing ↦ ground arith
  | inr (j, found) ↦ ground arith
]

abbrev pub unless_old : JobManager → ℕ → ℕ → Option ℕ → Option ℕ
unless_old jm now age none = none
unless_old jm now age (some a) = if expired now age (get_elem? jm.heap a) then none else some a

lookup-sweep :
    (jm : JobManager) (now max_age : ℕ) (m : Dict ℕ) (id : Text)
    → IsMap m
    → lookup id (sweep jm now max_age m) ≡ unless_old jm now max_age (lookup id m)
unfolding lookup sweep
lookup-sweep jm now max_age [] id h = refl
lookup-sweep jm now max_age ((j, a) ∷ m) id h = ground (
  arith,
  is_old-expired jm now max_age a,
  lookup-sweep jm now max_age m id h.1,
  same_iff j id,
  h.0,
)

-- The cleanup takes out of the map exactly the jobs that are no longer active and whose end lies
-- more than the maximal age back.
pub lookup-cleanup_old_jobs :
    (jm : JobManager) (now : ℕ) (id : Text)
    → IsMap jm.jobs
    → lookup id (cleanup_old_jobs jm now).0.jobs
      ≡ unless_old jm now jm.config.max_job_age (lookup id jm.jobs)
unfolding cleanup_old_jobs
lookup-cleanup_old_jobs jm now id h = lookup-sweep jm now jm.config.max_job_age jm.jobs id h

sweep-IsMap :
    (jm : JobManager) (now max_age : ℕ) (m : Dict ℕ) → IsMap m → IsMap (sweep jm now max_age m)
unfolding sweep
sweep-IsMap jm now max_age [] h = tt
sweep-IsMap jm now max_age ((j, a) ∷ m) h =
    ground (arith, sweep-IsMap jm now max_age m h.1, lookup-sweep jm now max_age m j h.1)

-- The new identifier of a submission is not in the map yet.
abbrev pub IsFresh : JobManager → Event → Type 0
IsFresh jm (submits (some bytes) t d m now) = lookup (new_job bytes t d m now).id jm.jobs ≡ none
IsFresh jm _ = Unit

abbrev pub IsActive : Option JobStatus → Type 0
IsActive none = ⊥
IsActive (some s) = is_active s ≡ true

-- No step takes an active job out of the map: it is found under its identifier until it has ended.
pub active_stays :
    (jm : JobManager) (e : Event) (id : Text) (a : ℕ)
    → IsFresh jm e
    → IsMap jm.jobs
    → lookup id jm.jobs ≡ some a
    → IsActive (status_of jm a)
    → lookup id (step jm e).jobs ≡ some a
unfolding step
active_stays jm (submits none t d m now) id a n h e act = unfold submit in e
active_stays jm (submits (some bytes) t d m now) id a n h e act =
    let new = (new_job bytes t d m now).id in
    unfold submit in
    ground (
      arith,
      lookup-insert new id (length jm.heap) jm.jobs,
      lookup-remove new id (insert new (length jm.heap) jm.jobs),
      same_iff new id,
    )
active_stays jm (cancels k now) id a n h e act = unfold cancel_job in ground arith
active_stays jm (deletes k) id a n h e act = ground (arith, delete_job_lem jm k id, same_iff k id)
active_stays jm (takes now) id a n h e act = unfold take_task begin_execute in ground arith
active_stays jm (reports b p msg) id a n h e act = ground arith
active_stays jm (sets_result b r) id a n h e act = ground arith
active_stays jm (finishes b outcome now) id a n h e act = unfold finish_execute in ground arith
active_stays jm shuts_down id a n h e act = unfold begin_shutdown in ground arith
active_stays jm cancels_all id a n h e act = unfold cancel_all in e
active_stays jm (cleans_up now) id a n h e act =
    unfold is_old in ground (arith, lookup-cleanup_old_jobs jm now id h)
