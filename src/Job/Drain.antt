-- ===== src/Job/Drain.antt =====
-- pkg/job/job.go: the end of a shutdown. Any number of workers drain the closed queue, each in its
-- own time, while clients go on to call.
use hospitus.Shared.{
  ℕ, ◌+◌, ◌*◌, ◌≤◌, ◌≡◌, ◌⊎◌, true, ltb, List, [], ◌∷◌, some, length, get_elem?, count,
  if◌then◌else◌,
}
use hospitus.Job.{Job}
use hospitus.Job.Manager.{JobManager, Event, takes, finishes, step}

-- What is left to do: each task in the queue is to be taken and to be finished.
abbrev pub work : JobManager → ℕ
work jm = 2 * length jm.queue + length jm.executing

abbrev one_if_any : List ℕ → ℕ
one_if_any [] = 0
one_if_any (a ∷ rest) = 1

-- Whether an event is a step of a worker: it takes a task, or the function of a job of its ends.
abbrev pub advances : JobManager → Event → ℕ
advances jm (takes now) = one_if_any jm.queue
advances jm (finishes a outcome now) = if ltb 0 (count a jm.executing) then 1 else 0
advances jm _ = 0

-- The steps of workers in a run.
abbrev pub rounds : JobManager → List Event → ℕ
rounds jm [] = 0
rounds jm (e ∷ es) = advances jm e + rounds (step jm e) es

-- The state `after` of a drain that started from `before`, with `taken` steps of workers between.
pub record Drains (before after : JobManager) (taken : ℕ) : Type 0 where
  pub bounded : taken + work after ≤ work before
  pub onward : (work after ≡ 0) ⊎ ((e : Event) × (advances after e ≡ 1))
  pub finished :
      work after ≡ 0 → (a : ℕ) (j : Job) → get_elem? after.heap a ≡ some j → j.done ≡ true
