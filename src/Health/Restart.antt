-- ===== src/Health/Restart.antt =====
-- pkg/orchestration/health.go: the automatic restarter. `on_health_change` is the callback, which
-- only decides; the goroutine it starts records the restart in a section of its own.
pub mod Decisions
pub mod Budget
pub mod Spacing
use hospitus.Shared.{
  ℕ, suc, ◌+◌, ◌-◌, ◌≤◌, ◌≡◌, Bool, true, false, not, ◌&&◌, List, [], ◌∷◌, ◌++◌, Option, none, some,
  ltb, leb, if◌then◌else◌, Text, Dict, lookup, insert, remove,
}
use hospitus.Health.{HealthStatus, healthy, unhealthy, same_health}

-- A number or a duration that is not positive is 0 here.
pub record RestartPolicy : Type 0 where
  pub enabled : Bool
  pub max_restarts : ℕ
  pub restart_delay : ℕ
  pub reset_counter_after : ℕ

-- A provider is known by its name.
pub record RestartTarget : Type 0 where
  pub provider : Text
  pub handle : Text
  pub metadata : Dict Text

pub record Restarted : Type 0 where
  pub instance_id : Text
  pub at : ℕ

-- `spawned` lists the goroutines that were started and did not record their restart yet, and
-- `restarts` the restarts that were recorded, the latest first.
pub record AutoRestarter : Type 0 where
  pub provider : Option Text
  pub restart_policy : Dict RestartPolicy
  pub targets : Dict RestartTarget
  pub restart_counts : Dict ℕ
  pub healthy_since : Dict ℕ
  pub last_restart : Dict ℕ
  pub spawned : List Text
  pub restarts : List Restarted

unfoldable pub set_policy : AutoRestarter → Text → RestartPolicy → AutoRestarter
set_policy ar id policy = record ar { restart_policy = insert id policy ar.restart_policy }

unfoldable pub set_policy_for : AutoRestarter → RestartTarget → RestartPolicy → AutoRestarter
set_policy_for ar target policy = record ar {
  restart_policy = insert target.handle policy ar.restart_policy;
  targets = insert target.handle target ar.targets;
}

unfoldable pub remove_policy : AutoRestarter → Text → AutoRestarter
remove_policy ar id = record ar {
  restart_policy = remove id ar.restart_policy;
  targets = remove id ar.targets;
  restart_counts = remove id ar.restart_counts;
  healthy_since = remove id ar.healthy_since;
  last_restart = remove id ar.last_restart;
}

abbrev pub get_restart_count : AutoRestarter → Text → ℕ
get_restart_count ar id = elim (lookup id ar.restart_counts) [ none ↦ 0 | some n ↦ n ]

abbrev pub healthy_for : AutoRestarter → Text → ℕ → ℕ
healthy_for ar id now = elim (lookup id ar.healthy_since) [ none ↦ 0 | some since ↦ now - since ]

abbrev pub too_soon : AutoRestarter → Text → RestartPolicy → ℕ → Bool
too_soon ar id policy now = elim (lookup id ar.last_restart) [
  | none ↦ false
  | some last ↦ ltb (now - last) policy.restart_delay
]

-- From the budget on: `ar` has the healthy stretch ended.
unfoldable pub consider_restart : AutoRestarter → Text → RestartPolicy → ℕ → ℕ → AutoRestarter
consider_restart ar id policy stretch now =
    let counted =
      if ltb 0 policy.reset_counter_after && ltb policy.reset_counter_after stretch
      then record ar { restart_counts = insert id 0 ar.restart_counts }
      else ar in
    if ltb 0 policy.max_restarts && leb policy.max_restarts (get_restart_count counted id)
    then counted
    else if too_soon counted id policy now
    then counted
    else record counted { spawned = id ∷ counted.spawned }

unfoldable pub note_healthy : AutoRestarter → Text → ℕ → AutoRestarter
note_healthy ar id now = elim (lookup id ar.healthy_since) [
  | none ↦ record ar { healthy_since = insert id now ar.healthy_since }
  | some since ↦ ar
]

unfoldable pub end_stretch : AutoRestarter → Text → AutoRestarter
end_stretch ar id = record ar { healthy_since = remove id ar.healthy_since }

unfoldable pub on_status_change : AutoRestarter → Text → HealthStatus → ℕ → AutoRestarter
on_status_change ar id status now = elim (lookup id ar.restart_policy) [
  | none ↦ ar
  | some policy ↦
      if not policy.enabled
      then ar
      else if same_health status healthy
      then note_healthy ar id now
      else if same_health status unhealthy
      then consider_restart (end_stretch ar id) id policy (healthy_for ar id now) now
      else end_stretch ar id
]

-- The first section of `restartInstance`.
unfoldable pub record_restart : AutoRestarter → Text → ℕ → AutoRestarter
record_restart ar id now = record ar {
  restart_counts = insert id (suc (get_restart_count ar id)) ar.restart_counts;
  last_restart = insert id now ar.last_restart;
  restarts = (record { instance_id = id; at = now }) ∷ ar.restarts;
}

pub data ProviderCall : Type 0 where
  stop_instance start_instance : Text → Text → Dict Text → ProviderCall

-- The provider and the handle to restart with: the registered ones, or else those of the restarter.
unfoldable pub restart_target : AutoRestarter → Text → Option RestartTarget
restart_target ar id = elim (lookup id ar.targets) [
  | some target ↦ some target
  | none ↦ elim ar.provider [
    | none ↦ none
    | some p ↦ some (record { provider = p; handle = id; metadata = [] })
  ]
]

-- The calls of the rest of `restartInstance`, where `stops` tells whether the stop succeeds and
-- `waits` whether the pause ends before the context does.
unfoldable pub restart_calls : AutoRestarter → Text → Bool → Bool → List ProviderCall
restart_calls ar id stops waits = elim (restart_target ar id) [
  | none ↦ []
  | some t ↦
      stop_instance t.provider t.handle t.metadata
      ∷ (if stops && waits then start_instance t.provider t.handle t.metadata ∷ [] else [])
]

-- What comes to a restarter: a change of status, under its lock, or the first section of the oldest
-- goroutine that was started and did not record its restart yet.
pub data RestartEvent : Type 0 where
  changes : Text → HealthStatus → ℕ → RestartEvent
  records : ℕ → RestartEvent

abbrev pub record_next : List Text → AutoRestarter → ℕ → AutoRestarter
record_next [] ar now = ar
record_next (id ∷ ids) ar now = record_restart (record ar { spawned = ids }) id now

unfoldable pub react : AutoRestarter → RestartEvent → AutoRestarter
react ar (changes id status now) = on_status_change ar id status now
react ar (records now) = record_next ar.spawned ar now

unfoldable pub react_all : AutoRestarter → List RestartEvent → AutoRestarter
react_all ar [] = ar
react_all ar (e ∷ es) = react_all (react ar e) es

-- Time does not go back, and no change comes while a restart that was started is still to be recorded.
abbrev pub IsSerial : AutoRestarter → ℕ → List RestartEvent → Type 0
IsSerial ar clock [] = Unit
IsSerial ar clock (changes id status now ∷ es) =
    (clock ≤ now) × ((ar.spawned ≡ []) × IsSerial (react ar (changes id status now)) now es)
IsSerial ar clock (records now ∷ es) = (clock ≤ now) × IsSerial (react ar (records now)) now es
