-- ===== src/Health/Restart/Decisions.antt =====
-- pkg/orchestration/health.go: what one change of status can do to the restarter.
use hospitus.Shared.{
  ℕ, ◌-◌, ◌≤◌, ◌<◌, ◌≡◌, ◌⊎◌, List, [], ◌∷◌, some, arith, if◌then◌else◌, Text, lookup, same,
}
use hospitus.Health.{HealthStatus}
use hospitus.Health.Restart.{
  AutoRestarter, RestartPolicy, Restarted, get_restart_count, consider_restart, note_healthy,
  end_stretch, on_status_change,
}

-- The parts that a decision leaves alone.
module _ (ar : AutoRestarter) (id : Text) where
  pub on_status_change-policy :
      (status : HealthStatus) (now : ℕ)
      → (on_status_change ar id status now).restart_policy ≡ ar.restart_policy
  unfolding on_status_change consider_restart note_healthy end_stretch
  on_status_change-policy status now = ground arith

  pub on_status_change-restarts :
      (status : HealthStatus) (now : ℕ) → (on_status_change ar id status now).restarts ≡ ar.restarts
  unfolding on_status_change consider_restart note_healthy end_stretch
  on_status_change-restarts status now = ground arith

  pub on_status_change-last :
      (status : HealthStatus) (now : ℕ)
      → (on_status_change ar id status now).last_restart ≡ ar.last_restart
  unfolding on_status_change consider_restart note_healthy end_stretch
  on_status_change-last status now = ground arith

  -- A change starts a restart of its own instance or none.
  pub on_status_change-spawned :
      (status : HealthStatus) (now : ℕ)
      → ar.spawned ≡ []
      → ((on_status_change ar id status now).spawned ≡ [])
        ⊎ ((on_status_change ar id status now).spawned ≡ id ∷ [])
  unfolding on_status_change consider_restart note_healthy end_stretch
  on_status_change-spawned status now e = ground arith

  -- A restart is started within the budget and after the delay.
  pub on_status_change-allowed :
      (status : HealthStatus) (now : ℕ) (policy : RestartPolicy)
      → ar.spawned ≡ []
      → (on_status_change ar id status now).spawned ≡ id ∷ []
      → lookup id ar.restart_policy ≡ some policy
      → 0 < policy.max_restarts
      → get_restart_count (on_status_change ar id status now) id < policy.max_restarts
  unfolding on_status_change consider_restart note_healthy end_stretch
  on_status_change-allowed status now policy empty started found limited = ground arith

  pub on_status_change-waited :
      (status : HealthStatus) (now last : ℕ) (policy : RestartPolicy)
      → ar.spawned ≡ []
      → (on_status_change ar id status now).spawned ≡ id ∷ []
      → lookup id ar.restart_policy ≡ some policy
      → lookup id ar.last_restart ≡ some last
      → policy.restart_delay ≤ now - last
  unfolding on_status_change consider_restart note_healthy end_stretch
  on_status_change-waited status now last policy empty started found before = ground arith

-- When an instance was restarted, the latest first.
abbrev pub times : Text → List Restarted → List ℕ
times id [] = []
times id (r ∷ rs) = let rest = times id rs in if same r.instance_id id then r.at ∷ rest else rest
