-- ===== src/Health/Restart/Budget.antt =====
-- pkg/orchestration/health.go: the restart budget. Without a reset the counter is a lifetime limit.
use hospitus.Shared.{
  ℕ, suc, ◌+◌, same, if◌then◌else◌, ◌≤◌, ◌<◌, ◌≡◌, inl, inr, refl, List, [], ◌∷◌, some, arith,
  length, Text, lookup, lookup-insert, same_iff,
}
use hospitus.Health.{HealthStatus}
use hospitus.Health.Restart.{
  AutoRestarter, RestartPolicy, RestartEvent, changes, records, record_next, IsSerial,
  get_restart_count, consider_restart, note_healthy, end_stretch, on_status_change, record_restart,
  react, react_all,
}
use hospitus.Health.Restart.Decisions.{
  on_status_change-policy, on_status_change-restarts, on_status_change-spawned,
  on_status_change-allowed, times,
}

-- The restarts of the instance that are started and not recorded.
abbrev owed : Text → List Text → ℕ
owed id [] = 0
owed id (x ∷ xs) = let rest = owed id xs in if same x id then suc rest else rest

-- The policy of an instance is in force and its restarts are counted within it.
record Counted (id : Text) (policy : RestartPolicy) (ar : AutoRestarter) : Type 0 where
  found : lookup id ar.restart_policy ≡ some policy
  counts : length (times id ar.restarts) ≤ get_restart_count ar id
  within : get_restart_count ar id + owed id ar.spawned ≤ policy.max_restarts

module _ (id : Text) (policy : RestartPolicy) (lifetime : policy.reset_counter_after ≡ 0)
    (limited : 0 < policy.max_restarts) where
  on_status_change-count :
      (ar : AutoRestarter) (other : Text) (status : HealthStatus) (now : ℕ)
      → lookup id ar.restart_policy ≡ some policy
      → get_restart_count (on_status_change ar other status now) id ≡ get_restart_count ar id
  unfolding on_status_change consider_restart note_healthy end_stretch
  on_status_change-count ar other status now found =
      ground (arith, same_iff other id, lookup-insert other id 0 ar.restart_counts)

  changes-Counted :
      (ar : AutoRestarter) (other : Text) (status : HealthStatus) (now : ℕ)
      → ar.spawned ≡ []
      → Counted id policy ar
      → Counted id policy (on_status_change ar other status now)
  changes-Counted ar other status now idle inv =
      let same_count = on_status_change-count ar other status now inv.found in
      record {
        found = ground (arith, on_status_change-policy ar other status now, inv.found);
        counts =
            ground (arith, inv.counts, on_status_change-restarts ar other status now, same_count);
        within = elim (on_status_change-spawned ar other status now idle) [
          | inl e ↦ ground (arith, e, inv.within, idle, same_count)
          | inr e ↦ ground (
            arith,
            e,
            inv.within,
            inv.found,
            idle,
            same_count,
            same_iff other id,
            on_status_change-allowed ar other status now policy idle e,
          )
        ];
      }

  records-Counted :
      (q : List Text) (ar : AutoRestarter) (now : ℕ)
      → ar.spawned ≡ q
      → Counted id policy ar
      → Counted id policy (record_next q ar now)
  unfolding record_restart
  records-Counted [] ar now e inv = inv
  records-Counted (x ∷ xs) ar now e inv =
      let inserted = lookup-insert x id (suc (get_restart_count ar x)) ar.restart_counts in
      record {
        found = inv.found;
        counts = ground (arith, inv.counts, inserted, same_iff x id);
        within = ground (arith, e, inv.within, inserted, same_iff x id);
      }

  react_all-Counted :
      (es : List RestartEvent) (ar : AutoRestarter) (clock : ℕ)
      → IsSerial ar clock es
      → Counted id policy ar
      → Counted id policy (react_all ar es)
  unfolding react_all react
  react_all-Counted [] ar clock serial inv = inv
  react_all-Counted (changes other status now ∷ es) ar clock serial inv =
      react_all-Counted es (on_status_change ar other status now) now serial.1.1
        (changes-Counted ar other status now serial.1.0 inv)
  react_all-Counted (records now ∷ es) ar clock serial inv =
      react_all-Counted es (record_next ar.spawned ar now) now serial.1
        (records-Counted ar.spawned ar now refl inv)

  -- With a policy that limits the restarts and never resets the counter, an instance that was not
  -- restarted before is restarted at most `max_restarts` times, whatever its status does, in every run
  -- in which no change comes between the start of a restart and its recording.
  pub react_all-budget :
      (ar : AutoRestarter) (clock : ℕ) (es : List RestartEvent)
      → IsSerial ar clock es
      → lookup id ar.restart_policy ≡ some policy
      → ar.spawned ≡ []
      → ar.restarts ≡ []
      → ar.restart_counts ≡ []
      → length (times id (react_all ar es).restarts) ≤ policy.max_restarts
  unfolding lookup
  react_all-budget ar clock es serial found idle new_restarts new_counts =
      let first : Counted id policy ar = record {
        found = found;
        counts = ground arith;
        within = ground arith;
      } in
      let last = react_all-Counted es ar clock serial first in
      omega (arith, last.counts, last.within)
