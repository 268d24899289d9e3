-- ===== src/Health/Threshold.antt =====
-- When an instance is called unhealthy.
use hospitus.Shared.{
  ℕ, suc, ◌≡◌, ◌≢◌, List, [], ◌∷◌, some, leb, arith, if◌then◌else◌, Text, lookup, lookup-insert,
  same_refl,
}
use hospitus.Health.{
  HealthChecker, HealthCheckConfig, CheckOutcome, HealthStatus, unhealthy, starting,
  HealthCheckResult, check_result, register_instance, close_stop, notify, status_of, fail_count,
  record_check, run_check, check_failed, retries_of, same_health,
}

-- Checks of one instance in a row.
unfoldable pub checks :
    HealthChecker → Text → HealthCheckConfig → List CheckOutcome → ℕ → HealthChecker
checks hc id config [] now = hc
checks hc id config (o ∷ os) now = checks (run_check hc id config o now) id config os now

-- The length of the run of failures at the end, after `n` failures before.
abbrev pub trailing : ℕ → List CheckOutcome → ℕ
trailing n [] = n
trailing n (o ∷ os) = trailing (if check_failed o then suc n else 0) os

abbrev Counted : HealthChecker → Text → HealthCheckConfig → ℕ → Type 0
Counted hc id config n =
    (fail_count hc id ≡ n) × (same_health (status_of hc id) unhealthy ≡ leb (retries_of config) n)

pub notify-results :
    (hc : HealthChecker) (id : Text) (s t : HealthStatus) → (notify hc id s t).results ≡ hc.results
unfolding notify
notify-results hc id s t = ground arith

notify-fail_counts :
    (hc : HealthChecker) (id : Text) (s t : HealthStatus)
    → (notify hc id s t).fail_counts ≡ hc.fail_counts
unfolding notify
notify-fail_counts hc id s t = ground arith

module _ (hc : HealthChecker) (id : Text) (config : HealthCheckConfig) (o : CheckOutcome)
    (now : ℕ) where
  lookup-fail_counts :
      lookup id (record_check hc id config o now).fail_counts
      ≡ some (if check_failed o then suc (fail_count hc id) else 0)
  unfolding record_check
  lookup-fail_counts = simp (notify-fail_counts, lookup-insert, same_refl)

  pub lookup-results :
      lookup id (record_check hc id config o now).results ≡ some (check_result hc id config o now)
  unfolding record_check
  lookup-results = simp (notify-results, lookup-insert, same_refl)

  record_check-Counted :
      (n : ℕ)
      → Counted hc id config n
      → Counted (record_check hc id config o now) id config (if check_failed o then suc n else 0)
  record_check-Counted n c =
      (ground (arith, lookup-fail_counts), unfold check_result in ground (arith, lookup-results))

  pub run_check-record_check :
      config.command ≢ [] → run_check hc id config o now ≡ record_check hc id config o now
  unfolding run_check
  run_check-record_check command = ground arith

checks-Counted :
    (os : List CheckOutcome) (hc : HealthChecker) (id : Text) (config : HealthCheckConfig)
    (now n : ℕ)
    → config.command ≢ []
    → Counted hc id config n
    → Counted (checks hc id config os now) id config (trailing n os)
unfolding checks
checks-Counted [] hc id config now n command c = c
checks-Counted (o ∷ os) hc id config now n command c =
    checks-Counted os (run_check hc id config o now) id config now
      (if check_failed o then suc n else 0) command
      (rw (run_check-record_check hc id config o now command)
        (record_check-Counted hc id config o now n c))

register_instance-Counted :
    (hc : HealthChecker) (id : Text) (config : HealthCheckConfig) (now : ℕ)
    → Counted (register_instance hc id config now) id config 0
unfolding register_instance
register_instance-Counted hc id config now =
    let stopped = close_stop hc id in
    let first : HealthCheckResult = record {
      status = starting;
      message = [];
      checked_at = now;
      exit_code = 0;
    } in
    (
      ground (arith, lookup-insert id id 0 stopped.fail_counts, same_refl id),
      ground (arith, lookup-insert id id first stopped.results, same_refl id),
    )

-- After a registration and any checks of an instance, it is unhealthy exactly if the checks end with
-- at least as many failures in a row as its configuration asks for, three if it asks for none.
pub register-checks_unhealthy :
    (hc : HealthChecker) (id : Text) (config : HealthCheckConfig) (os : List CheckOutcome) (now : ℕ)
    → config.command ≢ []
    → same_health
        (status_of (checks (register_instance hc id config now) id config os now) id)
        unhealthy
      ≡ leb (retries_of config) (trailing 0 os)
register-checks_unhealthy hc id config os now command =
    (checks-Counted os (register_instance hc id config now) id config now 0 command
      (register_instance-Counted hc id config now)).1
