-- ===== src/Health/Tests.antt =====
-- One instance that fails its checks, and the theorems at it.
use hospitus.Shared.{
  ◌≤◌, ◌≡◌, refl, true, List, [], ◌∷◌, none, Text, codes, lookup, insert, remove, same, leb, length,
  arith,
}
use hospitus.Health.{
  HealthCheckConfig, exited, exec_error, Event, adds_callback, drains, registers, starts, begins,
  ticks, unregisters, new_health_checker, on_health_change, close_stop, register_instance,
  start_checking, unregister_instance, notify, take_notification, end_delivery, delivers,
  update_status, check_result, record_check, run_check, step, run, healthy, unhealthy, unknown,
  starting, same_health, status_of, retries_of,
}
use hospitus.Health.Channels.{ChannelsFit, run-ChannelsFit}
use hospitus.Health.Threshold.{checks, trailing, register-checks_unhealthy}
use hospitus.Health.Delivery.{DeliveryFits, run-DeliveryFits}
use hospitus.Health.Sequence.{pending, history, run-pending}
use hospitus.Health.Restart.{
  AutoRestarter, RestartPolicy, RestartEvent, changes, records, IsSerial, consider_restart,
  note_healthy, end_stretch, on_status_change, record_restart, react, react_all, restart_target,
  restart_calls, set_policy_for, stop_instance, start_instance,
}
use hospitus.Health.Restart.Decisions.{times}
use hospitus.Health.Restart.Budget.{react_all-budget}
use hospitus.Health.Restart.Spacing.{IsSpaced, react_all-IsSpaced}

abbrev web : Text
web = codes "web"

abbrev twice : HealthCheckConfig
twice = record {
  command = codes "true" ∷ [];
  interval = 10;
  timeout = 5;
  retries = 2;
  start_period = 0;
}

abbrev failing : List Event
failing =
    adds_callback
    ∷ registers web twice 0
    ∷ starts web
    ∷ begins web 1
    ∷ ticks web twice (exited 1) 2
    ∷ ticks web twice (exec_error []) 3
    ∷ drains
    ∷ delivers 0
    ∷ unregisters web
    ∷ []

failing_delivers :
    (run new_health_checker failing).delivered
    ≡ (record { instance_id = web; from = starting; to = unknown }) ∷ []
unfolding run step on_health_change register_instance close_stop start_checking update_status notify
    run_check record_check check_result take_notification end_delivery unregister_instance lookup
    insert remove same
failing_delivers = refl

run-ChannelsFit_example : ChannelsFit (run new_health_checker failing)
run-ChannelsFit_example = run-ChannelsFit failing

run-DeliveryFits_example : DeliveryFits (run new_health_checker failing)
run-DeliveryFits_example = run-DeliveryFits failing

run-pending_example : pending (run new_health_checker failing) ≡ history new_health_checker failing
unfolding run step on_health_change register_instance close_stop start_checking update_status notify
    run_check record_check check_result take_notification end_delivery unregister_instance lookup
    insert remove same
run-pending_example = run-pending failing refl

register-checks_unhealthy_example :
    same_health
      (status_of
        (checks
          (register_instance new_health_checker web twice 9)
          web
          twice
          (exited 1 ∷ exited 2 ∷ [])
          9)
        web)
      unhealthy
    ≡ leb (retries_of twice) (trailing 0 (exited 1 ∷ exited 2 ∷ []))
register-checks_unhealthy_example =
    register-checks_unhealthy new_health_checker web twice (exited 1 ∷ exited 2 ∷ []) 9 (λ e. cc)

abbrev once : RestartPolicy
once = record { enabled = true; max_restarts = 1; restart_delay = 30; reset_counter_after = 0 }

abbrev often : RestartPolicy
often = record { enabled = true; max_restarts = 0; restart_delay = 30; reset_counter_after = 0 }

abbrev restarter : RestartPolicy → AutoRestarter
restarter policy = record {
  provider = none;
  restart_policy = (web, policy) ∷ [];
  targets = [];
  restart_counts = [];
  healthy_since = [];
  last_restart = [];
  spawned = [];
  restarts = [];
}

abbrev flapping : List RestartEvent
flapping =
    changes web unhealthy 100
    ∷ records 101
    ∷ changes web healthy 105
    ∷ changes web unhealthy 120
    ∷ records 121
    ∷ changes web unhealthy 140
    ∷ records 142
    ∷ []

flapping_restarts :
    (times web (react_all (restarter once) flapping).restarts ≡ 101 ∷ [])
    × (times web (react_all (restarter often) flapping).restarts ≡ 142 ∷ 101 ∷ [])
unfolding react_all react on_status_change note_healthy end_stretch consider_restart record_restart
    lookup insert remove same
flapping_restarts = (refl, refl)

first_run-IsSerial : IsSerial (restarter once) 0 flapping
unfolding react_all react on_status_change note_healthy end_stretch consider_restart record_restart
    lookup insert remove same
first_run-IsSerial = (
  omega arith,
  (
    refl,
    (
      omega arith,
      (
        omega arith,
        (refl, (omega arith, (refl, (omega arith, (omega arith, (refl, (omega arith, tt))))))),
      ),
    ),
  ),
)

second_run-IsSerial : IsSerial (restarter often) 0 flapping
unfolding react_all react on_status_change note_healthy end_stretch consider_restart record_restart
    lookup insert remove same
second_run-IsSerial = (
  omega arith,
  (
    refl,
    (
      omega arith,
      (
        omega arith,
        (refl, (omega arith, (refl, (omega arith, (omega arith, (refl, (omega arith, tt))))))),
      ),
    ),
  ),
)

react_all-budget_example : length (times web (react_all (restarter once) flapping).restarts) ≤ 1
unfolding lookup same
react_all-budget_example =
    react_all-budget web once refl (omega arith) (restarter once) 0 flapping first_run-IsSerial refl
      refl refl refl

react_all-IsSpaced_example : IsSpaced 30 (times web (react_all (restarter often) flapping).restarts)
unfolding lookup same
react_all-IsSpaced_example =
    react_all-IsSpaced web often (omega arith) (restarter often) 0 flapping second_run-IsSerial refl
      refl refl refl

-- Two changes before the first restart is recorded start one restart too many.
overrun :
    times web
      (react_all (restarter once) (
        changes web unhealthy 100
        ∷ changes web healthy 101
        ∷ changes web unhealthy 102
        ∷ records 103
        ∷ records 104
        ∷ [])).restarts
    ≡ 104 ∷ 103 ∷ []
unfolding react_all react on_status_change note_healthy end_stretch consider_restart record_restart
    lookup insert remove same
overrun = refl

-- Without a target of its own and without a provider nothing is called.
restart_calls_registered :
    (restart_calls (restarter once) web true true ≡ [])
    × (restart_calls
          (set_policy_for
            (restarter once)
            (record { provider = codes "jail"; handle = web; metadata = [] })
            once)
          web
          true
          true
        ≡ stop_instance (codes "jail") web [] ∷ start_instance (codes "jail") web [] ∷ [])
unfolding restart_calls restart_target set_policy_for lookup insert same
restart_calls_registered = (refl, refl)
