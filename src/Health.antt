-- ===== src/Health.antt =====
-- pkg/orchestration/health.go: the health checker. Each function is one critical section under
-- `hc.mu`; the loops that run checks, and the goroutine that delivers notifications, are events.
pub mod Channels
pub mod Threshold
pub mod Delivery
pub mod Sequence
pub mod Restart
mod Tests
use hospitus.Shared.{
  ℕ, zero, suc, ◌+◌, get_elem?, Bool, true, false, not, ◌&&◌, ◌||◌, List, [], ◌∷◌, ◌++◌, Option,
  none, some, ltb, leb, ◌==◌, if◌then◌else◌, length, Text, codes, Dict, lookup, insert, remove,
  count,
}

-- `unset` is the empty string, the status of a missing result.
pub data HealthStatus : Type 0 where
  healthy unhealthy starting unknown unset : HealthStatus

-- A number or a duration that is not positive is 0 here: the code tests for `<= 0` only.
pub record HealthCheckConfig : Type 0 where
  pub command : List Text
  pub interval : ℕ
  pub timeout : ℕ
  pub retries : ℕ
  pub start_period : ℕ

pub record HealthCheckResult : Type 0 where
  pub status : HealthStatus
  pub message : Text
  pub checked_at : ℕ
  pub exit_code : ℕ

pub record Transition : Type 0 where
  pub instance_id : Text
  pub from : HealthStatus
  pub to : HealthStatus

-- `stop_chans` maps an instance to the number of its channel; `made` channels exist, and `closed`
-- lists those that were closed, as often as they were. `delivered` is the log of the transitions
-- that every callback has seen, and `dropped` counts those that were given up. `drainers` goroutines
-- stand at the head of the loop of `drainNotifications`, and others are `delivering` one transition
-- each, outside the lock.
pub record HealthChecker : Type 0 where
  pub configs : Dict HealthCheckConfig
  pub results : Dict HealthCheckResult
  pub fail_counts : Dict ℕ
  pub stop_chans : Dict ℕ
  pub made : ℕ
  pub closed : List ℕ
  pub callbacks : ℕ
  pub notify_queue : List Transition
  pub notify_busy : Bool
  pub drainers : ℕ
  pub delivering : List Transition
  pub delivered : List Transition
  pub dropped : ℕ

abbrev pub new_health_checker : HealthChecker
new_health_checker = record {
  configs = [];
  results = [];
  fail_counts = [];
  stop_chans = [];
  made = 0;
  closed = [];
  callbacks = 0;
  notify_queue = [];
  notify_busy = false;
  drainers = 0;
  delivering = [];
  delivered = [];
  dropped = 0;
}

abbrev pub default_health_retries : ℕ
default_health_retries = 3

abbrev pub max_pending_notifications : ℕ
max_pending_notifications = 1024

unfoldable pub on_health_change : HealthChecker → HealthChecker
on_health_change hc = record hc { callbacks = suc hc.callbacks }

-- `close(stop); delete(hc.stopChans, id)`, where there is a channel.
unfoldable pub close_stop : HealthChecker → Text → HealthChecker
close_stop hc id = elim (lookup id hc.stop_chans) [
  | none ↦ hc
  | some c ↦ record hc { closed = c ∷ hc.closed; stop_chans = remove id hc.stop_chans }
]

unfoldable pub register_instance : HealthChecker → Text → HealthCheckConfig → ℕ → HealthChecker
register_instance hc id config now =
    let stopped = close_stop hc id in
    let first : HealthCheckResult = record {
      status = starting;
      message = [];
      checked_at = now;
      exit_code = 0;
    } in
    record stopped {
      configs = insert id config stopped.configs;
      results = insert id first stopped.results;
      fail_counts = insert id 0 stopped.fail_counts;
    }

unfoldable pub unregister_instance : HealthChecker → Text → HealthChecker
unregister_instance hc id =
    let stopped = close_stop hc id in
    record stopped {
      configs = remove id stopped.configs;
      results = remove id stopped.results;
      fail_counts = remove id stopped.fail_counts;
    }

-- The old channel is closed, and its entry overwritten by that of the new one.
unfoldable pub start_checking : HealthChecker → Text → HealthChecker
start_checking hc id = elim (lookup id hc.configs) [
  | none ↦ hc
  | some config ↦
      let old : List ℕ = elim (lookup id hc.stop_chans) [
        | none ↦ hc.closed
        | some c ↦ c ∷ hc.closed
      ] in
      record hc { closed = old; stop_chans = insert id hc.made hc.stop_chans; made = suc hc.made }
]

unfoldable pub stop_checking : HealthChecker → Text → HealthChecker
stop_checking hc id = close_stop hc id

unfoldable pub get_health : HealthChecker → Text → Option HealthCheckResult
get_health hc id = lookup id hc.results

unfoldable pub has_health_check : HealthChecker → Text → Bool
has_health_check hc id = elim (lookup id hc.configs) [ none ↦ false | some c ↦ true ]

abbrev pub same_health : HealthStatus → HealthStatus → Bool
same_health healthy healthy = true
same_health unhealthy unhealthy = true
same_health starting starting = true
same_health unknown unknown = true
same_health unset unset = true
same_health _ _ = false

abbrev pub remove_at : ℕ → List Transition → List Transition
remove_at place [] = []
remove_at zero (t ∷ ts) = ts
remove_at (suc place) (t ∷ ts) = t ∷ remove_at place ts

abbrev pub tail : List Transition → List Transition
tail [] = []
tail (t ∷ ts) = ts

-- The bounded queue: a full one gives up its oldest transition. `go hc.drainNotifications()` is one
-- goroutine more, which is started only where none was busy.
unfoldable pub notify : HealthChecker → Text → HealthStatus → HealthStatus → HealthChecker
notify hc id from to =
    let t : Transition = record { instance_id = id; from = from; to = to } in
    let started = if not hc.notify_busy then suc hc.drainers else hc.drainers in
    if same_health from to || hc.callbacks == 0
    then hc
    else if leb max_pending_notifications (length hc.notify_queue)
    then record hc {
      notify_queue = tail hc.notify_queue ++ t ∷ [];
      notify_busy = true;
      drainers = started;
      dropped = suc hc.dropped;
    }
    else record hc {
      notify_queue = hc.notify_queue ++ t ∷ [];
      notify_busy = true;
      drainers = started;
    }

-- The critical section of `drainNotifications`, by one of its goroutines: it returns, or it goes on
-- to deliver the oldest transition.
unfoldable pub take_notification : ℕ → List Transition → HealthChecker → HealthChecker
take_notification zero q hc = hc
take_notification (suc n) [] hc = record hc { notify_busy = false; drainers = n }
take_notification (suc n) (t ∷ ts) hc = record hc {
  notify_queue = ts;
  drainers = n;
  delivering = hc.delivering ++ t ∷ [];
}

-- `deliver()` returns, in the goroutine that has the transition at `place`.
unfoldable pub end_delivery : HealthChecker → ℕ → HealthChecker
end_delivery hc place = elim (get_elem? hc.delivering place) [
  | none ↦ hc
  | some t ↦ record hc {
    drainers = suc hc.drainers;
    delivering = remove_at place hc.delivering;
    delivered = hc.delivered ++ t ∷ [];
  }
]

abbrev pub status_of : HealthChecker → Text → HealthStatus
status_of hc id = elim (lookup id hc.results) [ none ↦ unset | some r ↦ r.status ]

abbrev pub fail_count : HealthChecker → Text → ℕ
fail_count hc id = elim (lookup id hc.fail_counts) [ none ↦ 0 | some n ↦ n ]

unfoldable pub update_status : HealthChecker → Text → HealthStatus → Text → ℕ → HealthChecker
update_status hc id status message now =
    let r : HealthCheckResult = record {
      status = status;
      message = message;
      checked_at = now;
      exit_code = 0;
    } in
    notify (record hc { results = insert id r hc.results }) id (status_of hc id) status

-- What the command of a check came to: its exit code, or an error of the provider.
pub data CheckOutcome : Type 0 where
  exited : ℕ → CheckOutcome
  exec_error : Text → CheckOutcome

abbrev pub check_failed : CheckOutcome → Bool
check_failed (exited code) = not (code == 0)
check_failed (exec_error e) = true

abbrev pub exit_code_of : CheckOutcome → ℕ
exit_code_of (exited code) = code
exit_code_of (exec_error e) = 0

abbrev error_of : CheckOutcome → Text
error_of (exited code) = []
error_of (exec_error e) = e

abbrev pub retries_of : HealthCheckConfig → ℕ
retries_of config = if leb config.retries 0 then default_health_retries else config.retries

abbrev or_unknown : HealthStatus → HealthStatus
or_unknown unset = unknown
or_unknown s = s

abbrev pub check_status : HealthChecker → Text → HealthCheckConfig → CheckOutcome → HealthStatus
check_status hc id config outcome =
    if check_failed outcome
    then (if leb (retries_of config) (suc (fail_count hc id))
        then unhealthy
        else or_unknown (status_of hc id))
    else healthy

-- The message of a failure gives the error; the number behind it is in `exit_code`.
unfoldable pub check_result :
    HealthChecker → Text → HealthCheckConfig → CheckOutcome → ℕ → HealthCheckResult
check_result hc id config outcome now = record {
  status = check_status hc id config outcome;
  message =
      if check_failed outcome
      then codes "Check failed: " ++ error_of outcome
      else codes "Health check passed";
  checked_at = now;
  exit_code = if check_failed outcome then exit_code_of outcome else 0;
}

-- `runCheck`, from the moment that the command has ended.
unfoldable pub record_check :
    HealthChecker → Text → HealthCheckConfig → CheckOutcome → ℕ → HealthChecker
record_check hc id config outcome now =
    let r = check_result hc id config outcome now in
    notify
      (record hc {
        results = insert id r hc.results;
        fail_counts =
            insert id (if check_failed outcome then suc (fail_count hc id) else 0) hc.fail_counts;
      })
      id (status_of hc id) r.status

-- `runCheck` does nothing but to say so where there is no command.
unfoldable pub run_check :
    HealthChecker → Text → HealthCheckConfig → CheckOutcome → ℕ → HealthChecker
run_check hc id config outcome now = elim config.command [
  | [] ↦ update_status hc id unknown (codes "No health check command configured") now
  | c ∷ args ↦ record_check hc id config outcome now
]

-- A tick of a check loop brings the configuration that the loop was started with, and may still
-- come when its channel was just closed.
pub data Event : Type 0 where
  adds_callback drains : Event
  delivers : ℕ → Event
  registers : Text → HealthCheckConfig → ℕ → Event
  unregisters starts stops : Text → Event
  begins : Text → ℕ → Event
  ticks : Text → HealthCheckConfig → CheckOutcome → ℕ → Event

unfoldable pub step : HealthChecker → Event → HealthChecker
step hc adds_callback = on_health_change hc
step hc drains = take_notification hc.drainers hc.notify_queue hc
step hc (delivers place) = end_delivery hc place
step hc (registers id config now) = register_instance hc id config now
step hc (unregisters id) = unregister_instance hc id
step hc (starts id) = start_checking hc id
step hc (stops id) = stop_checking hc id
step hc (begins id now) = update_status hc id unknown (codes "Initial check pending") now
step hc (ticks id config outcome now) = run_check hc id config outcome now

unfoldable pub run : HealthChecker → List Event → HealthChecker
run hc [] = hc
run hc (e ∷ es) = run (step hc e) es
