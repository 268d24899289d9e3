-- ===== src/Health/Sequence.antt =====
-- Transitions reach the callbacks in the order in which they happened.
use mathlib.Core.Path.{subst}
use hospitus.Shared.{
  ℕ, zero, suc, Bool, true, false, length, arith, ◌≤◌, ◌≡◌, ◌∙◌, refl, sym, ap, ◌||◌, List, [], ◌∷◌,
  ◌++◌, ◌==◌, if◌then◌else◌, Text, codes, insert, lookup-insert, same_refl,
}
use mathlib.Core.List.{append_assoc, append-nil}
use hospitus.Health.Threshold.{lookup-results, notify-results, run_check-record_check}
use hospitus.Health.Delivery.{
  DeliveryFits, busy_count, step-DeliveryFits, new_health_checker-DeliveryFits,
}
use hospitus.Health.{
  check_result, HealthCheckResult, HealthChecker, HealthCheckConfig, CheckOutcome, HealthStatus,
  Transition, unknown, Event, adds_callback, drains, delivers, registers, unregisters, starts,
  stops, begins, ticks, new_health_checker, on_health_change, close_stop, register_instance,
  unregister_instance, start_checking, stop_checking, notify, take_notification, end_delivery,
  update_status, record_check, run_check, step, run, same_health, status_of,
}

-- What a status change of one instance gives to deliver.
abbrev pub changed : ℕ → Text → HealthStatus → HealthStatus → List Transition
changed callbacks id s t =
    if same_health s t || callbacks == 0
    then []
    else record { instance_id = id; from = s; to = t } ∷ []

-- What an event adds: the change of the status that it writes, seen from outside.
abbrev pub produced : HealthChecker → Event → List Transition
produced hc (begins id now) =
    changed hc.callbacks id (status_of hc id) (status_of (step hc (begins id now)) id)
produced hc (ticks id config o now) =
    changed hc.callbacks id (status_of hc id) (status_of (step hc (ticks id config o now)) id)
produced hc _ = []

abbrev pub history : HealthChecker → List Event → List Transition
history hc [] = []
history hc (e ∷ es) = produced hc e ++ history (step hc e) es

-- All that was delivered, behind it what is being delivered, and behind that what waits for it.
abbrev pub pending : HealthChecker → List Transition
pending hc = hc.delivered ++ (hc.delivering ++ hc.notify_queue)

module _ (hc : HealthChecker) (id : Text) (s t : HealthStatus) where
  notify-pending :
      (notify hc id s t).dropped ≡ hc.dropped
      → pending (notify hc id s t) ≡ pending hc ++ changed hc.callbacks id s t
  unfolding notify
  notify-pending same_drops =
      let new : Transition = record { instance_id = id; from = s; to = t } in
      ground (
        arith,
        append-nil (pending hc),
        append_assoc hc.delivering hc.notify_queue (new ∷ []),
        append_assoc hc.delivered (hc.delivering ++ hc.notify_queue) (new ∷ []),
      )

  notify-dropped : hc.dropped ≤ (notify hc id s t).dropped
  unfolding notify
  notify-dropped = ground arith

  notify-callbacks : (notify hc id s t).callbacks ≡ hc.callbacks
  unfolding notify
  notify-callbacks = ground arith

module _ (hc : HealthChecker) (id : Text) (now : ℕ) where
  update_status-status :
      (s : HealthStatus) (message : Text) → status_of (update_status hc id s message now) id ≡ s
  unfolding update_status
  update_status-status s message =
      let r : HealthCheckResult = record {
        status = s;
        message = message;
        checked_at = now;
        exit_code = 0;
      } in
      ground (
        arith,
        notify-results (record hc { results = insert id r hc.results }) id (status_of hc id) s,
        lookup-insert id id r hc.results,
        same_refl id,
      )

  update_status-pending :
      (s : HealthStatus) (message : Text)
      → (update_status hc id s message now).dropped ≡ hc.dropped
      → pending (update_status hc id s message now)
        ≡ pending hc ++ changed hc.callbacks id (status_of hc id) s
  unfolding update_status
  update_status-pending s message same_drops = notify-pending _ id (status_of hc id) s same_drops

  record_check-pending :
      (config : HealthCheckConfig) (o : CheckOutcome)
      → (record_check hc id config o now).dropped ≡ hc.dropped
      → pending (record_check hc id config o now)
        ≡ pending hc
          ++ changed hc.callbacks id (status_of hc id) (check_result hc id config o now).status
  unfolding record_check
  record_check-pending config o same_drops = notify-pending _ id (status_of hc id) _ same_drops

  record_check-status :
      (config : HealthCheckConfig) (o : CheckOutcome)
      → status_of (record_check hc id config o now) id ≡ (check_result hc id config o now).status
  record_check-status config o = ground (arith, lookup-results hc id config o now)

  -- One more transition is pending, if the status of the instance is another in `h`.
  abbrev Grows : HealthChecker → Type 0
  Grows h =
      h.dropped ≡ hc.dropped
      → pending h ≡ pending hc ++ changed hc.callbacks id (status_of hc id) (status_of h id)

  update_status-Grows :
      (s : HealthStatus) (message : Text) → Grows (update_status hc id s message now)
  update_status-Grows s message d =
      update_status-pending s message d
      ∙ ap (λ t. pending hc ++ changed hc.callbacks id (status_of hc id) t)
          (sym (update_status-status s message))

  record_check-Grows :
      (config : HealthCheckConfig) (o : CheckOutcome) → Grows (record_check hc id config o now)
  record_check-Grows config o d =
      record_check-pending config o d
      ∙ ap (λ t. pending hc ++ changed hc.callbacks id (status_of hc id) t)
          (sym (record_check-status config o))

  run_check-update_status :
      (config : HealthCheckConfig) (o : CheckOutcome)
      → config.command ≡ []
      → run_check hc id config o now
        ≡ update_status hc id unknown (codes "No health check command configured") now
  unfolding run_check
  run_check-update_status config o e = rw (e, run_check)

  run_check-Grows :
      (config : HealthCheckConfig) (o : CheckOutcome) (command : List Text)
      → config.command ≡ command
      → Grows (run_check hc id config o now)
  run_check-Grows config o [] e =
      subst Grows (sym (run_check-update_status config o e)) (update_status-Grows unknown _)
  run_check-Grows config o (c ∷ args) e =
      subst Grows (sym (run_check-record_check hc id config o now (λ x. cc)))
        (record_check-Grows config o)

  update_status-dropped :
      (s : HealthStatus) (message : Text) → hc.dropped ≤ (update_status hc id s message now).dropped
  unfolding update_status
  update_status-dropped s message = notify-dropped _ id (status_of hc id) s

  record_check-dropped :
      (config : HealthCheckConfig) (o : CheckOutcome)
      → hc.dropped ≤ (record_check hc id config o now).dropped
  unfolding record_check
  record_check-dropped config o = notify-dropped _ id (status_of hc id) _

  run_check-dropped :
      (config : HealthCheckConfig) (o : CheckOutcome)
      → hc.dropped ≤ (run_check hc id config o now).dropped
  unfolding run_check
  run_check-dropped config o = ground (
    arith,
    update_status-dropped unknown (codes "No health check command configured"),
    record_check-dropped config o,
  )

take_notification-pending :
    (n : ℕ) (q : List Transition) (hc : HealthChecker)
    → hc.notify_queue ≡ q
    → pending (take_notification n q hc) ≡ pending hc
unfolding take_notification
take_notification-pending zero q hc e = refl
take_notification-pending (suc n) [] hc e = refl
take_notification-pending (suc n) (t ∷ ts) hc e =
    ap (λ l. hc.delivered ++ l)
      (append_assoc hc.delivering (t ∷ []) ts ∙ ap (λ q. hc.delivering ++ q) (sym e))

take_notification-dropped :
    (n : ℕ) (q : List Transition) (hc : HealthChecker)
    → hc.dropped ≤ (take_notification n q hc).dropped
unfolding take_notification
take_notification-dropped zero q hc = omega arith
take_notification-dropped (suc n) [] hc = omega arith
take_notification-dropped (suc n) (t ∷ ts) hc = omega arith

-- A delivery that is the only one keeps the order when it ends.
end_delivery-pending :
    (place : ℕ) (hc : HealthChecker) (d : List Transition)
    → hc.delivering ≡ d
    → length d ≤ 1
    → pending (end_delivery hc place) ≡ pending hc
unfolding end_delivery
end_delivery-pending place hc [] e h = ground (arith, e)
end_delivery-pending zero hc (t ∷ []) e h =
    ground (arith, e, append_assoc hc.delivered (t ∷ []) hc.notify_queue)
end_delivery-pending (suc place) hc (t ∷ []) e h = ground (arith, e)
end_delivery-pending place hc (t ∷ u ∷ d) e h = absurd (omega (arith, h))

busy_count_le : (b : Bool) → busy_count b ≤ 1
busy_count_le true = omega arith
busy_count_le false = omega arith

step-dropped : (hc : HealthChecker) (e : Event) → hc.dropped ≤ (step hc e).dropped
unfolding step
step-dropped hc adds_callback = unfold on_health_change in ground arith
step-dropped hc drains = take_notification-dropped hc.drainers hc.notify_queue hc
step-dropped hc (delivers place) = unfold end_delivery in ground arith
step-dropped hc (registers id config now) = unfold register_instance close_stop in ground arith
step-dropped hc (unregisters id) = unfold unregister_instance close_stop in ground arith
step-dropped hc (starts id) = unfold start_checking in ground arith
step-dropped hc (stops id) = unfold stop_checking close_stop in ground arith
step-dropped hc (begins id now) = update_status-dropped hc id now unknown _
step-dropped hc (ticks id config o now) = run_check-dropped hc id now config o

pending-nil : (hc h : HealthChecker) → pending h ≡ pending hc → pending h ≡ pending hc ++ []
pending-nil hc h e = e ∙ sym (append-nil (pending hc))

step-pending :
    (hc : HealthChecker) (e : Event)
    → DeliveryFits hc
    → (step hc e).dropped ≡ hc.dropped
    → pending (step hc e) ≡ pending hc ++ produced hc e
unfolding step
step-pending hc adds_callback f d =
    pending-nil hc (on_health_change hc) (unfold on_health_change in refl)
step-pending hc drains f d =
    pending-nil hc (take_notification hc.drainers hc.notify_queue hc)
      (take_notification-pending hc.drainers hc.notify_queue hc refl)
step-pending hc (delivers place) f d = pending-nil hc (end_delivery hc place) (
    end_delivery-pending place hc hc.delivering refl
      (omega (arith, f.single, busy_count_le hc.notify_busy)))
step-pending hc (registers id config now) f d =
    pending-nil hc (register_instance hc id config now)
      (unfold register_instance close_stop in ground arith)
step-pending hc (unregisters id) f d =
    pending-nil hc (unregister_instance hc id)
      (unfold unregister_instance close_stop in ground arith)
step-pending hc (starts id) f d =
    pending-nil hc (start_checking hc id) (unfold start_checking in ground arith)
step-pending hc (stops id) f d =
    pending-nil hc (stop_checking hc id) (unfold stop_checking close_stop in ground arith)
step-pending hc (begins id now) f d = update_status-Grows hc id now unknown _ d
step-pending hc (ticks id config o now) f d =
    run_check-Grows hc id now config o config.command refl d

run-dropped : (es : List Event) (hc : HealthChecker) → hc.dropped ≤ (run hc es).dropped
unfolding run
run-dropped [] hc = omega arith
run-dropped (e ∷ es) hc = omega (arith, step-dropped hc e, run-dropped es (step hc e))

run_from-pending :
    (es : List Event) (hc : HealthChecker)
    → DeliveryFits hc
    → (run hc es).dropped ≡ hc.dropped
    → pending (run hc es) ≡ pending hc ++ history hc es
unfolding run
run_from-pending [] hc f d = sym (append-nil (pending hc))
run_from-pending (e ∷ es) hc f d =
    run_from-pending es (step hc e) (step-DeliveryFits hc e f)
      (omega (arith, step-dropped hc e, run-dropped es (step hc e)))
    ∙ ap (λ p. p ++ history (step hc e) es)
        (step-pending hc e f (omega (arith, step-dropped hc e, run-dropped es (step hc e))))
    ∙ append_assoc (pending hc) (produced hc e) (history (step hc e) es)

-- In every run from a new checker in which no transition is dropped, whenever the goroutines take the
-- lock and whenever their deliveries end, what was delivered, behind it what is being delivered and
-- behind that what is queued are the status changes of the instances in the order in which they
-- happened, each once.
pub run-pending :
    (es : List Event)
    → (run new_health_checker es).dropped ≡ 0
    → pending (run new_health_checker es) ≡ history new_health_checker es
run-pending es d = run_from-pending es new_health_checker new_health_checker-DeliveryFits d
