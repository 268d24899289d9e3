-- ===== src/Health/Delivery.antt =====
-- Transitions reach the callbacks in the order in which they happened.
use hospitus.Shared.{
  ℕ, zero, suc, ◌+◌, ◌-◌, ◌≤◌, ◌≡◌, refl, ap, Bool, true, false, some, get_elem?, List, [], ◌∷◌,
  arith, length, length-append, Option-cases, inl, inr, Text, codes,
}
use hospitus.Health.{
  HealthChecker, HealthCheckConfig, CheckOutcome, HealthStatus, Transition, unknown, Event,
  adds_callback, drains, delivers, registers, unregisters, starts, stops, begins, ticks,
  new_health_checker, on_health_change, close_stop, register_instance, unregister_instance,
  start_checking, stop_checking, notify, take_notification, end_delivery, remove_at, update_status,
  record_check, run_check, step, run, tail, max_pending_notifications,
}

-- Whether `drainNotifications` runs: one goroutine, or none.
abbrev pub busy_count : Bool → ℕ
busy_count true = 1
busy_count false = 0

-- The queue is bounded, and one goroutine drains it whenever it is not empty; there is never another.
pub record DeliveryFits (hc : HealthChecker) : Type 0 where
  pub single : hc.drainers + length hc.delivering ≡ busy_count hc.notify_busy
  pub bounded : length hc.notify_queue ≤ max_pending_notifications
  pub served : hc.notify_busy ≡ false → hc.notify_queue ≡ []

length-tail : (ts : List Transition) → length (tail ts) ≡ length ts - 1
length-tail [] = omega arith
length-tail (t ∷ ts) = omega arith

notify-DeliveryFits :
    (hc : HealthChecker) (id : Text) (s t : HealthStatus)
    → DeliveryFits hc
    → DeliveryFits (notify hc id s t)
unfolding notify
notify-DeliveryFits hc id s t f =
    let new : Transition = record { instance_id = id; from = s; to = t } in
    ground (
      arith,
      length-append hc.notify_queue (new ∷ []),
      length-append (tail hc.notify_queue) (new ∷ []),
      length-tail hc.notify_queue,
    )

module _ (hc : HealthChecker) (id : Text) (f : DeliveryFits hc) where
  update_status-DeliveryFits :
      (s : HealthStatus) (message : Text) (now : ℕ)
      → DeliveryFits (update_status hc id s message now)
  unfolding update_status
  update_status-DeliveryFits s message now =
      notify-DeliveryFits _ id _ _
        (record { single = f.single; bounded = f.bounded; served = f.served })

  record_check-DeliveryFits :
      (config : HealthCheckConfig) (o : CheckOutcome) (now : ℕ)
      → DeliveryFits (record_check hc id config o now)
  unfolding record_check
  record_check-DeliveryFits config o now =
      notify-DeliveryFits _ id _ _
        (record { single = f.single; bounded = f.bounded; served = f.served })

  run_check-DeliveryFits :
      (config : HealthCheckConfig) (o : CheckOutcome) (now : ℕ)
      → DeliveryFits (run_check hc id config o now)
  unfolding run_check
  run_check-DeliveryFits config o now = ground (
    arith,
    update_status-DeliveryFits unknown (codes "No health check command configured") now,
    record_check-DeliveryFits config o now,
  )

take_notification-DeliveryFits :
    (n : ℕ) (q : List Transition) (hc : HealthChecker)
    → hc.drainers ≡ n
    → hc.notify_queue ≡ q
    → DeliveryFits hc
    → DeliveryFits (take_notification n q hc)
unfolding take_notification
take_notification-DeliveryFits zero q hc d e f = f
take_notification-DeliveryFits (suc n) [] hc d e f = ground (arith, ap length e)
take_notification-DeliveryFits (suc n) (t ∷ ts) hc d e f =
    ground (arith, ap length e, length-append hc.delivering (t ∷ []))

length-remove_at :
    (place : ℕ) (ts : List Transition) (t : Transition)
    → get_elem? ts place ≡ some t
    → suc (length (remove_at place ts)) ≡ length ts
length-remove_at place [] t e = ground (arith, e)
length-remove_at zero (u ∷ ts) t e = refl
length-remove_at (suc place) (u ∷ ts) t e = ground (arith, e, length-remove_at place ts t)

end_delivery-DeliveryFits :
    (hc : HealthChecker) (place : ℕ) → DeliveryFits hc → DeliveryFits (end_delivery hc place)
unfolding end_delivery
end_delivery-DeliveryFits hc place f = elim (Option-cases (get_elem? hc.delivering place)) [
  | inl missing ↦ ground (arith, missing)
  | inr found ↦ ground (arith, found.1, length-remove_at place hc.delivering found.0 found.1)
]

pub step-DeliveryFits :
    (hc : HealthChecker) (e : Event) → DeliveryFits hc → DeliveryFits (step hc e)
unfolding step
step-DeliveryFits hc adds_callback f = unfold on_health_change in ground arith
step-DeliveryFits hc drains f =
    take_notification-DeliveryFits hc.drainers hc.notify_queue hc refl refl f
step-DeliveryFits hc (delivers place) f = end_delivery-DeliveryFits hc place f
step-DeliveryFits hc (registers id config now) f =
    unfold register_instance close_stop in ground arith
step-DeliveryFits hc (unregisters id) f = unfold unregister_instance close_stop in ground arith
step-DeliveryFits hc (starts id) f = unfold start_checking in ground arith
step-DeliveryFits hc (stops id) f = unfold stop_checking close_stop in ground arith
step-DeliveryFits hc (begins id now) f = update_status-DeliveryFits hc id f unknown _ now
step-DeliveryFits hc (ticks id config o now) f = run_check-DeliveryFits hc id f config o now

pub run_from-DeliveryFits :
    (es : List Event) (hc : HealthChecker) → DeliveryFits hc → DeliveryFits (run hc es)
unfolding run
run_from-DeliveryFits [] hc f = f
run_from-DeliveryFits (e ∷ es) hc f =
    run_from-DeliveryFits es (step hc e) (step-DeliveryFits hc e f)

pub new_health_checker-DeliveryFits : DeliveryFits new_health_checker
new_health_checker-DeliveryFits = record {
  single = refl;
  bounded = omega arith;
  served = λ _. refl;
}

-- In every run from a new checker no more than 1024 transitions are queued, there is never more than
-- one goroutine that drains the queue, and whenever a transition is queued there is one, at the head
-- of its loop or in a delivery.
pub run-DeliveryFits : (es : List Event) → DeliveryFits (run new_health_checker es)
run-DeliveryFits es = run_from-DeliveryFits es new_health_checker new_health_checker-DeliveryFits
