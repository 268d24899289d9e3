-- ===== src/Health/Channels.antt =====
-- No stop channel is closed twice, which would panic.
use hospitus.Shared.{
  ℕ, ◌≤◌, ◌≡◌, Bool, true, false, List, [], ◌∷◌, Option, none, some, ◌==◌, arith, inl, inr, Text,
  lookup, count, lookup-insert, lookup-remove, same, same_iff, Option-cases,
}
use hospitus.Health.{
  HealthChecker, HealthCheckConfig, CheckOutcome, HealthStatus, Event, adds_callback, drains,
  delivers, registers, unregisters, starts, stops, begins, ticks, new_health_checker,
  on_health_change, close_stop, register_instance, unregister_instance, start_checking,
  stop_checking, notify, take_notification, end_delivery, update_status, record_check, run_check,
  step, run,
}

abbrev pub leads : Option ℕ → ℕ → Bool
leads none c = false
leads (some b) c = b == c

-- What holds of two instances and a channel; the first two arguments say whether the map leads from
-- each instance to the channel, the third how often it was closed.
pub record ChannelFits (i j : Text) (from_i from_j : Bool) (closed c made : ℕ) : Type 0 where
  pub once : closed ≤ 1
  pub unmade : made ≤ c → closed ≡ 0
  pub unmade_unused : made ≤ c → from_i ≡ false
  pub open_ : from_i ≡ true → closed ≡ 0
  pub own : from_i ≡ true → from_j ≡ true → same i j ≡ true

abbrev pub ChannelsFit : HealthChecker → Type 0
ChannelsFit hc =
    (i j : Text) (c : ℕ)
    → ChannelFits i j (leads (lookup i hc.stop_chans) c) (leads (lookup j hc.stop_chans) c)
        (count c hc.closed) c hc.made

module _ (hc : HealthChecker) (id : Text) (f : ChannelsFit hc) where
  close_stop-ChannelsFit : ChannelsFit (close_stop hc id)
  unfolding close_stop
  close_stop-ChannelsFit i j c = elim (Option-cases (lookup id hc.stop_chans)) [
    | inl missing ↦ ground (arith, f i j c)
    | inr (b, found) ↦ ground (
      arith,
      f i j c,
      f i j b,
      f id i c,
      f id j c,
      f id id c,
      lookup-remove id i hc.stop_chans,
      lookup-remove id j hc.stop_chans,
    )
  ]

  start_checking-ChannelsFit : ChannelsFit (start_checking hc id)
  unfolding start_checking
  start_checking-ChannelsFit i j c = elim (Option-cases (lookup id hc.stop_chans)) [
    | inl missing ↦ ground (
      arith,
      f i j c,
      f j i c,
      lookup-insert id i hc.made hc.stop_chans,
      lookup-insert id j hc.made hc.stop_chans,
      same_iff id i,
      same_iff id j,
      same_iff i j,
    )
    | inr (b, found) ↦ ground (
      arith,
      f i j c,
      f j i c,
      f id i c,
      f id j c,
      f id id c,
      lookup-insert id i hc.made hc.stop_chans,
      lookup-insert id j hc.made hc.stop_chans,
      same_iff id i,
      same_iff id j,
      same_iff i j,
    )
  ]

notify-channels :
    (hc : HealthChecker) (id : Text) (s t : HealthStatus)
    → ((notify hc id s t).stop_chans ≡ hc.stop_chans)
      × ((notify hc id s t).closed ≡ hc.closed)
      × ((notify hc id s t).made ≡ hc.made)
unfolding notify
notify-channels hc id s t = ground arith

run_check-channels :
    (hc : HealthChecker) (id : Text) (config : HealthCheckConfig) (o : CheckOutcome) (now : ℕ)
    → ((run_check hc id config o now).stop_chans ≡ hc.stop_chans)
      × ((run_check hc id config o now).closed ≡ hc.closed)
      × ((run_check hc id config o now).made ≡ hc.made)
unfolding run_check update_status record_check notify
run_check-channels hc id config o now = ground arith

step-ChannelsFit : (hc : HealthChecker) (e : Event) → ChannelsFit hc → ChannelsFit (step hc e)
unfolding step
step-ChannelsFit hc adds_callback f i j c = unfold on_health_change in ground (arith, f i j c)
step-ChannelsFit hc drains f i j c = unfold take_notification in ground (arith, f i j c)
step-ChannelsFit hc (delivers place) f i j c = unfold end_delivery in ground (arith, f i j c)
step-ChannelsFit hc (registers id config now) f i j c =
    unfold register_instance in ground (arith, close_stop-ChannelsFit hc id f i j c)
step-ChannelsFit hc (unregisters id) f i j c =
    unfold unregister_instance in ground (arith, close_stop-ChannelsFit hc id f i j c)
step-ChannelsFit hc (starts id) f i j c = start_checking-ChannelsFit hc id f i j c
step-ChannelsFit hc (stops id) f i j c =
    unfold stop_checking in close_stop-ChannelsFit hc id f i j c
step-ChannelsFit hc (begins id now) f i j c = unfold update_status notify in ground (arith, f i j c)
step-ChannelsFit hc (ticks id config o now) f i j c =
    ground (arith, f i j c, run_check-channels hc id config o now)

new_health_checker-ChannelsFit : ChannelsFit new_health_checker
unfolding lookup
new_health_checker-ChannelsFit i j c = ground arith

run_from-ChannelsFit :
    (es : List Event) (hc : HealthChecker) → ChannelsFit hc → ChannelsFit (run hc es)
unfolding run
run_from-ChannelsFit [] hc f = f
run_from-ChannelsFit (e ∷ es) hc f = run_from-ChannelsFit es (step hc e) (step-ChannelsFit hc e f)

-- In every run from a new checker no channel is closed twice, and the channel that the map gives for
-- an instance was made, is open, and is given for that instance only.
pub run-ChannelsFit : (es : List Event) → ChannelsFit (run new_health_checker es)
run-ChannelsFit es = run_from-ChannelsFit es new_health_checker new_health_checker-ChannelsFit
