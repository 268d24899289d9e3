-- ===== src/Health/Restart/Spacing.antt =====
-- pkg/orchestration/health.go: the delay between restarts.
use hospitus.Shared.{
  ℕ, length, ◌+◌, ◌≤◌, ◌<◌, ◌≡◌, inl, inr, refl, sym, ap, ◌∙◌, List, [], ◌∷◌, Option, none, some,
  arith, if◌then◌else◌, Bool-cases, Text, lookup, lookup-insert, same, same_iff,
}
use mathlib.Core.Path.{subst}
use hospitus.Health.{HealthStatus}
use hospitus.Health.Restart.{
  AutoRestarter, RestartPolicy, RestartEvent, changes, records, record_next, IsSerial,
  on_status_change, record_restart, react, react_all,
}
use hospitus.Health.Restart.Decisions.{
  on_status_change-policy, on_status_change-restarts, on_status_change-spawned,
  on_status_change-waited, on_status_change-last, times,
}

-- Each time is a delay or more behind the one before it; the latest stands first.
abbrev pub IsSpaced : ℕ → List ℕ → Type 0
IsSpaced delay [] = Unit
IsSpaced delay (t ∷ []) = Unit
IsSpaced delay (t ∷ u ∷ ts) = (u + delay ≤ t) × IsSpaced delay (u ∷ ts)

abbrev latest : List ℕ → Option ℕ
latest [] = none
latest (t ∷ ts) = some t

cons-IsSpaced :
    (delay t : ℕ) (ts : List ℕ)
    → ((u : ℕ) → latest ts ≡ some u → u + delay ≤ t)
    → IsSpaced delay ts
    → IsSpaced delay (t ∷ ts)
cons-IsSpaced delay t [] h spaced = tt
cons-IsSpaced delay t (u ∷ ts) h spaced = (h u refl, spaced)

-- `clock` is the time of the last event.
record Delayed (id : Text) (policy : RestartPolicy) (clock : ℕ) (ar : AutoRestarter) : Type 0 where
  found : lookup id ar.restart_policy ≡ some policy
  single : length ar.spawned ≤ 1
  kept : lookup id ar.last_restart ≡ latest (times id ar.restarts)
  spaced : IsSpaced policy.restart_delay (times id ar.restarts)
  due :
      ar.spawned ≡ id ∷ []
      → (u : ℕ) → latest (times id ar.restarts) ≡ some u
      → u + policy.restart_delay ≤ clock

module _ (id : Text) (policy : RestartPolicy) (delayed : 0 < policy.restart_delay) where
  -- A restart of this instance is started late enough.
  started-late :
      (ar : AutoRestarter) (status : HealthStatus) (clock now u : ℕ)
      → Delayed id policy clock ar
      → ar.spawned ≡ []
      → (on_status_change ar id status now).spawned ≡ id ∷ []
      → latest (times id ar.restarts) ≡ some u
      → u + policy.restart_delay ≤ now
  started-late ar status clock now u inv idle e before =
      let waited =
        on_status_change-waited ar id status now u policy idle e inv.found (inv.kept ∙ before) in
      omega (arith, waited, delayed)

  head-same : (x y : Text) (q : List Text) → q ≡ x ∷ [] → q ≡ y ∷ [] → x ≡ y
  head-same x y q e f = ground (arith, e, f)

  changes-Delayed :
      (ar : AutoRestarter) (other : Text) (status : HealthStatus) (clock now : ℕ)
      → ar.spawned ≡ []
      → Delayed id policy clock ar
      → Delayed id policy now (on_status_change ar other status now)
  changes-Delayed ar other status clock now idle inv =
      let after : AutoRestarter = on_status_change ar other status now in
      let restarts : after.restarts ≡ ar.restarts = on_status_change-restarts ar other status now in
      record {
        found = ground (arith, on_status_change-policy ar other status now, inv.found);
        single = elim (on_status_change-spawned ar other status now idle) [
          | inl e ↦ ground (arith, e)
          | inr e ↦ ground (arith, e)
        ];
        kept = ground (arith, inv.kept, restarts, on_status_change-last ar other status now);
        spaced =
            subst (λ rs. IsSpaced policy.restart_delay (times id rs)) (sym restarts) inv.spaced;
        due = λ own u before. elim (on_status_change-spawned ar other status now idle) [
          | inl e ↦ ground (arith, e, own)
          | inr e ↦
              let named : other ≡ id = head-same other id after.spawned e own in
              started-late ar status clock now u inv idle
                (ap (λ i. (on_status_change ar i status now).spawned) (sym named) ∙ own)
                (ap (λ rs. latest (times id rs)) (sym restarts) ∙ before)
        ];
      }

  records-Delayed :
      (q : List Text) (ar : AutoRestarter) (clock now : ℕ)
      → clock ≤ now
      → ar.spawned ≡ q
      → Delayed id policy clock ar
      → Delayed id policy now (record_next q ar now)
  unfolding record_restart
  records-Delayed [] ar clock now le e inv = record {
    found = inv.found;
    single = inv.single;
    kept = inv.kept;
    spaced = inv.spaced;
    due = λ own u before. ground (arith, e, own);
  }
  records-Delayed (x ∷ y ∷ xs) ar clock now le e inv =
      absurd (ground (arith, ap length e, inv.single))
  records-Delayed (x ∷ []) ar clock now le e inv = record {
    found = inv.found;
    single = omega arith;
    kept = ground (arith, inv.kept, same_iff x id, lookup-insert x id now ar.last_restart);
    spaced =
        if-IsSpaced x now (times id ar.restarts)
          (λ own u before.
            let waited = inv.due (e ∙ ap (λ i. i ∷ []) own) u before in omega (arith, waited, le))
          inv.spaced;
    due = λ own u before. ground (arith, own);
  }
    where
      if-IsSpaced :
          (other : Text) (t : ℕ) (ts : List ℕ)
          → (other ≡ id → (u : ℕ) → latest ts ≡ some u → u + policy.restart_delay ≤ t)
          → IsSpaced policy.restart_delay ts
          → IsSpaced policy.restart_delay (if same other id then t ∷ ts else ts)
      if-IsSpaced other t ts h spaced = elim (Bool-cases (same other id)) [
        | inl e ↦
            subst (λ b. IsSpaced policy.restart_delay (if b then t ∷ ts else ts)) (sym e)
              (cons-IsSpaced policy.restart_delay t ts (h (ground (arith, same_iff other id)))
                spaced)
        | inr e ↦
            subst (λ b. IsSpaced policy.restart_delay (if b then t ∷ ts else ts)) (sym e) spaced
      ]

  react_all-Delayed :
      (es : List RestartEvent) (ar : AutoRestarter) (clock : ℕ)
      → IsSerial ar clock es
      → Delayed id policy clock ar
      → IsSpaced policy.restart_delay (times id (react_all ar es).restarts)
  unfolding react_all react
  react_all-Delayed [] ar clock serial inv = inv.spaced
  react_all-Delayed (changes other status now ∷ es) ar clock serial inv =
      react_all-Delayed es (on_status_change ar other status now) now serial.1.1
        (changes-Delayed ar other status clock now serial.1.0 inv)
  react_all-Delayed (records now ∷ es) ar clock serial inv =
      react_all-Delayed es (record_next ar.spawned ar now) now serial.1
        (records-Delayed ar.spawned ar clock now serial.0 refl inv)

  -- With a policy that sets a delay, two restarts of an instance that was not restarted before are
  -- at least that delay apart, whatever its status does, in every run in which time does not go back
  -- and no change comes between the start of a restart and its recording.
  pub react_all-IsSpaced :
      (ar : AutoRestarter) (clock : ℕ) (es : List RestartEvent)
      → IsSerial ar clock es
      → lookup id ar.restart_policy ≡ some policy
      → ar.spawned ≡ []
      → ar.restarts ≡ []
      → ar.last_restart ≡ []
      → IsSpaced policy.restart_delay (times id (react_all ar es).restarts)
  unfolding lookup
  react_all-IsSpaced ar clock es serial found idle new_restarts new_last =
      react_all-Delayed es ar clock serial (record {
        found = found;
        single = ground arith;
        kept = ground arith;
        spaced = subst (λ rs. IsSpaced policy.restart_delay (times id rs)) (sym new_restarts) tt;
        due = λ own u before. ground (arith, idle, own);
      })
