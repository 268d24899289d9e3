-- ===== src/Discovery/Refinement.antt =====
-- pkg/orchestration/discovery.go: the registry as its users see it, a partial map from a stack and a
-- service to what is known of it.
use hospitus.Shared.{
  ◌≡◌, refl, inl, inr, Bool, true, ◌&&◌, List, [], ◌∷◌, Option, none, some, arith, if◌then◌else◌,
  All, Text, lookup, insert, remove, lookup-insert, lookup-remove, same, same_iff, Option-cases,
}
use hospitus.Health.{HealthStatus}
use hospitus.Discovery.{
  ServiceRegistry, ServiceInfo, service_key, register, unregister, get, update_health,
  update_service_status,
}
use hospitus.Discovery.Names.{is_slashless, same-service_key}

pub data Call : Type 0 where
  registers : ServiceInfo → Call
  unregisters : Text → Text → Call
  marks_health : Text → Text → HealthStatus → Call
  marks_status : Text → Text → Text → Call

unfoldable pub call : ServiceRegistry → Call → ServiceRegistry
call sr (registers info) = register sr info
call sr (unregisters s n) = unregister sr s n
call sr (marks_health s n h) = update_health sr s n h
call sr (marks_status s n t) = update_service_status sr s n t

unfoldable pub run_calls : ServiceRegistry → List Call → ServiceRegistry
run_calls sr [] = sr
run_calls sr (c ∷ cs) = run_calls (call sr c) cs

-- What is known of a service of a stack.
abbrev pub View : Type 0
View = Text → Text → Option ServiceInfo

abbrev pub update : View → Text → Text → Option ServiceInfo → View
update f s n w s' n' = if same s s' && same n n' then w else f s' n'

abbrev pub change : (ServiceInfo → ServiceInfo) → Option ServiceInfo → Option ServiceInfo
change g none = none
change g (some i) = some (g i)

abbrev pub replay_call : View → Call → View
replay_call f (registers info) = update f info.stack_name info.name (some info)
replay_call f (unregisters s n) = update f s n none
replay_call f (marks_health s n h) = update f s n (change (λ i. record i { health = h }) (f s n))
replay_call f (marks_status s n t) = update f s n (change (λ i. record i { status = t }) (f s n))

abbrev pub replay : View → List Call → View
replay f [] = f
replay f (c ∷ cs) = replay (replay_call f c) cs

abbrev pub is_plain : Text → Text → Bool
is_plain s n = is_slashless s && is_slashless n

abbrev pub is_plain_call : Call → Bool
is_plain_call (registers info) = is_plain info.stack_name info.name
is_plain_call (unregisters s n) = is_plain s n
is_plain_call (marks_health s n h) = is_plain s n
is_plain_call (marks_status s n t) = is_plain s n

-- A registry reads as a view at all names without a slash.
abbrev pub Reads : ServiceRegistry → View → Type 0
Reads sr f = (s n : Text) → is_plain s n ≡ true → get sr s n ≡ f s n

module _ (sr : ServiceRegistry) (f : View) (reads : Reads sr f) (s n s' n' : Text)
    (p : is_plain s n ≡ true) (p' : is_plain s' n' ≡ true) where
  keys : same (service_key s n) (service_key s' n') ≡ (same s s' && same n n')
  keys =
      same-service_key s n s' n' (ground (arith, p)) (ground (arith, p)) (ground (arith, p'))
        (ground (arith, p'))

  insert-reads :
      (i : ServiceInfo) → get (insert (service_key s n) i sr) s' n' ≡ update f s n (some i) s' n'
  unfolding get
  insert-reads i =
      ground (arith, keys, lookup-insert (service_key s n) (service_key s' n') i sr, reads s' n' p')

  remove-reads : get (remove (service_key s n) sr) s' n' ≡ update f s n none s' n'
  unfolding get
  remove-reads =
      ground (arith, keys, lookup-remove (service_key s n) (service_key s' n') sr, reads s' n' p')

  update_health-reads :
      (h : HealthStatus)
      → get (update_health sr s n h) s' n' ≡ replay_call f (marks_health s n h) s' n'
  unfolding update_health get
  update_health-reads h = elim (Option-cases (lookup (service_key s n) sr)) [
    | inl e ↦ ground (arith, e, reads s n p, reads s' n' p', same_iff s s', same_iff n n')
    | inr (i, e) ↦ ground (arith, e, reads s n p, insert-reads (record i { health = h }))
  ]

  update_service_status-reads :
      (t : Text)
      → get (update_service_status sr s n t) s' n' ≡ replay_call f (marks_status s n t) s' n'
  unfolding update_service_status get
  update_service_status-reads t = elim (Option-cases (lookup (service_key s n) sr)) [
    | inl e ↦ ground (arith, e, reads s n p, reads s' n' p', same_iff s s', same_iff n n')
    | inr (i, e) ↦ ground (arith, e, reads s n p, insert-reads (record i { status = t }))
  ]

call-Reads :
    (sr : ServiceRegistry) (f : View) (c : Call)
    → is_plain_call c ≡ true
    → Reads sr f
    → Reads (call sr c) (replay_call f c)
unfolding call register unregister
call-Reads sr f (registers info) p r s' n' p' =
    insert-reads sr f r info.stack_name info.name s' n' p p' info
call-Reads sr f (unregisters s n) p r s' n' p' = remove-reads sr f r s n s' n' p p'
call-Reads sr f (marks_health s n h) p r s' n' p' = update_health-reads sr f r s n s' n' p p' h
call-Reads sr f (marks_status s n t) p r s' n' p' =
    update_service_status-reads sr f r s n s' n' p p' t

run_from-Reads :
    (cs : List Call) (sr : ServiceRegistry) (f : View)
    → All (λ c. is_plain_call c ≡ true) cs
    → Reads sr f
    → Reads (run_calls sr cs) (replay f cs)
unfolding run_calls
run_from-Reads [] sr f a r = r
run_from-Reads (c ∷ cs) sr f a r =
    run_from-Reads cs (call sr c) (replay_call f c) a.1 (call-Reads sr f c a.0 r)

-- After any calls whose names have no slash, the registry gives for each such name what the same
-- calls leave in a map from pairs of a stack and a service, starting from the empty one.
pub run_calls-Reads :
    (cs : List Call)
    → All (λ c. is_plain_call c ≡ true) cs
    → Reads (run_calls [] cs) (replay (λ s n. none) cs)
unfolding get lookup
run_calls-Reads cs a = run_from-Reads cs [] (λ s n. none) a (λ s n p. refl)
