-- ===== src/Stack/Manager/Destruction.antt =====
-- pkg/orchestration/stack.go: what DestroyStack leaves, and when it can come to its end.
use hospitus.Shared.{
  ◌-◌, ◌≤◌, ◌≡◌, refl, sym, subst, Bool, true, false, not, List, [], ◌∷◌, none, some, arith,
  if◌then◌else◌, Text, lookup, insert, lookup-insert, lookup-remove, same, same_iff, same_refl,
  contains,
}
use hospitus.Discovery.{service_key, unregister, get}
use hospitus.Stack.Degrees.{times}
use hospitus.Stack.Manager.{
  StackManager, Stack, StackInstance, Answers, degraded, destroying, update_stack_status,
}
use hospitus.Stack.Manager.Teardown.{
  Outcome, completed, incomplete, record_remains, watch_again, watch_no_more, forget_destroyed,
  destroy_instance, destroy_instances, remove_stack, destroy_stack,
}
use hospitus.Stack.Manager.Frame.{
  ids_of, service_keys, policy_of, policy_of-without_policy, configs-watch_no_more,
  destroy_instances-Kept,
}
use hospitus.Stack.Manager.Rollback.{
  instance_names, same-service_key_one, times-drop_one, configs-unregister,
}

abbrev pub handles_of : List StackInstance → List Text
handles_of [] = []
handles_of (i ∷ is) = i.handle ∷ handles_of is

module _ (ans : Answers) (stack : Text) where
  pub destroy_instances-stacks :
      (is : List StackInstance) (sm : StackManager)
      → (destroy_instances ans stack sm is).0.stacks ≡ sm.stacks
  unfolding destroy_instances destroy_instance forget_destroyed watch_no_more watch_again
  destroy_instances-stacks [] sm = refl
  destroy_instances-stacks (i ∷ is) sm = ground (arith, destroy_instances-stacks is sm)

  -- Nothing comes back, and one that is not held fails.
  pub destroy_instances-alive :
      (is : List StackInstance) (sm : StackManager) (k : Text)
      → times k (destroy_instances ans stack sm is).0.alive ≤ times k sm.alive
  unfolding destroy_instances destroy_instance forget_destroyed watch_no_more watch_again
  destroy_instances-alive [] sm k = ground arith
  destroy_instances-alive (i ∷ is) sm k = ground (
    arith,
    destroy_instances-alive is sm k,
    times-drop_one k i.handle (destroy_instances ans stack sm is).0.alive,
  )

  pub destroy_instances-held :
      (is : List StackInstance) (sm : StackManager) (k : Text)
      → (destroy_instances ans stack sm is).1 ≡ true
      → times k (destroy_instances ans stack sm is).0.alive
        ≡ times k sm.alive - times k (handles_of is)
  unfolding destroy_instances destroy_instance forget_destroyed watch_no_more watch_again
  destroy_instances-held [] sm k h = ground arith
  destroy_instances-held (i ∷ is) sm k h =
      let left : List Text = (destroy_instances ans stack sm is).0.alive in
      ground (
        arith,
        h,
        destroy_instances-held is sm k,
        times-drop_one k i.handle left,
        same_iff i.handle k,
      )

  pub destroy_instances-completes :
      (is : List StackInstance) (sm : StackManager)
      → ((name : Text) → ans.knows name ≡ true)
      → ((held : List Text) (h : Text) → ans.deletes held h ≡ true)
      → (destroy_instances ans stack sm is).1 ≡ true
  unfolding destroy_instances destroy_instance
  destroy_instances-completes [] sm knows deletes = refl
  destroy_instances-completes (i ∷ is) sm knows deletes = ground (
    arith,
    destroy_instances-completes is sm knows deletes,
    knows i.provider,
    deletes (destroy_instances ans stack sm is).0.alive i.handle,
  )

  destroy_instances-service :
      (is : List StackInstance) (sm : StackManager) (n : Text)
      → (destroy_instances ans stack sm is).1 ≡ true
      → contains n (instance_names is) ≡ true
      → get (destroy_instances ans stack sm is).0.service_reg stack n ≡ none
  unfolding destroy_instances destroy_instance forget_destroyed watch_no_more watch_again unregister
      get contains
  destroy_instances-service [] sm n h m = ground (arith, m)
  destroy_instances-service (i ∷ is) sm n h m = ground (
    arith,
    h,
    m,
    destroy_instances-service is sm n,
    same-service_key_one stack i.name n,
    same_iff n i.name,
    same_iff i.name n,
    lookup-remove (service_key stack i.name) (service_key stack n)
        (destroy_instances ans stack sm is).0.service_reg,
  )

  destroy_instances-config :
      (is : List StackInstance) (sm : StackManager) (id : Text)
      → (destroy_instances ans stack sm is).1 ≡ true
      → contains id (ids_of is) ≡ true
      → lookup id (destroy_instances ans stack sm is).0.health_checker.configs ≡ none
  unfolding destroy_instances destroy_instance forget_destroyed contains
  destroy_instances-config [] sm id h m = ground (arith, m)
  destroy_instances-config (i ∷ is) sm id h m =
      let left : StackManager = (destroy_instances ans stack sm is).0 in
      ground (
        arith,
        h,
        m,
        destroy_instances-config is sm id,
        same_iff id i.instance_id,
        same_iff i.instance_id id,
        configs-unregister (watch_no_more left i).health_checker i.instance_id,
        configs-watch_no_more left i,
        lookup-remove i.instance_id id left.health_checker.configs,
      )

  destroy_instances-policy :
      (is : List StackInstance) (sm : StackManager) (id : Text)
      → (destroy_instances ans stack sm is).1 ≡ true
      → contains id (ids_of is) ≡ true
      → policy_of (destroy_instances ans stack sm is).0.auto_restarter id ≡ none
  unfolding destroy_instances destroy_instance forget_destroyed watch_no_more contains
  destroy_instances-policy [] sm id h m = ground (arith, m)
  destroy_instances-policy (i ∷ is) sm id h m =
      let left : StackManager = (destroy_instances ans stack sm is).0 in
      ground (
        arith,
        h,
        m,
        destroy_instances-policy is sm id,
        same_iff id i.instance_id,
        same_iff i.instance_id id,
        policy_of-without_policy left.auto_restarter i.instance_id id,
      )

-- Of the stack `s` nothing is left in `after`, and what its instances do not own is as it was.
pub record Gone (before after : StackManager) (stack : Text) (s : Stack) : Type 0 where
  pub unlisted : lookup stack after.stacks ≡ none
  pub unrecorded : lookup stack after.stack_rows ≡ none
  pub rowless : lookup stack after.instance_rows ≡ none
  pub others : (k : Text) → same stack k ≡ false → lookup k after.stacks ≡ lookup k before.stacks
  pub other_rows :
      (k : Text)
      → same stack k ≡ false
      → (lookup k after.stack_rows ≡ lookup k before.stack_rows)
        × (lookup k after.instance_rows ≡ lookup k before.instance_rows)
  pub held :
      (k : Text) → times k after.alive ≡ times k before.alive - times k (handles_of s.instances)
  pub service :
      (n : Text)
      → contains n (instance_names s.instances) ≡ true
      → get after.service_reg stack n ≡ none
  pub config :
      (id : Text)
      → contains id (ids_of s.instances) ≡ true
      → lookup id after.health_checker.configs ≡ none
  pub policy :
      (id : Text)
      → contains id (ids_of s.instances) ≡ true
      → policy_of after.auto_restarter id ≡ none
  pub other_services :
      (key : Text)
      → contains key (service_keys stack s.instances) ≡ false
      → lookup key after.service_reg ≡ lookup key before.service_reg
  pub other_checks :
      (id : Text)
      → contains id (ids_of s.instances) ≡ false
      → lookup id after.health_checker.configs ≡ lookup id before.health_checker.configs
  pub other_policies :
      (id : Text)
      → contains id (ids_of s.instances) ≡ false
      → policy_of after.auto_restarter id ≡ policy_of before.auto_restarter id

module _ (ans : Answers) (removes : Bool) (sm : StackManager) (stack : Text) (s : Stack)
    (listed : lookup stack sm.stacks ≡ some s) where
  abbrev pub marked : StackManager
  marked = record sm { stacks = insert stack (record s { status = destroying }) sm.stacks }

  abbrev pub left : StackManager × Bool
  left = destroy_instances ans stack marked s.instances

  abbrev pub concluded : Bool → Bool → StackManager × Outcome
  concluded all_gone removed =
      if not all_gone
      then (update_stack_status ans left.0 stack degraded, incomplete)
      else if removed
      then (remove_stack left.0 stack, completed)
      else (left.0, record_remains)

  pub destroy_stack-concluded : destroy_stack ans removes sm stack ≡ concluded left.1 removes
  unfolding destroy_stack
  destroy_stack-concluded = ground (arith, listed)

  removed-Gone : left.1 ≡ true → Gone sm (remove_stack left.0 stack) stack s
  removed-Gone h =
      let kept = destroy_instances-Kept ans stack s.instances marked in
      record {
        unlisted = ground (arith, same_refl stack, lookup-remove stack stack left.0.stacks);
        unrecorded = ground (arith, same_refl stack, lookup-remove stack stack left.0.stack_rows);
        rowless = ground (arith, same_refl stack, lookup-remove stack stack left.0.instance_rows);
        others = λ k e. ground (
          arith,
          e,
          lookup-remove stack k left.0.stacks,
          destroy_instances-stacks ans stack s.instances marked,
          lookup-insert stack k (record s { status = destroying }) sm.stacks,
        );
        other_rows = λ k e. (
          ground (arith, e, lookup-remove stack k left.0.stack_rows, kept.stack_rows),
          ground (arith, e, lookup-remove stack k left.0.instance_rows, kept.instance_rows),
        );
        held = λ k. destroy_instances-held ans stack s.instances marked k h;
        service = λ n m. destroy_instances-service ans stack s.instances marked n h m;
        config = λ id m. destroy_instances-config ans stack s.instances marked id h m;
        policy = λ id m. destroy_instances-policy ans stack s.instances marked id h m;
        other_services = kept.services;
        other_checks = kept.checks;
        other_policies = kept.policies;
      }

  -- When the destruction of a listed stack completes, the stack and its rows are gone, none of its
  -- instances has a service, a health check or a restart policy, and each of their handles is held once
  -- less for each time it was listed and no other changes. The other stacks and their rows are as before,
  -- and so are the services under other keys, and the health checks and restart policies under
  -- identifiers that no instance of the stack has.
  pub destroy_stack-Gone :
      (destroy_stack ans removes sm stack).1 ≡ completed
      → Gone sm (destroy_stack ans removes sm stack).0 stack s
  destroy_stack-Gone h =
      subst (λ r. r.1 ≡ completed → Gone sm r.0 stack s) (sym destroy_stack-concluded)
        (by_result left.1 refl removes) h
    where
      by_result :
          (b : Bool)
          → left.1 ≡ b
          → (c : Bool) → (concluded b c).1 ≡ completed
          → Gone sm (concluded b c).0 stack s
      by_result true e true h = removed-Gone e
      by_result true e false h = ground (arith, h)
      by_result false e c h = ground (arith, h)
