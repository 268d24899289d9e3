-- ===== src/Stack/Manager/Frame.antt =====
-- pkg/orchestration/stack.go: what DestroyStack leaves alone.
use hospitus.Shared.{
  Option, ◌∙◌, ◌≡◌, refl, false, List, [], ◌∷◌, none, some, arith, if◌then◌else◌, Text, lookup,
  lookup-remove, same, same_iff, contains,
}
use hospitus.Health.{start_checking, stop_checking, close_stop}
use hospitus.Health.Restart.{AutoRestarter, RestartPolicy, remove_policy}
use hospitus.Discovery.{service_key, unregister}
use hospitus.Stack.Manager.{StackManager, StackInstance, Answers}
use hospitus.Stack.Manager.Teardown.{
  watch_again, watch_no_more, without_policy, forget_destroyed, destroy_instance, destroy_instances,
}
use hospitus.Stack.Manager.Rollback.{configs-unregister}

abbrev pub ids_of : List StackInstance → List Text
ids_of [] = []
ids_of (i ∷ is) = i.instance_id ∷ ids_of is

abbrev pub service_keys : Text → List StackInstance → List Text
service_keys stack [] = []
service_keys stack (i ∷ is) = service_key stack i.name ∷ service_keys stack is

abbrev pub policy_of : Option AutoRestarter → Text → Option RestartPolicy
policy_of none id = none
policy_of (some ar) id = lookup id ar.restart_policy

pub policy_of-without_policy :
    (restarter : Option AutoRestarter) (id other : Text)
    → policy_of (without_policy id restarter) other
      ≡ (if same id other then none else policy_of restarter other)
unfolding remove_policy
policy_of-without_policy none id other = ground arith
policy_of-without_policy (some ar) id other =
    ground (arith, lookup-remove id other ar.restart_policy)

configs-watch_again :
    (sm : StackManager) (i : StackInstance)
    → (watch_again sm i).health_checker.configs ≡ sm.health_checker.configs
unfolding watch_again start_checking
configs-watch_again sm i = ground arith

pub configs-watch_no_more :
    (sm : StackManager) (i : StackInstance)
    → (watch_no_more sm i).health_checker.configs ≡ sm.health_checker.configs
unfolding watch_no_more stop_checking close_stop
configs-watch_no_more sm i = ground arith

module _ (ans : Answers) (stack : Text) where
  -- What an instance of the stack does not own stays as it was.
  pub record Kept (is : List StackInstance) (sm after : StackManager) : Type 0 where
    pub stack_rows : after.stack_rows ≡ sm.stack_rows
    pub instance_rows : after.instance_rows ≡ sm.instance_rows
    pub services :
        (key : Text)
        → contains key (service_keys stack is) ≡ false
        → lookup key after.service_reg ≡ lookup key sm.service_reg
    pub checks :
        (id : Text)
        → contains id (ids_of is) ≡ false
        → lookup id after.health_checker.configs ≡ lookup id sm.health_checker.configs
    pub policies :
        (id : Text)
        → contains id (ids_of is) ≡ false
        → policy_of after.auto_restarter id ≡ policy_of sm.auto_restarter id

  destroy_instance-Kept :
      (i : StackInstance) (sm : StackManager) → Kept (i ∷ []) sm (destroy_instance ans stack sm i).0
  unfolding destroy_instance forget_destroyed unregister contains
  destroy_instance-Kept i sm =
      let quiet : StackManager = watch_no_more sm i in
      record {
        stack_rows = unfold watch_no_more watch_again in ground arith;
        instance_rows = unfold watch_no_more watch_again in ground arith;
        services = λ key h.
            unfold watch_no_more watch_again in
            ground (
              arith,
              h,
              same_iff key (service_key stack i.name),
              same_iff (service_key stack i.name) key,
              lookup-remove (service_key stack i.name) key sm.service_reg,
            );
        checks = λ id h. ground (
          arith,
          h,
          same_iff id i.instance_id,
          same_iff i.instance_id id,
          configs-unregister quiet.health_checker i.instance_id,
          configs-watch_no_more sm i,
          configs-watch_again quiet i,
          lookup-remove i.instance_id id sm.health_checker.configs,
        );
        policies = λ id h.
            unfold watch_no_more watch_again in
            ground (
              arith,
              h,
              same_iff id i.instance_id,
              same_iff i.instance_id id,
              policy_of-without_policy sm.auto_restarter i.instance_id id,
            );
      }

  pub destroy_instances-Kept :
      (is : List StackInstance) (sm : StackManager)
      → Kept is sm (destroy_instances ans stack sm is).0
  unfolding destroy_instances contains
  destroy_instances-Kept [] sm = record {
    stack_rows = refl;
    instance_rows = refl;
    services = λ key h. refl;
    checks = λ id h. refl;
    policies = λ id h. refl;
  }
  destroy_instances-Kept (i ∷ is) sm =
      let later : StackManager = (destroy_instances ans stack sm is).0 in
      let rest = destroy_instances-Kept is sm in
      let this = destroy_instance-Kept i later in
      record {
        stack_rows = this.stack_rows ∙ rest.stack_rows;
        instance_rows = this.instance_rows ∙ rest.instance_rows;
        services =
            λ key h. this.services key (ground (arith, h)) ∙ rest.services key (ground (arith, h));
        checks = λ id h. this.checks id (ground (arith, h)) ∙ rest.checks id (ground (arith, h));
        policies =
            λ id h. this.policies id (ground (arith, h)) ∙ rest.policies id (ground (arith, h));
      }
