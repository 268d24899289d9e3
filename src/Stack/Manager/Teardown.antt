-- ===== src/Stack/Manager/Teardown.antt =====
-- pkg/orchestration/stack.go: StopStack, StartStack and DestroyStack.
use hospitus.Shared.{
  Bool, true, false, not, ◌&&◌, List, [], ◌∷◌, Option, none, some, if◌then◌else◌, Text, lookup,
  insert, remove,
}
use hospitus.Health.{start_checking, stop_checking, unregister_instance}
use hospitus.Health.Restart.{AutoRestarter, remove_policy}
use hospitus.Discovery.{unregister}
use hospitus.Stack.Manager.{
  StackManager, StackInstance, Answers, running, degraded, stopped, destroying, update_stack_status,
  drop_one,
}

-- `not_found` is `ErrStackNotFound`, `incomplete` the errors of instances, `record_remains` that of
-- the store.
pub data Outcome : Type 0 where
  completed not_found incomplete record_remains : Outcome

unfoldable pub watch_again : StackManager → StackInstance → StackManager
watch_again sm i = record sm { health_checker = start_checking sm.health_checker i.handle }

unfoldable pub watch_no_more : StackManager → StackInstance → StackManager
watch_no_more sm i = record sm { health_checker = stop_checking sm.health_checker i.instance_id }

unfoldable pub stop_instance : Answers → StackManager → StackInstance → StackManager × Bool
stop_instance ans sm i =
    let unwatched = watch_no_more sm i in
    if not (ans.knows i.provider)
    then (unwatched, false)
    else if ans.stops i.handle
    then (unwatched, true)
    else (watch_again unwatched i, false)

-- In reverse; the second component is true when none failed.
unfoldable pub stop_instances : Answers → StackManager → List StackInstance → StackManager × Bool
stop_instances ans sm [] = (sm, true)
stop_instances ans sm (i ∷ is) =
    let later = stop_instances ans sm is in
    let this = stop_instance ans later.0 i in (this.0, later.1 && this.1)

unfoldable pub stop_stack : Answers → StackManager → Text → StackManager × Outcome
stop_stack ans sm stack = elim (lookup stack sm.stacks) [
  | none ↦ (sm, not_found)
  | some s ↦
      let r = stop_instances ans sm s.instances in
      if r.1
      then (update_stack_status ans r.0 stack stopped, completed)
      else (update_stack_status ans r.0 stack degraded, incomplete)
]

-- A cancellation in the pause leaves the status as it was.
unfoldable pub start_instances :
    Answers → Text → StackManager → List StackInstance → StackManager × Outcome
start_instances ans stack sm [] = (update_stack_status ans sm stack running, completed)
start_instances ans stack sm (i ∷ is) =
    let rest = start_instances ans stack (watch_again sm i) is in
    if not (ans.knows i.provider && ans.starts i.handle)
    then (update_stack_status ans sm stack degraded, incomplete)
    else if ans.continues i.name
    then rest
    else (watch_again sm i, incomplete)

unfoldable pub start_stack : Answers → StackManager → Text → StackManager × Outcome
start_stack ans sm stack = elim (lookup stack sm.stacks) [
  | none ↦ (sm, not_found)
  | some s ↦ start_instances ans stack sm s.instances
]

abbrev pub without_policy : Text → Option AutoRestarter → Option AutoRestarter
without_policy id none = none
without_policy id (some ar) = some (remove_policy ar id)

-- After the deletion.
unfoldable pub forget_destroyed : StackManager → Text → StackInstance → StackManager
forget_destroyed sm stack i = record sm {
  service_reg = unregister sm.service_reg stack i.name;
  health_checker = unregister_instance sm.health_checker i.instance_id;
  auto_restarter = without_policy i.instance_id sm.auto_restarter;
  alive = drop_one i.handle sm.alive;
}

unfoldable pub destroy_instance :
    Answers → Text → StackManager → StackInstance → StackManager × Bool
destroy_instance ans stack sm i =
    if not (ans.knows i.provider)
    then (sm, false)
    else if ans.deletes sm.alive i.handle
    then (forget_destroyed (watch_no_more sm i) stack i, true)
    else (watch_again (watch_no_more sm i) i, false)

-- In reverse; the second component is true when none failed.
unfoldable pub destroy_instances :
    Answers → Text → StackManager → List StackInstance → StackManager × Bool
destroy_instances ans stack sm [] = (sm, true)
destroy_instances ans stack sm (i ∷ is) =
    let later = destroy_instances ans stack sm is in
    let this = destroy_instance ans stack later.0 i in (this.0, later.1 && this.1)

-- The rows of the instances go with that of the stack, by the foreign key.
abbrev pub remove_stack : StackManager → Text → StackManager
remove_stack sm stack = record sm {
  stacks = remove stack sm.stacks;
  stack_rows = remove stack sm.stack_rows;
  instance_rows = remove stack sm.instance_rows;
}

-- `removes` says whether the store deletes the row of the stack.
unfoldable pub destroy_stack : Answers → Bool → StackManager → Text → StackManager × Outcome
destroy_stack ans removes sm stack = elim (lookup stack sm.stacks) [
  | none ↦ (sm, not_found)
  | some s ↦
      let marked = record sm {
        stacks = insert stack (record s { status = destroying }) sm.stacks;
      } in
      let r = destroy_instances ans stack marked s.instances in
      if not r.1
      then (update_stack_status ans r.0 stack degraded, incomplete)
      else if removes
      then (remove_stack r.0 stack, completed)
      else (r.0, record_remains)
]
