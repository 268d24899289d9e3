-- ===== src/Stack/Manager/Success.antt =====
-- pkg/orchestration/stack.go: DeployStack, where it returns no error.
use hospitus.Shared.{
  ◌<◌, ◌≡◌, refl, sym, ap, subst, ◌∙◌, Bool, true, false, ◌||◌, List, [], ◌∷◌, ◌++◌, Option, none,
  some, arith, All, Text, lookup, lookup-insert, same, same_iff, same_refl, contains,
}
use hospitus.Discovery.{service_key, register, get}
use hospitus.Stack.{InstanceConfig}
use hospitus.Stack.Degrees.{times}
use hospitus.Stack.Order.{names_of}
use hospitus.Stack.Acyclic.{IsOrderOf}
use hospitus.Stack.Manager.{
  record_of, StackManager, Stack, StackInstance, Answers, deploying, running, rows_of,
  update_stack_status,
}
use hospitus.Stack.Manager.Deployment.{
  append_to, stack_instance, register_service, service_info, manage_instance, begin_deploy,
  deploy_stack,
}
use hospitus.Stack.Manager.Rollback.{instance_names, same-service_key_one, lookup-insert_row}
use hospitus.Stack.Manager.Loop.{settled, deploy_stack-Accepted}

abbrev IsHeld : List Text → List StackInstance → Type 0
IsHeld alive is = All (λ i. 0 < times i.handle alive) is

instance_names-append :
    (is : List StackInstance) (i : StackInstance)
    → instance_names (is ++ i ∷ []) ≡ instance_names is ++ i.name ∷ []
instance_names-append [] i = refl
instance_names-append (x ∷ is) i = ap (λ ns. x.name ∷ ns) (instance_names-append is i)

contains-append_one :
    (n m : Text) (ns : List Text) → contains n (ns ++ m ∷ []) ≡ (contains n ns || same n m)
unfolding contains
contains-append_one n m [] = ground arith
contains-append_one n m (x ∷ ns) = ground (arith, contains-append_one n m ns)

append-IsHeld :
    (alive : List Text) (is : List StackInstance) (i : StackInstance)
    → IsHeld alive is
    → IsHeld (i.handle ∷ alive) (is ++ i ∷ [])
append-IsHeld alive [] i held = (ground (arith, same_refl i.handle), tt)
append-IsHeld alive (x ∷ is) i held = (ground (arith, held.0), append-IsHeld alive is i held.1)

abbrev is_some {ℓ} : {A : Type ℓ} → Option A → Bool
is_some none = false
is_some (some x) = true

-- With the names `done` deployed: the stack lists them in this order, the providers hold them, and
-- each has a service and a row.
pub record Placed (stack : Text) (sm : StackManager) (done : List Text) : Type 0 where
  pub entry : Stack
  pub found : lookup stack sm.stacks ≡ some entry
  pub named : instance_names entry.instances ≡ done
  pub held : IsHeld sm.alive entry.instances
  pub service : (n : Text) → contains n done ≡ true → is_some (get sm.service_reg stack n) ≡ true
  pub row :
      (n : Text)
      → contains n done ≡ true
      → is_some (lookup n (rows_of stack sm.instance_rows)) ≡ true

settled-Placed :
    (ans : Answers) (stack : Text) (sm : StackManager) (done : List Text) (inst : InstanceConfig)
    (handle : Text)
    → contains inst.name done ≡ false
    → Placed stack sm done
    → Placed stack (settled ans stack sm inst handle) (done ++ inst.name ∷ [])
unfolding manage_instance register_service register get
settled-Placed ans stack sm done inst handle apart p =
    let i : StackInstance = stack_instance stack inst handle in
    let e : Stack = record p.entry { instances = p.entry.instances ++ i ∷ [] } in
    record {
      entry = e;
      found = ground (arith, p.found, same_refl stack, lookup-insert stack stack e sm.stacks);
      named = instance_names-append p.entry.instances i ∙ ap (λ ns. ns ++ inst.name ∷ []) p.named;
      held = append-IsHeld sm.alive p.entry.instances i p.held;
      service = λ n h. ground (
        arith,
        h,
        contains-append_one n inst.name done,
        p.service n,
        same_iff n inst.name,
        same_refl n,
        same-service_key_one stack inst.name n,
        lookup-insert (service_key stack inst.name) (service_key stack n) (service_info stack inst)
            sm.service_reg,
      );
      row = λ n h. ground (
        arith,
        h,
        contains-append_one n inst.name done,
        p.row n,
        same_iff n inst.name,
        same_refl n,
        lookup-insert_row stack n (record_of ans stack i (append_to stack i sm.stacks))
            sm.instance_rows,
      );
    }

begin_deploy-Placed : (sm : StackManager) (stack : Text) → Placed stack (begin_deploy sm stack) []
unfolding begin_deploy contains
begin_deploy-Placed sm stack =
    let e : Stack = record { name = stack; instances = []; status = deploying } in
    record {
      entry = e;
      found = ground (arith, same_refl stack, lookup-insert stack stack e sm.stacks);
      named = refl;
      held = tt;
      service = λ n h. ground (arith, h);
      row = λ n h. ground (arith, h);
    }

-- What a deployment without an error leaves.
pub record Deployed (sm : StackManager) (stack : Text) (instances : List InstanceConfig)
    : Type 0 where
  pub order : List InstanceConfig
  pub in_order : IsOrderOf instances order
  pub placed : Placed stack sm (names_of order)
  pub marked : placed.entry.status ≡ running

running-Deployed :
    (ans : Answers) (sm : StackManager) (stack : Text) (instances order : List InstanceConfig)
    → IsOrderOf instances order
    → Placed stack sm (names_of order)
    → Deployed (update_stack_status ans sm stack running) stack instances
unfolding update_stack_status
running-Deployed ans sm stack instances order o p =
    let e : Stack = record p.entry { status = running } in
    record {
      order = order;
      in_order = o;
      placed = record {
        entry = e;
        found = ground (arith, p.found, same_refl stack, lookup-insert stack stack e sm.stacks);
        named = p.named;
        held = p.held;
        service = p.service;
        row = p.row;
      };
      marked = refl;
    }

-- When the deployment of a stack comes back without an error, there was no stack of that name, the
-- instances have an order with each behind all that it depends on, and the stack is running and lists
-- exactly them in that order, each held by a provider and with a service and a row.
pub deploy_stack-Deployed :
    (ans : Answers) (persists_new : Bool) (sm : StackManager) (stack : Text)
    (instances : List InstanceConfig)
    → (deploy_stack ans persists_new sm stack instances).1 ≡ true
    → (lookup stack sm.stacks ≡ none)
      × Deployed (deploy_stack ans persists_new sm stack instances).0 stack instances
deploy_stack-Deployed ans persists_new sm stack instances h =
    let a =
      deploy_stack-Accepted (Placed stack) ans stack (settled-Placed ans stack) persists_new sm
        instances (begin_deploy-Placed sm stack) h in
    (
      a.absent,
      subst (λ after. Deployed after stack instances) (sym a.result)
          (running-Deployed ans a.before stack instances a.order a.in_order a.holds),
    )
