-- ===== src/Stack/Manager.antt =====
-- pkg/orchestration/stack.go: the stack manager, with a store and a health checker as the daemon gives
-- it. An operation is one step here; what providers, the store and the clock answer is an input.
pub mod Deployment
pub mod Rollback
pub mod Rounds
pub mod Failure
pub mod Status
pub mod Loop
pub mod Success
pub mod Teardown
pub mod Frame
pub mod Destruction
pub mod Retry
pub mod Reload
mod Tests
use hospitus.Shared.{
  ℕ, suc, ◌+◌, Bool, true, false, not, ◌&&◌, ◌||◌, List, [], ◌∷◌, ◌++◌, Option, none, some, leb,
  ltb, if◌then◌else◌, every, length, Text, codes, Dict, lookup, insert, remove, same,
}
use hospitus.Health.{
  HealthStatus, starting, healthy, unhealthy, same_health, HealthChecker, HealthCheckConfig,
  default_health_retries, register_instance, unregister_instance, start_checking, stop_checking,
  has_health_check,
}
use hospitus.Health.Restart.{
  AutoRestarter, RestartPolicy, RestartTarget, set_policy_for, remove_policy,
}
use hospitus.Discovery.{ServiceRegistry, ServiceInfo, register, unregister, update_health}
use hospitus.Stack.{ℤ, pos, negsuc, HealthCheckSpec, RestartSpec, InstanceConfig}

pub data StackStatus : Type 0 where
  deploying running degraded stopped failed destroying : StackStatus

-- `handle` is the identifier that the provider gave.
pub record StackInstance : Type 0 where
  pub name : Text
  pub instance_id : Text
  pub provider : Text
  pub depends_on : List Text
  pub health : HealthStatus
  pub handle : Text

-- The row of an instance in the store: `handle` is the handle's JSON.
pub record StackInstanceRecord : Type 0 where
  pub stack_name : Text
  pub instance_name : Text
  pub instance_id : Text
  pub provider : Text
  pub depends_on : List Text
  pub health : HealthStatus
  pub handle : Text
  pub deploy_order : ℕ

pub record Stack : Type 0 where
  pub name : Text
  pub instances : List StackInstance
  pub status : StackStatus

-- `stack_rows` and `instance_rows` are the tables of the store, the second keyed by the names of the
-- stack and of the instance; `alive` has the handles of the instances that the providers hold, which is theirs and not the manager's.
pub record StackManager : Type 0 where
  pub stacks : Dict Stack
  pub stack_rows : Dict StackStatus
  pub instance_rows : Dict (Dict StackInstanceRecord)
  pub service_reg : ServiceRegistry
  pub health_checker : HealthChecker
  pub auto_restarter : Option AutoRestarter
  pub alive : List Text

-- What the outside answers: the registry for a provider's name; the wait for dependencies, the
-- conversion, the encoding, the store and the pause for an instance's name; the providers for a
-- handle, to a deletion also by what they hold. `encodes` is whether `json.Marshal` succeeds, and
-- `encoding` what it gives for a handle then.
pub record Answers : Type 0 where
  pub knows : Text → Bool
  pub waits : Text → Bool
  pub converts : Text → Bool
  pub creates : Text → Option Text
  pub starts : Text → Bool
  pub encodes : Text → Bool
  pub encoding : Text → Text
  pub records : Text → Bool
  pub continues : Text → Bool
  pub stops : Text → Bool
  pub deletes : List Text → Text → Bool
  pub persists : Text → Bool
  pub unrecords : Text → Bool
  pub now : ℕ

-- `stackName + stackInstanceDelimiter + inst.Name`.
abbrev pub instance_id_of : Text → Text → Text
instance_id_of stack name = stack ++ 95 ∷ name

-- `parseDurationDefault`.
abbrev pub duration_or : ℕ → Option ℕ → ℕ
duration_or default none = default
duration_or default (some d) = if leb d 0 then default else d

unfoldable pub health_spec_to_config : HealthCheckSpec → Option HealthCheckConfig
health_spec_to_config spec = elim spec.command [
  | [] ↦ none
  | c ∷ args ↦ some (record {
    command = c ∷ args;
    interval = duration_or 30 spec.interval;
    timeout = duration_or 10 spec.timeout;
    retries = if leb spec.retries 0 then default_health_retries else spec.retries;
    start_period = duration_or 0 spec.start_period;
  })
]

abbrev pub restart_default_delay : ℕ
restart_default_delay = 30

-- The restarter asks of its numbers only whether they are positive and whether less time than the
-- delay has gone by, so a negative one acts as 0 does.
abbrev pub positive_part : ℤ → ℕ
positive_part (pos n) = n
positive_part (negsuc n) = 0

abbrev given_or : ℤ → Option ℤ → ℤ
given_or default none = default
given_or default (some d) = d

unfoldable pub restart_spec_to_policy : RestartSpec → Option RestartPolicy
restart_spec_to_policy spec =
    if not spec.enabled
    then none
    else some (record {
      enabled = true;
      max_restarts = positive_part spec.max_restarts;
      restart_delay = positive_part (given_or (pos restart_default_delay) spec.delay);
      reset_counter_after = positive_part (given_or (pos 0) spec.reset_after);
    })

-- A status that cannot be persisted is only logged: `persists` says whether the row is written.
unfoldable pub update_stack_status : Answers → StackManager → Text → StackStatus → StackManager
update_stack_status ans sm name status = record sm {
  stacks = elim (lookup name sm.stacks) [
    | none ↦ sm.stacks
    | some s ↦ insert name (record s { status = status }) sm.stacks
  ];
  stack_rows =
      if ans.persists name
      then elim (lookup name sm.stack_rows) [
        | none ↦ sm.stack_rows
        | some old ↦ insert name status sm.stack_rows
      ]
      else sm.stack_rows;
}

abbrev pub drop_named : Text → List StackInstance → List StackInstance
drop_named name [] = []
drop_named name (i ∷ is) =
    let rest = drop_named name is in if same i.name name then rest else i ∷ rest

-- A handle is gone once.
abbrev pub drop_one : Text → List Text → List Text
drop_one h [] = []
drop_one h (x ∷ xs) = let rest = drop_one h xs in if same x h then xs else x ∷ rest

abbrev pub drop_instance : Text → Text → Dict Stack → Dict Stack
drop_instance stack name stacks = elim (lookup stack stacks) [
  | none ↦ stacks
  | some s ↦ insert stack (record s { instances = drop_named name s.instances }) stacks
]

abbrev pub rows_of : Text → Dict (Dict StackInstanceRecord) → Dict StackInstanceRecord
rows_of stack rows = elim (lookup stack rows) [ none ↦ [] | some r ↦ r ]

-- `len(stack.Instances)`, of the stack as it is listed.
abbrev pub deploy_order_of : Text → Dict Stack → ℕ
deploy_order_of stack stacks = elim (lookup stack stacks) [ none ↦ 0 | some s ↦ length s.instances ]

-- The record that is built for the store.
abbrev pub record_of : Answers → Text → StackInstance → Dict Stack → StackInstanceRecord
record_of ans stack i stacks = record {
  stack_name = stack;
  instance_name = i.name;
  instance_id = i.instance_id;
  provider = i.provider;
  depends_on = i.depends_on;
  health = starting;
  handle = ans.encoding i.handle;
  deploy_order = deploy_order_of stack stacks;
}

-- `CreateStackInstance`.
abbrev pub insert_row :
    Text → StackInstanceRecord → Dict (Dict StackInstanceRecord) → Dict (Dict StackInstanceRecord)
insert_row stack row rows = insert stack (insert row.instance_name row (rows_of stack rows)) rows

abbrev pub remove_row :
    Text → Text → Dict (Dict StackInstanceRecord) → Dict (Dict StackInstanceRecord)
remove_row stack name rows = insert stack (remove name (rows_of stack rows)) rows

unfoldable pub forget_rolled_back_instance : Answers → StackManager → Text → Text → StackManager
forget_rolled_back_instance ans sm stack name = record sm {
  stacks = drop_instance stack name sm.stacks;
  health_checker = unregister_instance sm.health_checker (instance_id_of stack name);
  service_reg = unregister sm.service_reg stack name;
  instance_rows =
      if ans.unrecords name then remove_row stack name sm.instance_rows else sm.instance_rows;
}

pub record CreatedInstance : Type 0 where
  pub name : Text
  pub handle : Text
  pub provider : Text

-- The call of `DeleteInstance`.
abbrev pub delete_instance : Answers → StackManager → Text → StackManager
delete_instance ans sm handle =
    if ans.deletes sm.alive handle then record sm { alive = drop_one handle sm.alive } else sm

-- One round of the loop; the stop before the deletion changes nothing that is modelled.
unfoldable pub rollback_instance : Answers → StackManager → Text → CreatedInstance → StackManager
rollback_instance ans sm stack c =
    if ans.knows c.provider
    then forget_rolled_back_instance ans (delete_instance ans sm c.handle) stack c.name
    else sm

unfoldable pub rollback_created_instances :
    Answers → StackManager → Text → List CreatedInstance → StackManager
rollback_created_instances ans sm stack [] = sm
rollback_created_instances ans sm stack (c ∷ cs) =
    rollback_created_instances ans (rollback_instance ans sm stack c) stack cs
