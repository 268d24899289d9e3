-- ===== src/Stack/Manager/Deployment.antt =====
-- pkg/orchestration/stack.go: DeployStack, with its rollback on every failure.
use hospitus.Shared.{
  Bool, true, false, not, ◌&&◌, List, [], ◌∷◌, ◌++◌, Option, none, some, if◌then◌else◌, every, Text,
  codes, Dict, lookup, insert, remove,
}
use hospitus.Health.{
  starting, HealthChecker, HealthCheckConfig, has_health_check, register_instance, start_checking,
}
use hospitus.Health.Restart.{AutoRestarter, set_policy_for}
use hospitus.Discovery.{ServiceRegistry, ServiceInfo, register}
use hospitus.Stack.{
  HealthCheckSpec, InstanceConfig, Ordered, ordered, refused, build_dependency_order,
}
use hospitus.Stack.Manager.{
  StackManager, Stack, StackInstance, Answers, CreatedInstance, deploying, running, failed,
  instance_id_of, insert_row, record_of, health_spec_to_config, restart_spec_to_policy,
  update_stack_status, rollback_created_instances,
}

-- Dependencies without a health check are refused at once; the poll is an answer.
unfoldable pub wait_for_dependencies : Answers → StackManager → Text → InstanceConfig → Bool
wait_for_dependencies ans sm stack inst =
    every (λ d. has_health_check sm.health_checker (instance_id_of stack d)) inst.services
    && ans.waits inst.name

pub data Deploying : Type 0 where
  going : StackManager → List CreatedInstance → Deploying
  broken : StackManager → Deploying

unfoldable pub break_off : Answers → StackManager → Text → List CreatedInstance → Deploying
break_off ans sm stack created =
    broken (update_stack_status ans (rollback_created_instances ans sm stack created) stack failed)

abbrev pub stack_instance : Text → InstanceConfig → Text → StackInstance
stack_instance stack inst handle = record {
  name = inst.name;
  instance_id = instance_id_of stack inst.name;
  provider = inst.provider;
  depends_on = inst.services;
  health = starting;
  handle = handle;
}

-- `stack.Instances = append(...)`.
abbrev pub append_to : Text → StackInstance → Dict Stack → Dict Stack
append_to stack i stacks = elim (lookup stack stacks) [
  | none ↦ stacks
  | some s ↦ insert stack (record s { instances = s.instances ++ i ∷ [] }) stacks
]

abbrev pub service_info : Text → InstanceConfig → ServiceInfo
service_info stack inst = record {
  name = inst.name;
  stack_name = stack;
  addresses = inst.addresses;
  ports = inst.ports;
  status = codes "running";
  health = starting;
  labels = [];
}

unfoldable pub register_service : ServiceRegistry → Text → InstanceConfig → ServiceRegistry
register_service sr stack inst = register sr (service_info stack inst)

abbrev pub checked_by :
    Answers → HealthChecker → Text → Text → Option HealthCheckConfig → HealthChecker
checked_by ans hc id handle none = hc
checked_by ans hc id handle (some config) =
    start_checking (register_instance hc id config ans.now) handle

abbrev pub watched : Answers → HealthChecker → Text → Text → Option HealthCheckSpec → HealthChecker
watched ans hc id handle none = hc
watched ans hc id handle (some spec) = checked_by ans hc id handle (health_spec_to_config spec)

abbrev pub with_policy : InstanceConfig → Text → Option AutoRestarter → Option AutoRestarter
with_policy inst handle none = none
with_policy inst handle (some ar) = elim inst.restart [
  | none ↦ some ar
  | some spec ↦ elim (restart_spec_to_policy spec) [
    | none ↦ some ar
    | some policy ↦ some (
        set_policy_for ar (record { provider = inst.provider; handle = handle; metadata = [] })
          policy)
  ]
]

-- The service, the health check and the restart policy.
unfoldable pub manage_instance :
    Answers → StackManager → Text → InstanceConfig → Text → StackManager
manage_instance ans sm stack inst handle = record sm {
  service_reg = register_service sm.service_reg stack inst;
  health_checker =
      watched ans sm.health_checker (instance_id_of stack inst.name) handle inst.health_check;
  auto_restarter = with_policy inst handle sm.auto_restarter;
}

-- From the recording in the stack on.
unfoldable pub settle_instance :
    Answers → StackManager → Text → InstanceConfig → Text → List CreatedInstance → Deploying
settle_instance ans sm stack inst handle created =
    let i = stack_instance stack inst handle in
    let listed = record sm { stacks = append_to stack i sm.stacks } in
    let recorded = record listed {
      instance_rows = insert_row stack (record_of ans stack i listed.stacks) listed.instance_rows;
    } in
    let done = manage_instance ans recorded stack inst handle in
    if not (ans.encodes inst.name && ans.records inst.name)
    then break_off ans listed stack created
    else if ans.continues inst.name
    then going done created
    else break_off ans done stack created

-- One round of the loop of `DeployStack`.
unfoldable pub deploy_instance :
    Answers → Text → StackManager → List CreatedInstance → InstanceConfig → Deploying
deploy_instance ans stack sm created inst =
    if inst.when_healthy && not (wait_for_dependencies ans sm stack inst)
    then break_off ans sm stack created
    else if not (ans.knows inst.provider && ans.converts inst.name)
    then break_off ans sm stack created
    else elim (ans.creates (instance_id_of stack inst.name)) [
      | none ↦ break_off ans sm stack created
      | some handle ↦
          let made = record sm { alive = handle ∷ sm.alive } in
          let c : CreatedInstance = record {
            name = inst.name;
            handle = handle;
            provider = inst.provider;
          } in
          if not (ans.starts handle)
          then break_off ans made stack (created ++ c ∷ [])
          else settle_instance ans made stack inst handle (created ++ c ∷ [])
    ]

unfoldable pub deploy_instances :
    Answers → Text → StackManager → List CreatedInstance → List InstanceConfig → Deploying
deploy_instances ans stack sm created [] = going sm created
deploy_instances ans stack sm created (i ∷ is) = elim (deploy_instance ans stack sm created i) [
  | broken sm' ↦ broken sm'
  | going sm' created' ↦ deploy_instances ans stack sm' created' is
]

abbrev pub finish_deploy : Answers → Text → Deploying → StackManager × Bool
finish_deploy ans stack (going sm created) = (update_stack_status ans sm stack running, true)
finish_deploy ans stack (broken sm) = (sm, false)

-- The stack in the map and its row.
unfoldable pub begin_deploy : StackManager → Text → StackManager
begin_deploy sm stack = record sm {
  stacks = insert stack (record { name = stack; instances = []; status = deploying }) sm.stacks;
  stack_rows = insert stack deploying sm.stack_rows;
}

abbrev pub deploy_in_order : Answers → StackManager → Text → Ordered → StackManager × Bool
deploy_in_order ans sm stack (refused e) = (update_stack_status ans sm stack failed, false)
deploy_in_order ans sm stack (ordered order) =
    finish_deploy ans stack (deploy_instances ans stack sm [] order)

-- `persists_new` says whether the store takes the row. The second component is false for an error.
unfoldable pub deploy_stack :
    Answers → Bool → StackManager → Text → List InstanceConfig → StackManager × Bool
deploy_stack ans persists_new sm stack instances = elim (lookup stack sm.stacks) [
  | some s ↦ (sm, false)
  | none ↦
      let begun = begin_deploy sm stack in
      if not persists_new
      then (record sm { stacks = remove stack begun.stacks }, false)
      else deploy_in_order ans begun stack (build_dependency_order instances)
]
