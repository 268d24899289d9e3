-- ===== src/Stack/Manager/Status.antt =====
-- pkg/orchestration/stack.go: LoadStacks and onHealthChange.
use hospitus.Shared.{
  Bool, true, false, not, List, [], ◌∷◌, Option, none, some, if◌then◌else◌, every, leb, Text, same,
  Dict, insert,
}
use hospitus.Health.{HealthStatus, healthy, unhealthy, same_health, new_health_checker}
use hospitus.Discovery.{update_health}
use hospitus.Stack.Manager.{
  StackStatus, running, degraded, stopped, destroying, StackInstance, StackInstanceRecord, Stack,
  StackManager, rows_of,
}

-- A new daemon over the same store and the same providers.
abbrev pub restarted : StackManager → StackManager
restarted sm = record sm {
  stacks = [];
  service_reg = [];
  health_checker = new_health_checker;
  auto_restarter = none;
}

abbrev pub values_of : Dict StackInstanceRecord → List StackInstanceRecord
values_of [] = []
values_of ((name, row) ∷ m) = row ∷ values_of m

abbrev pub insert_by_order :
    StackInstanceRecord → List StackInstanceRecord → List StackInstanceRecord
insert_by_order row [] = row ∷ []
insert_by_order row (r ∷ rows) =
    let rest = insert_by_order row rows in
    if leb row.deploy_order r.deploy_order then row ∷ r ∷ rows else r ∷ rest

-- `ORDER BY deploy_order`.
abbrev pub by_order : List StackInstanceRecord → List StackInstanceRecord
by_order [] = []
by_order (row ∷ rows) = insert_by_order row (by_order rows)

abbrev pub get_stack_instances : Text → Dict (Dict StackInstanceRecord) → List StackInstanceRecord
get_stack_instances stack rows = by_order (values_of (rows_of stack rows))

-- `json.Unmarshal`, which is not called for an empty text.
abbrev pub handle_of : (Text → Option Text) → Text → Option Text
handle_of decodes [] = some []
handle_of decodes (c ∷ json) = decodes (c ∷ json)

-- A row whose handle cannot be decoded is skipped.
abbrev pub decoded : (Text → Option Text) → List StackInstanceRecord → List StackInstance
decoded decodes [] = []
decoded decodes (row ∷ rows) =
    let rest = decoded decodes rows in
    elim (handle_of decodes row.handle) [
      | none ↦ rest
      | some handle ↦
          (record {
            name = row.instance_name;
            instance_id = row.instance_id;
            provider = row.provider;
            depends_on = row.depends_on;
            health = row.health;
            handle = handle;
          })
          ∷ rest
    ]

-- `reads` says whether the instances of a stack can be read, which is skipped else.
unfoldable pub load_each :
    (Text → Bool)
    → (Text → Option Text)
    → Dict (Dict StackInstanceRecord)
    → Dict StackStatus
    → Dict Stack
    → Dict Stack
load_each reads decodes rows [] stacks = stacks
load_each reads decodes rows ((name, status) ∷ records) stacks =
    let s : Stack = record {
      name = name;
      instances = decoded decodes (get_stack_instances name rows);
      status = status;
    } in
    load_each reads decodes rows records (if reads name then insert name s stacks else stacks)

-- The second component is false when the stacks cannot be listed.
unfoldable pub load_stacks :
    Bool → (Text → Bool) → (Text → Option Text) → StackManager → StackManager × Bool
load_stacks lists reads decodes sm =
    if lists
    then (
      record sm { stacks = load_each reads decodes sm.instance_rows sm.stack_rows sm.stacks },
      true,
    )
    else (sm, false)

abbrev keeps_status : StackStatus → Bool
keeps_status stopped = true
keeps_status destroying = true
keeps_status _ = false

abbrev is_unhealthy : StackInstance → Bool
is_unhealthy i = same_health i.health unhealthy

abbrev is_healthy : StackInstance → Bool
is_healthy i = same_health i.health healthy

unfoldable pub update_stack_health_status : Stack → Stack
update_stack_health_status s =
    if keeps_status s.status
    then s
    else if not (every (λ i. not (is_unhealthy i)) s.instances)
    then record s { status = degraded }
    else if every is_healthy s.instances
    then record s { status = running }
    else s

-- The name of the instance, and the instances with its new health.
unfoldable pub mark_health :
    Text → HealthStatus → List StackInstance → Option (Text × List StackInstance)
mark_health id changed_to [] = none
mark_health id changed_to (i ∷ is) =
    let rest = mark_health id changed_to is in
    if same i.instance_id id
    then some (i.name, (record i { health = changed_to }) ∷ is)
    else elim rest [ none ↦ none | some found ↦ some (found.0, i ∷ found.1) ]

-- The first stack that lists the instance; Go leaves the order of the stacks open.
unfoldable pub change_in : Text → HealthStatus → Dict Stack → Option ((Text × Text) × Dict Stack)
change_in id changed_to [] = none
change_in id changed_to ((key, s) ∷ stacks) =
    let rest = change_in id changed_to stacks in
    elim (mark_health id changed_to s.instances) [
      | some found ↦ some (
        (s.name, found.0),
        (key, update_stack_health_status (record s { instances = found.1 })) ∷ stacks,
      )
      | none ↦ elim rest [ none ↦ none | some changed ↦ some (changed.0, (key, s) ∷ changed.1) ]
    ]

unfoldable pub on_health_change : StackManager → Text → HealthStatus → StackManager
on_health_change sm id changed_to = elim (change_in id changed_to sm.stacks) [
  | none ↦ sm
  | some changed ↦ record sm {
    stacks = changed.1;
    service_reg = update_health sm.service_reg changed.0.0 changed.0.1 changed_to;
  }
]
