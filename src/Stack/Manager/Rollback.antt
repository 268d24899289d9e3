-- ===== src/Stack/Manager/Rollback.antt =====
-- pkg/orchestration/stack.go: what a rollback leaves of a deployment.
use hospitus.Shared.{
  ◌+◌, ◌-◌, ◌<◌, ◌≡◌, refl, sym, ◌∙◌, true, false, not, ◌&&◌, ◌||◌, List, [], ◌∷◌, ◌++◌, none, some,
  ltb, arith, if◌then◌else◌, All, Text, Dict, lookup, insert, remove, lookup-insert, lookup-remove,
  same, same_iff, same_refl, contains, subst,
}
use hospitus.Health.{HealthChecker, close_stop, unregister_instance}
use hospitus.Discovery.{service_key, unregister, get}
use hospitus.Stack.Degrees.{times}
use hospitus.Stack.Manager.{
  StackManager, Stack, StackInstance, StackInstanceRecord, Answers, CreatedInstance, failed,
  instance_id_of, rows_of, insert_row, remove_row, drop_named, drop_one, drop_instance,
  forget_rolled_back_instance, rollback_instance, rollback_created_instances, update_stack_status,
}

abbrev pub instance_names : List StackInstance → List Text
instance_names [] = []
instance_names (i ∷ is) = i.name ∷ instance_names is

abbrev pub made_names : List CreatedInstance → List Text
made_names [] = []
made_names (c ∷ cs) = c.name ∷ made_names cs

abbrev pub made_handles : List CreatedInstance → List Text
made_handles [] = []
made_handles (c ∷ cs) = c.handle ∷ made_handles cs

-- The stack is in the map with instances of `made` only, and the other stacks are as before.
pub record Listed (before stacks : Dict Stack) (stack : Text) (made : List CreatedInstance)
    : Type 0 where
  pub entry : Stack
  pub found : lookup stack stacks ≡ some entry
  pub named :
      (n : Text)
      → contains n (instance_names entry.instances) ≡ true
      → contains n (made_names made) ≡ true
  pub others : (k : Text) → same stack k ≡ false → lookup k stacks ≡ lookup k before

-- With `made` created, what the manager and the providers hold beyond `base` belongs to `made`.
pub record Clean (ans : Answers) (base sm : StackManager) (stack : Text)
    (made : List CreatedInstance) : Type 0 where
  pub known : All (λ c. ans.knows c.provider ≡ true) made
  pub alive : (k : Text) → times k sm.alive ≡ times k base.alive + times k (made_handles made)
  pub listed : Listed base.stacks sm.stacks stack made
  pub service :
      (n : Text) → contains n (made_names made) ≡ false → get sm.service_reg stack n ≡ none
  pub config :
      (n : Text)
      → contains n (made_names made) ≡ false
      → lookup (instance_id_of stack n) sm.health_checker.configs ≡ none
  pub row :
      (n : Text)
      → contains n (made_names made) ≡ false
      → lookup n (rows_of stack sm.instance_rows) ≡ none

same-append : (s t u : Text) → same (s ++ t) (s ++ u) ≡ same t u
unfolding same
same-append [] t u = refl
same-append (x ∷ s) t u = ground (arith, same-append s t u)

pub same-instance_id_of :
    (stack n m : Text) → same (instance_id_of stack n) (instance_id_of stack m) ≡ same n m
unfolding same
same-instance_id_of stack n m = same-append stack (95 ∷ n) (95 ∷ m) ∙ ground arith

pub same-service_key_one :
    (stack n m : Text) → same (service_key stack n) (service_key stack m) ≡ same n m
unfolding service_key same
same-service_key_one [] n m = refl
same-service_key_one (x ∷ stack) n m = same-append (x ∷ stack) (47 ∷ n) (47 ∷ m) ∙ ground arith

same_comm : (s t : Text) → same s t ≡ same t s
same_comm s t = ground (arith, same_iff s t, same_iff t s)

pub times-drop_one :
    (k h : Text) (xs : List Text)
    → times k (drop_one h xs)
      ≡ (if same h k && ltb 0 (times h xs) then times k xs - 1 else times k xs)
times-drop_one k h [] = ground arith
times-drop_one k h (x ∷ xs) =
    ground (arith, times-drop_one k h xs, same_iff x h, same_iff h k, same_iff x k)

contains-drop_named :
    (n m : Text) (is : List StackInstance)
    → contains n (instance_names (drop_named m is))
      ≡ (not (same n m) && contains n (instance_names is))
unfolding contains
contains-drop_named n m [] = ground arith
contains-drop_named n m (i ∷ is) =
    ground (arith, contains-drop_named n m is, same_iff n m, same_iff i.name m, same_iff n i.name)

pub configs-unregister :
    (hc : HealthChecker) (id : Text) → (unregister_instance hc id).configs ≡ remove id hc.configs
unfolding unregister_instance close_stop
configs-unregister hc id = ground arith

contains-made :
    (n : Text) (c : CreatedInstance) (cs : List CreatedInstance)
    → contains n (made_names (c ∷ cs)) ≡ (same n c.name || contains n (made_names cs))
unfolding contains
contains-made n c cs = refl

lookup-remove_row :
    (stack m n : Text) (rows : Dict (Dict StackInstanceRecord))
    → lookup n (rows_of stack (remove_row stack m rows))
      ≡ (if same m n then none else lookup n (rows_of stack rows))
lookup-remove_row stack m n rows = ground (
  arith,
  same_refl stack,
  lookup-insert stack stack (remove m (rows_of stack rows)) rows,
  lookup-remove m n (rows_of stack rows),
)

pub lookup-insert_row :
    (stack n : Text) (row : StackInstanceRecord) (rows : Dict (Dict StackInstanceRecord))
    → lookup n (rows_of stack (insert_row stack row rows))
      ≡ (if same row.instance_name n then some row else lookup n (rows_of stack rows))
lookup-insert_row stack n row rows = ground (
  arith,
  same_refl stack,
  lookup-insert stack stack (insert row.instance_name row (rows_of stack rows)) rows,
  lookup-insert row.instance_name n row (rows_of stack rows),
)

module _ (ans : Answers) (base : StackManager) (stack : Text)
    (deletes : (held : List Text) (h : Text) → 0 < times h held → ans.deletes held h ≡ true)
    (unrecords : (n : Text) → ans.unrecords n ≡ true) where
  module _ (sm : StackManager) (c : CreatedInstance) (cs : List CreatedInstance)
      (inv : Clean ans base sm stack (c ∷ cs)) where
    abbrev deleted : StackManager
    deleted = record sm { alive = drop_one c.handle sm.alive }

    rollback_instance-deleted :
        rollback_instance ans sm stack c ≡ forget_rolled_back_instance ans deleted stack c.name
    unfolding rollback_instance
    rollback_instance-deleted =
        let held : ans.deletes sm.alive c.handle ≡ true =
          deletes sm.alive c.handle (ground (arith, inv.alive c.handle, same_refl c.handle)) in
        ground (arith, held, inv.known)

    dropped-Listed : Listed base.stacks (drop_instance stack c.name sm.stacks) stack cs
    dropped-Listed =
        let l = inv.listed in
        let e : Stack = record l.entry { instances = drop_named c.name l.entry.instances } in
        record {
          entry = e;
          found = ground (arith, l.found, same_refl stack, lookup-insert stack stack e sm.stacks);
          named = λ n h. ground (
            arith,
            h,
            contains-drop_named n c.name l.entry.instances,
            l.named n,
            contains-made n c cs,
          );
          others = λ k h. ground (arith, h, l.found, l.others k, lookup-insert stack k e sm.stacks);
        }

    forgotten-Clean : Clean ans base (forget_rolled_back_instance ans deleted stack c.name) stack cs
    unfolding forget_rolled_back_instance unregister get
    forgotten-Clean = record {
      known = inv.known.1;
      alive = λ k. ground (
        arith,
        inv.alive k,
        inv.alive c.handle,
        times-drop_one k c.handle sm.alive,
        same_iff c.handle k,
        same_refl c.handle,
      );
      listed = dropped-Listed;
      service = λ n h. ground (
        arith,
        h,
        lookup-remove (service_key stack c.name) (service_key stack n) sm.service_reg,
        same-service_key_one stack c.name n,
        same_comm c.name n,
        inv.service n,
        contains-made n c cs,
      );
      config = λ n h. ground (
        arith,
        h,
        configs-unregister sm.health_checker (instance_id_of stack c.name),
        lookup-remove (instance_id_of stack c.name) (instance_id_of stack n)
            sm.health_checker.configs,
        same-instance_id_of stack c.name n,
        same_comm c.name n,
        inv.config n,
        contains-made n c cs,
      );
      row = λ n h. ground (
        arith,
        h,
        unrecords c.name,
        lookup-remove_row stack c.name n sm.instance_rows,
        same_comm c.name n,
        inv.row n,
        contains-made n c cs,
      );
    }

    rollback_instance-Clean : Clean ans base (rollback_instance ans sm stack c) stack cs
    rollback_instance-Clean =
        subst (λ x. Clean ans base x stack cs) (sym rollback_instance-deleted) forgotten-Clean

  pub rollback_created_instances-Clean :
      (made : List CreatedInstance) (sm : StackManager)
      → Clean ans base sm stack made
      → Clean ans base (rollback_created_instances ans sm stack made) stack []
  unfolding rollback_created_instances
  rollback_created_instances-Clean [] sm inv = inv
  rollback_created_instances-Clean (c ∷ cs) sm inv =
      rollback_created_instances-Clean cs (rollback_instance ans sm stack c)
        (rollback_instance-Clean sm c cs inv)

-- Only what `base` had is left, apart from the stack, which is listed as failed and empty.
pub record RolledBack (base sm : StackManager) (stack : Text) : Type 0 where
  pub alive : (k : Text) → times k sm.alive ≡ times k base.alive
  pub entry : Stack
  pub found : lookup stack sm.stacks ≡ some entry
  pub emptied : entry.instances ≡ []
  pub marked : entry.status ≡ failed
  pub others : (k : Text) → same stack k ≡ false → lookup k sm.stacks ≡ lookup k base.stacks
  pub service : (n : Text) → get sm.service_reg stack n ≡ none
  pub config : (n : Text) → lookup (instance_id_of stack n) sm.health_checker.configs ≡ none
  pub row : (n : Text) → lookup n (rows_of stack sm.instance_rows) ≡ none

nothing_named :
    (is : List StackInstance)
    → ((n : Text) → contains n (instance_names is) ≡ true → contains n [] ≡ true)
    → is ≡ []
unfolding contains
nothing_named [] h = refl
nothing_named (i ∷ is) h = ground (arith, h i.name, same_refl i.name)

pub update_stack_status-RolledBack :
    (ans : Answers) (base sm : StackManager) (stack : Text)
    → Clean ans base sm stack []
    → RolledBack base (update_stack_status ans sm stack failed) stack
unfolding update_stack_status contains
update_stack_status-RolledBack ans base sm stack inv =
    let e : Stack = record inv.listed.entry { status = failed } in
    record {
      alive = λ k. ground (arith, inv.alive k);
      entry = e;
      found =
          ground (arith, inv.listed.found, same_refl stack, lookup-insert stack stack e sm.stacks);
      emptied = nothing_named inv.listed.entry.instances inv.listed.named;
      marked = refl;
      others = λ k h.
          ground
            (arith, h, inv.listed.found, inv.listed.others k, lookup-insert stack k e sm.stacks);
      service = λ n. inv.service n refl;
      config = λ n. inv.config n refl;
      row = λ n. inv.row n refl;
    }
