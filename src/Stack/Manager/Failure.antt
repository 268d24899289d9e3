-- ===== src/Stack/Manager/Failure.antt =====
-- pkg/orchestration/stack.go: DeployStack, where it returns an error.
use hospitus.Shared.{
  ◌<◌, ◌≡◌, refl, sym, Bool, true, false, not, ◌&&◌, List, [], ◌∷◌, ◌++◌, Option, none, some, arith,
  if◌then◌else◌, Text, lookup, lookup-insert, same_iff, same_refl, contains, subst,
}
use hospitus.Discovery.{get}
use hospitus.Stack.{InstanceConfig, Ordered, ordered, refused, build_dependency_order}
use hospitus.Stack.Degrees.{times}
use hospitus.Stack.Manager.{
  StackManager, Stack, Answers, CreatedInstance, deploying, instance_id_of, rows_of, insert_row,
  record_of, rollback_created_instances,
}
use hospitus.Stack.Manager.Deployment.{
  Deploying, going, broken, break_off, stack_instance, append_to, manage_instance, settle_instance,
  deploy_instance, deploy_instances, finish_deploy, begin_deploy, deploy_in_order, deploy_stack,
  wait_for_dependencies,
}
use hospitus.Stack.Manager.Rounds.{
  contains-made_names-append, create-Clean, append_to-Clean, insert_row-Clean,
  manage_instance-Clean,
}
use hospitus.Stack.Manager.Rollback.{
  Clean, RolledBack, made_names, rollback_created_instances-Clean, update_stack_status-RolledBack,
}

module _ (ans : Answers) (base : StackManager) (stack : Text) where
  -- What the rounds of the loop leave.
  abbrev IsTidy : Deploying → Type 0
  IsTidy (going sm made) = Clean ans base sm stack made
  IsTidy (broken sm) = RolledBack base sm stack

  if-IsTidy :
      (b : Bool) (x y : Deploying) → IsTidy x → (b ≡ false → IsTidy y) → IsTidy (if b then x else y)
  if-IsTidy true x y tx ty = tx
  if-IsTidy false x y tx ty = ty refl

  module _ (deletes : (held : List Text) (h : Text) → 0 < times h held → ans.deletes held h ≡ true)
      (unrecords : (n : Text) → ans.unrecords n ≡ true) where
    break_off-IsTidy :
        (sm : StackManager) (made : List CreatedInstance)
        → Clean ans base sm stack made
        → IsTidy (break_off ans sm stack made)
    unfolding break_off
    break_off-IsTidy sm made inv =
        update_stack_status-RolledBack ans base (rollback_created_instances ans sm stack made) stack
          (rollback_created_instances-Clean ans base stack deletes unrecords made sm inv)

    module _ (sm : StackManager) (inst : InstanceConfig) (handle : Text)
        (made : List CreatedInstance) (m : contains inst.name (made_names made) ≡ true)
        (inv : Clean ans base sm stack made) where
      settle_instance-IsTidy : IsTidy (settle_instance ans sm stack inst handle made)
      unfolding settle_instance
      settle_instance-IsTidy =
          let i = stack_instance stack inst handle in
          let listed : StackManager = record sm { stacks = append_to stack i sm.stacks } in
          let recorded : StackManager = record listed {
            instance_rows =
                insert_row stack (record_of ans stack i listed.stacks) listed.instance_rows;
          } in
          let done : StackManager = manage_instance ans recorded stack inst handle in
          let listed-inv : Clean ans base listed stack made =
            append_to-Clean ans base stack sm made inv i m in
          let done-inv : Clean ans base done stack made =
            manage_instance-Clean ans base stack recorded made
              (insert_row-Clean ans base stack listed made listed-inv i m) inst handle m in
          if-IsTidy (not (ans.encodes inst.name && ans.records inst.name))
            (break_off ans listed stack made)
            (if ans.continues inst.name then going done made else break_off ans done stack made)
            (break_off-IsTidy listed made listed-inv)
            (λ e.
              if-IsTidy (ans.continues inst.name) (going done made) (break_off ans done stack made)
                done-inv (λ e'. break_off-IsTidy done made done-inv))

    module _ (sm : StackManager) (made : List CreatedInstance) (inst : InstanceConfig)
        (inv : Clean ans base sm stack made) where
      created-IsTidy :
          (c : CreatedInstance)
          → c.name ≡ inst.name
          → ans.knows c.provider ≡ true
          → IsTidy (
              if not (ans.starts c.handle)
              then break_off ans (record sm { alive = c.handle ∷ sm.alive }) stack (made ++ c ∷ [])
              else settle_instance ans
                  (record sm { alive = c.handle ∷ sm.alive })
                  stack
                  inst
                  c.handle
                  (made ++ c ∷ []))
      created-IsTidy c same_name k =
          let sm' : StackManager = record sm { alive = c.handle ∷ sm.alive } in
          let made' : List CreatedInstance = made ++ c ∷ [] in
          let inv' : Clean ans base sm' stack made' = create-Clean ans base stack sm made inv c k in
          let m : contains inst.name (made_names made') ≡ true = ground (
            arith,
            same_name,
            contains-made_names-append inst.name made c,
            same_iff inst.name c.name,
          ) in
          if-IsTidy (not (ans.starts c.handle)) (break_off ans sm' stack made')
            (settle_instance ans sm' stack inst c.handle made') (break_off-IsTidy sm' made' inv')
            (λ e. settle_instance-IsTidy sm' inst c.handle made' m inv')

      deploy_instance-IsTidy : IsTidy (deploy_instance ans stack sm made inst)
      unfolding deploy_instance
      deploy_instance-IsTidy =
          let off : IsTidy (break_off ans sm stack made) = break_off-IsTidy sm made inv in
          if-IsTidy (inst.when_healthy && not (wait_for_dependencies ans sm stack inst))
            (break_off ans sm stack made) _ off
            (λ e.
              if-IsTidy (not (ans.knows inst.provider && ans.converts inst.name))
                (break_off ans sm stack made) _ off
                (λ known.
                  creation (ground (arith, known)) (ans.creates (instance_id_of stack inst.name))))
        where
          creation :
              ans.knows inst.provider ≡ true
              → (o : Option Text)
              → IsTidy (elim o [
                | none ↦ break_off ans sm stack made
                | some handle ↦
                    let sm' = record sm { alive = handle ∷ sm.alive } in
                    let c : CreatedInstance = record {
                      name = inst.name;
                      handle = handle;
                      provider = inst.provider;
                    } in
                    if not (ans.starts handle)
                    then break_off ans sm' stack (made ++ c ∷ [])
                    else settle_instance ans sm' stack inst handle (made ++ c ∷ [])
              ])
          creation k none = break_off-IsTidy sm made inv
          creation k (some handle) =
              created-IsTidy
                (record { name = inst.name; handle = handle; provider = inst.provider }) refl k

    deploy_instances-IsTidy :
        (is : List InstanceConfig) (sm : StackManager) (made : List CreatedInstance)
        → Clean ans base sm stack made
        → IsTidy (deploy_instances ans stack sm made is)
    unfolding deploy_instances
    deploy_instances-IsTidy [] sm made inv = inv
    deploy_instances-IsTidy (i ∷ is) sm made inv =
        go (deploy_instance ans stack sm made i) (deploy_instance-IsTidy sm made i inv)
          (deploy_instances-IsTidy is)
      where
        go :
            (d : Deploying)
            → IsTidy d
            → ((sm' : StackManager) (made' : List CreatedInstance)
                → Clean ans base sm' stack made'
                → IsTidy (deploy_instances ans stack sm' made' is))
            → IsTidy (elim d [
              | broken sm' ↦ broken sm'
              | going sm' made' ↦ deploy_instances ans stack sm' made' is
            ])
        go (broken sm') tidy rest = tidy
        go (going sm' made') tidy rest = rest sm' made' tidy

-- Nothing of the stack is known, wherever its instances would leave something.
pub record Fresh (sm : StackManager) (stack : Text) : Type 0 where
  pub absent : lookup stack sm.stacks ≡ none
  pub service : (n : Text) → get sm.service_reg stack n ≡ none
  pub config : (n : Text) → lookup (instance_id_of stack n) sm.health_checker.configs ≡ none
  pub row : (n : Text) → lookup n (rows_of stack sm.instance_rows) ≡ none

begin_deploy-Clean :
    (ans : Answers) (sm : StackManager) (stack : Text)
    → Fresh sm stack
    → Clean ans sm (begin_deploy sm stack) stack []
unfolding begin_deploy
begin_deploy-Clean ans sm stack fresh =
    let e : Stack = record { name = stack; instances = []; status = deploying } in
    record {
      known = tt;
      alive = λ k. ground arith;
      listed = record {
        entry = e;
        found = ground (arith, same_refl stack, lookup-insert stack stack e sm.stacks);
        named = λ n h. h;
        others = λ k h. ground (arith, h, lookup-insert stack k e sm.stacks);
      };
      service = λ n h. fresh.service n;
      config = λ n h. fresh.config n;
      row = λ n h. fresh.row n;
    }

-- When the deployment of a stack that left nothing behind before comes back with an error after its
-- row was taken, and the providers delete what they hold and the store removes rows, then the providers
-- hold each handle as often as before, the stack is listed as failed and empty, the other stacks are
-- as before, and no instance of the stack has a service, a health check or a row.
pub deploy_stack-RolledBack :
    (ans : Answers) (sm : StackManager) (stack : Text) (instances : List InstanceConfig)
    → ((held : List Text) (h : Text) → 0 < times h held → ans.deletes held h ≡ true)
    → ((n : Text) → ans.unrecords n ≡ true)
    → Fresh sm stack
    → (deploy_stack ans true sm stack instances).1 ≡ false
    → RolledBack sm (deploy_stack ans true sm stack instances).0 stack
unfolding deploy_stack
deploy_stack-RolledBack ans sm stack instances deletes unrecords fresh =
    begun-RolledBack (build_dependency_order instances)
  where
    begun-inv : Clean ans sm (begin_deploy sm stack) stack []
    begun-inv = begin_deploy-Clean ans sm stack fresh

    finished-RolledBack :
        (d : Deploying)
        → IsTidy ans sm stack d
        → (finish_deploy ans stack d).1 ≡ false
        → RolledBack sm (finish_deploy ans stack d).0 stack
    finished-RolledBack (going sm' made) tidy e = ground (arith, e)
    finished-RolledBack (broken sm') tidy e = tidy

    ordered-RolledBack :
        (o : Ordered)
        → (deploy_in_order ans (begin_deploy sm stack) stack o).1 ≡ false
        → RolledBack sm (deploy_in_order ans (begin_deploy sm stack) stack o).0 stack
    ordered-RolledBack (refused r) e =
        update_stack_status-RolledBack ans sm (begin_deploy sm stack) stack begun-inv
    ordered-RolledBack (ordered order) e =
        finished-RolledBack (deploy_instances ans stack (begin_deploy sm stack) [] order)
          (deploy_instances-IsTidy ans sm stack deletes unrecords order (begin_deploy sm stack) []
            begun-inv)
          e

    Failed : StackManager × Bool → Type 0
    Failed r = r.1 ≡ false → RolledBack sm r.0 stack

    begun-RolledBack :
        (o : Ordered)
        → Failed (elim (lookup stack sm.stacks) [
          | some s ↦ (sm, false)
          | none ↦ deploy_in_order ans (begin_deploy sm stack) stack o
        ])
    begun-RolledBack o =
        subst
          (λ x. Failed (elim x [
            | some s ↦ (sm, false)
            | none ↦ deploy_in_order ans (begin_deploy sm stack) stack o
          ]))
          (sym fresh.absent) (ordered-RolledBack o)
