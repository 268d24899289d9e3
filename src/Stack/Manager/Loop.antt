-- ===== src/Stack/Manager/Loop.antt =====
-- pkg/orchestration/stack.go: an invariant of the rounds of DeployStack holds when it returns no error.
use hospitus.Shared.{
  ◌≡◌, refl, sym, subst, Bool, true, false, not, ◌&&◌, List, [], ◌∷◌, ◌++◌, Option, none, some,
  arith, if◌then◌else◌, Text, lookup, remove, contains, same, same_iff, IsDistinct,
}
use mathlib.Core.List.{append-nil, append_assoc}
use hospitus.Stack.{InstanceConfig, Ordered, ordered, refused, build_dependency_order}
use hospitus.Stack.Order.{names_of}
use hospitus.Stack.Acyclic.{IsOrderOf, build_dependency_order-IsOrderOf}
use hospitus.Stack.Manager.{
  StackManager, Stack, Answers, CreatedInstance, running, instance_id_of, insert_row, record_of,
  update_stack_status,
}
use hospitus.Stack.Manager.Deployment.{
  Deploying, going, broken, break_off, stack_instance, append_to, manage_instance, settle_instance,
  deploy_instance, deploy_instances, deploy_in_order, finish_deploy, begin_deploy, deploy_stack,
  wait_for_dependencies,
}

contains-middle :
    (x : Text) (xs : List Text) (y : Text) (ys : List Text)
    → contains x (xs ++ y ∷ ys) ≡ false
    → same x y ≡ false
unfolding contains
contains-middle x [] y ys h = ground (arith, h)
contains-middle x (z ∷ xs) y ys h = ground (arith, h, contains-middle x xs y ys)

IsDistinct-apart :
    (xs : List Text) (y : Text) (ys : List Text) → IsDistinct (xs ++ y ∷ ys) → contains y xs ≡ false
unfolding contains
IsDistinct-apart [] y ys d = refl
IsDistinct-apart (x ∷ xs) y ys d =
    ground (
      arith,
      IsDistinct-apart xs y ys d.1,
      contains-middle x xs y ys d.0,
      same_iff x y,
      same_iff y x,
    )

-- What a round makes of the manager when nothing fails.
abbrev pub settled : Answers → Text → StackManager → InstanceConfig → Text → StackManager
settled ans stack sm inst handle =
    let i = stack_instance stack inst handle in
    manage_instance ans
      (record sm {
        stacks = append_to stack i sm.stacks;
        instance_rows =
            insert_row stack (record_of ans stack i (append_to stack i sm.stacks)) sm.instance_rows;
        alive = handle ∷ sm.alive;
      })
      stack inst handle

-- A deployment without an error: `before` is the manager when its status is still to be set.
pub record Accepted (P : StackManager → List Text → Type 0) (ans : Answers)
    (sm after : StackManager) (stack : Text) (instances : List InstanceConfig) : Type 0 where
  pub absent : lookup stack sm.stacks ≡ none
  pub order : List InstanceConfig
  pub in_order : IsOrderOf instances order
  pub before : StackManager
  pub result : after ≡ update_stack_status ans before stack running
  pub holds : P before (names_of order)

module _ (P : StackManager → List Text → Type 0) (ans : Answers) (stack : Text)
    (step : (sm : StackManager) (done : List Text) (inst : InstanceConfig) (handle : Text)
      → contains inst.name done ≡ false
      → P sm done
      → P (settled ans stack sm inst handle) (done ++ inst.name ∷ [])) where
  abbrev Holds : List Text → Deploying → Type 0
  Holds done (going sm made) = P sm done
  Holds done (broken sm) = Unit

  if-Holds :
      (done : List Text) (b : Bool) (x y : Deploying)
      → Holds done x
      → (b ≡ false → Holds done y)
      → Holds done (if b then x else y)
  if-Holds done true x y px py = px
  if-Holds done false x y px py = py refl

  break_off-Holds :
      (done : List Text) (sm : StackManager) (made : List CreatedInstance)
      → Holds done (break_off ans sm stack made)
  unfolding break_off
  break_off-Holds done sm made = tt

  module _ (sm : StackManager) (done : List Text) (made : List CreatedInstance)
      (inst : InstanceConfig) (new : contains inst.name done ≡ false) (p : P sm done) where
    abbrev all : List Text
    all = done ++ inst.name ∷ []

    settle_instance-Holds :
        (handle : Text) (made' : List CreatedInstance)
        → Holds all
            (settle_instance ans (record sm { alive = handle ∷ sm.alive }) stack inst handle made')
    unfolding settle_instance
    settle_instance-Holds handle made' =
        let i = stack_instance stack inst handle in
        let listed : StackManager = record sm {
          stacks = append_to stack i sm.stacks;
          alive = handle ∷ sm.alive;
        } in
        let done_with : StackManager = settled ans stack sm inst handle in
        if-Holds all (not (ans.encodes inst.name && ans.records inst.name))
          (break_off ans listed stack made')
          (if ans.continues inst.name
            then going done_with made'
            else break_off ans done_with stack made')
          (break_off-Holds all listed made')
          (λ e.
            if-Holds all (ans.continues inst.name) (going done_with made')
              (break_off ans done_with stack made') (step sm done inst handle new p)
              (λ e'. break_off-Holds all done_with made'))

    created-Holds :
        (o : Option Text)
        → Holds all (elim o [
          | none ↦ break_off ans sm stack made
          | some handle ↦
              let sm' = record sm { alive = handle ∷ sm.alive } in
              let c : CreatedInstance = record {
                name = inst.name;
                handle = handle;
                provider = inst.provider;
              } in
              if not (ans.starts handle)
              then break_off ans sm' stack (made ++ c ∷ [])
              else settle_instance ans sm' stack inst handle (made ++ c ∷ [])
        ])
    created-Holds none = break_off-Holds all sm made
    created-Holds (some handle) =
        let sm' : StackManager = record sm { alive = handle ∷ sm.alive } in
        let made' : List CreatedInstance =
          made ++ (record { name = inst.name; handle = handle; provider = inst.provider }) ∷ [] in
        if-Holds all (not (ans.starts handle)) (break_off ans sm' stack made')
          (settle_instance ans sm' stack inst handle made') (break_off-Holds all sm' made')
          (λ e. settle_instance-Holds handle made')

    deploy_instance-Holds : Holds all (deploy_instance ans stack sm made inst)
    unfolding deploy_instance
    deploy_instance-Holds =
        if-Holds all (inst.when_healthy && not (wait_for_dependencies ans sm stack inst))
          (break_off ans sm stack made) _ (break_off-Holds all sm made)
          (λ e.
            if-Holds all (not (ans.knows inst.provider && ans.converts inst.name))
              (break_off ans sm stack made) _ (break_off-Holds all sm made)
              (λ e'. created-Holds (ans.creates (instance_id_of stack inst.name))))

  deploy_instances-Holds :
      (is : List InstanceConfig) (sm : StackManager) (done : List Text)
      (made : List CreatedInstance)
      → IsDistinct (done ++ names_of is)
      → P sm done
      → Holds (done ++ names_of is) (deploy_instances ans stack sm made is)
  unfolding deploy_instances names_of
  deploy_instances-Holds [] sm done made d p = subst (P sm) (sym (append-nil done)) p
  deploy_instances-Holds (i ∷ is) sm done made d p =
      go (deploy_instance ans stack sm made i)
        (deploy_instance-Holds sm done made i (IsDistinct-apart done i.name (names_of is) d) p)
        (λ sm' made' q.
          deploy_instances-Holds is sm' (done ++ i.name ∷ []) made' (subst IsDistinct (sym assoc) d)
            q)
    where
      assoc : (done ++ i.name ∷ []) ++ names_of is ≡ done ++ i.name ∷ names_of is
      assoc = append_assoc done (i.name ∷ []) (names_of is)

      go :
          (dep : Deploying)
          → Holds (done ++ i.name ∷ []) dep
          → ((sm' : StackManager) (made' : List CreatedInstance)
              → P sm' (done ++ i.name ∷ [])
              → Holds
                  ((done ++ i.name ∷ []) ++ names_of is)
                  (deploy_instances ans stack sm' made' is))
          → Holds (done ++ i.name ∷ names_of is) (elim dep [
            | broken sm' ↦ broken sm'
            | going sm' made' ↦ deploy_instances ans stack sm' made' is
          ])
      go (broken sm') held rest = tt
      go (going sm' made') held rest =
          subst (λ ns. Holds ns (deploy_instances ans stack sm' made' is)) assoc
            (rest sm' made' held)

  pub deploy_stack-Accepted :
      (persists_new : Bool) (sm : StackManager) (instances : List InstanceConfig)
      → P (begin_deploy sm stack) []
      → (deploy_stack ans persists_new sm stack instances).1 ≡ true
      → Accepted P ans sm (deploy_stack ans persists_new sm stack instances).0 stack instances
  unfolding deploy_stack
  deploy_stack-Accepted persists_new sm instances start =
      looked (lookup stack sm.stacks) refl persists_new
    where
      Outcome : StackManager × Bool → Type 0
      Outcome r = r.1 ≡ true → Accepted P ans sm r.0 stack instances

      begun : StackManager
      begun = begin_deploy sm stack

      finished :
          lookup stack sm.stacks ≡ none
          → (order : List InstanceConfig) → IsOrderOf instances order
          → (d : Deploying) → Holds (names_of order) d
          → Outcome (finish_deploy ans stack d)
      finished absent order o (going sm' made) held e = record {
        absent = absent;
        order = order;
        in_order = o;
        before = sm';
        result = refl;
        holds = held;
      }
      finished absent order o (broken sm') held e = ground (arith, e)

      sorted :
          lookup stack sm.stacks ≡ none
          → (o : Ordered) → build_dependency_order instances ≡ o
          → Outcome (deploy_in_order ans begun stack o)
      sorted absent (refused r) h e = ground (arith, e)
      sorted absent (ordered order) h e =
          let o = build_dependency_order-IsOrderOf instances order h in
          finished absent order o (deploy_instances ans stack begun [] order)
            (deploy_instances-Holds order begun [] [] o.distinct start) e

      looked :
          (o : Option Stack)
          → lookup stack sm.stacks ≡ o
          → (b : Bool)
          → Outcome (elim o [
            | some s ↦ (sm, false)
            | none ↦
                if not b
                then (record sm { stacks = remove stack begun.stacks }, false)
                else deploy_in_order ans begun stack (build_dependency_order instances)
          ])
      looked (some s) h b e = ground (arith, e)
      looked none h false e = ground (arith, e)
      looked none h true e = sorted h (build_dependency_order instances) refl e
