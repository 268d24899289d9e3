-- ===== src/Stack/Manager/Rounds.antt =====
-- pkg/orchestration/stack.go: what each step of a round of DeployStack keeps.
use hospitus.Shared.{
  ℕ, ◌+◌, ◌≡◌, refl, ap, true, false, ◌||◌, List, [], ◌∷◌, ◌++◌, Option, none, some, arith, All,
  Text, lookup, insert, lookup-insert, same, same_iff, same_refl, contains,
}
use hospitus.Health.{
  HealthChecker, HealthCheckConfig, close_stop, register_instance, start_checking,
}
use hospitus.Discovery.{service_key, register, get}
use hospitus.Stack.{HealthCheckSpec, InstanceConfig}
use hospitus.Stack.Degrees.{times}
use hospitus.Stack.Manager.{
  StackManager, Stack, StackInstance, Answers, CreatedInstance, instance_id_of, insert_row,
  record_of, health_spec_to_config,
}
use hospitus.Stack.Manager.Deployment.{
  append_to, register_service, service_info, checked_by, watched, manage_instance,
}
use hospitus.Stack.Manager.Rollback.{
  Listed, Clean, instance_names, made_names, made_handles, same-instance_id_of,
  same-service_key_one, lookup-insert_row,
}

times-concat : (k : Text) (xs ys : List Text) → times k (xs ++ ys) ≡ times k xs + times k ys
times-concat k [] ys = ground arith
times-concat k (x ∷ xs) ys = ground (arith, times-concat k xs ys)

contains-instance_names-append :
    (n : Text) (is : List StackInstance) (i : StackInstance)
    → contains n (instance_names (is ++ i ∷ [])) ≡ (contains n (instance_names is) || same n i.name)
unfolding contains
contains-instance_names-append n [] i = ground arith
contains-instance_names-append n (x ∷ is) i = ground (arith, contains-instance_names-append n is i)

pub contains-made_names-append :
    (n : Text) (cs : List CreatedInstance) (c : CreatedInstance)
    → contains n (made_names (cs ++ c ∷ [])) ≡ (contains n (made_names cs) || same n c.name)
unfolding contains
contains-made_names-append n [] c = ground arith
contains-made_names-append n (x ∷ cs) c = ground (arith, contains-made_names-append n cs c)

made_handles-append :
    (cs : List CreatedInstance) (c : CreatedInstance)
    → made_handles (cs ++ c ∷ []) ≡ made_handles cs ++ c.handle ∷ []
made_handles-append [] c = refl
made_handles-append (x ∷ cs) c = ap (λ hs. x.handle ∷ hs) (made_handles-append cs c)

All-append :
    (ans : Answers) (cs : List CreatedInstance) (c : CreatedInstance)
    → All (λ c. ans.knows c.provider ≡ true) cs
    → ans.knows c.provider ≡ true
    → All (λ c. ans.knows c.provider ≡ true) (cs ++ c ∷ [])
All-append ans [] c all k = (k, tt)
All-append ans (x ∷ cs) c all k = (all.0, All-append ans cs c all.1 k)

-- A name in the list is not one outside it.
apart :
    (n m : Text) (ns : List Text) → contains m ns ≡ true → contains n ns ≡ false → same m n ≡ false
apart n m ns h e = ground (arith, h, e, same_iff m n)

configs-register :
    (hc : HealthChecker) (id : Text) (config : HealthCheckConfig) (now : ℕ)
    → (register_instance hc id config now).configs ≡ insert id config hc.configs
unfolding register_instance close_stop
configs-register hc id config now = ground arith

pub configs-start_checking :
    (hc : HealthChecker) (id : Text) → (start_checking hc id).configs ≡ hc.configs
unfolding start_checking
configs-start_checking hc id = ground arith

lookup-checked_by :
    (ans : Answers) (hc : HealthChecker) (id handle k : Text) (config : Option HealthCheckConfig)
    → same id k ≡ false
    → lookup k (checked_by ans hc id handle config).configs ≡ lookup k hc.configs
lookup-checked_by ans hc id handle k none e = refl
lookup-checked_by ans hc id handle k (some config) e = ground (
  arith,
  e,
  configs-start_checking (register_instance hc id config ans.now) handle,
  configs-register hc id config ans.now,
  lookup-insert id k config hc.configs,
)

lookup-watched :
    (ans : Answers) (hc : HealthChecker) (id handle k : Text) (spec : Option HealthCheckSpec)
    → same id k ≡ false
    → lookup k (watched ans hc id handle spec).configs ≡ lookup k hc.configs
lookup-watched ans hc id handle k none e = refl
lookup-watched ans hc id handle k (some spec) e =
    lookup-checked_by ans hc id handle k (health_spec_to_config spec) e

module _ (ans : Answers) (base : StackManager) (stack : Text) where
  module _ (sm : StackManager) (made : List CreatedInstance)
      (inv : Clean ans base sm stack made) where
    pub create-Clean :
        (c : CreatedInstance)
        → ans.knows c.provider ≡ true
        → Clean ans base (record sm { alive = c.handle ∷ sm.alive }) stack (made ++ c ∷ [])
    create-Clean c k =
        let l = inv.listed in
        record {
          known = All-append ans made c inv.known k;
          alive = λ h. ground (
            arith,
            inv.alive h,
            made_handles-append made c,
            times-concat h (made_handles made) (c.handle ∷ []),
          );
          listed = record {
            entry = l.entry;
            found = l.found;
            named = λ n h. ground (arith, h, l.named n, contains-made_names-append n made c);
            others = l.others;
          };
          service = λ n h. ground (arith, h, inv.service n, contains-made_names-append n made c);
          config = λ n h. ground (arith, h, inv.config n, contains-made_names-append n made c);
          row = λ n h. ground (arith, h, inv.row n, contains-made_names-append n made c);
        }

    module _ (i : StackInstance) (m : contains i.name (made_names made) ≡ true) where
      append_to-Listed : Listed base.stacks (append_to stack i sm.stacks) stack made
      append_to-Listed =
          let l = inv.listed in
          let e : Stack = record l.entry { instances = l.entry.instances ++ i ∷ [] } in
          record {
            entry = e;
            found = ground (arith, l.found, same_refl stack, lookup-insert stack stack e sm.stacks);
            named = λ n h. ground (
              arith,
              h,
              m,
              l.named n,
              contains-instance_names-append n l.entry.instances i,
              same_iff n i.name,
            );
            others =
                λ k h. ground (arith, h, l.found, l.others k, lookup-insert stack k e sm.stacks);
          }

      pub append_to-Clean :
          Clean ans base (record sm { stacks = append_to stack i sm.stacks }) stack made
      append_to-Clean = record {
        known = inv.known;
        alive = inv.alive;
        listed = append_to-Listed;
        service = inv.service;
        config = inv.config;
        row = inv.row;
      }

      pub insert_row-Clean :
          Clean ans base
            (record sm {
              instance_rows = insert_row stack (record_of ans stack i sm.stacks) sm.instance_rows;
            })
            stack
            made
      insert_row-Clean = record {
        known = inv.known;
        alive = inv.alive;
        listed = inv.listed;
        service = inv.service;
        config = inv.config;
        row = λ n h. ground (
          arith,
          h,
          inv.row n,
          apart n i.name (made_names made) m h,
          lookup-insert_row stack n (record_of ans stack i sm.stacks) sm.instance_rows,
        );
      }

    module _ (inst : InstanceConfig) (handle : Text)
        (m : contains inst.name (made_names made) ≡ true) where
      served :
          (n : Text)
          → contains n (made_names made) ≡ false
          → get (register_service sm.service_reg stack inst) stack n ≡ none
      unfolding register_service register get
      served n h = ground (
        arith,
        h,
        inv.service n,
        apart n inst.name (made_names made) m h,
        same-service_key_one stack inst.name n,
        lookup-insert (service_key stack inst.name) (service_key stack n) (service_info stack inst)
            sm.service_reg,
      )

      checked :
          (n : Text)
          → contains n (made_names made) ≡ false
          → lookup
              (instance_id_of stack n)
              (watched ans sm.health_checker
                (instance_id_of stack inst.name)
                handle
                inst.health_check).configs
            ≡ none
      checked n h = ground (
        arith,
        h,
        inv.config n,
        apart n inst.name (made_names made) m h,
        same-instance_id_of stack inst.name n,
        lookup-watched ans sm.health_checker (instance_id_of stack inst.name) handle
            (instance_id_of stack n) inst.health_check,
      )

      pub manage_instance-Clean :
          Clean ans base (manage_instance ans sm stack inst handle) stack made
      unfolding manage_instance
      manage_instance-Clean = record {
        known = inv.known;
        alive = inv.alive;
        listed = inv.listed;
        service = served;
        config = checked;
        row = inv.row;
      }
