-- ===== src/Stack/Manager/Tests.antt =====
-- A shop of two instances that is deployed, fails and is destroyed, and the theorems at it.
use hospitus.Shared.{
  Text, ◌++◌, ◌≡◌, refl, true, false, not, List, [], ◌∷◌, Option, none, some, arith, codes, lookup,
  insert, remove, same, contains, ltb, sort_texts, text_lt,
}
use hospitus.Health.{
  new_health_checker, starting, healthy, close_stop, register_instance, unregister_instance,
  start_checking, stop_checking, has_health_check,
}
use hospitus.Discovery.{register, unregister, get}
use hospitus.Stack.{
  InstanceConfig, index_by_name, deps_of, check_known, start_degrees, free_names, lower, lower_each,
  reduce, kahn, instances_of, first_duplicate, build_dependency_order,
}
use hospitus.Stack.Degrees.{times}
use hospitus.Stack.Manager.{
  StackManager, Stack, StackStatus, deploying, Answers, running, health_spec_to_config,
  update_stack_status, forget_rolled_back_instance, rollback_instance, rollback_created_instances,
}
use hospitus.Stack.Manager.Deployment.{
  wait_for_dependencies, break_off, register_service, manage_instance, settle_instance,
  deploy_instance, deploy_instances, begin_deploy, deploy_stack,
}
use hospitus.Stack.Manager.Teardown.{
  incomplete, watch_again, watch_no_more, forget_destroyed, destroy_instance, destroy_instances,
  destroy_stack,
}
use hospitus.Stack.Manager.Rollback.{RolledBack}
use hospitus.Stack.Manager.Failure.{deploy_stack-RolledBack}
use hospitus.Stack.Manager.Success.{Deployed, deploy_stack-Deployed}
use hospitus.Stack.Manager.Destruction.{Gone, destroy_stack-Gone}
use hospitus.Stack.Manager.Status.{
  on_health_change, change_in, mark_health, update_stack_health_status,
}
use hospitus.Stack.Manager.Retry.{Cleared, Request, destroys, serve_all, destroy_stack-retried}

abbrev db : InstanceConfig
db = record {
  name = codes "db";
  services = [];
  provider = codes "jail";
  when_healthy = false;
  health_check = some (record {
    command = codes "true" ∷ [];
    interval = none;
    timeout = none;
    retries = 3;
    start_period = none;
  });
  restart = none;
  addresses = codes "10.0.0.5" ∷ [];
  ports = [];
}

abbrev web : InstanceConfig
web = record db {
  name = codes "web";
  services = codes "db" ∷ [];
  when_healthy = true;
  health_check = none;
}

abbrev willing : Answers
willing = record {
  knows = λ p. true;
  waits = λ n. true;
  converts = λ n. true;
  creates = λ id. some id;
  starts = λ h. true;
  encodes = λ n. true;
  encoding = λ h. 34 ∷ h ++ 34 ∷ [];
  records = λ n. true;
  continues = λ n. true;
  stops = λ h. true;
  deletes = λ held h. ltb 0 (times h held);
  persists = λ s. true;
  unrecords = λ n. true;
  now = 0;
}

abbrev web_does_not_start : Answers
web_does_not_start = record willing { starts = λ h. not (same h (codes "shop_web")) }

abbrev empty : StackManager
empty = record {
  stacks = [];
  stack_rows = [];
  instance_rows = [];
  service_reg = [];
  health_checker = new_health_checker;
  auto_restarter = none;
  alive = codes "other" ∷ [];
}

abbrev deployed : StackManager
deployed = (deploy_stack willing true empty (codes "shop") (web ∷ db ∷ [])).0

deploy_stack-RolledBack_example :
    RolledBack empty
      (deploy_stack web_does_not_start true empty (codes "shop") (web ∷ db ∷ [])).0
      (codes "shop")
unfolding deploy_stack begin_deploy deploy_instances deploy_instance wait_for_dependencies break_off
    settle_instance manage_instance register_service health_spec_to_config update_stack_status
    rollback_created_instances rollback_instance forget_rolled_back_instance build_dependency_order
    index_by_name deps_of check_known start_degrees free_names kahn reduce lower_each lower
    instances_of first_duplicate sort_texts text_lt lookup insert remove same contains get register
    unregister has_health_check close_stop register_instance unregister_instance start_checking
deploy_stack-RolledBack_example =
    deploy_stack-RolledBack web_does_not_start empty (codes "shop") (web ∷ db ∷ [])
      (λ held h l. ground (arith, l)) (λ n. refl)
      (record { absent = refl; service = λ n. refl; config = λ n. refl; row = λ n. refl }) refl

deploy_stack-Deployed_example :
    (lookup (codes "shop") empty.stacks ≡ none) × Deployed deployed (codes "shop") (web ∷ db ∷ [])
unfolding deploy_stack begin_deploy deploy_instances deploy_instance wait_for_dependencies break_off
    settle_instance manage_instance register_service health_spec_to_config update_stack_status
    build_dependency_order index_by_name deps_of check_known start_degrees free_names kahn reduce
    lower_each lower instances_of first_duplicate sort_texts text_lt lookup insert same contains
    register has_health_check close_stop register_instance start_checking
deploy_stack-Deployed_example =
    deploy_stack-Deployed willing true empty (codes "shop") (web ∷ db ∷ []) refl

-- As the deployment leaves it.
abbrev shop : Stack
shop = record {
  name = codes "shop";
  instances =
      (record {
        name = codes "db";
        instance_id = codes "shop_db";
        provider = codes "jail";
        depends_on = [];
        health = starting;
        handle = codes "shop_db";
      })
      ∷ (record {
        name = codes "web";
        instance_id = codes "shop_web";
        provider = codes "jail";
        depends_on = codes "db" ∷ [];
        health = starting;
        handle = codes "shop_web";
      })
      ∷ [];
  status = running;
}

abbrev listing : StackManager
listing = record empty {
  stacks = (codes "shop", shop) ∷ [];
  alive = codes "shop_web" ∷ codes "shop_db" ∷ codes "other" ∷ [];
}

destroy_stack-Gone_example :
    Gone listing (destroy_stack willing true listing (codes "shop")).0 (codes "shop") shop
unfolding destroy_stack destroy_instances destroy_instance forget_destroyed watch_no_more
    watch_again lookup insert remove same unregister close_stop unregister_instance stop_checking
destroy_stack-Gone_example = destroy_stack-Gone willing true listing (codes "shop") shop refl refl

-- The first destruction deletes the web server and not the database.
abbrev half : List Request
half = destroys (record willing { deletes = λ held h. same h (codes "shop_web") }) true ∷ []

half_fails :
    (destroy_stack
      (record willing { deletes = λ held h. same h (codes "shop_web") })
      true
      listing
      (codes "shop")).1
    ≡ incomplete
unfolding destroy_stack destroy_instances destroy_instance forget_destroyed watch_no_more
    watch_again lookup insert remove same unregister close_stop unregister_instance stop_checking
    start_checking
half_fails = refl

abbrev tolerant : Answers
tolerant = record willing { deletes = λ held h. true }

destroy_stack-retried_example :
    Cleared listing shop.instances
      (codes "shop")
      (destroy_stack tolerant true (serve_all (codes "shop") listing half) (codes "shop")).0
unfolding lookup same
destroy_stack-retried_example =
    destroy_stack-retried listing (codes "shop") shop half tolerant refl (λ n. refl)
      (λ held h. refl)

-- The handles of the tests are written as JSON texts without escapes.
abbrev but_last : Text → Text
but_last [] = []
but_last (c ∷ []) = []
but_last (c ∷ d ∷ cs) = c ∷ but_last (d ∷ cs)

abbrev unquoted : Text → Option Text
unquoted [] = none
unquoted (c ∷ cs) = some (but_last cs)

-- A deployment that has one instance to go is called running once the first is healthy.
abbrev half_deployed : StackManager
half_deployed = record empty {
  stacks =
      (
        codes "shop",
        record {
          name = codes "shop";
          instances =
              (record {
                name = codes "db";
                instance_id = codes "shop_db";
                provider = codes "jail";
                depends_on = [];
                health = starting;
                handle = codes "shop_db";
              })
              ∷ [];
          status = deploying;
        },
      )
      ∷ [];
}

status_of : Option Stack → Option StackStatus
status_of none = none
status_of (some s) = some s.status

early_running :
    status_of
      (lookup (codes "shop") (on_health_change half_deployed (codes "shop_db") healthy).stacks)
    ≡ some running
unfolding status_of on_health_change change_in mark_health update_stack_health_status lookup same
early_running = refl
