-- ===== src/Discovery/Tests.antt =====
-- A registry with one service, and the theorems at it.
use hospitus.Shared.{
  ◌≡◌, refl, true, List, [], ◌∷◌, none, some, All, codes, lookup, insert, same, split_at,
  has_separator, decimal_from,
}
use hospitus.Health.{starting, healthy}
use hospitus.Validation.Regex.{matches}
use hospitus.Validation.Names.{valid_env_key}
use hospitus.Discovery.{
  ServiceInfo, service_key, register, get, list_services, split_last, parse_service_name, resolve,
  resolve_with_port, sanitize_env_name, add_service, build_env,
}
use hospitus.Discovery.Names.{resolve-register}
use hospitus.Discovery.Refinement.{
  Call, registers, unregisters, marks_health, run_calls, replay, Reads, run_calls-Reads,
}
use hospitus.Discovery.Environment.{build_env-matches}

abbrev db : ServiceInfo
db = record {
  name = codes "db-1";
  stack_name = codes "shop";
  addresses = codes "10.0.0.5" ∷ [];
  ports = (record { port = 5432; protocol = codes "tcp"; name = codes "sql" }) ∷ [];
  status = codes "running";
  health = starting;
  labels = [];
}

db_resolved : resolve (register [] db) (codes "shop/db-1") ≡ some (codes "10.0.0.5" ∷ [])
unfolding has_separator
db_resolved = resolve-register [] db 115 (codes "hop") (codes "10.0.0.5") [] refl refl refl

abbrev calls : List Call
calls =
    registers db
    ∷ marks_health (codes "shop") (codes "db-1") healthy
    ∷ unregisters (codes "shop") (codes "web")
    ∷ []

run_calls-Reads_example : Reads (run_calls [] calls) (replay (λ s n. none) calls)
unfolding has_separator
run_calls-Reads_example = run_calls-Reads calls (refl, (refl, (refl, tt)))

build_env-matches_example :
    All (λ kv. matches valid_env_key kv.0 ≡ true) (build_env (register [] db) (codes "shop"))
build_env-matches_example = build_env-matches (register [] db) (codes "shop")

db_environment :
    (lookup (codes "DB_1_ADDR") (build_env (register [] db) (codes "shop"))
      ≡ some (codes "10.0.0.5:5432"))
    × (lookup (codes "SHOP_DB_1_SQL_PORT") (build_env (register [] db) []) ≡ some (codes "5432"))
    × (resolve_with_port (register [] db) (codes "db-1.shop") []
        ≡ some (codes "10.0.0.5:5432" ∷ []))
    × (sanitize_env_name (codes "9p!") ≡ codes "_9P")
unfolding build_env add_service list_services register service_key lookup insert same
    sanitize_env_name decimal_from resolve_with_port parse_service_name split_at split_last get
    has_separator
db_environment = (refl, refl, refl, refl)
