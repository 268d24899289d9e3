-- ===== src/Stack/Tests.antt =====
-- A stack of three instances, and the theorems at it.
use hospitus.Shared.{
  false, none, ℕ, ◌≡◌, refl, List, [], ◌∷◌, arith, Text, codes, lookup, insert, same, contains,
  sort_texts, text_lt, if◌then◌else◌,
}
use hospitus.Stack.{
  InstanceConfig, ordered, refused, circular, unknown_service, duplicate_name, index_by_name,
  deps_of, check_known, start_degrees, free_names, lower, lower_each, reduce, kahn, instances_of,
  first_duplicate, build_dependency_order,
}
use hospitus.Stack.Order.{names_of}
use hospitus.Stack.Acyclic.{
  IsOrderOf, build_dependency_order-IsOrderOf, build_dependency_order-ordered,
}

abbrev plain : Text → List Text → InstanceConfig
plain name services = record {
  name = name;
  services = services;
  provider = codes "jail";
  when_healthy = false;
  health_check = none;
  restart = none;
  addresses = [];
  ports = [];
}

abbrev web : InstanceConfig
web = plain (codes "web") (codes "db" ∷ codes "cache" ∷ [])

abbrev db : InstanceConfig
db = plain (codes "db") ([])

abbrev cache : InstanceConfig
cache = plain (codes "cache") (codes "db" ∷ [])

abbrev shop : List InstanceConfig
shop = web ∷ db ∷ cache ∷ []

shop_order : build_dependency_order shop ≡ ordered (db ∷ cache ∷ web ∷ [])
unfolding build_dependency_order index_by_name deps_of check_known start_degrees free_names kahn
    reduce lower_each lower instances_of first_duplicate sort_texts text_lt lookup insert same
    contains
shop_order = refl

build_dependency_order-IsOrderOf_example : IsOrderOf shop (db ∷ cache ∷ web ∷ [])
build_dependency_order-IsOrderOf_example =
    build_dependency_order-IsOrderOf shop (db ∷ cache ∷ web ∷ []) shop_order

abbrev rank : Text → ℕ
rank n = if same n (codes "web") then 2 else if same n (codes "cache") then 1 else 0

build_dependency_order-ordered_example :
    (result : List InstanceConfig) × (build_dependency_order shop ≡ ordered result)
unfolding names_of contains same
build_dependency_order-ordered_example =
    build_dependency_order-ordered shop rank (refl, (refl, (refl, tt)))
      ((refl, (omega arith, (omega arith, tt))), ((refl, tt), ((refl, (omega arith, tt)), tt)))

-- Each kind of error.
abbrev looped : List InstanceConfig
looped = (plain (codes "db") (codes "web" ∷ [])) ∷ web ∷ cache ∷ []

errors_given :
    (build_dependency_order looped ≡ refused circular)
    × (build_dependency_order (db ∷ db ∷ []) ≡ refused (duplicate_name (codes "db")))
    × (build_dependency_order (cache ∷ []) ≡ refused (unknown_service (codes "cache") (codes "db")))
unfolding build_dependency_order index_by_name deps_of check_known start_degrees free_names kahn
    reduce lower_each lower instances_of first_duplicate sort_texts text_lt lookup insert same
    contains
errors_given = (refl, refl, refl)
