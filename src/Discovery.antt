-- ===== src/Discovery.antt =====
-- pkg/orchestration/discovery.go: the registry of the services of stacks, how names are resolved, and
-- the environment that tells a service where the others are.
pub mod Names
pub mod Refinement
pub mod Environment
mod Tests
use hospitus.Shared.{
  ℕ, ◌-◌, Bool, true, false, not, ◌&&◌, ◌||◌, List, [], ◌∷◌, ◌++◌, Option, none, some, leb, ltb,
  ◌==◌, if◌then◌else◌, Text, codes, Dict, lookup, insert, remove, same, text_lt, decimal, split_at,
  has_separator,
}
use hospitus.Health.{HealthStatus}

pub record ServicePort : Type 0 where
  pub port : ℕ
  pub protocol : Text
  pub name : Text

pub record ServiceInfo : Type 0 where
  pub name : Text
  pub stack_name : Text
  pub addresses : List Text
  pub ports : List ServicePort
  pub status : Text
  pub health : HealthStatus
  pub labels : Dict Text

-- `services`; a value that is given out or taken in is a copy.
abbrev pub ServiceRegistry : Type 0
ServiceRegistry = Dict ServiceInfo

abbrev pub is_empty : Text → Bool
is_empty [] = true
is_empty (x ∷ s) = false

unfoldable pub service_key : Text → Text → Text
service_key stack_name service_name =
    if is_empty stack_name then service_name else stack_name ++ 47 ∷ service_name

unfoldable pub register : ServiceRegistry → ServiceInfo → ServiceRegistry
register sr info = insert (service_key info.stack_name info.name) info sr

unfoldable pub unregister : ServiceRegistry → Text → Text → ServiceRegistry
unregister sr stack_name service_name = remove (service_key stack_name service_name) sr

unfoldable pub get : ServiceRegistry → Text → Text → Option ServiceInfo
get sr stack_name service_name = lookup (service_key stack_name service_name) sr

unfoldable pub update_health : ServiceRegistry → Text → Text → HealthStatus → ServiceRegistry
update_health sr stack_name service_name health =
    let key = service_key stack_name service_name in
    elim (lookup key sr) [ none ↦ sr | some svc ↦ insert key (record svc { health = health }) sr ]

unfoldable pub update_service_status : ServiceRegistry → Text → Text → Text → ServiceRegistry
update_service_status sr stack_name service_name status =
    let key = service_key stack_name service_name in
    elim (lookup key sr) [ none ↦ sr | some svc ↦ insert key (record svc { status = status }) sr ]

-- The order of `List`: by stack, and within one by name.
abbrev pub comes_before : ServiceInfo → ServiceInfo → Bool
comes_before a b =
    if not (same a.stack_name b.stack_name)
    then text_lt a.stack_name b.stack_name
    else text_lt a.name b.name

abbrev pub insert_service : ServiceInfo → List ServiceInfo → List ServiceInfo
insert_service s [] = s ∷ []
insert_service s (t ∷ ts) =
    let rest = insert_service s ts in if comes_before t s then t ∷ rest else s ∷ t ∷ ts

unfoldable pub list_services : ServiceRegistry → Text → List ServiceInfo
list_services [] stack_name = []
list_services ((key, svc) ∷ sr) stack_name =
    let rest = list_services sr stack_name in
    if is_empty stack_name || same svc.stack_name stack_name then insert_service svc rest else rest

-- What stands before and behind the last separator.
unfoldable pub split_last : ℕ → Text → Option (Text × Text)
split_last sep [] = none
split_last sep (x ∷ xs) =
    let rest = split_last sep xs in
    elim rest [
      | some parts ↦ some (x ∷ parts.0, parts.1)
      | none ↦ if x == sep then some ([], xs) else none
    ]

-- The stack and the service.
unfoldable pub parse_service_name : Text → Text × Text
parse_service_name name = elim (split_at 47 name) [
  | some parts ↦ parts
  | none ↦ elim (split_last 46 name) [ some parts ↦ (parts.1, parts.0) | none ↦ ([], name) ]
]

-- None where the code returns an error.
unfoldable pub resolve : ServiceRegistry → Text → Option (List Text)
resolve sr name =
    let parts = parse_service_name name in
    elim (get sr parts.0 parts.1) [
      | none ↦ none
      | some info ↦ elim info.addresses [ [] ↦ none | a ∷ rest ↦ some (a ∷ rest) ]
    ]

-- `net.JoinHostPort`.
abbrev pub join_host_port : Text → ℕ → Text
join_host_port host port =
    if has_separator 58 host
    then (91 ∷ host) ++ codes "]:" ++ decimal port
    else host ++ 58 ∷ decimal port

-- The first port of that name, or the first of all where no name is given.
abbrev pub find_port : Bool → Text → List ServicePort → Option ServicePort
find_port first port_name [] = none
find_port first port_name (p ∷ ps) =
    let rest = find_port false port_name ps in
    if same p.name port_name || (is_empty port_name && first) then some p else rest

abbrev pub join_all : List Text → ℕ → List Text
join_all [] port = []
join_all (a ∷ rest) port = join_host_port a port ∷ join_all rest port

unfoldable pub resolve_with_port : ServiceRegistry → Text → Text → Option (List Text)
resolve_with_port sr name port_name =
    let parts = parse_service_name name in
    elim (get sr parts.0 parts.1) [
      | none ↦ none
      | some info ↦ elim (find_port true port_name info.ports) [
        | none ↦ none
        | some p ↦ some (join_all info.addresses p.port)
      ]
    ]

-- One byte of the name; a byte of another kind is left out.
abbrev pub env_byte : ℕ → Option ℕ
env_byte c =
    if leb 65 c && leb c 90
    then some c
    else if leb 97 c && leb c 122
    then some (c - 32)
    else if leb 48 c && leb c 57
    then some c
    else if c == 45 || c == 95 || c == 46
    then some 95
    else none

abbrev pub env_bytes : Text → Text
env_bytes [] = []
env_bytes (c ∷ cs) =
    let rest = env_bytes cs in elim (env_byte c) [ none ↦ rest | some b ↦ b ∷ rest ]

abbrev pub guard_digit : Text → Text
guard_digit [] = 95 ∷ []
guard_digit (c ∷ cs) = if leb 48 c && leb c 57 then 95 ∷ c ∷ cs else c ∷ cs

unfoldable pub sanitize_env_name : Text → Text
sanitize_env_name name = guard_digit (env_bytes name)

abbrev pub named_ports : Text → List ServicePort → Dict Text → Dict Text
named_ports prefix [] env = env
named_ports prefix (p ∷ ps) env = named_ports prefix ps (
    if is_empty p.name
    then env
    else insert (prefix ++ 95 ∷ sanitize_env_name p.name ++ codes "_PORT") (decimal p.port) env)

abbrev pub env_prefix : Text → ServiceInfo → Text
env_prefix stack_name svc =
    if is_empty svc.stack_name || same svc.stack_name stack_name
    then sanitize_env_name svc.name
    else sanitize_env_name svc.stack_name ++ 95 ∷ sanitize_env_name svc.name

abbrev pub first_port : Text → List Text → List ServicePort → Dict Text → Dict Text
first_port prefix addresses [] env = env
first_port prefix [] (p ∷ ps) env =
    named_ports prefix (p ∷ ps) (insert (prefix ++ codes "_PORT") (decimal p.port) env)
first_port prefix (a ∷ rest) (p ∷ ps) env = named_ports prefix (p ∷ ps) (
    insert (prefix ++ codes "_ADDR") (join_host_port a p.port)
      (insert (prefix ++ codes "_PORT") (decimal p.port) env))

abbrev pub first_address : Text → List Text → Dict Text → Dict Text
first_address prefix [] env = env
first_address prefix (a ∷ rest) env = insert (prefix ++ codes "_HOST") a env

unfoldable pub add_service : Text → ServiceInfo → Dict Text → Dict Text
add_service stack_name svc env =
    let prefix = env_prefix stack_name svc in
    first_port prefix svc.addresses svc.ports (first_address prefix svc.addresses env)

abbrev pub add_services : Text → List ServiceInfo → Dict Text → Dict Text
add_services stack_name [] env = env
add_services stack_name (s ∷ ss) env = add_services stack_name ss (add_service stack_name s env)

unfoldable pub build_env : ServiceRegistry → Text → Dict Text
build_env sr stack_name = add_services stack_name (list_services sr stack_name) []
