-- ===== src/Discovery/Environment.antt =====
-- pkg/orchestration/discovery.go: the variables that BuildEnv makes are ones that the validation of
-- pkg/validation accepts by name.
use hospitus.Shared.{
  ℕ, ◌≡◌, refl, ap, ◌∙◌, inl, inr, Bool, true, false, ◌&&◌, ◌||◌, List, [], ◌∷◌, ◌++◌, some, arith,
  if◌then◌else◌, every, All, Text, codes, Dict, insert, same, Bool-cases, Option-cases, decimal,
}
use hospitus.Validation.Regex.{
  Class, Regex, nothing, nil, one, seq, alt, star, in_class, matches, after, matches-IsDead,
}
use hospitus.Validation.Names.{alphanumeric, letter, valid_env_key}
use hospitus.Discovery.{
  ServiceRegistry, ServiceInfo, ServicePort, is_empty, env_byte, env_bytes, guard_digit,
  sanitize_env_name, named_ports, env_prefix, first_port, first_address, add_service, add_services,
  build_env, list_services, join_host_port,
}

matches-alt : (r t : Regex) (s : Text) → matches (alt r t) s ≡ (matches r s || matches t s)
unfolding matches
matches-alt r t [] = refl
matches-alt r t (x ∷ xs) = matches-alt (after x r) (after x t) xs

matches-dead_seq : (r : Regex) (s : Text) → matches (seq nothing r) s ≡ false
matches-dead_seq r s = matches-IsDead s (seq nothing r) tt

matches-nil_seq : (r : Regex) (s : Text) → matches (seq nil r) s ≡ matches r s
unfolding matches
matches-nil_seq r [] = refl
matches-nil_seq r (x ∷ xs) =
    matches-alt (seq nothing r) (after x r) xs
    ∙ ap (λ b. b || matches (after x r) xs) (matches-dead_seq r xs)

-- One byte of a class, and then the rest.
matches-one_seq :
    (c : Class) (r : Regex) (x : ℕ) (s : Text)
    → in_class c x ≡ true
    → matches (seq (one c) r) (x ∷ s) ≡ matches r s
unfolding matches
matches-one_seq c r x s h =
    ap (λ b. matches (seq (if b then nil else nothing) r) s) h ∙ matches-nil_seq r s

matches-star_one :
    (c : Class) (s : Text) → every (in_class c) s ≡ true → matches (star (one c)) s ≡ true
unfolding matches
matches-star_one c [] h = refl
matches-star_one c (x ∷ xs) h =
    let here : in_class c x ≡ true = ground (arith, h) in
    ap (λ b. matches (seq (if b then nil else nothing) (star (one c))) xs) here
    ∙ matches-nil_seq (star (one c)) xs
    ∙ matches-star_one c xs (ground (arith, h))

abbrev env_class : Class
env_class = (95, 95) ∷ alphanumeric

abbrev env_start : Class
env_start = (95, 95) ∷ letter

-- A letter or `_`, and then letters, digits and `_`.
is_env_key : Text → Bool
is_env_key [] = false
is_env_key (x ∷ s) = in_class env_start x && every (in_class env_class) s

is_env_key-matches : (s : Text) → is_env_key s ≡ true → matches valid_env_key s ≡ true
unfolding is_env_key
is_env_key-matches [] h = cc
is_env_key-matches (x ∷ s) h =
    matches-one_seq env_start (star (one env_class)) x s (ground (arith, h))
    ∙ matches-star_one env_class s (ground (arith, h))

env_byte-class : (c b : ℕ) → env_byte c ≡ some b → in_class env_class b ≡ true
env_byte-class c b h = ground arith

env_bytes-class : (s : Text) → every (in_class env_class) (env_bytes s) ≡ true
env_bytes-class [] = refl
env_bytes-class (c ∷ s) = elim (Option-cases (env_byte c)) [
  | inl e ↦ ground (arith, e, env_bytes-class s)
  | inr (b, e) ↦ ground (arith, e, env_byte-class c b e, env_bytes-class s)
]

guard_digit-env :
    (s : Text) → every (in_class env_class) s ≡ true → is_env_key (guard_digit s) ≡ true
unfolding is_env_key
guard_digit-env [] h = refl
guard_digit-env (c ∷ s) h = ground (arith, h)

sanitize_env_name-env : (name : Text) → is_env_key (sanitize_env_name name) ≡ true
unfolding sanitize_env_name
sanitize_env_name-env name = guard_digit-env (env_bytes name) (env_bytes-class name)

-- Any name becomes one that the validation of environment variables accepts.
pub sanitize_env_name-matches :
    (name : Text) → matches valid_env_key (sanitize_env_name name) ≡ true
sanitize_env_name-matches name =
    is_env_key-matches (sanitize_env_name name) (sanitize_env_name-env name)

env_key-class : (s : Text) → is_env_key s ≡ true → every (in_class env_class) s ≡ true
unfolding is_env_key
env_key-class [] h = refl
env_key-class (x ∷ s) h = ground (arith, h)

class-append :
    (s t : Text)
    → every (in_class env_class) s ≡ true
    → every (in_class env_class) t ≡ true
    → every (in_class env_class) (s ++ t) ≡ true
class-append [] t h k = k
class-append (x ∷ s) t h k = ground (arith, h, class-append s t (ground (arith, h)) k)

append-env :
    (s t : Text)
    → is_env_key s ≡ true
    → every (in_class env_class) t ≡ true
    → is_env_key (s ++ t) ≡ true
unfolding is_env_key
append-env [] t h k = cc
append-env (x ∷ s) t h k = ground (arith, h, class-append s t (ground (arith, h)) k)

-- Every name of a dictionary is such a key.
abbrev Keys : Dict Text → Type 0
Keys env = All (λ kv. is_env_key kv.0 ≡ true) env

insert-Keys :
    (k v : Text) (env : Dict Text) → is_env_key k ≡ true → Keys env → Keys (insert k v env)
unfolding insert
insert-Keys k v [] h e = (h, tt)
insert-Keys k v ((j, w) ∷ env) h e = elim (Bool-cases (same j k)) [
  | inl c ↦ rw c (h, e.1)
  | inr c ↦ rw c (e.0, insert-Keys k v env h e.1)
]

module _ (prefix : Text) (named : is_env_key prefix ≡ true) where
  port_key :
      (name : Text) → is_env_key (prefix ++ 95 ∷ sanitize_env_name name ++ codes "_PORT") ≡ true
  port_key name =
      append-env (prefix ++ 95 ∷ sanitize_env_name name) (codes "_PORT")
        (append-env prefix (95 ∷ sanitize_env_name name) named
          (env_key-class (sanitize_env_name name) (sanitize_env_name-env name)))
        refl

  named_ports-Keys :
      (ps : List ServicePort) (env : Dict Text) → Keys env → Keys (named_ports prefix ps env)
  named_ports-Keys [] env e = e
  named_ports-Keys (p ∷ ps) env e = named_ports-Keys ps _ (one_more (is_empty p.name))
    where
      one_more :
          (b : Bool)
          → Keys (
              if b
              then env
              else insert
                  (prefix ++ 95 ∷ sanitize_env_name p.name ++ codes "_PORT")
                  (decimal p.port)
                  env)
      one_more true = e
      one_more false =
          insert-Keys (prefix ++ 95 ∷ sanitize_env_name p.name ++ codes "_PORT") (decimal p.port)
            env (port_key p.name) e

  first_port-Keys :
      (addresses : List Text) (ps : List ServicePort) (env : Dict Text)
      → Keys env
      → Keys (first_port prefix addresses ps env)
  first_port-Keys addresses [] env e = e
  first_port-Keys [] (p ∷ ps) env e = named_ports-Keys (p ∷ ps) _ (
      insert-Keys (prefix ++ codes "_PORT") (decimal p.port) env
        (append-env prefix (codes "_PORT") named refl) e)
  first_port-Keys (a ∷ more) (p ∷ ps) env e = named_ports-Keys (p ∷ ps) _ (
      insert-Keys (prefix ++ codes "_ADDR") (join_host_port a p.port) _
        (append-env prefix (codes "_ADDR") named refl)
        (insert-Keys (prefix ++ codes "_PORT") (decimal p.port) env
          (append-env prefix (codes "_PORT") named refl) e))

  first_address-Keys :
      (addresses : List Text) (env : Dict Text)
      → Keys env
      → Keys (first_address prefix addresses env)
  first_address-Keys [] env e = e
  first_address-Keys (a ∷ more) env e =
      insert-Keys (prefix ++ codes "_HOST") a env (append-env prefix (codes "_HOST") named refl) e

env_prefix-env : (stack : Text) (svc : ServiceInfo) → is_env_key (env_prefix stack svc) ≡ true
env_prefix-env stack svc =
    elim (Bool-cases (is_empty svc.stack_name || same svc.stack_name stack)) [
      | inl e ↦ rw e (sanitize_env_name-env svc.name)
      | inr e ↦ rw e (
          append-env (sanitize_env_name svc.stack_name) (95 ∷ sanitize_env_name svc.name)
            (sanitize_env_name-env svc.stack_name)
            (env_key-class (sanitize_env_name svc.name) (sanitize_env_name-env svc.name)))
    ]

add_services-Keys :
    (stack : Text) (ss : List ServiceInfo) (env : Dict Text)
    → Keys env
    → Keys (add_services stack ss env)
unfolding add_service
add_services-Keys stack [] env e = e
add_services-Keys stack (s ∷ ss) env e = add_services-Keys stack ss (add_service stack s env) (
    first_port-Keys (env_prefix stack s) (env_prefix-env stack s) s.addresses s.ports _
      (first_address-Keys (env_prefix stack s) (env_prefix-env stack s) s.addresses env e))

accepted : (env : Dict Text) → Keys env → All (λ kv. matches valid_env_key kv.0 ≡ true) env
accepted [] e = tt
accepted ((k, v) ∷ env) e = (is_env_key-matches k e.0, accepted env e.1)

-- Whatever services a registry has and however they are named, every variable of the environment
-- that is built has a name of the form that the validation of variables asks for.
pub build_env-matches :
    (sr : ServiceRegistry) (stack : Text)
    → All (λ kv. matches valid_env_key kv.0 ≡ true) (build_env sr stack)
unfolding build_env
build_env-matches sr stack =
    accepted (add_services stack (list_services sr stack) [])
      (add_services-Keys stack (list_services sr stack) [] tt)
