-- ===== src/Stack.antt =====
-- pkg/orchestration/stack.go: the order in which a stack starts its instances, by Kahn's algorithm.
pub mod Degrees
pub mod Rounds
pub mod Sorting
pub mod Order
pub mod Index
pub mod Acyclic
pub mod Manager
mod Tests
use hospitus.Shared.{
  ℕ, zero, suc, ◌+◌, ◌-◌, Bool, true, false, not, ◌&&◌, List, [], ◌∷◌, ◌++◌, Option, none, some,
  leb, ◌==◌, if◌then◌else◌, length, Text, Dict, lookup, insert, same, contains, sort_texts,
}
use hospitus.Discovery.{ServicePort}

-- Durations are what `time.ParseDuration` makes of them: none for an empty or unreadable one.
pub record HealthCheckSpec : Type 0 where
  pub command : List Text
  pub interval : Option ℕ
  pub timeout : Option ℕ
  pub retries : ℕ
  pub start_period : Option ℕ

-- `negsuc n` is `-1 - n`.
pub data ℤ : Type 0 where
  pos negsuc : ℕ → ℤ

pub record RestartSpec : Type 0 where
  pub enabled : Bool
  pub max_restarts : ℤ
  pub delay : Option ℤ
  pub reset_after : Option ℤ

-- The fields that the stack manager reads. `services` is empty where the code has no `DependsOn`, and
-- `when_healthy` is its condition; addresses and ports are those of all networks.
pub record InstanceConfig : Type 0 where
  pub name : Text
  pub services : List Text
  pub provider : Text
  pub when_healthy : Bool
  pub health_check : Option HealthCheckSpec
  pub restart : Option RestartSpec
  pub addresses : List Text
  pub ports : List ServicePort

pub data OrderError : Type 0 where
  unknown_service : Text → Text → OrderError
  duplicate_name : Text → OrderError
  circular : OrderError

pub data Ordered : Type 0 where
  ordered : List InstanceConfig → Ordered
  refused : OrderError → Ordered

-- `byName`; a later instance takes the place of an earlier one of the same name.
unfoldable pub index_by_name : List InstanceConfig → Dict InstanceConfig → Dict InstanceConfig
index_by_name [] m = m
index_by_name (i ∷ is) m = index_by_name is (insert i.name i m)

-- `deps`, which is filled beside `byName`.
unfoldable pub deps_of : Dict InstanceConfig → Dict (List Text)
deps_of [] = []
deps_of ((name, i) ∷ m) = (name, i.services) ∷ deps_of m

abbrev pub first_unknown : Dict InstanceConfig → List Text → Option Text
first_unknown by_name [] = none
first_unknown by_name (d ∷ ds) =
    let rest = first_unknown by_name ds in elim (lookup d by_name) [ none ↦ some d | some i ↦ rest ]

unfoldable pub check_known : Dict InstanceConfig → Dict (List Text) → Option OrderError
check_known by_name [] = none
check_known by_name ((name, ds) ∷ deps) =
    let rest = check_known by_name deps in
    elim (first_unknown by_name ds) [ some d ↦ some (unknown_service name d) | none ↦ rest ]

-- `inDegree` as it starts.
unfoldable pub start_degrees : Dict (List Text) → Dict ℕ
start_degrees [] = []
start_degrees ((name, ds) ∷ deps) = (name, length ds) ∷ start_degrees deps

unfoldable pub free_names : Dict ℕ → List Text
free_names [] = []
free_names ((name, n) ∷ degrees) =
    let rest = free_names degrees in if n == 0 then name ∷ rest else rest

abbrev pub degree : Text → Dict ℕ → ℕ
degree k degrees = elim (lookup k degrees) [ none ↦ 0 | some n ↦ n ]

-- `inDegree[dep]--`, and the test for zero: an integer gets to zero from one.
unfoldable pub lower : Text → Dict ℕ × List Text → Dict ℕ × List Text
lower dep st =
    let n = degree dep st.0 in (insert dep (n - 1) st.0, if n == 1 then st.1 ++ dep ∷ [] else st.1)

-- The loop over the services of one instance.
unfoldable pub lower_each : Text → Text → List Text → Dict ℕ × List Text → Dict ℕ × List Text
lower_each name dep [] st = st
lower_each name dep (d ∷ ds) st = lower_each name dep ds (if same d name then lower dep st else st)

-- The loop over all instances; the names that become free stand in the second component.
unfoldable pub reduce : Text → Dict (List Text) → Dict ℕ × List Text → Dict ℕ × List Text
reduce name [] st = st
reduce name ((dep, ds) ∷ deps) st = reduce name deps (lower_each name dep ds st)

-- The names in the order in which they leave the queue.
unfoldable pub kahn : ℕ → Dict (List Text) → Dict ℕ → List Text → List Text → List Text
kahn fuel deps degrees [] done = done
kahn zero deps degrees (name ∷ queue) done = done
kahn (suc fuel) deps degrees (name ∷ queue) done =
    let reduced = reduce name deps (degrees, []) in
    kahn fuel deps reduced.0 (queue ++ sort_texts reduced.1) (done ++ name ∷ [])

-- `if inst, ok := byName[name]; ok`.
unfoldable pub instances_of : Dict InstanceConfig → List Text → List InstanceConfig
instances_of by_name [] = []
instances_of by_name (n ∷ ns) =
    let rest = instances_of by_name ns in
    elim (lookup n by_name) [ none ↦ rest | some i ↦ i ∷ rest ]

unfoldable pub first_duplicate : List Text → List InstanceConfig → Option Text
first_duplicate seen [] = none
first_duplicate seen (i ∷ is) =
    let rest = first_duplicate (i.name ∷ seen) is in
    if contains i.name seen then some i.name else rest

-- The tests behind the sort.
abbrev pub conclude : List InstanceConfig → Dict InstanceConfig → List InstanceConfig → Ordered
conclude instances by_name result =
    let sorted = if length result == length instances then ordered result else refused circular in
    if length by_name == length instances then sorted else elim (first_duplicate [] instances) [
      | some name ↦ refused (duplicate_name name)
      | none ↦ sorted
    ]

unfoldable pub build_dependency_order : List InstanceConfig → Ordered
build_dependency_order instances =
    let by_name = index_by_name instances [] in
    let deps = deps_of by_name in
    let degrees = start_degrees deps in
    let names = kahn (length deps) deps degrees (sort_texts (free_names degrees)) [] in
    elim (check_known by_name deps) [
      | some e ↦ refused e
      | none ↦ conclude instances by_name (instances_of by_name names)
    ]
