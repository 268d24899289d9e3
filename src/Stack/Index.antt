-- ===== src/Stack/Index.antt =====
-- pkg/orchestration/stack.go: the maps by name and the instances that they are made of.
use mathlib.Core.Path.{subst}
use hospitus.Shared.{
  inl, inr, suc, ◌+◌, ◌≤◌, ◌≡◌, refl, ◌∙◌, true, false, ◌||◌, List, [], ◌∷◌, none, some, arith,
  if◌then◌else◌, length, All, every, Text, Dict, lookup, insert, lookup-insert, same, same_iff,
  same_refl, contains, IsDistinct, Bool-cases,
}
use hospitus.Stack.{InstanceConfig, index_by_name, deps_of, first_unknown, check_known}
use hospitus.Stack.Rounds.{has}
use hospitus.Stack.Order.{names_of, lookup-deps_of}

has-insert :
    (k : Text) (i : InstanceConfig) (m : Dict InstanceConfig)
    → has (deps_of (insert i.name i m)) k ≡ (same k i.name || has (deps_of m) k)
has-insert k i m = ground (
  arith,
  lookup-deps_of (insert i.name i m) k,
  lookup-deps_of m k,
  lookup-insert i.name k i m,
  same_iff k i.name,
  same_iff i.name k,
)

pub has-index_by_name :
    (k : Text) (is : List InstanceConfig) (m : Dict InstanceConfig)
    → has (deps_of (index_by_name is m)) k ≡ (contains k (names_of is) || has (deps_of m) k)
unfolding index_by_name names_of contains
has-index_by_name k [] m = refl
has-index_by_name k (i ∷ is) m =
    ground (arith, has-index_by_name k is (insert i.name i m), has-insert k i m)

length-insert :
    (k : Text) (i : InstanceConfig) (m : Dict InstanceConfig)
    → length (insert k i m) ≡ (if has (deps_of m) k then length m else suc (length m))
unfolding insert deps_of lookup
length-insert k i [] = refl
length-insert k i ((j, v) ∷ m) = ground (arith, length-insert k i m)

pub length-index_le :
    (is : List InstanceConfig) (m : Dict InstanceConfig)
    → length (index_by_name is m) ≤ length is + length m
unfolding index_by_name
length-index_le [] m = omega arith
length-index_le (i ∷ is) m =
    ground (arith, length-index_le is (insert i.name i m), length-insert i.name i m)

pub length-index_by_name :
    (is : List InstanceConfig) (m : Dict InstanceConfig)
    → IsDistinct (names_of is)
    → ((k : Text) → contains k (names_of is) ≡ true → has (deps_of m) k ≡ false)
    → length (index_by_name is m) ≡ length is + length m
unfolding index_by_name names_of contains
length-index_by_name [] m d h = omega arith
length-index_by_name (i ∷ is) m d h =
    length-index_by_name is (insert i.name i m) d.1
      (λ k c. ground (arith, c, h k, has-insert k i m, d.0, same_iff k i.name))
    ∙ ground (arith, length-insert i.name i m, h i.name, same_refl i.name)

-- What holds of all instances holds of all entries.
module _ (P : InstanceConfig → Type 0) where
  abbrev pub Entries : Dict InstanceConfig → Type 0
  Entries m = All (λ kv. P kv.1) m

  insert-Entries :
      (k : Text) (i : InstanceConfig) (m : Dict InstanceConfig)
      → P i
      → Entries m
      → Entries (insert k i m)
  unfolding insert
  insert-Entries k i [] p e = (p, tt)
  insert-Entries k i ((j, v) ∷ m) p e = elim (Bool-cases (same j k)) [
    | inl c ↦ rw c (p, e.1)
    | inr c ↦ rw c (e.0, insert-Entries k i m p e.1)
  ]

  pub index_by_name-Entries :
      (is : List InstanceConfig) (m : Dict InstanceConfig)
      → All P is
      → Entries m
      → Entries (index_by_name is m)
  unfolding index_by_name
  index_by_name-Entries [] m a e = e
  index_by_name-Entries (i ∷ is) m a e =
      index_by_name-Entries is (insert i.name i m) a.1 (insert-Entries i.name i m a.0 e)

  pub lookup-Entries :
      (k : Text) (i : InstanceConfig) (m : Dict InstanceConfig)
      → Entries m
      → lookup k m ≡ some i
      → P i
  unfolding lookup
  lookup-Entries k i [] e h = cc
  lookup-Entries k i ((j, v) ∷ m) e h = elim (Bool-cases (same j k)) [
    | inl c ↦ subst P (ground (arith, c, h)) e.0
    | inr c ↦ lookup-Entries k i m e.1 (ground (arith, c, h))
  ]

pub check_known-Entries :
    (by_name m : Dict InstanceConfig)
    → Entries (λ i. first_unknown by_name i.services ≡ none) m
    → check_known by_name (deps_of m) ≡ none
unfolding check_known deps_of
check_known-Entries by_name [] e = refl
check_known-Entries by_name ((k, i) ∷ m) e = ground (arith, e.0, check_known-Entries by_name m e.1)

pub first_unknown-every :
    (m : Dict InstanceConfig) (ds : List Text)
    → every (λ d. has (deps_of m) d) ds ≡ true
    → first_unknown m ds ≡ none
first_unknown-every m [] h = refl
first_unknown-every m (d ∷ ds) h = ground (arith, first_unknown-every m ds, lookup-deps_of m d)
