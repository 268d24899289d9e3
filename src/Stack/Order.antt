-- ===== src/Stack/Order.antt =====
-- pkg/orchestration/stack.go: the order that buildDependencyOrder gives, and when it gives one.
use mathlib.Core.Path.{subst}
use hospitus.Shared.{
  suc, ◌≡◌, refl, sym, ap, inl, inr, true, List, [], ◌∷◌, ◌++◌, none, some, arith, length, All,
  every, Text, Dict, lookup, insert, lookup-insert, insert-IsMap, IsMap, same_iff, contains,
  Option-cases,
}
use hospitus.Stack.{InstanceConfig, index_by_name, deps_of, instances_of}
use hospitus.Stack.Rounds.{has}
use hospitus.Stack.Sorting.{IsAfter}

-- Each entry stands under its own name.
abbrev pub IsNamed : Dict InstanceConfig → Type 0
IsNamed m = (k : Text) (i : InstanceConfig) → lookup k m ≡ some i → i.name ≡ k

pub index_by_name-IsMap :
    (is : List InstanceConfig) (m : Dict InstanceConfig) → IsMap m → IsMap (index_by_name is m)
unfolding index_by_name
index_by_name-IsMap [] m h = h
index_by_name-IsMap (i ∷ is) m h =
    index_by_name-IsMap is (insert i.name i m) (insert-IsMap i.name i m h)

pub index_by_name-IsNamed :
    (is : List InstanceConfig) (m : Dict InstanceConfig) → IsNamed m → IsNamed (index_by_name is m)
unfolding index_by_name
index_by_name-IsNamed [] m h = h
index_by_name-IsNamed (i ∷ is) m h =
    index_by_name-IsNamed is (insert i.name i m)
      (λ k j e. ground (arith, e, lookup-insert i.name k i m, same_iff i.name k, h k j))

pub lookup-deps_of :
    (m : Dict InstanceConfig) (k : Text)
    → lookup k (deps_of m) ≡ elim (lookup k m) [ none ↦ none | some i ↦ some i.services ]
unfolding lookup deps_of
lookup-deps_of [] k = refl
lookup-deps_of ((j, i) ∷ m) k = ground (arith, lookup-deps_of m k)

pub deps_of-IsMap : (m : Dict InstanceConfig) → IsMap m → IsMap (deps_of m)
unfolding deps_of
deps_of-IsMap [] h = tt
deps_of-IsMap ((k, i) ∷ m) h = (ground (arith, lookup-deps_of m k, h.0), deps_of-IsMap m h.1)

pub length-deps_of : (m : Dict InstanceConfig) → length (deps_of m) ≡ length m
unfolding deps_of
length-deps_of [] = refl
length-deps_of ((k, i) ∷ m) = ap suc (length-deps_of m)

-- Each instance comes behind those that it depends on, and `seen` before all.
abbrev pub IsStartable : List Text → List InstanceConfig → Type 0
IsStartable seen [] = Unit
IsStartable seen (i ∷ is) =
    (every (λ d. contains d seen) i.services ≡ true) × IsStartable (seen ++ i.name ∷ []) is

unfoldable pub names_of : List InstanceConfig → List Text
names_of [] = []
names_of (i ∷ is) = i.name ∷ names_of is

-- All names are those of instances.
abbrev pub IsKnown : Dict InstanceConfig → List Text → Type 0
IsKnown m ns = All (λ n. has (deps_of m) n ≡ true) ns

module _ (m : Dict InstanceConfig) (named : IsNamed m) where
  pub length-instances_of : (ns : List Text) → IsKnown m ns → length (instances_of m ns) ≡ length ns
  unfolding instances_of
  length-instances_of [] k = refl
  length-instances_of (n ∷ ns) k =
      ground (arith, length-instances_of ns k.1, k.0, lookup-deps_of m n)

  pub names_of-instances_of : (ns : List Text) → IsKnown m ns → names_of (instances_of m ns) ≡ ns
  unfolding instances_of names_of
  names_of-instances_of [] k = refl
  names_of-instances_of (n ∷ ns) k = elim (Option-cases (lookup n m)) [
    | inl e ↦ absurd (ground (arith, e, k.0, lookup-deps_of m n))
    | inr (i, e) ↦ ground (arith, e, names_of-instances_of ns k.1, named n i e)
  ]

  pub instances_of-IsStartable :
      (ns seen : List Text)
      → IsKnown m ns
      → IsAfter (deps_of m) seen ns
      → IsStartable seen (instances_of m ns)
  unfolding instances_of
  instances_of-IsStartable [] seen k a = tt
  instances_of-IsStartable (n ∷ ns) seen k a = elim (Option-cases (lookup n m)) [
    | inl e ↦ absurd (ground (arith, e, k.0, lookup-deps_of m n))
    | inr (i, e) ↦ subst (IsStartable seen) (sym (found n ns i e)) (
      ground (arith, a.0, e, lookup-deps_of m n),
      subst (λ j. IsStartable (seen ++ j ∷ []) (instances_of m ns)) (sym (named n i e))
          (instances_of-IsStartable ns (seen ++ n ∷ []) k.1 a.1),
    )
  ]
    where
      found :
          (n : Text) (ns : List Text) (i : InstanceConfig)
          → lookup n m ≡ some i
          → instances_of m (n ∷ ns) ≡ i ∷ instances_of m ns
      found n ns i e = rw (e, instances_of) refl
