-- ===== src/Stack/Acyclic.antt =====
-- pkg/orchestration/stack.go: what buildDependencyOrder promises, and that it finds an order
-- wherever there is one.
use mathlib.Core.Path.{subst}
use hospitus.Shared.{
  ℕ, zero, suc, ◌<◌, ◌≡◌, refl, sym, ap, ◌∙◌, inl, inr, true, ◌&&◌, List, [], ◌∷◌, none, some, ◌==◌,
  arith, length, All, every, Text, Dict, lookup, IsMap, same_iff, same_refl, contains, IsDistinct,
  sort_texts, Option-cases,
}
use mathlib.Core.List.{append-nil}
use hospitus.Stack.{
  InstanceConfig, ordered, index_by_name, deps_of, first_unknown, degree, start_degrees, free_names,
  kahn, instances_of, build_dependency_order,
}
use hospitus.Stack.Rounds.{services_of, has, waiting}
use hospitus.Stack.Sorting.{missing, Sorts, kahn-Sorts, start-Sorts}
use hospitus.Stack.Order.{
  names_of, IsKnown, IsNamed, IsStartable, index_by_name-IsMap, index_by_name-IsNamed,
  deps_of-IsMap, length-deps_of, lookup-deps_of, length-instances_of, names_of-instances_of,
  instances_of-IsStartable,
}
use hospitus.Stack.Index.{
  has-index_by_name, length-index_le, length-index_by_name, Entries, index_by_name-Entries,
  lookup-Entries, check_known-Entries, first_unknown-every,
}

contains-IsKnown :
    (m : Dict InstanceConfig) (ns : List Text)
    → ((k : Text) → contains k ns ≡ true → has (deps_of m) k ≡ true)
    → IsKnown m ns
unfolding contains
contains-IsKnown m [] h = tt
contains-IsKnown m (n ∷ ns) h =
    (h n (ground (arith, same_refl n)), contains-IsKnown m ns (λ k c. h k (ground (arith, c))))

waiting-zero :
    (deps : Dict (List Text)) (degrees : Dict ℕ)
    → IsMap deps
    → ((k : Text) (ds : List Text) → lookup k deps ≡ some ds → degree k degrees ≡ 0)
    → waiting deps degrees ≡ 0
unfolding lookup
waiting-zero [] degrees m h = refl
waiting-zero ((dep, ds) ∷ deps) degrees m h =
    ground (arith, waiting-zero deps degrees m.1 (λ k es e. later k es e), h dep ds, same_refl dep)
  where
    later : (k : Text) (es : List Text) → lookup k deps ≡ some es → degree k degrees ≡ 0
    later k es e = ground (arith, e, h k es, same_iff dep k, m.0)

-- None of these is waited for.
zero-waiting :
    (deps : Dict (List Text)) (degrees : Dict ℕ) (k : Text)
    → waiting deps degrees ≡ 0
    → has deps k ≡ true
    → degree k degrees ≡ 0
unfolding lookup
zero-waiting [] degrees k w h = cc
zero-waiting ((dep, ds) ∷ deps) degrees k w h =
    ground (arith, zero-waiting deps degrees k, w, h, same_iff dep k)

module _ (instances : List InstanceConfig) where
  abbrev by_name : Dict InstanceConfig
  by_name = index_by_name instances []

  abbrev deps : Dict (List Text)
  deps = deps_of by_name

  abbrev names : List Text
  names =
      kahn (length deps) deps (start_degrees deps) (sort_texts (free_names (start_degrees deps))) []

  by_name-IsMap : IsMap by_name
  by_name-IsMap = index_by_name-IsMap instances [] tt

  by_name-IsNamed : IsNamed by_name
  unfolding lookup
  by_name-IsNamed = index_by_name-IsNamed instances [] (λ k i e. cc)

  keyed : IsMap deps
  keyed = deps_of-IsMap by_name by_name-IsMap

  ends : (final : Dict ℕ) × Sorts deps keyed final [] names
  ends =
      let first = start-Sorts deps keyed in
      kahn-Sorts deps keyed (length deps) (start_degrees deps)
        (sort_texts (free_names (start_degrees deps))) [] (omega (arith, first.all)) first

  free_at_end : (k : Text) → contains k names ≡ (has deps k && degree k ends.0 == 0)
  free_at_end k = ap (contains k) (sym (append-nil names)) ∙ ends.1.free k

  names-IsKnown : IsKnown by_name names
  names-IsKnown = contains-IsKnown by_name names (λ k c. ground (arith, c, free_at_end k))

  has-instances : (k : Text) → has deps k ≡ contains k (names_of instances)
  unfolding deps_of lookup
  has-instances k = has-index_by_name k instances [] ∙ ground arith

  -- Where the result has as many instances as there are, it has all.
  all_placed :
      length (instances_of by_name names) ≡ length instances
      → (k : Text) → contains k names ≡ contains k (names_of instances)
  all_placed e k =
      let none_waits : waiting deps ends.0 ≡ 0 = ground (
        arith,
        e,
        ends.1.all,
        length-instances_of by_name by_name-IsNamed names names-IsKnown,
        length-deps_of by_name,
        length-index_le instances [],
      ) in
      ground (arith, free_at_end k, has-instances k, zero-waiting deps ends.0 k none_waits)

  ordered-result :
      (result : List InstanceConfig)
      → build_dependency_order instances ≡ ordered result
      → (result ≡ instances_of by_name names)
        × (length (instances_of by_name names) ≡ length instances)
  unfolding build_dependency_order
  ordered-result result h = (ground (arith, h), ground (arith, h))

  -- What the order of a stack promises: each instance behind all that it depends on, none twice,
  -- and exactly those that were given.
  pub record IsOrderOf (result : List InstanceConfig) : Type 0 where
    pub startable : IsStartable [] result
    pub distinct : IsDistinct (names_of result)
    pub complete : length result ≡ length instances
    pub same_names : (k : Text) → contains k (names_of result) ≡ contains k (names_of instances)

  -- When an order is given, each instance comes behind all that it depends on, no name stands twice
  -- in it, and its names are exactly those of the instances.
  pub build_dependency_order-IsOrderOf :
      (result : List InstanceConfig)
      → build_dependency_order instances ≡ ordered result
      → IsOrderOf result
  build_dependency_order-IsOrderOf result h =
      let found = ordered-result result h in
      let named = names_of-instances_of by_name by_name-IsNamed names names-IsKnown in
      subst IsOrderOf (sym found.0) (record {
        startable =
            instances_of-IsStartable by_name by_name-IsNamed names [] names-IsKnown ends.1.after;
        distinct = subst IsDistinct (append-nil names ∙ sym named) ends.1.once;
        complete = found.1;
        same_names = λ k. ap (contains k) named ∙ all_placed found.1 k;
      })

  module _ (rank : Text → ℕ) where
    -- A service is an instance of the stack, of a lower rank.
    abbrev pub IsRanked : InstanceConfig → Type 0
    IsRanked i =
        (every (λ d. contains d (names_of instances)) i.services ≡ true)
        × All (λ d. rank d < rank i.name) i.services

    missing-zero :
        (done ds : List Text) → All (λ d. contains d done ≡ true) ds → missing done ds ≡ 0
    missing-zero done [] a = refl
    missing-zero done (d ∷ ds) a = ground (arith, a.0, missing-zero done ds a.1)

    services-found :
        (k : Text) (i : InstanceConfig)
        → lookup k by_name ≡ some i
        → services_of deps k ≡ i.services
    services-found k i e = ground (arith, e, lookup-deps_of by_name k)

    -- Services of a lower rank are placed, if all instances below the bound are free.
    placed_below :
        (bound above : ℕ) (ds : List Text)
        → ((d : Text) (j : InstanceConfig)
            → lookup d by_name ≡ some j
            → rank d < bound
            → degree d ends.0 ≡ 0)
        → above < suc bound
        → every (λ d. contains d (names_of instances)) ds ≡ true
        → All (λ d. rank d < above) ds
        → All (λ d. contains d names ≡ true) ds
    placed_below bound above [] below h c a = tt
    placed_below bound above (d ∷ ds) below h c a = elim (Option-cases (lookup d by_name)) [
      | inl nowhere ↦ absurd (ground (arith, c, nowhere, has-instances d, lookup-deps_of by_name d))
      | inr (j, found) ↦
          let free : degree d ends.0 ≡ 0 = below d j found (omega (arith, h, a.0)) in
          (
            ground (arith, found, lookup-deps_of by_name d, free_at_end d, free),
            placed_below bound above ds below h (ground (arith, c)) a.1,
          )
    ]

    -- By the rank, from below: every instance of a lower rank than the bound is free at the end.
    free_below :
        (bound : ℕ)
        → Entries IsRanked by_name
        → (k : Text) (i : InstanceConfig) → lookup k by_name ≡ some i
        → rank k < bound
        → degree k ends.0 ≡ 0
    free_below zero all k i e h = absurd (omega (arith, h))
    free_below (suc bound) all k i e h =
        let ranked = lookup-Entries IsRanked k i by_name all e in
        ends.1.counted k
        ∙ ap (missing names) (services-found k i e)
        ∙ missing-zero names i.services (
            placed_below bound (rank k) i.services (free_below bound all) h ranked.0
              (subst (λ n. All (λ d. rank d < rank n) i.services) (by_name-IsNamed k i e) ranked.1))

    known_services : (i : InstanceConfig) → IsRanked i → first_unknown by_name i.services ≡ none
    known_services i r = first_unknown-every by_name i.services (every-has i.services r.0)
      where
        every-has :
            (ds : List Text)
            → every (λ d. contains d (names_of instances)) ds ≡ true
            → every (λ d. has deps d) ds ≡ true
        every-has [] c = refl
        every-has (d ∷ ds) c = ground (arith, every-has ds, has-instances d, c)

    Entries-known :
        (m : Dict InstanceConfig)
        → Entries IsRanked m
        → Entries (λ i. first_unknown by_name i.services ≡ none) m
    Entries-known [] e = tt
    Entries-known ((k, i) ∷ m) e = (known_services i e.0, Entries-known m e.1)

    -- Where the names of the instances are distinct and some rank puts the services of each among
    -- the instances of a lower rank, an order is given.
    pub build_dependency_order-ordered :
        IsDistinct (names_of instances)
        → All IsRanked instances
        → (result : List InstanceConfig) × (build_dependency_order instances ≡ ordered result)
    unfolding build_dependency_order lookup deps_of
    build_dependency_order-ordered distinct ranked =
        let all : Entries IsRanked by_name =
          index_by_name-Entries IsRanked instances [] ranked tt in
        let free : (k : Text) (ds : List Text) → lookup k deps ≡ some ds → degree k ends.0 ≡ 0 =
          λ k ds e. free_entry all k ds e in
        let none_waits = waiting-zero deps ends.0 keyed free in
        let counted = length-index_by_name instances [] distinct (λ k c. refl) in
        let known = check_known-Entries by_name by_name (Entries-known by_name all) in
        (
          instances_of by_name names,
          ground (
            arith,
            known,
            counted,
            none_waits,
            ends.1.all,
            length-deps_of by_name,
            length-instances_of by_name by_name-IsNamed names names-IsKnown,
          ),
        )
      where
        free_entry :
            Entries IsRanked by_name
            → (k : Text) (ds : List Text) → lookup k deps ≡ some ds
            → degree k ends.0 ≡ 0
        free_entry all k ds e = elim (Option-cases (lookup k by_name)) [
          | inl nowhere ↦ absurd (ground (arith, e, nowhere, lookup-deps_of by_name k))
          | inr (i, found) ↦ free_below (suc (rank k)) all k i found (omega arith)
        ]
