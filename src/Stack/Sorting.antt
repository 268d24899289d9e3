-- ===== src/Stack/Sorting.antt =====
-- pkg/orchestration/stack.go: the sort ends with its queue empty, and keeps services first.
use mathlib.Core.Path.{subst}
use mathlib.Core.List.{append_assoc, append-nil}
use hospitus.Shared.{
  ℕ, zero, suc, ◌+◌, ◌≤◌, ◌≡◌, refl, sym, ap, ◌∙◌, true, false, ◌&&◌, ◌||◌, List, [], ◌∷◌, ◌++◌,
  Option, none, some, ◌==◌, arith, if◌then◌else◌, length, length-append, every, Text, Dict, IsMap,
  same, same_iff, same_refl, contains, IsDistinct, sort_texts, contains-sort_texts,
  length-sort_texts, sort_texts-IsDistinct,
}
use hospitus.Stack.{degree, reduce, kahn, start_degrees, free_names}
use hospitus.Stack.Degrees.{times, is_freed, contains-concat}
use hospitus.Stack.Rounds.{
  services_of, has, Fits, reduce-degree, reduce-contains, reduce-IsDistinct, waiting,
  reduce-waiting, degree-start_degrees, contains-free_names, free_names-IsDistinct, waiting-start,
}

-- How many of the services are not placed yet.
abbrev pub missing : List Text → List Text → ℕ
missing done [] = 0
missing done (d ∷ ds) = (if contains d done then 0 else 1) + missing done ds

missing-nil : (ds : List Text) → missing [] ds ≡ length ds
unfolding contains
missing-nil [] = refl
missing-nil (d ∷ ds) = ground (arith, missing-nil ds)

missing-concat :
    (name : Text) (done ds : List Text)
    → contains name done ≡ false
    → missing (done ++ name ∷ []) ds + times name ds ≡ missing done ds
missing-concat name done [] h = refl
missing-concat name done (d ∷ ds) h = ground (
  arith,
  missing-concat name done ds h,
  contains-concat d name done,
  same_iff d name,
  same_refl name,
)

missing-every : (done ds : List Text) → missing done ds ≡ 0 → every (λ d. contains d done) ds ≡ true
missing-every done [] h = refl
missing-every done (d ∷ ds) h = ground (arith, missing-every done ds)

-- Each name comes behind its services, and `seen` before all.
abbrev pub IsAfter : Dict (List Text) → List Text → List Text → Type 0
IsAfter deps seen [] = Unit
IsAfter deps seen (n ∷ ns) =
    (every (λ d. contains d seen) (services_of deps n) ≡ true) × IsAfter deps (seen ++ n ∷ []) ns

IsAfter-concat :
    (deps : Dict (List Text)) (seen ns : List Text) (n : Text)
    → IsAfter deps seen ns
    → every (λ d. contains d (seen ++ ns)) (services_of deps n) ≡ true
    → IsAfter deps seen (ns ++ n ∷ [])
IsAfter-concat deps seen [] n a e =
    (subst (λ s. every (λ d. contains d s) (services_of deps n) ≡ true) (append-nil seen) e, tt)
IsAfter-concat deps seen (m ∷ ns) n a e = (
  a.0,
  IsAfter-concat deps (seen ++ m ∷ []) ns n a.1 (
      subst (λ s. every (λ d. contains d s) (services_of deps n) ≡ true)
        (sym (append_assoc seen (m ∷ []) ns)) e),
)

contains-append :
    (k : Text) (xs ys : List Text) → contains k (xs ++ ys) ≡ (contains k xs || contains k ys)
unfolding contains
contains-append k [] ys = refl
contains-append k (x ∷ xs) ys = ground (arith, contains-append k xs ys)

append-IsDistinct :
    (xs ys : List Text)
    → IsDistinct xs
    → IsDistinct ys
    → ((k : Text) → contains k xs ≡ true → contains k ys ≡ false)
    → IsDistinct (xs ++ ys)
unfolding contains
append-IsDistinct [] ys d e h = e
append-IsDistinct (x ∷ xs) ys d e h = (
  ground (arith, contains-append x xs ys, d.0, h x, same_refl x),
  append-IsDistinct xs ys d.1 e (λ k c. h k (ground (arith, c))),
)

append-missing : (n : Text) (xs ys : List Text) → IsDistinct (xs ++ n ∷ ys) → contains n xs ≡ false
unfolding contains
append-missing n [] ys d = refl
append-missing n (x ∷ xs) ys d = ground (
  arith,
  append-missing n xs ys d.1,
  contains-append x xs (n ∷ ys),
  d.0,
  same_iff n x,
  same_refl n,
)

module _ (deps : Dict (List Text)) (keyed : IsMap deps) where
  -- What holds between two rounds: the degree of an instance counts its services that are not
  -- placed, and the instances of degree 0 are those that are placed or queued.
  pub record Sorts (degrees : Dict ℕ) (queue done : List Text) : Type 0 where
    pub counted : (k : Text) → degree k degrees ≡ missing done (services_of deps k)
    pub free : (k : Text) → contains k (done ++ queue) ≡ (has deps k && degree k degrees == 0)
    pub once : IsDistinct (done ++ queue)
    pub all : waiting deps degrees + length queue + length done ≡ length deps
    pub after : IsAfter deps [] done

  module _ (name : Text) (degrees : Dict ℕ) (queue done : List Text)
      (s : Sorts degrees (name ∷ queue) done) where
    abbrev reduced : Dict ℕ × List Text
    reduced = reduce name deps (degrees, [])

    unplaced : contains name done ≡ false
    unplaced = append-missing name done queue s.once

    fits : Fits name deps degrees
    fits k = ground (arith, s.counted k, missing-concat name done (services_of deps k) unplaced)

    freed :
        (k : Text) → contains k reduced.1 ≡ is_freed name (services_of deps k) (degree k degrees)
    unfolding contains
    freed k = reduce-contains name deps (degrees, []) k keyed fits

    queued :
        (k : Text)
        → contains k (done ++ name ∷ queue) ≡ (contains k done || (same k name || contains k queue))
    unfolding contains
    queued k = contains-append k done (name ∷ queue)

    freed_new :
        (k : Text)
        → contains k (done ++ name ∷ queue) ≡ true
        → contains k (sort_texts reduced.1) ≡ false
    freed_new k c = contains-sort_texts k reduced.1 ∙ freed k ∙ ground (arith, s.free k, c)

    name_free : degree name degrees ≡ 0
    name_free = ground (arith, s.free name, queued name, same_refl name)

    new_order :
        (done ++ name ∷ []) ++ (queue ++ sort_texts reduced.1)
        ≡ (done ++ name ∷ queue) ++ sort_texts reduced.1
    new_order =
        append_assoc done (name ∷ []) (queue ++ sort_texts reduced.1)
        ∙ sym (append_assoc done (name ∷ queue) (sort_texts reduced.1))

    placed_contains :
        (k : Text)
        → contains k ((done ++ name ∷ []) ++ (queue ++ sort_texts reduced.1))
          ≡ (contains k (done ++ name ∷ queue) || contains k reduced.1)
    placed_contains k =
        ap (contains k) new_order
        ∙ contains-append k (done ++ name ∷ queue) (sort_texts reduced.1)
        ∙ ap (λ b. contains k (done ++ name ∷ queue) || b) (contains-sort_texts k reduced.1)

    new_once : IsDistinct (reduce name deps (degrees, [])).1
    unfolding contains
    new_once = reduce-IsDistinct name deps (degrees, []) keyed fits tt (λ k c. cc)

    pub round-Sorts : Sorts reduced.0 (queue ++ sort_texts reduced.1) (done ++ name ∷ [])
    round-Sorts = record {
      counted = λ k. ground (
        arith,
        reduce-degree name deps (degrees, []) k keyed,
        s.counted k,
        missing-concat name done (services_of deps k) unplaced,
      );
      free = λ k.
          placed_contains k
          ∙ ground
              (arith, freed k, s.free k, reduce-degree name deps (degrees, []) k keyed, fits k);
      once = subst IsDistinct (sym new_order) (
          append-IsDistinct (done ++ name ∷ queue) (sort_texts reduced.1) s.once
            (sort_texts-IsDistinct reduced.1 new_once) freed_new);
      all = ground (
        arith,
        s.all,
        reduce-waiting name deps (degrees, []) keyed fits,
        length-append queue (sort_texts reduced.1),
        length-sort_texts reduced.1,
        length-append done (name ∷ []),
      );
      after =
          IsAfter-concat deps [] done name s.after (
            missing-every done (services_of deps name) (ground (arith, s.counted name, name_free)));
    }

  -- With as much fuel as instances are not placed, the sort ends with an empty queue.
  pub kahn-Sorts :
      (fuel : ℕ) (degrees : Dict ℕ) (queue done : List Text)
      → waiting deps degrees + length queue ≤ fuel
      → Sorts degrees queue done
      → (final : Dict ℕ) × Sorts final [] (kahn fuel deps degrees queue done)
  unfolding kahn
  kahn-Sorts fuel degrees [] done h s = (degrees, s)
  kahn-Sorts zero degrees (name ∷ queue) done h s = absurd (omega (arith, h))
  kahn-Sorts (suc fuel) degrees (name ∷ queue) done h s =
      let next = round-Sorts name degrees queue done s in
      kahn-Sorts fuel (reduce name deps (degrees, [])).0
        (queue ++ sort_texts (reduce name deps (degrees, [])).1) (done ++ name ∷ [])
        (ground (arith, h, next.all, s.all, length-append done (name ∷ []))) next

  pub start-Sorts : Sorts (start_degrees deps) (sort_texts (free_names (start_degrees deps))) []
  start-Sorts = record {
    counted = λ k. degree-start_degrees deps k ∙ sym (missing-nil (services_of deps k));
    free = λ k.
        contains-sort_texts k (free_names (start_degrees deps))
        ∙ contains-free_names deps k keyed
        ∙ ap (λ n. has deps k && n == 0) (sym (degree-start_degrees deps k));
    once =
        sort_texts-IsDistinct (free_names (start_degrees deps)) (free_names-IsDistinct deps keyed);
    all = ground (
      arith,
      length-sort_texts (free_names (start_degrees deps)),
      waiting-start deps (start_degrees deps) keyed
          (λ k ds e. degree-start_degrees deps k ∙ ap length (ap (some_or []) e)),
    );
    after = tt;
  }
    where
      some_or : List Text → Option (List Text) → List Text
      some_or d none = d
      some_or d (some x) = x
