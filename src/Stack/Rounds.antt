-- ===== src/Stack/Rounds.antt =====
-- pkg/orchestration/stack.go: one round over all instances.
use hospitus.Shared.{
  ℕ, ◌+◌, ◌-◌, ◌≤◌, ◌≡◌, refl, Bool, true, false, ◌&&◌, ◌||◌, List, [], ◌∷◌, ◌++◌, none, some, ltb,
  ◌==◌, arith, if◌then◌else◌, length, length-append, Text, Dict, lookup, IsMap, same_iff, same_refl,
  contains, IsDistinct,
}
use hospitus.Stack.{degree, lower_each, reduce, start_degrees, free_names}
use hospitus.Stack.Degrees.{times, is_freed, lower_each-degree, lower_each-new, contains-concat}

abbrev pub services_of : Dict (List Text) → Text → List Text
services_of deps k = elim (lookup k deps) [ none ↦ [] | some ds ↦ ds ]

abbrev pub has : Dict (List Text) → Text → Bool
has deps k = elim (lookup k deps) [ none ↦ false | some ds ↦ true ]

-- No instance has more services of this name than its degree.
abbrev pub Fits : Text → Dict (List Text) → Dict ℕ → Type 0
Fits name deps degrees = (k : Text) → times name (services_of deps k) ≤ degree k degrees

module _ (name : Text) where
  Fits-later :
      (dep : Text) (ds : List Text) (deps : Dict (List Text)) (st : Dict ℕ × List Text)
      → IsMap ((dep, ds) ∷ deps)
      → Fits name ((dep, ds) ∷ deps) st.0
      → Fits name deps (lower_each name dep ds st).0
  unfolding lookup
  Fits-later dep ds deps st m f k =
      ground (arith, lower_each-degree name dep k ds st, f k, m.0, same_iff dep k)

  pub reduce-degree :
      (deps : Dict (List Text)) (st : Dict ℕ × List Text) (k : Text)
      → IsMap deps
      → degree k (reduce name deps st).0 ≡ degree k st.0 - times name (services_of deps k)
  unfolding reduce lookup
  reduce-degree [] st k m = ground arith
  reduce-degree ((dep, ds) ∷ deps) st k m = ground (
    arith,
    reduce-degree deps (lower_each name dep ds st) k m.1,
    lower_each-degree name dep k ds st,
    m.0,
    same_iff dep k,
  )

  pub reduce-contains :
      (deps : Dict (List Text)) (st : Dict ℕ × List Text) (k : Text)
      → IsMap deps
      → Fits name deps st.0
      → contains k (reduce name deps st).1
        ≡ (contains k st.1 || is_freed name (services_of deps k) (degree k st.0))
  unfolding reduce lookup
  reduce-contains [] st k m f = ground arith
  reduce-contains ((dep, ds) ∷ deps) st k m f = ground (
    arith,
    reduce-contains deps (lower_each name dep ds st) k m.1 (Fits-later dep ds deps st m f),
    lower_each-degree name dep k ds st,
    lower_each-new name dep ds st,
    contains-concat k dep st.1,
    m.0,
    f dep,
    f k,
    same_iff dep k,
    same_iff k dep,
    same_refl dep,
  )

  distinct-concat :
      (j : Text) (xs : List Text)
      → IsDistinct xs
      → contains j xs ≡ false
      → IsDistinct (xs ++ j ∷ [])
  unfolding contains
  distinct-concat j [] d c = (refl, tt)
  distinct-concat j (x ∷ xs) d c =
      ground
        (arith, distinct-concat j xs d.1, contains-concat x j xs, d.0, same_iff x j, same_iff j x)

  pub reduce-IsDistinct :
      (deps : Dict (List Text)) (st : Dict ℕ × List Text)
      → IsMap deps
      → Fits name deps st.0
      → IsDistinct st.1
      → ((k : Text) → contains k st.1 ≡ true → lookup k deps ≡ none)
      → IsDistinct (reduce name deps st).1
  unfolding reduce lookup
  reduce-IsDistinct [] st m f d fresh = d
  reduce-IsDistinct ((dep, ds) ∷ deps) st m f d fresh =
      reduce-IsDistinct deps (lower_each name dep ds st) m.1 (Fits-later dep ds deps st m f)
        (ground (
          arith,
          d,
          lower_each-new name dep ds st,
          f dep,
          same_refl dep,
          distinct-concat dep st.1 d,
          fresh dep,
        ))
        (λ k c. ground (
          arith,
          c,
          lower_each-new name dep ds st,
          f dep,
          same_refl dep,
          same_iff k dep,
          same_iff dep k,
          m.0,
          contains-concat k dep st.1,
          fresh k,
        ))

-- How many instances still wait for a service.
abbrev pub waiting : Dict (List Text) → Dict ℕ → ℕ
waiting [] degrees = 0
waiting ((dep, ds) ∷ deps) degrees =
    (if ltb 0 (degree dep degrees) then 1 else 0) + waiting deps degrees

module _ (name : Text) where
  waiting-lower_each :
      (dep : Text) (ds : List Text) (deps : Dict (List Text)) (st : Dict ℕ × List Text)
      → lookup dep deps ≡ none
      → waiting deps (lower_each name dep ds st).0 ≡ waiting deps st.0
  unfolding lookup
  waiting-lower_each dep ds [] st h = refl
  waiting-lower_each dep ds ((other, es) ∷ deps) st h = ground (
    arith,
    waiting-lower_each dep ds deps st,
    lower_each-degree name dep other ds st,
    same_iff other dep,
    same_iff dep other,
  )

  -- A round moves instances from those that wait to those that are free.
  pub reduce-waiting :
      (deps : Dict (List Text)) (st : Dict ℕ × List Text)
      → IsMap deps
      → Fits name deps st.0
      → waiting deps (reduce name deps st).0 + length (reduce name deps st).1
        ≡ waiting deps st.0 + length st.1
  unfolding reduce lookup
  reduce-waiting [] st m f = refl
  reduce-waiting ((dep, ds) ∷ deps) st m f = ground (
    arith,
    reduce-waiting deps (lower_each name dep ds st) m.1 (Fits-later name dep ds deps st m f),
    reduce-degree name deps (lower_each name dep ds st) dep m.1,
    lower_each-degree name dep dep ds st,
    lower_each-new name dep ds st,
    waiting-lower_each dep ds deps st m.0,
    f dep,
    m.0,
    same_refl dep,
    length-append st.1 (dep ∷ []),
  )

-- At the start the degree of an instance is the number of its services.
pub degree-start_degrees :
    (deps : Dict (List Text)) (k : Text)
    → degree k (start_degrees deps) ≡ length (services_of deps k)
unfolding lookup start_degrees
degree-start_degrees [] k = refl
degree-start_degrees ((dep, ds) ∷ deps) k = ground (arith, degree-start_degrees deps k)

pub contains-free_names :
    (deps : Dict (List Text)) (k : Text)
    → IsMap deps
    → contains k (free_names (start_degrees deps))
      ≡ (has deps k && length (services_of deps k) == 0)
unfolding lookup start_degrees free_names contains
contains-free_names [] k m = refl
contains-free_names ((dep, ds) ∷ deps) k m =
    ground (arith, contains-free_names deps k m.1, m.0, same_iff dep k, same_iff k dep)

pub free_names-IsDistinct :
    (deps : Dict (List Text)) → IsMap deps → IsDistinct (free_names (start_degrees deps))
unfolding start_degrees free_names
free_names-IsDistinct [] m = tt
free_names-IsDistinct ((dep, ds) ∷ deps) m =
    ground (arith, free_names-IsDistinct deps m.1, contains-free_names deps dep m.1, m.0)

pub waiting-start :
    (deps : Dict (List Text)) (degrees : Dict ℕ)
    → IsMap deps
    → ((k : Text) (ds : List Text) → lookup k deps ≡ some ds → degree k degrees ≡ length ds)
    → waiting deps degrees + length (free_names (start_degrees deps)) ≡ length deps
unfolding lookup start_degrees free_names
waiting-start [] degrees m h = refl
waiting-start ((dep, ds) ∷ deps) degrees m h =
    ground (arith, waiting-start deps degrees m.1 (λ k es e. later k es e), h dep ds, same_refl dep)
  where
    later : (k : Text) (es : List Text) → lookup k deps ≡ some es → degree k degrees ≡ length es
    later k es e = ground (arith, e, h k es, same_iff dep k, m.0)
