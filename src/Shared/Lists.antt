-- ===== src/Shared/Lists.antt =====
-- Lists measured and indexed by native numbers, under the library's names.
use Prim.Native.Nat.{ℕ, zero, suc, ◌+◌, ◌≤◌, ◌<◌}
use mathlib.Core.Path.{◌≡◌, refl, ap}
use mathlib.Core.Bool.{Bool, true, ◌&&◌}
use mathlib.Core.List.{List, [], ◌∷◌, ◌++◌}
use mathlib.Core.Option.{Option, none, some}
use mathlib.Core.Option
use native.Mathlib.Omega.{arith}
use hospitus.Shared.Tests.{◌==◌, if◌then◌else◌}

module _ {ℓ} {A : Type ℓ} where
  abbrev pub length : List A → ℕ
  length [] = 0
  length (x ∷ xs) = suc (length xs)

  abbrev pub get_elem? : List A → ℕ → Option A
  get_elem? [] i = none
  get_elem? (x ∷ xs) zero = some x
  get_elem? (x ∷ xs) (suc i) = get_elem? xs i

  -- Out of bounds nothing changes.
  abbrev pub modify : List A → ℕ → (A → A) → List A
  modify [] i f = []
  modify (x ∷ xs) zero f = f x ∷ xs
  modify (x ∷ xs) (suc i) f = x ∷ modify xs i f

  abbrev pub keep : (A → Bool) → List A → List A
  keep p [] = []
  keep p (x ∷ xs) = let rest = keep p xs in if p x then x ∷ rest else rest

  abbrev pub every : (A → Bool) → List A → Bool
  every p [] = true
  every p (x ∷ xs) = p x && every p xs

  abbrev pub All {κ} : (A → Type κ) → List A → Type κ
  All P [] = Unit
  All P (x ∷ xs) = P x × All P xs

  pub length-append : (xs ys : List A) → length (xs ++ ys) ≡ length xs + length ys
  length-append [] ys = omega arith
  length-append (x ∷ xs) ys = omega (arith, length-append xs ys)

module _ {ℓ} {A : Type ℓ} where
  pub length-modify : (xs : List A) (i : ℕ) (f : A → A) → length (modify xs i f) ≡ length xs
  length-modify [] i f = refl
  length-modify (x ∷ xs) zero f = refl
  length-modify (x ∷ xs) (suc i) f = ap suc (length-modify xs i f)

  pub get_elem?-modify :
      (xs : List A) (i j : ℕ) (f : A → A)
      → get_elem? (modify xs i f) j
        ≡ (if i == j then Option.map f (get_elem? xs j) else get_elem? xs j)
  get_elem?-modify [] i j f = ground arith
  get_elem?-modify (x ∷ xs) zero zero f = refl
  get_elem?-modify (x ∷ xs) zero (suc j) f = ground arith
  get_elem?-modify (x ∷ xs) (suc i) zero f = ground arith
  get_elem?-modify (x ∷ xs) (suc i) (suc j) f = ground (arith, get_elem?-modify xs i j f)

  pub get_elem?-concat :
      (xs : List A) (a : A) (j : ℕ)
      → get_elem? (xs ++ a ∷ []) j ≡ (if j == length xs then some a else get_elem? xs j)
  get_elem?-concat [] a zero = refl
  get_elem?-concat [] a (suc j) = ground arith
  get_elem?-concat (x ∷ xs) a zero = ground arith
  get_elem?-concat (x ∷ xs) a (suc j) = ground (arith, get_elem?-concat xs a j)

  pub get_elem?-lt : (xs : List A) (i : ℕ) {a : A} → get_elem? xs i ≡ some a → i < length xs
  get_elem?-lt [] i h = cc
  get_elem?-lt (x ∷ xs) zero h = omega arith
  get_elem?-lt (x ∷ xs) (suc i) h = omega (arith, get_elem?-lt xs i h)

  pub get_elem?_of_ge : (xs : List A) (i : ℕ) → length xs ≤ i → get_elem? xs i ≡ none
  get_elem?_of_ge [] i h = refl
  get_elem?_of_ge (x ∷ xs) zero h = absurd (omega arith)
  get_elem?_of_ge (x ∷ xs) (suc i) h = get_elem?_of_ge xs i (omega arith)

  pub get_elem?_of_lt : (xs : List A) (i : ℕ) → i < length xs → (a : A) × (get_elem? xs i ≡ some a)
  get_elem?_of_lt [] i h = elim h [ ]
  get_elem?_of_lt (x ∷ xs) zero h = (x, refl)
  get_elem?_of_lt (x ∷ xs) (suc i) h = get_elem?_of_lt xs i (omega arith)

-- How often a number stands in a list.
abbrev pub count : ℕ → List ℕ → ℕ
count a [] = 0
count a (b ∷ rest) = let later = count a rest in if b == a then suc later else later

pub count-concat :
    (a b : ℕ) (front : List ℕ)
    → count a (front ++ b ∷ []) ≡ count a front + (if b == a then 1 else 0)
count-concat a b [] = ground arith
count-concat a b (c ∷ front) = ground (arith, count-concat a b front)

abbrev pub without : ℕ → List ℕ → List ℕ
without a [] = []
without a (x ∷ xs) = let rest = without a xs in if x == a then rest else x ∷ rest

pub count-without :
    (a b : ℕ) (xs : List ℕ) → count b (without a xs) ≡ (if a == b then 0 else count b xs)
count-without a b [] = ground arith
count-without a b (x ∷ xs) = ground (arith, count-without a b xs)
