-- ===== src/Stack/Degrees.antt =====
-- pkg/orchestration/stack.go: what one round of the sort does to the degrees.
use hospitus.Shared.{
  ℕ, suc, ◌-◌, ◌≤◌, ◌≡◌, ap, ◌∙◌, inl, inr, Bool, true, false, ◌&&◌, ◌||◌, List, [], ◌∷◌, ◌++◌, ltb,
  ◌==◌, arith, if◌then◌else◌, Text, Dict, insert, lookup-insert, same, same_iff, same_refl,
  contains, Bool-cases,
}
use hospitus.Stack.{degree, lower, lower_each}

-- How often a name stands in a list.
abbrev pub times : Text → List Text → ℕ
times n [] = 0
times n (x ∷ xs) = let rest = times n xs in if same x n then suc rest else rest

pub degree-insert :
    (k j : Text) (n : ℕ) (degrees : Dict ℕ)
    → degree k (insert j n degrees) ≡ (if same j k then n else degree k degrees)
degree-insert k j n degrees = ground (arith, lookup-insert j k n degrees)

pub contains-concat :
    (k j : Text) (xs : List Text) → contains k (xs ++ j ∷ []) ≡ (contains k xs || same k j)
unfolding contains
contains-concat k j [] = ground arith
contains-concat k j (x ∷ xs) = ground (arith, contains-concat k j xs)

lower_each-hit :
    (name dep d : Text) (ds : List Text) (st : Dict ℕ × List Text)
    → same d name ≡ true
    → lower_each name dep (d ∷ ds) st ≡ lower_each name dep ds (lower dep st)
unfolding lower_each
lower_each-hit name dep d ds st e =
    ap (λ b. lower_each name dep ds (if b then lower dep st else st)) e

lower_each-miss :
    (name dep d : Text) (ds : List Text) (st : Dict ℕ × List Text)
    → same d name ≡ false
    → lower_each name dep (d ∷ ds) st ≡ lower_each name dep ds st
unfolding lower_each
lower_each-miss name dep d ds st e =
    ap (λ b. lower_each name dep ds (if b then lower dep st else st)) e

-- The services of one instance lower its degree by their number.
pub lower_each-degree :
    (name dep k : Text) (ds : List Text) (st : Dict ℕ × List Text)
    → degree k (lower_each name dep ds st).0
      ≡ (if same dep k then degree k st.0 - times name ds else degree k st.0)
unfolding lower_each lower
lower_each-degree name dep k [] st = ground arith
lower_each-degree name dep k (d ∷ ds) st = elim (Bool-cases (same d name)) [
  | inl e ↦
      ap (λ s. degree k s.0) (lower_each-hit name dep d ds st e)
      ∙ lower_each-degree name dep k ds (lower dep st)
      ∙ ground (arith, e, degree-insert k dep (degree dep st.0 - 1) st.0, same_iff dep k)
  | inr e ↦
      ap (λ s. degree k s.0) (lower_each-miss name dep d ds st e)
      ∙ lower_each-degree name dep k ds st
      ∙ ground (arith, e)
]

-- Whether this round frees an instance.
abbrev pub is_freed : Text → List Text → ℕ → Bool
is_freed name ds n = ltb 0 (times name ds) && times name ds == n

-- It is free if that was all.
pub lower_each-new :
    (name dep : Text) (ds : List Text) (st : Dict ℕ × List Text)
    → times name ds ≤ degree dep st.0
    → (lower_each name dep ds st).1
      ≡ (if is_freed name ds (degree dep st.0) then st.1 ++ dep ∷ [] else st.1)
unfolding lower_each lower
lower_each-new name dep [] st h = ground arith
lower_each-new name dep (d ∷ ds) st h = elim (Bool-cases (same d name)) [
  | inl e ↦
      let again = degree-insert dep dep (degree dep st.0 - 1) st.0 in
      ap (λ s. s.1) (lower_each-hit name dep d ds st e)
      ∙ lower_each-new name dep ds (lower dep st) (ground (arith, e, h, again, same_refl dep))
      ∙ ground (arith, e, h, again, same_refl dep)
  | inr e ↦
      ap (λ s. s.1) (lower_each-miss name dep d ds st e)
      ∙ lower_each-new name dep ds st (ground (arith, e, h))
      ∙ ground (arith, e)
]
