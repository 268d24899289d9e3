-- ===== src/Validation/Regex.antt =====
-- The regular expressions of pkg/validation/validation.go: they are anchored at both ends, and every
-- class is ASCII, so that a match of runes is a match of bytes.
use hospitus.Shared.{
  ℕ, zero, suc, ◌≡◌, refl, inl, inr, Bool, true, false, ◌&&◌, ◌||◌, List, [], ◌∷◌, leb, arith,
  if◌then◌else◌, Text, All, Bool-cases,
}

abbrev pub Class : Type 0
Class = List (ℕ × ℕ)

abbrev pub in_class : Class → ℕ → Bool
in_class [] x = false
in_class ((low, high) ∷ rs) x = (leb low x && leb x high) || in_class rs x

pub data Regex : Type 0 where
  nothing nil : Regex
  one : Class → Regex
  seq alt : Regex → Regex → Regex
  star : Regex → Regex

abbrev pub optional : Regex → Regex
optional r = alt nil r

-- `r{0,n}`.
abbrev pub at_most : ℕ → Regex → Regex
at_most zero r = nil
at_most (suc n) r = alt nil (seq r (at_most n r))

-- `r{n}`.
abbrev pub exactly : ℕ → Regex → Regex
exactly zero r = nil
exactly (suc n) r = seq r (exactly n r)

abbrev pub nullable : Regex → Bool
nullable nothing = false
nullable nil = true
nullable (one c) = false
nullable (seq r s) = nullable r && nullable s
nullable (alt r s) = nullable r || nullable s
nullable (star r) = true

-- What is left to match behind a byte.
abbrev pub after : ℕ → Regex → Regex
after x nothing = nothing
after x nil = nothing
after x (one c) = if in_class c x then nil else nothing
after x (seq r s) =
    let first = after x r in
    let second = after x s in if nullable r then alt (seq first s) second else seq first s
after x (alt r s) = alt (after x r) (after x s)
after x (star r) = seq (after x r) (star r)

-- `MatchString`.
unfoldable pub matches : Regex → Text → Bool
matches r [] = nullable r
matches r (x ∷ xs) = matches (after x r) xs

-- No text matches.
abbrev pub IsDead : Regex → Type 0
IsDead nothing = Unit
IsDead nil = ⊥
IsDead (one c) = ⊥
IsDead (seq r s) = IsDead r
IsDead (alt r s) = IsDead r × IsDead s
IsDead (star r) = ⊥

IsDead-nullable : (r : Regex) → IsDead r → nullable r ≡ false
IsDead-nullable nothing d = refl
IsDead-nullable nil d = elim d [ ]
IsDead-nullable (one _) d = elim d [ ]
IsDead-nullable (star _) d = elim d [ ]
IsDead-nullable (seq r s) d = ground (arith, IsDead-nullable r d)
IsDead-nullable (alt r s) d = ground (arith, IsDead-nullable r d.0, IsDead-nullable s d.1)

after-IsDead : (x : ℕ) (r : Regex) → IsDead r → IsDead (after x r)
after-IsDead x nothing d = tt
after-IsDead x nil d = elim d [ ]
after-IsDead x (one _) d = elim d [ ]
after-IsDead x (star _) d = elim d [ ]
after-IsDead x (seq r s) d = rw (IsDead-nullable r d) (after-IsDead x r d)
after-IsDead x (alt r s) d = (after-IsDead x r d.0, after-IsDead x s d.1)

pub matches-IsDead : (s : Text) (r : Regex) → IsDead r → matches r s ≡ false
unfolding matches
matches-IsDead [] r d = IsDead-nullable r d
matches-IsDead (x ∷ xs) r d = matches-IsDead xs (after x r) (after-IsDead x r d)

-- Every class has only bytes that pass a test.
abbrev pub IsWithin : (ℕ → Bool) → Regex → Type 0
IsWithin p nothing = Unit
IsWithin p nil = Unit
IsWithin p (one c) = (x : ℕ) → in_class c x ≡ true → p x ≡ true
IsWithin p (seq r s) = IsWithin p r × IsWithin p s
IsWithin p (alt r s) = IsWithin p r × IsWithin p s
IsWithin p (star r) = IsWithin p r

pub at_most-IsWithin : (p : ℕ → Bool) (n : ℕ) (r : Regex) → IsWithin p r → IsWithin p (at_most n r)
at_most-IsWithin p zero r w = tt
at_most-IsWithin p (suc n) r w = (tt, (w, at_most-IsWithin p n r w))

after-IsWithin : (p : ℕ → Bool) (x : ℕ) (r : Regex) → IsWithin p r → IsWithin p (after x r)
after-IsWithin p x nothing w = tt
after-IsWithin p x nil w = tt
after-IsWithin p x (one c) w = if-IsWithin (in_class c x)
  where
    if-IsWithin : (b : Bool) → IsWithin p (if b then nil else nothing)
    if-IsWithin true = tt
    if-IsWithin false = tt
after-IsWithin p x (seq r s) w =
    seq-IsWithin (nullable r) (after x r) (after x s) (after-IsWithin p x r w.0)
      (after-IsWithin p x s w.1)
  where
    seq-IsWithin :
        (b : Bool) (first second : Regex)
        → IsWithin p first
        → IsWithin p second
        → IsWithin p (if b then alt (seq first s) second else seq first s)
    seq-IsWithin true first second f g = ((f, w.1), g)
    seq-IsWithin false first second f g = (f, w.1)
after-IsWithin p x (alt r s) w = (after-IsWithin p x r w.0, after-IsWithin p x s w.1)
after-IsWithin p x (star r) w = (after-IsWithin p x r w, w)

IsWithin-IsDead :
    (p : ℕ → Bool) (x : ℕ) (r : Regex) → IsWithin p r → p x ≡ false → IsDead (after x r)
IsWithin-IsDead p x nothing w h = tt
IsWithin-IsDead p x nil w h = tt
IsWithin-IsDead p x (one c) w h = if-IsDead (in_class c x) (w x)
  where
    if-IsDead : (b : Bool) → (b ≡ true → p x ≡ true) → IsDead (if b then nil else nothing)
    if-IsDead true k = absurd (ground (arith, k refl))
    if-IsDead false k = tt
IsWithin-IsDead p x (seq r s) w h =
    seq-IsDead (nullable r) (after x r) (after x s) (IsWithin-IsDead p x r w.0 h)
      (IsWithin-IsDead p x s w.1 h)
  where
    seq-IsDead :
        (b : Bool) (first second : Regex)
        → IsDead first
        → IsDead second
        → IsDead (if b then alt (seq first s) second else seq first s)
    seq-IsDead true first second f g = (f, g)
    seq-IsDead false first second f g = f
IsWithin-IsDead p x (alt r s) w h = (IsWithin-IsDead p x r w.0 h, IsWithin-IsDead p x s w.1 h)
IsWithin-IsDead p x (star r) w h = IsWithin-IsDead p x r w h

-- A text that matches has only bytes that pass the test.
pub matches-All :
    (p : ℕ → Bool) (s : Text) (r : Regex)
    → IsWithin p r
    → matches r s ≡ true
    → All (λ x. p x ≡ true) s
unfolding matches
matches-All p [] r w m = tt
matches-All p (x ∷ xs) r w m = elim (Bool-cases (p x)) [
  | inl e ↦ (e, matches-All p xs (after x r) (after-IsWithin p x r w) m)
  | inr e ↦ absurd (ground (arith, m, matches-IsDead xs (after x r) (IsWithin-IsDead p x r w e)))
]
