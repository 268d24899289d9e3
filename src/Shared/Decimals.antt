-- ===== src/Shared/Decimals.antt =====
-- Numbers in decimal, as `%d` and `strconv.Itoa` print them.
use Prim.Native.Nat.{ℕ, zero, suc, ◌+◌, ◌-◌, ◌*◌, ◌/◌, ◌%◌, ◌≤◌}
use mathlib.Core.Path.{◌≡◌, refl, sym, ap, ◌∙◌}
use mathlib.Core.Logic.{inl, inr}
use mathlib.Core.List.{[], ◌∷◌, ◌++◌}
use native.Mathlib.Omega.{arith}
use hospitus.Shared.Tests.{ltb, if◌then◌else◌, Bool-cases}
use hospitus.Shared.Texts.{Text}

-- `%d`; the fuel is the number itself, which has fewer digits.
unfoldable pub decimal_from : ℕ → ℕ → Text
decimal_from zero n = (48 + n % 10) ∷ []
decimal_from (suc fuel) n =
    let front = decimal_from fuel (n / 10) in
    if ltb n 10 then (48 + n % 10) ∷ [] else front ++ (48 + n % 10) ∷ []

abbrev pub decimal : ℕ → Text
decimal n = decimal_from n n

abbrev pub value_from : ℕ → Text → ℕ
value_from n [] = n
value_from n (d ∷ ds) = value_from (n * 10 + (d - 48)) ds

pub value-concat :
    (n d : ℕ) (ds : Text) → value_from n (ds ++ d ∷ []) ≡ value_from n ds * 10 + (d - 48)
value-concat n d [] = refl
value-concat n d (c ∷ ds) = value-concat (n * 10 + (c - 48)) d ds

pub value-decimal_from : (fuel n : ℕ) → n ≤ fuel → value_from 0 (decimal_from fuel n) ≡ n
unfolding decimal_from
value-decimal_from zero n h = omega (arith, h)
value-decimal_from (suc fuel) n h = elim (Bool-cases (ltb n 10)) [
  | inl e ↦ rw e (ground (arith, e))
  | inr e ↦
      rw e (value-concat 0 (48 + n % 10) (decimal_from fuel (n / 10)))
      ∙ ap (λ v. v * 10 + (48 + n % 10 - 48))
          (value-decimal_from fuel (n / 10) (ground (arith, e, h)))
      ∙ omega arith
]

pub decimal-injective : (m n : ℕ) → decimal m ≡ decimal n → m ≡ n
decimal-injective m n e =
    sym (value-decimal_from m m (omega arith))
    ∙ ap (value_from 0) e
    ∙ value-decimal_from n n (omega arith)
