-- ===== src/Shared/Splits.antt =====
-- Texts cut at a separator.
use Prim.Native.Nat.{ℕ}
use mathlib.Core.Path.{◌≡◌}
use mathlib.Core.Bool.{Bool, false, ◌||◌}
use mathlib.Core.Option.{Option, none, some}
use mathlib.Core.List.{[], ◌∷◌, ◌++◌}
use native.Mathlib.Omega.{arith}
use hospitus.Shared.Tests.{◌==◌, if◌then◌else◌}
use hospitus.Shared.Texts.{Text}

-- `strings.SplitN(s, sep, 2)`: none where the separator is not there.
unfoldable pub split_at : ℕ → Text → Option (Text × Text)
split_at sep [] = none
split_at sep (x ∷ xs) =
    let rest = split_at sep xs in
    if x == sep
    then some ([], xs)
    else elim rest [ none ↦ none | some parts ↦ some (x ∷ parts.0, parts.1) ]

unfoldable pub has_separator : ℕ → Text → Bool
has_separator sep [] = false
has_separator sep (x ∷ xs) = x == sep || has_separator sep xs

pub split_at-append :
    (sep : ℕ) (s t : Text) → has_separator sep s ≡ false → split_at sep (s ++ sep ∷ t) ≡ some (s, t)
unfolding split_at has_separator
split_at-append sep [] t h = ground arith
split_at-append sep (x ∷ s) t h = ground (arith, h, split_at-append sep s t)
