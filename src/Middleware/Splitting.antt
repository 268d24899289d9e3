-- ===== src/Middleware/Splitting.antt =====
-- internal/api/middleware.go: what splitting and trimming make of a path or a header.
use hospitus.Shared.{ℕ, ◌≡◌, refl, false, List, [], ◌∷◌, ◌++◌, arith, Text, has_separator}
use hospitus.Middleware.{is_empty, onto_first, split_all, trim_right}

split_all-filled : (sep : ℕ) (s : Text) → is_empty (split_all sep s) ≡ false
unfolding split_all
split_all-filled sep [] = refl
split_all-filled sep (x ∷ s) = ground (arith, split_all-filled sep s)

onto_first-append :
    (x : ℕ) (parts more : List Text)
    → is_empty parts ≡ false
    → onto_first x (parts ++ more) ≡ onto_first x parts ++ more
onto_first-append x [] more h = ground (arith, h)
onto_first-append x (p ∷ parts) more h = refl

pub split_all-append :
    (sep : ℕ) (s t : Text) → split_all sep (s ++ sep ∷ t) ≡ split_all sep s ++ split_all sep t
unfolding split_all
split_all-append sep [] t = ground arith
split_all-append sep (x ∷ s) t = ground (
  arith,
  split_all-append sep s t,
  onto_first-append x (split_all sep s) (split_all sep t),
  split_all-filled sep s,
)

pub split_all-plain : (sep : ℕ) (h : Text) → has_separator sep h ≡ false → split_all sep h ≡ h ∷ []
unfolding split_all has_separator
split_all-plain sep [] e = refl
split_all-plain sep (x ∷ h) e = ground (arith, e, split_all-plain sep h)

pub trim_right-append :
    (s t : Text) → is_empty (trim_right t) ≡ false → trim_right (s ++ t) ≡ s ++ trim_right t
unfolding trim_right
trim_right-append [] t e = refl
trim_right-append (x ∷ s) t e =
    ground (arith, e, trim_right-append s t e, concat-filled s (trim_right t))
  where
    concat-filled : (u v : Text) → is_empty v ≡ false → is_empty (u ++ v) ≡ false
    concat-filled [] v e = e
    concat-filled (x ∷ u) v e = refl

-- A name without a slash is not trimmed.
pub trim_right-name :
    (id t : Text) → has_separator 47 id ≡ false → trim_right (id ++ t) ≡ id ++ trim_right t
unfolding trim_right has_separator
trim_right-name [] t e = refl
trim_right-name (x ∷ id) t e = ground (arith, e, trim_right-name id t)
