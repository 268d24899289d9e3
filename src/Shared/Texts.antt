-- ===== src/Shared/Texts.antt =====
-- Go strings, as lists of bytes.
use Prim.Native.Nat.{ℕ, suc}
use Prim.Native.Char.{code}
use Prim.Native.String.{String}
use mathlib.Core.Path.{◌≡◌, refl, ◌∙◌}
use mathlib.Core.Logic.{◌↔◌}
use mathlib.Core.Bool.{Bool, true, false, ◌&&◌, ◌||◌}
use mathlib.Core.List.{List, [], ◌∷◌}
use native.Mathlib.Omega.{arith}
use hospitus.Shared.Tests.{ltb, ◌==◌, if◌then◌else◌}
use hospitus.Shared.Lists.{length}

abbrev pub Text : Type 0
Text = List ℕ

-- The bytes of an ASCII literal.
abbrev pub codes : String → Text
codes String.[] = []
codes (String.◌∷◌ c s) = code c ∷ codes s

-- `==` on strings.
unfoldable pub same : Text → Text → Bool
same [] [] = true
same (x ∷ xs) (y ∷ ys) = x == y && same xs ys
same _ _ = false

pub same_iff : (s t : Text) → (same s t ≡ true) ↔ (s ≡ t)
unfolding same
same_iff (x ∷ xs) (y ∷ ys) = ground (arith, same_iff xs ys)
same_iff _ _ = ground arith

pub same_refl : (s : Text) → same s s ≡ true
same_refl s = (same_iff s s).1 refl

-- `<` on strings, bytewise.
unfoldable pub text_lt : Text → Text → Bool
text_lt s [] = false
text_lt [] (y ∷ ys) = true
text_lt (x ∷ xs) (y ∷ ys) = ltb x y || (x == y && text_lt xs ys)

pub text_lt_irrefl : (s : Text) → text_lt s s ≡ false
unfolding text_lt
text_lt_irrefl [] = refl
text_lt_irrefl (x ∷ xs) = ground (arith, text_lt_irrefl xs)

pub text_lt_trans : (s t u : Text) → text_lt s t ≡ true → text_lt t u ≡ true → text_lt s u ≡ true
unfolding text_lt
text_lt_trans [] (y ∷ t) (z ∷ u) h k = refl
text_lt_trans (x ∷ s) (y ∷ t) (z ∷ u) h k = ground (arith, text_lt_trans s t u)
text_lt_trans _ _ _ h k = ground arith

-- Of two different strings one is less than the other.
pub text_lt_total : (s t : Text) → same s t ≡ false → text_lt s t ≡ false → text_lt t s ≡ true
unfolding text_lt same
text_lt_total [] [] h k = cc
text_lt_total [] (y ∷ t) h k = cc
text_lt_total (x ∷ s) [] h k = refl
text_lt_total (x ∷ s) (y ∷ t) h k = ground (arith, text_lt_total s t)

-- `sort.Strings`.
abbrev insert_text : Text → List Text → List Text
insert_text x [] = x ∷ []
insert_text x (y ∷ ys) = let rest = insert_text x ys in if text_lt y x then y ∷ rest else x ∷ y ∷ ys

unfoldable pub sort_texts : List Text → List Text
sort_texts [] = []
sort_texts (x ∷ xs) = insert_text x (sort_texts xs)

unfoldable pub contains : Text → List Text → Bool
contains x [] = false
contains x (y ∷ ys) = same x y || contains x ys

-- Each text comes before all that follow.
abbrev pub AllAfter : Text → List Text → Type 0
AllAfter x [] = Unit
AllAfter x (y ∷ ys) = (text_lt x y ≡ true) × AllAfter x ys

abbrev pub IsAscending : List Text → Type 0
IsAscending [] = Unit
IsAscending (x ∷ xs) = AllAfter x xs × IsAscending xs

AllAfter-trans : (x y : Text) (zs : List Text) → text_lt x y ≡ true → AllAfter y zs → AllAfter x zs
AllAfter-trans x y [] h a = tt
AllAfter-trans x y (z ∷ zs) h a = (text_lt_trans x y z h a.0, AllAfter-trans x y zs h a.1)

insert_text-AllAfter :
    (x y : Text) (zs : List Text)
    → text_lt y x ≡ true
    → AllAfter y zs
    → AllAfter y (insert_text x zs)
insert_text-AllAfter x y [] h a = (h, tt)
insert_text-AllAfter x y (z ∷ zs) h a = ground (arith, insert_text-AllAfter x y zs h a.1)

insert_text-IsAscending :
    (x : Text) (ys : List Text)
    → contains x ys ≡ false
    → IsAscending ys
    → IsAscending (insert_text x ys)
unfolding contains
insert_text-IsAscending x [] h a = (tt, tt)
insert_text-IsAscending x (y ∷ ys) h a = ground (
  arith,
  insert_text-IsAscending x ys,
  insert_text-AllAfter x y ys,
  text_lt_total x y,
  text_lt_total y x,
  same_iff x y,
  same_iff y x,
  AllAfter-trans x y ys,
)

contains-insert_text :
    (z x : Text) (ys : List Text) → contains z (insert_text x ys) ≡ (same z x || contains z ys)
unfolding contains
contains-insert_text z x [] = refl
contains-insert_text z x (y ∷ ys) = ground (arith, contains-insert_text z x ys)

pub contains-sort_texts : (z : Text) (xs : List Text) → contains z (sort_texts xs) ≡ contains z xs
unfolding contains sort_texts
contains-sort_texts z [] = refl
contains-sort_texts z (x ∷ xs) =
    ground (arith, contains-insert_text z x (sort_texts xs), contains-sort_texts z xs)

-- No text stands twice.
abbrev pub IsDistinct : List Text → Type 0
IsDistinct [] = Unit
IsDistinct (x ∷ xs) = (contains x xs ≡ false) × IsDistinct xs

pub sort_texts-IsAscending : (xs : List Text) → IsDistinct xs → IsAscending (sort_texts xs)
unfolding sort_texts
sort_texts-IsAscending [] d = tt
sort_texts-IsAscending (x ∷ xs) d =
    insert_text-IsAscending x (sort_texts xs) (contains-sort_texts x xs ∙ d.0)
      (sort_texts-IsAscending xs d.1)

length-insert_text : (x : Text) (ys : List Text) → length (insert_text x ys) ≡ suc (length ys)
length-insert_text x [] = refl
length-insert_text x (y ∷ ys) = ground (arith, length-insert_text x ys)

pub length-sort_texts : (xs : List Text) → length (sort_texts xs) ≡ length xs
unfolding sort_texts
length-sort_texts [] = refl
length-sort_texts (x ∷ xs) =
    ground (arith, length-insert_text x (sort_texts xs), length-sort_texts xs)

insert_text-IsDistinct :
    (x : Text) (ys : List Text)
    → contains x ys ≡ false
    → IsDistinct ys
    → IsDistinct (insert_text x ys)
unfolding contains
insert_text-IsDistinct x [] c d = (refl, tt)
insert_text-IsDistinct x (y ∷ ys) c d =
    ground
      (arith, insert_text-IsDistinct x ys, contains-insert_text y x ys, same_iff x y, same_iff y x)

pub sort_texts-IsDistinct : (xs : List Text) → IsDistinct xs → IsDistinct (sort_texts xs)
unfolding sort_texts
sort_texts-IsDistinct [] d = tt
sort_texts-IsDistinct (x ∷ xs) d =
    insert_text-IsDistinct x (sort_texts xs) (contains-sort_texts x xs ∙ d.0)
      (sort_texts-IsDistinct xs d.1)
