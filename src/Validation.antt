-- ===== src/Validation.antt =====
-- pkg/validation/validation.go: the checks on names, options and specifications that come from
-- outside. A check gives `none` where the code returns nil, and else the message, without the
-- values that it quotes. Strings are byte lists: what the code looks for in them is ASCII.
pub mod Regex
pub mod Names
pub mod Config
pub mod Specs
pub mod Bounds
pub mod Safety
pub mod Nested
pub mod Remote
pub mod Destination
mod Tests
use hospitus.Shared.{
  ℕ, ◌≡◌, refl, ◌↔◌, Bool, true, false, not, ◌&&◌, ◌||◌, List, [], ◌∷◌, ◌++◌, Option, none, some,
  leb, ltb, ◌==◌, arith, if◌then◌else◌, All, Text, codes, same,
}

-- A chain of early returns: the first refusal, or none.
infixr 20 ◌<|>◌
abbrev pub ◌<|>◌ : Option Text → Option Text → Option Text
none <|> next = next
some e <|> next = some e

abbrev pub refuse : Bool → Text → Option Text
refuse b message = if b then some message else none

-- `fmt.Errorf("prefix: %w", err)`.
abbrev pub wrap : Text → Option Text → Option Text
wrap prefix none = none
wrap prefix (some e) = some (prefix ++ e)

-- A loop that returns the first error.
abbrev pub each {ℓ} : {A : Type ℓ} → (A → Option Text) → List A → Option Text
each check [] = none
each check (x ∷ xs) = check x <|> each check xs

pub each-All {ℓ} :
    {A : Type ℓ} (check : A → Option Text) (xs : List A)
    → each check xs ≡ none
    → All (λ x. check x ≡ none) xs
each-All check [] h = tt
each-All check (x ∷ xs) h = (ground arith, each-All check xs (ground arith))

pub <|>-none : (a b : Option Text) → a <|> b ≡ none → (a ≡ none) × (b ≡ none)
<|>-none none b h = (refl, h)
<|>-none (some e) b h = cc

-- `strings.ContainsAny` for ASCII characters, and `strings.ContainsRune`.
abbrev pub has_byte : ℕ → Text → Bool
has_byte b [] = false
has_byte b (x ∷ xs) = b == x || has_byte b xs

unfoldable pub contains_any : Text → Text → Bool
contains_any [] chars = false
contains_any (x ∷ xs) chars = has_byte x chars || contains_any xs chars

abbrev pub has_prefix : Text → Text → Bool
has_prefix s [] = true
has_prefix [] (p ∷ ps) = false
has_prefix (x ∷ xs) (p ∷ ps) = x == p && has_prefix xs ps

-- `strings.Contains`.
unfoldable pub has_infix : Text → Text → Bool
has_infix [] part = has_prefix [] part
has_infix (x ∷ xs) part = has_prefix (x ∷ xs) part || has_infix xs part

-- `;&|$`(){}[]<>\"'` and newline, return and tab.
abbrev pub command_injection_chars : Text
command_injection_chars =
    59 ∷ 38 ∷ 124 ∷ 36 ∷ 96 ∷ 40 ∷ 41 ∷ 123 ∷ 125 ∷ 91 ∷ 93 ∷ 60 ∷ 62 ∷ 92 ∷ 34 ∷ 39 ∷ 10 ∷ 13 ∷ 9
    ∷ []

abbrev pub is_empty : Text → Bool
is_empty [] = true
is_empty (x ∷ xs) = false

-- What bytes may follow a first byte in UTF-8.
abbrev utf8_rest : ℕ → Option (List (ℕ × ℕ))
utf8_rest b =
    if ltb b 128
    then some []
    else if ltb b 194
    then none
    else if ltb b 224
    then some ((128, 191) ∷ [])
    else if b == 224
    then some ((160, 191) ∷ (128, 191) ∷ [])
    else if b == 237
    then some ((128, 159) ∷ (128, 191) ∷ [])
    else if ltb b 240
    then some ((128, 191) ∷ (128, 191) ∷ [])
    else if b == 240
    then some ((144, 191) ∷ (128, 191) ∷ (128, 191) ∷ [])
    else if ltb b 244
    then some ((128, 191) ∷ (128, 191) ∷ (128, 191) ∷ [])
    else if b == 244
    then some ((128, 143) ∷ (128, 191) ∷ (128, 191) ∷ [])
    else none

unfoldable pub utf8_from : List (ℕ × ℕ) → Text → Bool
utf8_from [] [] = true
utf8_from (r ∷ rs) [] = false
utf8_from ((low, high) ∷ rs) (b ∷ bs) = leb low b && leb b high && utf8_from rs bs
utf8_from [] (b ∷ bs) = elim (utf8_rest b) [ none ↦ false | some rs ↦ utf8_from rs bs ]

-- `utf8.ValidString`.
unfoldable pub valid_utf8 : Text → Bool
valid_utf8 s = utf8_from [] s
