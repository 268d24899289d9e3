-- ===== src/Validation/Safety.antt =====
-- pkg/validation/validation.go: what an accepted name, command or variable cannot contain.
use hospitus.Shared.{
  ℕ, ◌≤◌, ◌<◌, ◌≡◌, refl, Bool, true, false, not, List, [], ◌∷◌, none, arith, length, All, Text,
}
use hospitus.Validation.{contains_any, has_byte, command_injection_chars}
use hospitus.Validation.Regex.{one, matches, at_most-IsWithin, matches-All, in_class}
use hospitus.Validation.Names.{
  alphanumeric, letter, name_class, valid_instance_name, valid_interface_name,
  validate_instance_name, validate_interface_name,
}

-- A byte that is none of the given ones.
abbrev pub avoids : Text → ℕ → Bool
avoids chars x = not (has_byte x chars)

pub All-avoids :
    (chars s : Text) → All (λ x. avoids chars x ≡ true) s → contains_any s chars ≡ false
unfolding contains_any
All-avoids chars [] h = refl
All-avoids chars (x ∷ xs) h = ground (arith, h.0, All-avoids chars xs h.1)

-- What separates paths, and what a shell reads.
abbrev pub unsafe_chars : Text
unsafe_chars = 47 ∷ 46 ∷ command_injection_chars

name_class-avoids : (x : ℕ) → in_class name_class x ≡ true → avoids unsafe_chars x ≡ true
name_class-avoids x h = ground arith

alphanumeric-avoids : (x : ℕ) → in_class alphanumeric x ≡ true → avoids unsafe_chars x ≡ true
alphanumeric-avoids x h = ground arith

letter-avoids : (x : ℕ) → in_class letter x ≡ true → avoids unsafe_chars x ≡ true
letter-avoids x h = ground arith

-- No separator of paths and nothing that a shell reads stands in it, and its length is bounded.
pub record IsPlain (limit : ℕ) (name : Text) : Type 0 where
  pub non_empty : 0 < length name
  pub bounded : length name ≤ limit
  pub clean : contains_any name unsafe_chars ≡ false

-- An accepted instance name is not empty, has at most 63 bytes, and none of them is a slash, a dot or
-- a character of the command-injection set.
pub validate_instance_name-IsPlain :
    (name : Text) → validate_instance_name name ≡ none → IsPlain 63 name
unfolding validate_instance_name
validate_instance_name-IsPlain name h =
    let m : matches valid_instance_name name ≡ true = ground arith in
    record {
      non_empty = ground arith;
      bounded = ground arith;
      clean = All-avoids unsafe_chars name (
          matches-All (avoids unsafe_chars) name valid_instance_name
            (
              alphanumeric-avoids,
              at_most-IsWithin (avoids unsafe_chars) 62 (one name_class) name_class-avoids,
            )
            m);
    }

-- An accepted interface name is not empty, has at most 15 bytes, and none of them is a slash, a dot
-- or a character of the command-injection set.
pub validate_interface_name-IsPlain :
    (name : Text) → validate_interface_name name ≡ none → IsPlain 15 name
unfolding validate_interface_name
validate_interface_name-IsPlain name h =
    let m : matches valid_interface_name name ≡ true = ground arith in
    record {
      non_empty = ground arith;
      bounded = ground arith;
      clean = All-avoids unsafe_chars name (
          matches-All (avoids unsafe_chars) name valid_interface_name
            (
              letter-avoids,
              at_most-IsWithin (avoids unsafe_chars) 14 (one name_class) name_class-avoids,
            )
            m);
    }

pub All-map :
    {A : Type 0} (P Q : A → Type 0) (xs : List A) → ((x : A) → P x → Q x) → All P xs → All Q xs
All-map P Q [] f h = tt
All-map P Q (x ∷ xs) f h = (f x h.0, All-map P Q xs f h.1)
