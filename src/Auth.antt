-- ===== src/Auth.antt =====
-- internal/auth/auth.go: the provider of configured keys. Its keys stand in plain text; comparison in
-- constant time is equality here.
pub mod Identifiers
pub mod Manager
pub mod Steps
pub mod Validation
mod Tests
use hospitus.Shared.{
  ℕ, suc, ◌+◌, Bool, true, false, not, ◌&&◌, ◌||◌, List, [], ◌∷◌, ◌++◌, Option, none, some,
  if◌then◌else◌, Text, codes, same, Dict, lookup, insert, remove, decimal,
}

pub record SimpleAuthProvider : Type 0 where
  pub valid_keys : Dict Text
  pub next : ℕ

abbrev pub key_identifier : ℕ → Text
key_identifier n = codes "config-key-" ++ decimal n

unfoldable pub add_key : SimpleAuthProvider → Text → SimpleAuthProvider
add_key sap [] = sap
add_key sap (x ∷ key) = elim (lookup (x ∷ key) sap.valid_keys) [
  | some id ↦ sap
  | none ↦ record {
    valid_keys = insert (x ∷ key) (key_identifier (suc sap.next)) sap.valid_keys;
    next = suc sap.next;
  }
]

-- The constructor's loop has the same body.
unfoldable pub add_keys : SimpleAuthProvider → List Text → SimpleAuthProvider
add_keys sap [] = sap
add_keys sap (key ∷ keys) = add_keys (add_key sap key) keys

abbrev pub new_simple_auth_provider : List Text → SimpleAuthProvider
new_simple_auth_provider keys = add_keys (record { valid_keys = []; next = 0 }) keys

unfoldable pub remove_key : SimpleAuthProvider → Text → SimpleAuthProvider
remove_key sap key = record sap { valid_keys = remove key sap.valid_keys }

abbrev pub has_key : Text → Dict Text → Bool
has_key key [] = false
has_key key ((k, id) ∷ m) = let rest = has_key key m in same key k || rest

unfoldable pub validate_key : SimpleAuthProvider → Text → Bool
validate_key sap [] = false
validate_key sap (x ∷ key) = has_key (x ∷ key) sap.valid_keys

unfoldable pub authenticate : SimpleAuthProvider → Text → Option (List Text × Text)
authenticate sap key = elim (lookup key sap.valid_keys) [
  | none ↦ none
  | some id ↦ some (codes "*" ∷ [], id)
]
