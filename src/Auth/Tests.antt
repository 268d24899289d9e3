-- ===== src/Auth/Tests.antt =====
-- Configured keys, and a manager with one key, and the theorems at them.
use hospitus.Shared.{◌≡◌, refl, List, [], ◌∷◌, ◌++◌, none, some, Text, codes, same, lookup, insert}
use hospitus.Auth.{new_simple_auth_provider}
use hospitus.Auth.Identifiers.{adds, removes, change_all, AnswersFit, change_all-AnswersFit}
use hospitus.Auth.Manager.{
  ApiKey, AuthManager, new_auth_manager, Bcrypt, refused, invalid_key, add_api_key, set_key_expiry,
  match_key, confirm_key,
}
use hospitus.Auth.Steps.{KeyEvent, sets_expiry, revokes, key_step, key_steps}
use hospitus.Auth.Validation.{
  validate_api_key, Current, validate_api_key-Current, matched_id, validate_api_key-revoked,
}
use hospitus.Auth.Steps

abbrev configured : List Text
configured = codes "alpha" ∷ [] ∷ codes "beta" ∷ []

change_all-AnswersFit_example : AnswersFit (
    change_all
      (new_simple_auth_provider configured)
      (removes (codes "alpha") ∷ adds (codes "gamma") ∷ []))
change_all-AnswersFit_example =
    change_all-AnswersFit configured (removes (codes "alpha") ∷ adds (codes "gamma") ∷ [])

-- A hash that only marks its key.
abbrev marking : Bcrypt
marking = record { generate = λ key. some (36 ∷ key); compare = λ hash key. same hash (36 ∷ key) }

abbrev manager : AuthManager
manager =
    (add_api_key marking new_auth_manager (codes "k1") (codes "ops") (codes "s3cret")
      (codes "read" ∷ []) none 5).0

abbrev found : ApiKey
found = record {
  id = codes "k1";
  name = codes "ops";
  hashed_key = codes "$s3cret";
  created_at = 5;
  last_used_at = 50;
  expires_at = some 100;
  permissions = codes "read" ∷ [];
}

abbrev expiring : List KeyEvent
expiring = sets_expiry (codes "k1") (some 100) ∷ []

validate_api_key-Current_example :
    Current marking (key_steps marking manager expiring) (codes "s3cret") 50 found
unfolding validate_api_key key_steps key_step match_key confirm_key add_api_key set_key_expiry
    lookup insert same
validate_api_key-Current_example =
    validate_api_key-Current marking manager (codes "s3cret") 40 expiring 50 found refl

abbrev replacing : List KeyEvent
replacing = Steps.adds (codes "k1") (codes "new") (codes "s3cret") (codes "*" ∷ []) none 45 ∷ []

validate_api_key-revoked_example :
    (validate_api_key marking manager
      (codes "s3cret")
      40
      (expiring ++ revokes (codes "k1") ∷ replacing)
      50).1
    ≡ refused invalid_key
unfolding matched_id match_key add_api_key lookup insert same
validate_api_key-revoked_example =
    validate_api_key-revoked marking manager (codes "s3cret") (codes "k1") 40 50 expiring replacing
      refl
