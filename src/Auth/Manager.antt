-- ===== src/Auth/Manager.antt =====
-- internal/auth/auth.go: AuthManager. The map holds pointers, and ValidateAPIKey compares them, so the
-- keys are objects of a heap. What stands under one lock is one step.
use hospitus.Shared.{
  ℕ, Bool, true, false, not, ◌||◌, List, [], ◌∷◌, ◌++◌, Option, none, some, ltb, ◌==◌,
  if◌then◌else◌, length, get_elem?, modify, Text, codes, same, Dict, lookup, insert, remove,
}

pub record ApiKey : Type 0 where
  pub id : Text
  pub name : Text
  pub hashed_key : Text
  pub created_at : ℕ
  pub last_used_at : ℕ
  pub expires_at : Option ℕ
  pub permissions : List Text

-- `keys` maps identifiers to addresses in `heap`.
pub record AuthManager : Type 0 where
  pub keys : Dict ℕ
  pub heap : List ApiKey

abbrev pub new_auth_manager : AuthManager
new_auth_manager = record { keys = []; heap = [] }

-- The package bcrypt: `compare` is `CompareHashAndPassword` without an error.
pub record Bcrypt : Type 0 where
  pub generate : Text → Option Text
  pub compare : Text → Text → Bool

abbrev pub allocate : AuthManager → ApiKey → AuthManager
allocate am k = record { keys = insert k.id (length am.heap) am.keys; heap = am.heap ++ k ∷ [] }

abbrev pub unhashed : Text → Text → List Text → Option ℕ → ℕ → ApiKey
unhashed id name permissions expires_at now = record {
  id = id;
  name = name;
  hashed_key = [];
  created_at = now;
  last_used_at = 0;
  expires_at = expires_at;
  permissions = permissions;
}

-- The second component is false for an error of the hash.
abbrev pub add_hashed : AuthManager → ApiKey → Option Text → AuthManager × Bool
add_hashed am k none = (am, false)
add_hashed am k (some hashed) = (allocate am (record k { hashed_key = hashed }), true)

unfoldable pub add_api_key :
    Bcrypt → AuthManager → Text → Text → Text → List Text → Option ℕ → ℕ → AuthManager × Bool
add_api_key bcrypt am id name key permissions expires_at now =
    add_hashed am (unhashed id name permissions expires_at now) (bcrypt.generate key)

unfoldable pub load_api_key : AuthManager → ApiKey → AuthManager
load_api_key am k = allocate am k

abbrev pub object_at : AuthManager → Text → Option ApiKey
object_at am id = elim (lookup id am.keys) [ none ↦ none | some addr ↦ get_elem? am.heap addr ]

unfoldable pub get_api_key : AuthManager → Text → Option ApiKey
get_api_key am id = object_at am id

abbrev grants : List Text → Text → Bool
grants [] permission = false
grants (p ∷ ps) permission =
    let rest = grants ps permission in same p (codes "*") || same p permission || rest

unfoldable pub has_permission : AuthManager → Text → Text → Bool
has_permission am id permission = elim (object_at am id) [
  | none ↦ false
  | some k ↦ grants k.permissions permission
]

unfoldable pub revoke_api_key : AuthManager → Text → AuthManager × Bool
revoke_api_key am id = elim (lookup id am.keys) [
  | none ↦ (am, false)
  | some addr ↦ (record am { keys = remove id am.keys }, true)
]

abbrev pub set_expiry_at : AuthManager → Option ℕ → Option ℕ → AuthManager × Bool
set_expiry_at am expires_at none = (am, false)
set_expiry_at am expires_at (some addr) =
    (record am { heap = modify am.heap addr (λ k. record k { expires_at = expires_at }) }, true)

unfoldable pub set_key_expiry : AuthManager → Text → Option ℕ → AuthManager × Bool
set_key_expiry am id expires_at = set_expiry_at am expires_at (lookup id am.keys)

abbrev listed : List ApiKey → Dict ℕ → List ApiKey
listed heap [] = []
listed heap ((id, addr) ∷ m) =
    let rest = listed heap m in
    elim (get_elem? heap addr) [ none ↦ rest | some k ↦ (record k { hashed_key = [] }) ∷ rest ]

unfoldable pub list_api_keys : AuthManager → List ApiKey
list_api_keys am = listed am.heap am.keys

pub data AuthError : Type 0 where
  empty_key invalid_key key_expired : AuthError

abbrev pub is_expired : ApiKey → ℕ → Bool
is_expired k now = elim k.expires_at [ none ↦ false | some t ↦ ltb t now ]

abbrev pub match_in : Bcrypt → List ApiKey → Text → Dict ℕ → Option ℕ
match_in bcrypt heap key [] = none
match_in bcrypt heap key ((id, addr) ∷ m) =
    let rest = match_in bcrypt heap key m in
    elim (get_elem? heap addr) [
      | none ↦ rest
      | some k ↦ if bcrypt.compare k.hashed_key key then some addr else rest
    ]

pub data Matched : Type 0 where
  failed : AuthError → Matched
  matched : ℕ → Matched

-- The part of `ValidateAPIKey` under the read lock, and its conclusions.
unfoldable pub match_key : Bcrypt → AuthManager → Text → ℕ → Matched
match_key bcrypt am [] now = failed empty_key
match_key bcrypt am (x ∷ key) now = elim (match_in bcrypt am.heap (x ∷ key) am.keys) [
  | none ↦ failed invalid_key
  | some addr ↦ elim (get_elem? am.heap addr) [
    | none ↦ failed invalid_key
    | some k ↦ if is_expired k now then failed key_expired else matched addr
  ]
]

pub data Validated : Type 0 where
  refused : AuthError → Validated
  accepted : ApiKey → Validated

-- The part under the write lock.
unfoldable pub confirm_key : AuthManager → ℕ → ℕ → AuthManager × Validated
confirm_key am addr now = elim (get_elem? am.heap addr) [
  | none ↦ (am, refused invalid_key)
  | some k ↦ elim (lookup k.id am.keys) [
    | none ↦ (am, refused invalid_key)
    | some current ↦
        if not (current == addr)
        then (am, refused invalid_key)
        else if is_expired k now
        then (am, refused key_expired)
        else (
          record am { heap = modify am.heap addr (λ k. record k { last_used_at = now }) },
          accepted (record k { last_used_at = now }),
        )
  ]
]

abbrev pub confirm_matched : AuthManager → Matched → ℕ → AuthManager × Validated
confirm_matched am (failed e) now = (am, refused e)
confirm_matched am (matched addr) now = confirm_key am addr now

-- What `Authenticate` makes of it.
abbrev pub credentials : Validated → Option (List Text × Text)
credentials (refused e) = none
credentials (accepted k) = some (k.permissions, k.id)
