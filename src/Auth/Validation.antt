-- ===== src/Auth/Validation.antt =====
-- internal/auth/auth.go: ValidateAPIKey, between whose two locks other calls may come.
use hospitus.Shared.{
  ℕ, ◌<◌, ◌≡◌, refl, sym, subst, true, false, List, [], ◌∷◌, ◌++◌, Option, none, some, arith,
  if◌then◌else◌, length, get_elem?, get_elem?-lt, Text, Dict, lookup-remove, same_refl, Bool-cases,
  Option-cases, inl, inr,
}
use hospitus.Auth.Manager.{
  ApiKey, AuthManager, Bcrypt, invalid_key, key_expired, Matched, failed, matched, Validated,
  refused, accepted, match_in, revoke_api_key, object_at, is_expired, match_key, confirm_key,
  confirm_matched,
}
use hospitus.Auth.Steps.{
  KeyEvent, revokes, key_step, key_steps, sealed, IsDetached, key_steps-sealed,
  key_steps-IsDetached, key_steps-append,
}

module _ (bcrypt : Bcrypt) where
  -- `between` comes while no lock is held.
  unfoldable pub validate_api_key :
      AuthManager → Text → ℕ → List KeyEvent → ℕ → AuthManager × Validated
  validate_api_key am key start between end =
      confirm_matched (key_steps bcrypt am between) (match_key bcrypt am key start) end

  match_in-compares :
      (heap : List ApiKey) (key : Text) (m : Dict ℕ) (addr : ℕ)
      → match_in bcrypt heap key m ≡ some addr
      → (k : ApiKey) × ((get_elem? heap addr ≡ some k) × (bcrypt.compare k.hashed_key key ≡ true))
  match_in-compares heap key [] addr h = ground (arith, h)
  match_in-compares heap key ((id, a) ∷ m) addr h =
      by_object (get_elem? heap a) refl h (match_in-compares heap key m addr)
    where
      Found : Type 0
      Found =
          (k : ApiKey) × ((get_elem? heap addr ≡ some k) × (bcrypt.compare k.hashed_key key ≡ true))

      by_object :
          (o : Option ApiKey)
          → get_elem? heap a ≡ o
          → elim o [
            | none ↦ match_in bcrypt heap key m
            | some k ↦
                if bcrypt.compare k.hashed_key key then some a else match_in bcrypt heap key m
          ]
            ≡ some addr
          → (match_in bcrypt heap key m ≡ some addr → Found)
          → Found
      by_object none e h rest = rest h
      by_object (some k) e h rest = elim (Bool-cases (bcrypt.compare k.hashed_key key)) [
        | inl t ↦ (k, (ground (arith, e, h, t), t))
        | inr f ↦ rest (ground (arith, h, f))
      ]

  match_key-sealed :
      (am : AuthManager) (key : Text) (start addr : ℕ)
      → match_key bcrypt am key start ≡ matched addr
      → (s : Text × Text) × ((sealed am.heap addr ≡ some s) × (bcrypt.compare s.1 key ≡ true))
  unfolding match_key
  match_key-sealed am [] start addr h = ground (arith, h)
  match_key-sealed am (x ∷ key) start addr h =
      by_match (match_in bcrypt am.heap (x ∷ key) am.keys) refl h
    where
      by_match :
          (o : Option ℕ)
          → match_in bcrypt am.heap (x ∷ key) am.keys ≡ o
          → elim o [
            | none ↦ failed invalid_key
            | some a ↦ elim (get_elem? am.heap a) [
              | none ↦ failed invalid_key
              | some k ↦ if is_expired k start then failed key_expired else matched a
            ]
          ]
            ≡ matched addr
          → (s : Text × Text) × ((sealed am.heap addr ≡ some s)
              × (bcrypt.compare s.1 (x ∷ key) ≡ true))
      by_match none e h = ground (arith, h)
      by_match (some a) e h =
          let c = match_in-compares am.heap (x ∷ key) am.keys a e in
          let same_addr : a ≡ addr = ground (arith, h) in
          ((c.0.id, c.0.hashed_key), (ground (arith, c.1.0, same_addr), c.1.1))

  -- What is accepted at a time is a key that the manager has then.
  pub record Current (am : AuthManager) (key : Text) (now : ℕ) (k : ApiKey) : Type 0 where
    pub stored : ApiKey
    pub found : object_at am k.id ≡ some stored
    pub matches : bcrypt.compare stored.hashed_key key ≡ true
    pub valid : is_expired stored now ≡ false
    pub granted : k.permissions ≡ stored.permissions

  confirm_key-Current :
      (am : AuthManager) (key : Text) (addr now : ℕ) (s : Text × Text) (k : ApiKey)
      → sealed am.heap addr ≡ some s
      → bcrypt.compare s.1 key ≡ true
      → (confirm_key am addr now).1 ≡ accepted k
      → Current am key now k
  unfolding confirm_key
  confirm_key-Current am key addr now s k at_addr c h =
      elim (Option-cases (get_elem? am.heap addr)) [
        | inl e ↦ ground (arith, h, e)
        | inr object ↦ record {
          stored = object.0;
          found = ground (arith, h, object.1);
          matches = ground (arith, at_addr, object.1, c);
          valid = ground (arith, h, object.1);
          granted = ground (arith, h, object.1);
        }
      ]

  -- When the validation of a key succeeds, whatever other calls came between its two locks, then at its
  -- end the manager has a key under the identifier that is given, which the presented key matches and
  -- which is not expired, and the permissions are those that this key has then.
  pub validate_api_key-Current :
      (am : AuthManager) (key : Text) (start : ℕ) (between : List KeyEvent) (end : ℕ) (k : ApiKey)
      → (validate_api_key am key start between end).1 ≡ accepted k
      → Current (key_steps bcrypt am between) key end k
  unfolding validate_api_key
  validate_api_key-Current am key start between end k h =
      by_match (match_key bcrypt am key start) refl h
    where
      later : AuthManager
      later = key_steps bcrypt am between

      by_match :
          (m : Matched)
          → match_key bcrypt am key start ≡ m
          → (confirm_matched later m end).1 ≡ accepted k
          → Current later key end k
      by_match (failed error) e h = ground (arith, h)
      by_match (matched addr) e h =
          let s = match_key-sealed am key start addr e in
          confirm_key-Current later key addr end s.0 k
            (key_steps-sealed bcrypt between am addr s.0 s.1.0) s.1.1 h

  revoked-IsDetached :
      (am : AuthManager) (id : Text) (addr : ℕ)
      → addr < length am.heap
      → IsDetached (revoke_api_key am id).0 id addr
  unfolding revoke_api_key
  revoked-IsDetached am id addr lt =
      (ground (arith, lt), ground (arith, lookup-remove id id am.keys, same_refl id))

  -- The identifier of the key that a presented key matches.
  unfoldable pub matched_id : AuthManager → Text → ℕ → Option Text
  matched_id am key start = elim (match_key bcrypt am key start) [
    | failed e ↦ none
    | matched addr ↦ elim (sealed am.heap addr) [ none ↦ none | some s ↦ some s.0 ]
  ]

  -- The object is still there, but no longer under its identifier.
  detached-refused :
      (am : AuthManager) (addr now : ℕ) (s : Text × Text)
      → sealed am.heap addr ≡ some s
      → IsDetached am s.0 addr
      → (confirm_key am addr now).1 ≡ refused invalid_key
  unfolding confirm_key
  detached-refused am addr now s h d = ground (arith, h, d.1)

  revocation-IsDetached :
      (am : AuthManager) (id : Text) (addr : ℕ) (s : Text × Text) (before after : List KeyEvent)
      → sealed am.heap addr ≡ some s
      → IsDetached (key_steps bcrypt am (before ++ revokes id ∷ after)) id addr
  unfolding key_steps key_step
  revocation-IsDetached am id addr s before after h =
      let reached : AuthManager = key_steps bcrypt am before in
      subst (λ x. IsDetached x id addr)
        (sym (key_steps-append bcrypt before (revokes id ∷ after) am))
        (key_steps-IsDetached bcrypt after (revoke_api_key reached id).0 id addr (
          revoked-IsDetached reached id addr
            (sealed-lt reached.heap addr s (key_steps-sealed bcrypt before am addr s h))))
    where
      sealed-lt :
          (heap : List ApiKey) (a : ℕ) (t : Text × Text) → sealed heap a ≡ some t → a < length heap
      sealed-lt heap a t e = elim (Option-cases (get_elem? heap a)) [
        | inl none_there ↦ ground (arith, e, none_there)
        | inr object ↦ get_elem?-lt heap a object.1
      ]

  -- When the key that a presented key matches is revoked between the two locks of a validation, then it
  -- is refused as invalid, whatever else comes in between, a new key under the same identifier included.
  pub validate_api_key-revoked :
      (am : AuthManager) (key id : Text) (start end : ℕ) (before after : List KeyEvent)
      → matched_id am key start ≡ some id
      → (validate_api_key am key start (before ++ revokes id ∷ after) end).1 ≡ refused invalid_key
  unfolding validate_api_key matched_id
  validate_api_key-revoked am key id start end before after h =
      by_match (match_key bcrypt am key start) refl h
    where
      later : AuthManager
      later = key_steps bcrypt am (before ++ revokes id ∷ after)

      by_match :
          (m : Matched)
          → match_key bcrypt am key start ≡ m
          → elim m [
            | failed e ↦ none
            | matched addr ↦ elim (sealed am.heap addr) [ none ↦ none | some s ↦ some s.0 ]
          ]
            ≡ some id
          → (confirm_matched later m end).1 ≡ refused invalid_key
      by_match (failed error) e h = ground (arith, h)
      by_match (matched addr) e h =
          let s = match_key-sealed am key start addr e in
          let named : s.0.0 ≡ id = ground (arith, h, s.1.0) in
          detached-refused later addr end s.0
            (key_steps-sealed bcrypt (before ++ revokes id ∷ after) am addr s.0 s.1.0)
            (subst (λ i. IsDetached later i addr) (sym named)
              (revocation-IsDetached am id addr s.0 before after s.1.0))
