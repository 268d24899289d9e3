-- ===== src/Auth/Steps.antt =====
-- internal/auth/auth.go: the calls that change an AuthManager, and what none of them changes.
use hospitus.Shared.{
  ℕ, ◌<◌, ◌≡◌, refl, ◌∙◌, true, not, List, [], ◌∷◌, ◌++◌, Option, none, some, ◌==◌, arith, length,
  length-append, length-modify, get_elem?, modify, get_elem?-modify, get_elem?-concat,
  get_elem?_of_ge, Text, lookup, lookup-insert, lookup-remove,
}
use hospitus.Auth.Manager.{
  ApiKey, AuthManager, Bcrypt, add_api_key, allocate, unhashed, add_hashed, set_expiry_at,
  load_api_key, revoke_api_key, set_key_expiry, confirm_key,
}

pub data KeyEvent : Type 0 where
  adds : Text → Text → Text → List Text → Option ℕ → ℕ → KeyEvent
  loads : ApiKey → KeyEvent
  revokes : Text → KeyEvent
  sets_expiry : Text → Option ℕ → KeyEvent
  confirms : ℕ → ℕ → KeyEvent

module _ (bcrypt : Bcrypt) where
  unfoldable pub key_step : AuthManager → KeyEvent → AuthManager
  key_step am (adds id name key permissions expires_at now) =
      (add_api_key bcrypt am id name key permissions expires_at now).0
  key_step am (loads k) = load_api_key am k
  key_step am (revokes id) = (revoke_api_key am id).0
  key_step am (sets_expiry id expires_at) = (set_key_expiry am id expires_at).0
  key_step am (confirms addr now) = (confirm_key am addr now).0

  unfoldable pub key_steps : AuthManager → List KeyEvent → AuthManager
  key_steps am [] = am
  key_steps am (e ∷ es) = key_steps (key_step am e) es

-- The identifier and the hash of the object at an address, which nothing changes.
abbrev pub sealed : List ApiKey → ℕ → Option (Text × Text)
sealed heap addr = elim (get_elem? heap addr) [ none ↦ none | some k ↦ some (k.id, k.hashed_key) ]

sealed-allocate :
    (heap : List ApiKey) (k : ApiKey) (addr : ℕ) (s : Text × Text)
    → sealed heap addr ≡ some s
    → sealed (heap ++ k ∷ []) addr ≡ some s
sealed-allocate heap k addr s h =
    ground (arith, h, get_elem?-concat heap k addr, get_elem?_of_ge heap addr)

sealed-expiry :
    (heap : List ApiKey) (at addr : ℕ) (expires_at : Option ℕ)
    → sealed (modify heap at (λ k. record k { expires_at = expires_at })) addr ≡ sealed heap addr
sealed-expiry heap at addr expires_at =
    ground (arith, get_elem?-modify heap at addr (λ k. record k { expires_at = expires_at }))

sealed-used :
    (heap : List ApiKey) (at addr now : ℕ)
    → sealed (modify heap at (λ k. record k { last_used_at = now })) addr ≡ sealed heap addr
sealed-used heap at addr now =
    ground (arith, get_elem?-modify heap at addr (λ k. record k { last_used_at = now }))

add_hashed-sealed :
    (am : AuthManager) (k : ApiKey) (o : Option Text) (addr : ℕ) (s : Text × Text)
    → sealed am.heap addr ≡ some s
    → sealed (add_hashed am k o).0.heap addr ≡ some s
add_hashed-sealed am k none addr s h = h
add_hashed-sealed am k (some hashed) addr s h =
    sealed-allocate am.heap (record k { hashed_key = hashed }) addr s h

set_expiry_at-sealed :
    (am : AuthManager) (expires_at o : Option ℕ) (addr : ℕ)
    → sealed (set_expiry_at am expires_at o).0.heap addr ≡ sealed am.heap addr
set_expiry_at-sealed am expires_at none addr = refl
set_expiry_at-sealed am expires_at (some at) addr = sealed-expiry am.heap at addr expires_at

-- The identifier does not lead to the address, which is in use.
abbrev pub IsDetached : AuthManager → Text → ℕ → Type 0
IsDetached am id addr =
    (addr < length am.heap)
    × (elim (lookup id am.keys) [ none ↦ true | some a ↦ not (a == addr) ] ≡ true)

allocate-IsDetached :
    (am : AuthManager) (k : ApiKey) (id : Text) (addr : ℕ)
    → IsDetached am id addr
    → IsDetached (allocate am k) id addr
allocate-IsDetached am k id addr d = (
  ground (arith, d.0, length-append am.heap (k ∷ [])),
  ground (arith, d.0, d.1, lookup-insert k.id id (length am.heap) am.keys),
)

add_hashed-IsDetached :
    (am : AuthManager) (k : ApiKey) (o : Option Text) (id : Text) (addr : ℕ)
    → IsDetached am id addr
    → IsDetached (add_hashed am k o).0 id addr
add_hashed-IsDetached am k none id addr d = d
add_hashed-IsDetached am k (some hashed) id addr d =
    allocate-IsDetached am (record k { hashed_key = hashed }) id addr d

set_expiry_at-IsDetached :
    (am : AuthManager) (expires_at o : Option ℕ) (id : Text) (addr : ℕ)
    → IsDetached am id addr
    → IsDetached (set_expiry_at am expires_at o).0 id addr
set_expiry_at-IsDetached am expires_at none id addr d = d
set_expiry_at-IsDetached am expires_at (some at) id addr d =
    (ground (arith, d.0, length-modify am.heap at (λ k. record k { expires_at = expires_at })), d.1)

revoke_api_key-IsDetached :
    (am : AuthManager) (old id : Text) (addr : ℕ)
    → IsDetached am id addr
    → IsDetached (revoke_api_key am old).0 id addr
unfolding revoke_api_key
revoke_api_key-IsDetached am old id addr d =
    (ground (arith, d.0), ground (arith, d.1, lookup-remove old id am.keys))

confirm_key-IsDetached :
    (am : AuthManager) (at now : ℕ) (id : Text) (addr : ℕ)
    → IsDetached am id addr
    → IsDetached (confirm_key am at now).0 id addr
unfolding confirm_key
confirm_key-IsDetached am at now id addr d = (
  ground (arith, d.0, length-modify am.heap at (λ k. record k { last_used_at = now })),
  ground (arith, d.1),
)

module _ (bcrypt : Bcrypt) where
  key_step-sealed :
      (am : AuthManager) (e : KeyEvent) (addr : ℕ) (s : Text × Text)
      → sealed am.heap addr ≡ some s
      → sealed (key_step bcrypt am e).heap addr ≡ some s
  unfolding key_step add_api_key load_api_key revoke_api_key set_key_expiry confirm_key
  key_step-sealed am (adds id name key permissions expires_at now) addr s h =
      add_hashed-sealed am (unhashed id name permissions expires_at now) (bcrypt.generate key) addr
        s h
  key_step-sealed am (loads k) addr s h = sealed-allocate am.heap k addr s h
  key_step-sealed am (revokes id) addr s h = ground (arith, h)
  key_step-sealed am (sets_expiry id expires_at) addr s h =
      set_expiry_at-sealed am expires_at (lookup id am.keys) addr ∙ h
  key_step-sealed am (confirms at now) addr s h = ground (arith, h, sealed-used am.heap at addr now)

  pub key_steps-sealed :
      (es : List KeyEvent) (am : AuthManager) (addr : ℕ) (s : Text × Text)
      → sealed am.heap addr ≡ some s
      → sealed (key_steps bcrypt am es).heap addr ≡ some s
  unfolding key_steps
  key_steps-sealed [] am addr s h = h
  key_steps-sealed (e ∷ es) am addr s h =
      key_steps-sealed es (key_step bcrypt am e) addr s (key_step-sealed am e addr s h)

  key_step-IsDetached :
      (am : AuthManager) (e : KeyEvent) (id : Text) (addr : ℕ)
      → IsDetached am id addr
      → IsDetached (key_step bcrypt am e) id addr
  unfolding key_step add_api_key load_api_key set_key_expiry
  key_step-IsDetached am (adds new name key permissions expires_at now) id addr d =
      add_hashed-IsDetached am (unhashed new name permissions expires_at now) (bcrypt.generate key)
        id addr d
  key_step-IsDetached am (loads k) id addr d = allocate-IsDetached am k id addr d
  key_step-IsDetached am (revokes old) id addr d = revoke_api_key-IsDetached am old id addr d
  key_step-IsDetached am (sets_expiry old expires_at) id addr d =
      set_expiry_at-IsDetached am expires_at (lookup old am.keys) id addr d
  key_step-IsDetached am (confirms at now) id addr d = confirm_key-IsDetached am at now id addr d

  pub key_steps-IsDetached :
      (es : List KeyEvent) (am : AuthManager) (id : Text) (addr : ℕ)
      → IsDetached am id addr
      → IsDetached (key_steps bcrypt am es) id addr
  unfolding key_steps
  key_steps-IsDetached [] am id addr d = d
  key_steps-IsDetached (e ∷ es) am id addr d =
      key_steps-IsDetached es (key_step bcrypt am e) id addr (key_step-IsDetached am e id addr d)

  pub key_steps-append :
      (es fs : List KeyEvent) (am : AuthManager)
      → key_steps bcrypt am (es ++ fs) ≡ key_steps bcrypt (key_steps bcrypt am es) fs
  unfolding key_steps
  key_steps-append [] fs am = refl
  key_steps-append (e ∷ es) fs am = key_steps-append es fs (key_step bcrypt am e)
