-- ===== src/Middleware/Budget.antt =====
-- internal/api/middleware.go: how many keys one address can have compared in vain.
use hospitus.Shared.{
  ℕ, suc, ◌+◌, ◌≤◌, ◌<◌, ◌≡◌, Bool, true, false, ◌&&◌, List, [], ◌∷◌, Option, none, some, ◌==◌,
  if◌then◌else◌, Text, Dict, same,
}
use hospitus.Middleware.{Net, Request, extract_client_ip}
use hospitus.Middleware.Auth.{
  Limiter, AuthConfig, auth_rate_limiter_burst, limiter_of, wait_for, auth_middleware,
  cleanup_rate_limiters,
}

-- A token bucket as golang.org/x/time/rate documents it, seen through its number of whole tokens.
pub record TokenBucket (lim : Limiter) : Type 0 where
  pub tokens : lim.Bucket → ℕ
  pub starts_full : tokens lim.fresh ≡ auth_rate_limiter_burst
  pub sees : (l : lim.Bucket) → lim.exhausted l ≡ (tokens l == 0)
  pub spends :
      (l : lim.Bucket)
      → 0 < tokens l
      → ((lim.allow l).1 ≡ true) × (suc (tokens (lim.allow l).0) ≡ tokens l)
  pub refuses :
      (l : lim.Bucket) → tokens l ≡ 0 → ((lim.allow l).1 ≡ false) × (tokens (lim.allow l).0 ≡ 0)
  pub refills : (l : lim.Bucket) → tokens (lim.refill l) ≤ suc (tokens l)
  pub fills : (l : lim.Bucket) → lim.full l ≡ true → auth_rate_limiter_burst ≤ tokens l

-- `waits` of a request as in `auth_middleware`.
pub data Event : Type 0 where
  requests : Request → Bool → Event
  cleans : Event
  waits_for : Text → Event

module _ (lim : Limiter) (authenticate : Text → Option (List Text × Text)) (net : Net)
    (config : AuthConfig) where
  unfoldable pub step : Dict lim.Bucket → Event → Dict lim.Bucket
  step limiters (requests r waits) =
      (auth_middleware lim authenticate net config limiters r waits).limiters
  step limiters cleans = cleanup_rate_limiters lim limiters
  step limiters (waits_for ip) = wait_for lim true ip limiters

  abbrev is_unknown : Option (List Text × Text) → Bool
  is_unknown none = true
  is_unknown (some known) = false

  -- The comparisons of an unknown key for a request from the address `ip`.
  unfoldable pub guessed : Text → Dict lim.Bucket → Event → ℕ
  guessed ip limiters (requests r waits) =
      if same (extract_client_ip net config.trusted_proxies r) ip
        && is_unknown (authenticate r.api_key)
      then (auth_middleware lim authenticate net config limiters r waits).verified
      else 0
  guessed ip limiters cleans = 0
  guessed ip limiters (waits_for other) = 0

  unfoldable pub guesses : Text → Dict lim.Bucket → List Event → ℕ
  guesses ip limiters [] = 0
  guesses ip limiters (e ∷ es) = guessed ip limiters e + guesses ip (step limiters e) es

  -- The tokens that time adds to the limiter of `ip`.
  abbrev gained : Text → Event → ℕ
  gained ip (requests r waits) =
      if same (extract_client_ip net config.trusted_proxies r) ip && waits then 1 else 0
  gained ip cleans = 0
  gained ip (waits_for other) = if same other ip then 1 else 0

  abbrev pub gains : Text → List Event → ℕ
  gains ip [] = 0
  gains ip (e ∷ es) = gained ip e + gains ip es

  module _ (bucket : TokenBucket lim) where
    abbrev left : Text → Dict lim.Bucket → ℕ
    left ip limiters = bucket.tokens (limiter_of lim ip limiters)

    -- What a request from `k` costs the limiter of `ip`.
    abbrev cost : Text → Text → Text → ℕ → ℕ
    cost ip k key verified = if same k ip && is_unknown (authenticate key) then verified else 0
