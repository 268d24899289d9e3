-- ===== src/Middleware/Auth.antt =====
-- internal/api/middleware.go: authMiddleware and the limiters of failed attempts. The limiter is that
-- of golang.org/x/time/rate; that of a request is under a lock, so a request is one step.
use hospitus.Shared.{
  ℕ, Bool, true, false, not, ◌&&◌, ◌||◌, List, [], ◌∷◌, Option, none, some, if◌then◌else◌, Text,
  codes, same, Dict, lookup, insert, remove,
}
use hospitus.Middleware.{Net, Request, is_empty, has_perm, required_permission, extract_client_ip}

-- `exhausted` is `Tokens() < 1`, `full` is `Tokens() >= authRateLimiterBurst`, and `refill` is time
-- going by in which at most one token is added.
pub record Limiter : Type 1 where
  pub Bucket : Type 0
  pub fresh : Bucket
  pub exhausted : Bucket → Bool
  pub full : Bucket → Bool
  pub allow : Bucket → Bucket × Bool
  pub refill : Bucket → Bucket

abbrev pub auth_rate_limiter_burst : ℕ
auth_rate_limiter_burst = 3

pub record AuthConfig : Type 0 where
  pub metrics_public : Bool
  pub trusted_proxies : List Text

pub data Response : Type 0 where
  public_route : Response
  served : List Text → Text → Response
  missing_key invalid_key too_many_requests forbidden : Response

unfoldable pub is_public : AuthConfig → Text → Bool
is_public config path =
    same path (codes "/health")
    || config.metrics_public
      && (same path (codes "/metrics") || same path (codes "/metrics/prometheus"))

-- What the client is told once its key was compared.
abbrev pub respond : Request → Bool → Option (List Text × Text) → Response
respond r true known = too_many_requests
respond r false none = invalid_key
respond r false (some known) =
    if has_perm known.0 (required_permission r.method r.path)
    then served known.0 known.1
    else forbidden

module _ (lim : Limiter) where
  abbrev pub limiter_of : Text → Dict lim.Bucket → lim.Bucket
  limiter_of ip limiters = elim (lookup ip limiters) [ none ↦ lim.fresh | some l ↦ l ]

  unfoldable pub get_or_create_auth_rate_limiter : Text → Dict lim.Bucket → Dict lim.Bucket
  get_or_create_auth_rate_limiter ip limiters = insert ip (limiter_of ip limiters) limiters

  unfoldable pub spend : Text → Dict lim.Bucket → Dict lim.Bucket × Bool
  spend ip limiters = let r = lim.allow (limiter_of ip limiters) in (insert ip r.0 limiters, r.1)

  abbrev pub wait_for : Bool → Text → Dict lim.Bucket → Dict lim.Bucket
  wait_for waits ip limiters =
      if waits then insert ip (lim.refill (limiter_of ip limiters)) limiters else limiters

  -- `verified` counts the calls of `Authenticate`.
  pub record Verdict : Type 0 where
    pub limiters : Dict lim.Bucket
    pub known : Option (List Text × Text)
    pub limited : Bool
    pub verified : ℕ

  pub record Handled : Type 0 where
    pub limiters : Dict lim.Bucket
    pub response : Response
    pub verified : ℕ

  module _ (authenticate : Text → Option (List Text × Text)) where
    -- `waits` says whether a token is added while the key is compared.
    unfoldable pub check_key : Dict lim.Bucket → Text → Text → Bool → Verdict
    check_key limiters ip key waits =
        let later = wait_for waits ip limiters in
        elim (authenticate key) [
          | some known ↦ record {
            limiters = later;
            known = some known;
            limited = false;
            verified = 1;
          }
          | none ↦
              let s = spend ip later in
              record { limiters = s.0; known = none; limited = not s.1; verified = 1 }
        ]

    unfoldable pub verify : Dict lim.Bucket → Text → Text → Bool → Verdict
    verify limiters ip key waits =
        let peeked = get_or_create_auth_rate_limiter ip limiters in
        let s = spend ip peeked in
        if not (lim.exhausted (limiter_of ip peeked))
        then check_key peeked ip key waits
        else if s.1
        then check_key s.0 ip key waits
        else record { limiters = s.0; known = none; limited = true; verified = 0 }

    unfoldable pub auth_middleware : Net → AuthConfig → Dict lim.Bucket → Request → Bool → Handled
    auth_middleware net config limiters r waits =
        let ip = extract_client_ip net config.trusted_proxies r in
        let s = spend ip limiters in
        let v = verify limiters ip r.api_key waits in
        if is_public config r.path
        then record { limiters = limiters; response = public_route; verified = 0 }
        else if is_empty r.api_key
        then record {
          limiters = s.0;
          response = if s.1 then missing_key else too_many_requests;
          verified = 0;
        }
        else record {
          limiters = v.limiters;
          response = respond r v.limited v.known;
          verified = v.verified;
        }

  unfoldable pub clean_each : List Text → Dict lim.Bucket → Dict lim.Bucket
  clean_each [] limiters = limiters
  clean_each (ip ∷ ips) limiters =
      clean_each ips (if lim.full (limiter_of ip limiters) then remove ip limiters else limiters)

  abbrev pub addresses : Dict lim.Bucket → List Text
  addresses [] = []
  addresses ((ip, l) ∷ ls) = ip ∷ addresses ls

  -- The auth limiters' share.
  unfoldable pub cleanup_rate_limiters : Dict lim.Bucket → Dict lim.Bucket
  cleanup_rate_limiters limiters = clean_each (addresses limiters) limiters
