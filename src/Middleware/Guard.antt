-- ===== src/Middleware/Guard.antt =====
-- internal/api/middleware.go: which requests authMiddleware lets pass.
use hospitus.Shared.{
  ◌≡◌, ◌⊎◌, inl, inr, ◌∙◌, ap, subst, refl, sym, insert, lookup-insert, same_refl, Option-cases,
  Bool-cases, Bool, true, false, List, Option, none, some, arith, if◌then◌else◌, Text, Dict,
}
use hospitus.Middleware.{Net, Request, is_empty, has_perm, required_permission, extract_client_ip}
use hospitus.Middleware.Auth.{
  Limiter, limiter_of, get_or_create_auth_rate_limiter, AuthConfig, Response, public_route, served,
  missing_key, invalid_key, too_many_requests, forbidden, is_public, check_key, verify,
  auth_middleware, Verdict, Handled, spend, respond,
}

module _ (lim : Limiter) (authenticate : Text → Option (List Text × Text)) where
  verify-known :
      (limiters : Dict lim.Bucket) (ip key : Text) (waits : Bool)
      → (verify lim authenticate limiters ip key waits).limited ≡ false
      → (verify lim authenticate limiters ip key waits).known ≡ authenticate key
  unfolding verify check_key
  verify-known limiters ip key waits h = ground (arith, h)

  limiter_of-insert :
      (ip : Text) (l : lim.Bucket) (m : Dict lim.Bucket) → limiter_of lim ip (insert ip l m) ≡ l
  limiter_of-insert ip l m = ground (arith, lookup-insert ip ip l m, same_refl ip)

  -- The bucket that the attempt with a wrong key is charged to: that of the address, from which the
  -- comparison itself may have taken a token, and to which one may have come while the key was compared.
  abbrev pub Charged : lim.Bucket → Bool → lim.Bucket → Type 0
  Charged l waits charged =
      (first : lim.Bucket) × (((first ≡ l) ⊎ ((lim.exhausted l ≡ true) × (first ≡ (lim.allow l).0)))
        × (charged ≡ (if waits then lim.refill first else first)))

  -- Why a request with a key is limited: its address has no token and is given none, so that the key
  -- is not compared, or the key is unknown and the attempt is not allowed.
  abbrev pub IsOverLimit : lim.Bucket → Text → Bool → Type 0
  IsOverLimit l key waits =
      ((lim.exhausted l ≡ true) × ((lim.allow l).1 ≡ false))
      ⊎ ((authenticate key ≡ none)
          × ((charged : lim.Bucket) × (Charged l waits charged × ((lim.allow charged).1 ≡ false))))

  module _ (ip key : Text) (waits : Bool) where
    check_key-limited :
        (limiters : Dict lim.Bucket)
        → (check_key lim authenticate limiters ip key waits).limited ≡ true
        → (authenticate key ≡ none)
          × ((lim.allow (
                if waits
                then lim.refill (limiter_of lim ip limiters)
                else limiter_of lim ip limiters)).1
              ≡ false)
    unfolding check_key spend
    check_key-limited limiters h = elim (Option-cases (authenticate key)) [
      | inl unknown ↦ (
        unknown,
        ground (
          arith,
          h,
          unknown,
          limiter_of-insert ip (lim.refill (limiter_of lim ip limiters)) limiters,
        ),
      )
      | inr known ↦ ground (arith, h, known.1)
    ]

    verify-IsOverLimit :
        (limiters : Dict lim.Bucket)
        → (verify lim authenticate limiters ip key waits).limited ≡ true
        → IsOverLimit (limiter_of lim ip limiters) key waits
    unfolding verify get_or_create_auth_rate_limiter spend
    verify-IsOverLimit limiters h =
        let l : lim.Bucket = limiter_of lim ip limiters in
        let peeked : Dict lim.Bucket = insert ip l limiters in
        let own : limiter_of lim ip peeked ≡ l = limiter_of-insert ip l limiters in
        let spent : Dict lim.Bucket = insert ip (lim.allow (limiter_of lim ip peeked)).0 peeked in
        elim (Bool-cases (lim.exhausted l)) [
          | inl dry ↦ elim (Bool-cases (lim.allow l).1) [
            | inl given ↦
                let c = check_key-limited spent (ground (arith, h, own, dry, given)) in
                let left : limiter_of lim ip spent ≡ (lim.allow l).0 =
                  limiter_of-insert ip (lim.allow (limiter_of lim ip peeked)).0 peeked
                  ∙ ap (λ x. (lim.allow x).0) own in
                inr (
                  c.0,
                  (
                    (if waits then lim.refill (lim.allow l).0 else (lim.allow l).0),
                    (
                      ((lim.allow l).0, (inr (dry, refl), refl)),
                      subst (λ x. (lim.allow (if waits then lim.refill x else x)).1 ≡ false) left
                          c.1,
                    ),
                  ),
                )
            | inr denied ↦ inl (dry, denied)
          ]
          | inr wet ↦
              let c = check_key-limited peeked (ground (arith, h, own, wet)) in
              inr (
                c.0,
                (
                  (if waits then lim.refill l else l),
                  (
                    (l, (inl refl, refl)),
                    subst (λ x. (lim.allow (if waits then lim.refill x else x)).1 ≡ false) own c.1,
                  ),
                ),
              )
        ]

  -- What each answer says of the request, where `l` is the bucket of its address.
  abbrev pub Justifies : AuthConfig → lim.Bucket → Bool → Request → Response → Type 0
  Justifies config l waits r public_route = is_public config r.path ≡ true
  Justifies config l waits r (served permissions id) =
      (is_public config r.path ≡ false)
      × ((is_empty r.api_key ≡ false)
          × ((authenticate r.api_key ≡ some (permissions, id))
              × (has_perm permissions (required_permission r.method r.path) ≡ true)))
  Justifies config l waits r missing_key =
      (is_public config r.path ≡ false) × (is_empty r.api_key ≡ true)
  Justifies config l waits r invalid_key =
      (is_public config r.path ≡ false)
      × ((is_empty r.api_key ≡ false) × (authenticate r.api_key ≡ none))
  Justifies config l waits r too_many_requests =
      (is_public config r.path ≡ false)
      × (((is_empty r.api_key ≡ true) × ((lim.allow l).1 ≡ false))
          ⊎ ((is_empty r.api_key ≡ false) × IsOverLimit l r.api_key waits))
  Justifies config l waits r forbidden =
      (is_public config r.path ≡ false)
      × ((known : List Text × Text) × ((authenticate r.api_key ≡ some known)
            × (has_perm known.0 (required_permission r.method r.path) ≡ false)))

  module _ (config : AuthConfig) (l : lim.Bucket) (waits : Bool) (r : Request)
      (p : is_public config r.path ≡ false) (k : is_empty r.api_key ≡ false) where
    permit-Justifies :
        (known : List Text × Text) (b : Bool)
        → authenticate r.api_key ≡ some known
        → has_perm known.0 (required_permission r.method r.path) ≡ b
        → Justifies config l waits r (if b then served known.0 known.1 else forbidden)
    permit-Justifies known true a e = (p, (k, (a, e)))
    permit-Justifies known false a e = (p, (known, (a, e)))

    respond-Justifies :
        (limited : Bool) (known : Option (List Text × Text))
        → (limited ≡ false → known ≡ authenticate r.api_key)
        → (limited ≡ true → IsOverLimit l r.api_key waits)
        → Justifies config l waits r (respond r limited known)
    respond-Justifies true known h over = (p, inr (k, over refl))
    respond-Justifies false none h over = (p, (k, sym (h refl)))
    respond-Justifies false (some known) h over =
        permit-Justifies known (has_perm known.0 (required_permission r.method r.path))
          (sym (h refl)) refl

  -- A request passes only on a public path, or with a key that is known and holds the permission that
  -- its method and path need, and the handler is given the permissions and the identifier of that key.
  -- A key is called invalid only if it is not known, missing only if there is none, and its permissions
  -- insufficient only if it is known and they do not hold the one that is needed. Too many requests is
  -- the answer only if there is no key and the limiter of the client's address gives no token, or if
  -- that limiter has none for the comparison of a key and gives none, or if the key is not known and
  -- the limiter, a token that came meanwhile included, gives none for the failed attempt.
  pub auth_middleware-Justifies :
      (net : Net) (config : AuthConfig) (limiters : Dict lim.Bucket) (r : Request) (waits : Bool)
      → Justifies config
          (limiter_of lim (extract_client_ip net config.trusted_proxies r) limiters)
          waits
          r
          (auth_middleware lim authenticate net config limiters r waits).response
  unfolding auth_middleware spend
  auth_middleware-Justifies net config limiters r waits =
      routed (is_public config r.path) refl (is_empty r.api_key) refl
    where
      ip : Text
      ip = extract_client_ip net config.trusted_proxies r

      v : Verdict lim
      v = verify lim authenticate limiters ip r.api_key waits

      Fits : Handled lim → Type 0
      Fits h = Justifies config (limiter_of lim ip limiters) waits r h.response

      unkeyed :
          is_public config r.path ≡ false
          → is_empty r.api_key ≡ true
          → (b : Bool) → (lim.allow (limiter_of lim ip limiters)).1 ≡ b
          → Justifies config
              (limiter_of lim ip limiters)
              waits
              r
              (if b then missing_key else too_many_requests)
      unkeyed p k true e = (p, k)
      unkeyed p k false e = (p, inl (k, e))

      routed :
          (public : Bool)
          → is_public config r.path ≡ public
          → (keyless : Bool) → is_empty r.api_key ≡ keyless
          → Fits (
              if public
              then record { limiters = limiters; response = public_route; verified = 0 }
              else if keyless
              then record {
                limiters = (spend lim ip limiters).0;
                response = if (spend lim ip limiters).1 then missing_key else too_many_requests;
                verified = 0;
              }
              else record {
                limiters = v.limiters;
                response = respond r v.limited v.known;
                verified = v.verified;
              })
      routed true p keyless k = p
      routed false p true k = unkeyed p k (spend lim ip limiters).1 refl
      routed false p false k =
          respond-Justifies config (limiter_of lim ip limiters) waits r p k v.limited v.known
            (verify-known limiters ip r.api_key waits)
            (verify-IsOverLimit ip r.api_key waits limiters)
