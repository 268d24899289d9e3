-- ===== src/Middleware/Address.antt =====
-- internal/api/middleware.go: extractClientIP. What a client writes into its headers does not choose
-- the address it is taken for.
use hospitus.Shared.{◌≡◌, true, false, List, [], ◌∷◌, ◌++◌, some, All, Text, has_separator}
use hospitus.Middleware.{Net, Request, is_empty, is_trusted_proxy, remote_ip}

-- Each proxy appends the address that it saw.
abbrev pub append_hops : Text → List Text → Text
append_hops sent [] = sent
append_hops sent (h ∷ hs) = append_hops (sent ++ 44 ∷ h) hs

module _ (net : Net) (proxies : List Text) where
  abbrev pub IsProxy : Text → Type 0
  IsProxy h =
      (has_separator 44 h ≡ false) × (is_trusted_proxy net proxies (net.trim_space h) ≡ true)

  -- Where a request with these headers comes from: from its peer, when that is not a trusted proxy, or
  -- from the address `h` that the first of the proxies `ps` saw; `sent` is what the client wrote. Where
  -- the trusted peer sets no X-Forwarded-For, from what it names in X-Real-IP, or else from the peer.
  pub data Origin (r : Request) : Text → Type 0 where
    direct : is_trusted_proxy net proxies (remote_ip net r) ≡ false → Origin r (remote_ip net r)
    proxied :
        (sent h : Text) (ps : List Text) (ip : net.Ip)
        → is_trusted_proxy net proxies (remote_ip net r) ≡ true
        → r.forwarded_for ≡ append_hops sent (h ∷ ps)
        → has_separator 44 h ≡ false
        → All IsProxy ps
        → net.parse_ip (net.trim_space h) ≡ some ip
        → is_trusted_proxy net proxies (net.trim_space h) ≡ false
        → Origin r (net.trim_space h)
    real :
        (ip : net.Ip)
        → is_trusted_proxy net proxies (remote_ip net r) ≡ true
        → r.forwarded_for ≡ []
        → is_empty r.real_ip ≡ false
        → net.parse_ip r.real_ip ≡ some ip
        → Origin r r.real_ip
    unnamed :
        is_trusted_proxy net proxies (remote_ip net r) ≡ true
        → r.forwarded_for ≡ []
        → is_empty r.real_ip ≡ true
        → Origin r (remote_ip net r)
