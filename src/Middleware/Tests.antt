-- ===== src/Middleware/Tests.antt =====
-- A server behind one proxy, and the theorems at its requests.
use hospitus.Shared.{
  ℕ, suc, ◌-◌, ◌≡◌, refl, true, false, List, [], ◌∷◌, none, some, if◌then◌else◌, ◌==◌, ltb, leb,
  Text, codes, same, has_separator,
}
use hospitus.Auth.{SimpleAuthProvider, new_simple_auth_provider, authenticate}
use hospitus.Middleware.{Net, Request, is_empty, required_permission, extract_client_ip}
use hospitus.Middleware.Routes.{required_permission-any_name}
use hospitus.Middleware.Auth.{Limiter, limiter_of, AuthConfig, auth_middleware}
use hospitus.Middleware.Guard.{Justifies, auth_middleware-Justifies}
use hospitus.Middleware.Budget.{Event, requests, cleans, waits_for}

abbrev without_space : Text → Text
without_space [] = []
without_space (x ∷ xs) = if x == 32 then xs else x ∷ xs

-- Addresses are what is not empty, and a network is one address.
abbrev plain_net : Net
plain_net = record {
  Ip = Text;
  IpNet = Text;
  parse_ip = λ t. if is_empty t then none else some t;
  parse_cidr = λ t. some t;
  single = λ ip. ip;
  net_contains = λ n ip. same n ip;
  split_host_port = λ t. some t;
  trim_space = without_space;
}

abbrev proxies : List Text
proxies = codes "10.0.0.1" ∷ []

abbrev forged : Request
forged = record {
  method = codes "GET";
  path = codes "/api/v1/instances";
  remote_addr = codes "10.0.0.1";
  forwarded_for = codes "1.2.3.4, 9.9.9.9";
  real_ip = codes "1.2.3.4";
  api_key = codes "guess";
}

required_permission-any_name_example :
    required_permission (codes "POST") (codes "/api/v1/instances/exec-web/start")
    ≡ required_permission (codes "POST") (codes "/api/v1/instances/db/start")
unfolding has_separator
required_permission-any_name_example =
    required_permission-any_name (codes "POST") (codes "xec-web") (codes "b") (codes "/start") 101
      100 refl refl refl

-- A bucket of three tokens.
abbrev three : Limiter
three = record {
  Bucket = ℕ;
  fresh = 3;
  exhausted = λ l. l == 0;
  full = λ l. leb 3 l;
  allow = λ l. (l - 1, ltb 0 l);
  refill = λ l. suc l;
}

abbrev provider : SimpleAuthProvider
provider = new_simple_auth_provider (codes "s3cret" ∷ [])

abbrev config : AuthConfig
config = record { metrics_public = false; trusted_proxies = proxies }

auth_middleware-Justifies_example :
    Justifies three
      (authenticate provider)
      config
      (limiter_of three (extract_client_ip plain_net proxies forged) [])
      false
      forged
      (auth_middleware three (authenticate provider) plain_net config [] forged false).response
auth_middleware-Justifies_example =
    auth_middleware-Justifies three (authenticate provider) plain_net config [] forged false

abbrev guessing : List Event
guessing =
    requests forged false
    ∷ requests forged true
    ∷ cleans
    ∷ waits_for (codes "9.9.9.9")
    ∷ requests forged false
    ∷ []
