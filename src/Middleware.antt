-- ===== src/Middleware.antt =====
-- internal/api/middleware.go: who a request comes from, what it needs and whether it may pass.
pub mod Splitting
pub mod Address
pub mod Routes
pub mod Auth
pub mod Guard
pub mod Budget
mod Tests
use hospitus.Shared.{
  ℕ, suc, ◌+◌, Bool, true, false, not, ◌&&◌, ◌||◌, List, [], ◌∷◌, ◌++◌, Option, none, some, ◌==◌,
  if◌then◌else◌, Text, codes, same, Dict, lookup, insert, remove,
}

abbrev pub is_empty {ℓ} : {A : Type ℓ} → List A → Bool
is_empty [] = true
is_empty (x ∷ xs) = false

abbrev onto_first : ℕ → List Text → List Text
onto_first x [] = (x ∷ []) ∷ []
onto_first x (part ∷ parts) = (x ∷ part) ∷ parts

-- `strings.Split` at one byte.
unfoldable pub split_all : ℕ → Text → List Text
split_all sep [] = [] ∷ []
split_all sep (x ∷ xs) =
    let rest = split_all sep xs in if x == sep then [] ∷ rest else onto_first x rest

abbrev slash : ℕ
slash = 47

unfoldable pub trim_left : Text → Text
trim_left [] = []
trim_left (x ∷ xs) = let rest = trim_left xs in if x == slash then rest else x ∷ xs

unfoldable pub trim_right : Text → Text
trim_right [] = []
trim_right (x ∷ xs) =
    let rest = trim_right xs in if x == slash && is_empty rest then [] else x ∷ rest

unfoldable pub segments : Text → List Text
segments path = split_all slash (trim_right (trim_left path))

unfoldable pub has_perm : List Text → Text → Bool
has_perm [] required = false
has_perm (p ∷ ps) required =
    let rest = has_perm ps required in same p (codes "*") || same p required || rest

abbrev permission_of_method : Text → Text
permission_of_method method =
    if same method (codes "GET") || same method (codes "HEAD") || same method (codes "OPTIONS")
    then codes "read"
    else codes "write"

-- The segments behind those of the resource: the fifth names the operation.
abbrev runs_commands : List Text → Bool
runs_commands [] = false
runs_commands (id ∷ []) = false
runs_commands (id ∷ op ∷ more) = same op (codes "exec") || same op (codes "console")

unfoldable pub permission_of : Text → List Text → Text
permission_of method [] = permission_of_method method
permission_of method (a ∷ []) = permission_of_method method
permission_of method (a ∷ v ∷ []) = permission_of_method method
permission_of method (a ∷ v ∷ resource ∷ more) =
    if not (same a (codes "api") && same v (codes "v1"))
    then permission_of_method method
    else if same resource (codes "auth")
    then codes "admin"
    else if same resource (codes "instances") && runs_commands more
    then codes "exec"
    else if same resource (codes "console")
    then codes "exec"
    else permission_of_method method

unfoldable pub required_permission : Text → Text → Text
required_permission method path = permission_of method (segments path)

-- The functions of the packages `net` and `strings` that the code relies on: addresses and networks
-- stand as what is parsed.
pub record Net : Type 1 where
  pub Ip : Type 0
  pub IpNet : Type 0
  pub parse_ip : Text → Option Ip
  pub parse_cidr : Text → Option IpNet
  pub single : Ip → IpNet
  pub net_contains : IpNet → Ip → Bool
  pub split_host_port : Text → Option Text
  pub trim_space : Text → Text

abbrev has_slash : Text → Bool
has_slash [] = false
has_slash (x ∷ xs) = let rest = has_slash xs in x == slash || rest

module _ (net : Net) where
  abbrev network_of : Text → Option net.IpNet
  network_of cidr =
      if has_slash cidr
      then net.parse_cidr cidr
      else elim (net.parse_ip cidr) [ none ↦ none | some ip ↦ some (net.single ip) ]

  unfoldable pub in_networks : List Text → net.Ip → Bool
  in_networks [] ip = false
  in_networks (cidr ∷ cidrs) ip =
      let rest = in_networks cidrs ip in
      elim (network_of cidr) [ none ↦ rest | some n ↦ net.net_contains n ip || rest ]

  unfoldable pub is_trusted_proxy : List Text → Text → Bool
  is_trusted_proxy proxies addr = elim (net.parse_ip addr) [
    | none ↦ false
    | some ip ↦ in_networks proxies ip
  ]

  -- The hops from right to left.
  unfoldable pub client_hop : List Text → List Text → Option Text
  client_hop proxies [] = none
  client_hop proxies (h ∷ hs) =
      let further = client_hop proxies hs in
      let hop = net.trim_space h in
      elim (net.parse_ip hop) [
        | none ↦ none
        | some ip ↦ if is_trusted_proxy proxies hop then further else some hop
      ]

abbrev pub reverse_onto : List Text → List Text → List Text
reverse_onto [] done = done
reverse_onto (x ∷ xs) done = reverse_onto xs (x ∷ done)

-- A header that is missing is empty.
pub record Request : Type 0 where
  pub method : Text
  pub path : Text
  pub remote_addr : Text
  pub forwarded_for : Text
  pub real_ip : Text
  pub api_key : Text

module _ (net : Net) where
  abbrev pub remote_ip : Request → Text
  remote_ip r = elim (net.split_host_port r.remote_addr) [ none ↦ r.remote_addr | some host ↦ host ]

  abbrev real_or : Text → Text → Text
  real_or remote real =
      if is_empty real then remote else elim (net.parse_ip real) [ none ↦ remote | some ip ↦ real ]

  unfoldable pub extract_client_ip : List Text → Request → Text
  extract_client_ip proxies r =
      let remote = remote_ip r in
      if is_empty proxies || not (is_trusted_proxy net proxies remote)
      then remote
      else elim (if is_empty r.forwarded_for
          then none
          else client_hop net proxies (reverse_onto (split_all 44 r.forwarded_for) [])) [
            | none ↦ real_or remote r.real_ip
            | some hop ↦ hop
          ]
