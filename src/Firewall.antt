-- ===== src/Firewall.antt =====
-- pkg/firewall/rules.go: port mappings and NAT rules, their checks, and the identifier of a mapping.
pub mod Identity
pub mod Ports
mod Tests
use hospitus.Shared.{
  decimal_from, decimal, value_from, value-decimal_from, decimal-injective, ℕ, zero, suc, ◌+◌, ◌/◌,
  ◌%◌, Bool, true, false, not, ◌&&◌, ◌||◌, List, [], ◌∷◌, ◌++◌, Option, none, some, leb, ltb,
  if◌then◌else◌, Text, codes, same,
}
use hospitus.Validation.{◌<|>◌, refuse, wrap, is_empty}
use hospitus.Validation.Names.{
  validate_instance_name, validate_provider_name, validate_interface_name, unless_empty,
}
use hospitus.Validation.Specs.{Family}

-- Ports are natural numbers: a negative one is refused as 0 is. A protocol is the string that it is.
pub record PortMapping : Type 0 where
  pub instance_name : Text
  pub provider : Text
  pub protocol : Text
  pub host_port : ℕ
  pub target_ip : Text
  pub target_port : ℕ
  pub host_interface : Text

pub record NatRule : Type 0 where
  pub instance_name : Text
  pub source_network : Text
  pub out_interface : Text

abbrev pub is_port : ℕ → Bool
is_port p = leb 1 p && leb p 65535

-- `parse_ip` and `parse_cidr` are `net.ParseIP` and `net.ParseCIDR`.
unfoldable pub validate_port_mapping : (Text → Option Family) → PortMapping → Option Text
validate_port_mapping parse_ip pm =
    refuse (is_empty pm.instance_name) (codes "instance name is required")
    <|> wrap (codes "invalid instance name: ") (validate_instance_name pm.instance_name)
    <|> unless_empty pm.provider
        (wrap (codes "invalid provider: ") (validate_provider_name pm.provider))
    <|> unless_empty pm.host_interface
        (wrap (codes "invalid host interface: ") (validate_interface_name pm.host_interface))
    <|> refuse (not (same pm.protocol (codes "tcp")) && not (same pm.protocol (codes "udp")))
        (codes "protocol must be 'tcp' or 'udp'")
    <|> refuse (not (is_port pm.host_port)) (codes "host_port must be between 1 and 65535")
    <|> refuse (not (is_port pm.target_port)) (codes "target_port must be between 1 and 65535")
    <|> refuse (is_empty pm.target_ip) (codes "target_ip is required")
    <|> elim (parse_ip pm.target_ip) [ none ↦ some (codes "invalid target_ip") | some f ↦ none ]

unfoldable pub validate_nat_rule : (Text → Option Family) → NatRule → Option Text
validate_nat_rule parse_cidr nr =
    refuse (is_empty nr.instance_name) (codes "instance name is required")
    <|> wrap (codes "invalid instance name: ") (validate_instance_name nr.instance_name)
    <|> refuse (is_empty nr.source_network) (codes "source_network is required")
    <|> elim (parse_cidr nr.source_network) [
      | none ↦ some (codes "invalid source_network CIDR")
      | some f ↦ none
    ]
    <|> refuse (is_empty nr.out_interface) (codes "out_interface is required")

abbrev pub or_any : Text → Text
or_any s = if is_empty s then codes "any" else s

-- `/` between two parts.
infixr 20 ◌</>◌
abbrev pub ◌</>◌ : Text → Text → Text
s </> t = s ++ 47 ∷ t

unfoldable pub generate_id : PortMapping → Text
generate_id pm =
    pm.instance_name
    </> pm.provider
    </> pm.protocol
    </> or_any pm.host_interface
    </> decimal pm.host_port
    </> or_any pm.target_ip
    </> decimal pm.target_port
