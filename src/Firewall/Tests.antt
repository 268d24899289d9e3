-- ===== src/Firewall/Tests.antt =====
-- Two mappings, and the theorem at them.
use hospitus.Shared.{
  split_at, decimal_from, ◌≡◌, refl, false, [], Option, none, some, arith, if◌then◌else◌, Text,
  codes, same, same_iff, ap,
}
use hospitus.Validation.{contains_any}
use hospitus.Validation.Regex.{matches}
use hospitus.Validation.Names.{
  validate_instance_name, validate_provider_name, validate_interface_name,
}
use hospitus.Validation.Specs.{Family, four}
use hospitus.Firewall.{PortMapping, validate_port_mapping, generate_id}
use hospitus.Firewall.Ports.{
  tcp, udp, atoi, protocol_of, parse_ports, parse_port_spec, parse_port_spec-printed,
}
use hospitus.Firewall.Identity.{has_slash, IsSameMapping, generate_id-IsSameMapping}

-- A parser that knows one address.
abbrev parse_ip : Text → Option Family
parse_ip s = if same s (codes "10.0.0.5") then some four else none

parse_ip-slash : (s : Text) (f : Family) → parse_ip s ≡ some f → has_slash s ≡ false
parse_ip-slash s f e = ap has_slash ((same_iff s (codes "10.0.0.5")).0 (ground (arith, e)))

abbrev web : Text → PortMapping
web interface = record {
  instance_name = codes "web";
  provider = codes "jail";
  protocol = codes "tcp";
  host_port = 8080;
  target_ip = codes "10.0.0.5";
  target_port = 80;
  host_interface = interface;
}

web_accepted : validate_port_mapping parse_ip (web (codes "em0")) ≡ none
unfolding validate_port_mapping validate_instance_name validate_provider_name
    validate_interface_name matches contains_any same
web_accepted = refl

any_accepted :
    (validate_port_mapping parse_ip (web (codes "any")) ≡ none)
    × (validate_port_mapping parse_ip (web []) ≡ none)
unfolding validate_port_mapping validate_instance_name validate_provider_name
    validate_interface_name matches contains_any same
any_accepted = (refl, refl)

generate_id-IsSameMapping_example :
    (generate_id (web (codes "any")) ≡ generate_id (web [])
      → IsSameMapping (web (codes "any")) (web []))
    × (IsSameMapping (web (codes "any")) (web [])
        → generate_id (web (codes "any")) ≡ generate_id (web []))
generate_id-IsSameMapping_example =
    generate_id-IsSameMapping parse_ip parse_ip-slash (web (codes "any")) (web []) any_accepted.0
      any_accepted.1

id_written : generate_id (web (codes "em0")) ≡ codes "web/jail/tcp/em0/8080/10.0.0.5/80"
unfolding generate_id decimal_from
id_written = refl

-- An interface may be called `any`, and then shares its identifier with a mapping without one.
any_shared :
    (validate_port_mapping parse_ip (web (codes "any")) ≡ none)
    × (generate_id (web (codes "any")) ≡ generate_id (web []))
unfolding validate_port_mapping validate_instance_name validate_provider_name
    validate_interface_name matches contains_any same generate_id
any_shared = (refl, refl)

parse_port_spec-printed_example :
    parse_port_spec (codes "udp/5353:53")
    ≡ some (record { protocol = udp; host_port = 5353; target_port = 53 })
unfolding decimal_from
parse_port_spec-printed_example = parse_port_spec-printed udp 5353 53 refl refl

-- One number stands for both ports, and a port out of range is refused.
specs_read :
    (parse_port_spec (codes "80")
      ≡ some (record { protocol = tcp; host_port = 80; target_port = 80 }))
    × (parse_port_spec (codes "TCP/0:80") ≡ none)
    × (parse_port_spec (codes "-1:80") ≡ none)
unfolding parse_port_spec parse_ports split_at atoi protocol_of same
specs_read = (refl, refl, refl)
