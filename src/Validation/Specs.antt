-- ===== src/Validation/Specs.antt =====
-- pkg/validation/validation.go: the checks on disks, networks, limits and whole instances. The
-- parsers of addresses are parameters, that tell the family of what they accept.
use hospitus.Shared.{
  ℕ, ◌*◌, ◌||◌, Bool, true, false, not, List, [], ◌∷◌, Option, none, some, ltb, if◌then◌else◌,
  length, Text, codes, contains, same,
}
use hospitus.Validation.{
  ◌<|>◌, refuse, wrap, each, contains_any, has_infix, command_injection_chars, is_empty, valid_utf8,
}
use hospitus.Validation.Regex.{Class, Regex, one, seq, exactly, matches}
use hospitus.Validation.Names.{
  validate_instance_name, validate_label, validate_bridge_name, validate_safe_field, unless_empty,
}
use hospitus.Validation.Config.{ConfigValue, validate_provider_config_entry}

-- Go's `int`, as far as its sign matters.
pub data ℤ : Type 0 where
  pos negsuc : ℕ → ℤ

-- `z < n` and `n < z`.
abbrev pub below : ℤ → ℕ → Bool
below (pos a) n = ltb a n
below (negsuc a) n = true

abbrev pub above : ℤ → ℕ → Bool
above (pos a) n = ltb n a
above (negsuc a) n = false

unfoldable pub validate_resource_limits : ℤ → ℤ → Option Text
validate_resource_limits cpus memory_mb =
    refuse (below cpus 1) (codes "CPUs must be at least 1")
    <|> refuse (above cpus 1024) (codes "CPUs cannot exceed 1024")
    <|> refuse (below memory_mb 128) (codes "memory must be at least 128 MB")
    <|> refuse (above memory_mb (4 * 1024 * 1024)) (codes "memory cannot exceed 4 TB")

pub record DiskSpec : Type 0 where
  pub id : Text
  pub path : Text
  pub device_name : Text

unfoldable pub validate_disk_spec : DiskSpec → Option Text
validate_disk_spec disk =
    unless_empty disk.id (
      refuse (not (valid_utf8 disk.id)) (codes "disk ID must be valid UTF-8")
      <|> refuse (contains_any disk.id command_injection_chars)
          (codes "disk ID contains invalid characters"))
    <|> unless_empty disk.path (
        refuse (not (valid_utf8 disk.path)) (codes "disk path must be valid UTF-8")
        <|> refuse (has_infix disk.path (codes ".."))
            (codes "disk path contains path traversal sequences"))
    <|> unless_empty disk.device_name (
        refuse (not (valid_utf8 disk.device_name)) (codes "device name must be valid UTF-8")
        <|> refuse (contains_any disk.device_name command_injection_chars)
            (codes "device name contains invalid characters"))

abbrev pub allowed_bridge_flags : List Text
allowed_bridge_flags =
    codes "private"
    ∷ codes "-private"
    ∷ codes "span"
    ∷ codes "-span"
    ∷ codes "sticky"
    ∷ codes "-sticky"
    ∷ codes "learn"
    ∷ codes "-learn"
    ∷ codes "discover"
    ∷ codes "-discover"
    ∷ []

unfoldable pub validate_bridge_flag : Text → Option Text
validate_bridge_flag flag =
    refuse (not (contains flag allowed_bridge_flags)) (codes "bridge flag not allowed")

abbrev pub hex_digit : Class
hex_digit = (48, 57) ∷ (65, 70) ∷ (97, 102) ∷ []

abbrev pub hex_pair : Regex
hex_pair = exactly 2 (one hex_digit)

abbrev pub valid_mac : Regex
valid_mac = seq (exactly 5 (seq hex_pair (one ((58, 58) ∷ [])))) hex_pair

pub record NetworkSpec : Type 0 where
  pub id : Text
  pub bridge : Text
  pub bridge_flags : List Text
  pub vlan : ℤ
  pub mac : Text
  pub ipv4 : Text
  pub ipv6 : Text

pub data Family : Type 0 where
  four six : Family

abbrev pub same_family : Family → Family → Bool
same_family four four = true
same_family six six = true
same_family _ _ = false

unfoldable pub require_prefix_length : Text → Option Text
require_prefix_length addr =
    refuse (not (has_infix addr (codes "/"))) (codes "address has no prefix length")

pub record CloudInit : Type 0 where
  pub user_data : Text
  pub meta_data : Text
  pub network : Text

pub record InstanceSpec : Type 0 where
  pub name : Text
  pub description : Text
  pub image : Text
  pub os_type : Text
  pub os_version : Text
  pub arch : Text
  pub cloud_init : Option CloudInit
  pub bootloader : Text
  pub disks : List DiskSpec
  pub networks : List NetworkSpec
  pub provider_config : List (Text × ConfigValue)
  pub labels : List (Text × Text)
  pub annotations : List (Text × Text)

abbrev pub validate_annotation : Text → Text → Option Text
validate_annotation k v =
    refuse (not (valid_utf8 k)) (codes "annotation key must be valid UTF-8")
    <|> refuse (not (valid_utf8 v)) (codes "annotation value must be valid UTF-8")
    <|> refuse (ltb 253 (length k)) (codes "annotation key too long (max 253 characters)")
    <|> refuse (ltb 1000 (length v)) (codes "annotation value too long (max 1000 characters)")

abbrev pub validate_cloud_init : Option CloudInit → Option Text
validate_cloud_init none = none
validate_cloud_init (some ci) =
    unless_empty ci.user_data
      (refuse (not (valid_utf8 ci.user_data)) (codes "cloud-init user data must be valid UTF-8"))
    <|> unless_empty ci.meta_data
        (refuse (not (valid_utf8 ci.meta_data)) (codes "cloud-init meta data must be valid UTF-8"))
    <|> unless_empty ci.network
        (refuse (not (valid_utf8 ci.network)) (codes "cloud-init network data must be valid UTF-8"))

-- `parse_cidr` and `parse_ip` are `net.ParseCIDR` and `net.ParseIP`.
module _ (parse_cidr parse_ip : Text → Option Family) where
  unfoldable pub validate_ip_address : Text → Option Text
  validate_ip_address ip =
      refuse (is_empty ip) (codes "IP address cannot be empty") <|> elim (parse_cidr ip) [
        | some family ↦ none
        | none ↦ elim (parse_ip ip) [
          | some family ↦ none
          | none ↦ some (codes "invalid IP address format")
        ]
      ]

  -- `net.ParseIP`, or else the address of `net.ParseCIDR`.
  abbrev pub family_of : Text → Option Family
  family_of addr = elim (parse_ip addr) [ some family ↦ some family | none ↦ parse_cidr addr ]

  unfoldable pub require_family : Text → Family → Option Text
  require_family addr family = elim (family_of addr) [
    | none ↦ none
    | some found ↦ refuse (not (same_family found family)) (codes "address of the other family")
  ]

  abbrev pub validate_static : Text → Family → Text → Option Text
  validate_static addr family message =
      require_family addr family
      <|> wrap message (validate_ip_address addr)
      <|> wrap message (require_prefix_length addr)

  unfoldable pub validate_network_spec : NetworkSpec → Option Text
  validate_network_spec network =
      unless_empty network.id (
        refuse (not (valid_utf8 network.id)) (codes "network ID must be valid UTF-8")
        <|> refuse (contains_any network.id command_injection_chars)
            (codes "network ID contains invalid characters"))
      <|> unless_empty network.bridge
          (wrap (codes "invalid bridge name: ") (validate_bridge_name network.bridge))
      <|> unless_empty network.mac (
          refuse (not (valid_utf8 network.mac)) (codes "MAC address must be valid UTF-8")
          <|> refuse (not (matches valid_mac network.mac)) (codes "invalid MAC address format"))
      <|> (if is_empty network.ipv4 || same network.ipv4 (codes "dhcp")
          then none
          else validate_static network.ipv4 four (codes "invalid IPv4 address: "))
      <|> unless_empty network.ipv6 (
          refuse (contains network.ipv6 (codes "dhcp" ∷ codes "auto" ∷ codes "slaac" ∷ []))
            (codes "network IPv6 takes a static address")
          <|> validate_static network.ipv6 six (codes "invalid IPv6 address: "))
      <|> each validate_bridge_flag network.bridge_flags
      <|> refuse (below network.vlan 0 || above network.vlan 4094) (codes "invalid VLAN id")

  unfoldable pub validate_instance_spec : InstanceSpec → Option Text
  validate_instance_spec spec =
      wrap (codes "invalid instance name: ") (validate_instance_name spec.name)
      <|> unless_empty spec.description (
          refuse (not (valid_utf8 spec.description)) (codes "description must be valid UTF-8")
          <|> refuse (ltb 1000 (length spec.description))
              (codes "description too long (max 1000 characters)"))
      <|> unless_empty spec.image (
          refuse (not (valid_utf8 spec.image)) (codes "image name must be valid UTF-8")
          <|> refuse (has_infix spec.image (codes ".."))
              (codes "image name contains invalid characters"))
      <|> validate_safe_field (codes "OS type") spec.os_type
      <|> validate_safe_field (codes "OS version") spec.os_version
      <|> validate_safe_field (codes "architecture") spec.arch
      <|> validate_safe_field (codes "bootloader") spec.bootloader
      <|> validate_cloud_init spec.cloud_init
      <|> each
          (λ kv.
            wrap (codes "invalid provider config: ") (validate_provider_config_entry kv.0 kv.1))
          spec.provider_config
      <|> each (λ kv. wrap (codes "invalid label: ") (validate_label kv.0 kv.1)) spec.labels
      <|> each (λ kv. validate_annotation kv.0 kv.1) spec.annotations
      <|> each (λ disk. wrap (codes "invalid disk spec: ") (validate_disk_spec disk)) spec.disks
      <|> each (λ network. wrap (codes "invalid network spec: ") (validate_network_spec network))
          spec.networks
