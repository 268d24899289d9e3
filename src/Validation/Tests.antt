-- ===== src/Validation/Tests.antt =====
-- Values that the checks accept or refuse, and the theorems at them.
use hospitus.Shared.{
  ◌≡◌, refl, true, [], ◌∷◌, Option, none, some, Text, codes, contains, same, if◌then◌else◌,
}
use hospitus.Validation.{contains_any, has_infix, utf8_from, valid_utf8}
use hospitus.Validation.Regex.{matches}
use hospitus.Validation.Names.{
  validate_instance_name, validate_snapshot_name, validate_provider_name, validate_label,
  validate_file_path, validate_service_name, validate_jail_parameter, validate_env_var,
  validate_interface_name, validate_bridge_name, is_shell_interpreter, validate_exec_command,
  validate_exec_argument, validate_username, validate_safe_field, ExecOptions,
  validate_exec_options,
}
use hospitus.Validation.Config.{
  ConfigValue, text, items, entries, empty, item, end, entry, validate_config_key,
  validate_config_value, validate_provider_config_entry,
}
use hospitus.Validation.Specs.{
  pos, validate_disk_spec, validate_bridge_flag, NetworkSpec, Family, four, require_prefix_length,
  InstanceSpec, validate_ip_address, require_family, validate_network_spec, validate_instance_spec,
}
use hospitus.Validation.Remote.{validate_ssh_destination}
use hospitus.Validation.Bounds.{
  IsPlaced, validate_network_spec-IsPlaced, IsSound, validate_instance_spec-IsSound,
}
use hospitus.Validation.Destination.{IsDestination, validate_ssh_destination-IsDestination}

names_checked :
    (validate_snapshot_name (codes "v1.0") ≡ none)
    × (validate_provider_name (codes "bhyve") ≡ none)
    × (validate_label (codes "app.io/tier") (codes "web") ≡ none)
    × (validate_label (codes "app/") (codes "web") ≡ some (codes "invalid label key format"))
    × (validate_service_name (codes "sshd=1") ≡ some (codes "invalid service name"))
    × (validate_jail_parameter (codes "ip4.addr") ≡ none)
    × (is_shell_interpreter (codes "/usr/bin/zsh") ≡ true)
    × (validate_safe_field (codes "OS type") (codes "a;b")
        ≡ some (codes "OS type contains invalid characters"))
unfolding validate_snapshot_name validate_provider_name validate_label validate_service_name
    validate_jail_parameter is_shell_interpreter validate_safe_field matches contains_any has_infix
    valid_utf8 utf8_from contains same
names_checked = (refl, refl, refl, refl, refl, refl, refl, refl)

abbrev web : Text
web = codes "web-1"

abbrev listing : ExecOptions
listing = record {
  command = codes "/bin/ls";
  args = codes "-l" ∷ codes "a;b" ∷ [];
  user = codes "www";
  working_dir = codes "/tmp";
  env = (codes "LANG", codes "C") ∷ [];
}

listing_accepted : validate_exec_options listing ≡ none
unfolding validate_exec_options validate_exec_command validate_exec_argument validate_username
    validate_file_path validate_env_var matches contains_any has_infix valid_utf8 utf8_from contains
    same
listing_accepted = refl

-- A path refuses any two dots in a row, and a variable its name in small letters.
refusals_checked :
    (validate_file_path (codes "a..b") true ≡ some (codes "path cannot contain '..'"))
    × (validate_env_var (codes "Path") [] ≡ some (codes "environment variable is not allowed"))
unfolding validate_file_path validate_env_var matches has_infix contains same
refusals_checked = (refl, refl)

abbrev mounts : ConfigValue
mounts = items (item (entries (entry (some (codes "source")) (text (codes "a | b")) end)) empty)

mounts_accepted :
    (validate_config_value mounts ≡ none)
    × (validate_provider_config_entry (codes "mounts") mounts ≡ none)
    × (validate_config_value (items (item (text (0 ∷ [])) empty))
        ≡ some (codes "provider config value contains a null byte"))
unfolding validate_provider_config_entry validate_config_value validate_config_key contains_any
    valid_utf8 utf8_from
mounts_accepted = (refl, refl, refl)

-- Parsers that know one address each.
abbrev only : Text → Family → Text → Option Family
only known family addr = if same addr known then some family else none

abbrev parse_cidr : Text → Option Family
parse_cidr = only (codes "10.0.0.2/24") four

abbrev parse_ip : Text → Option Family
parse_ip = only (codes "10.0.0.2") four

abbrev lan : NetworkSpec
lan = record {
  id = codes "net0";
  bridge = codes "bridge0";
  bridge_flags = codes "private" ∷ [];
  vlan = pos 12;
  mac = codes "58:9c:fc:00:00:01";
  ipv4 = codes "10.0.0.2/24";
  ipv6 = [];
}

validate_network_spec-IsPlaced_example : IsPlaced parse_cidr parse_ip lan
unfolding validate_network_spec validate_bridge_name validate_interface_name validate_bridge_flag
    require_family validate_ip_address require_prefix_length matches contains_any has_infix
    valid_utf8 utf8_from contains same
validate_network_spec-IsPlaced_example = validate_network_spec-IsPlaced parse_cidr parse_ip lan refl

abbrev web_spec : InstanceSpec
web_spec = record {
  name = web;
  description = [];
  image = codes "freebsd-14";
  os_type = codes "freebsd";
  os_version = [];
  arch = [];
  cloud_init = none;
  bootloader = [];
  disks = (record { id = codes "d0"; path = codes "/vm/d0.img"; device_name = [] }) ∷ [];
  networks = lan ∷ [];
  provider_config = (codes "mounts", mounts) ∷ [];
  labels = (codes "tier", codes "front") ∷ [];
  annotations = [];
}

validate_instance_spec-IsSound_example : IsSound parse_cidr parse_ip web_spec
unfolding validate_instance_spec validate_instance_name validate_safe_field
    validate_provider_config_entry validate_config_value validate_config_key validate_label
    validate_disk_spec validate_network_spec validate_bridge_name validate_interface_name
    validate_bridge_flag require_family validate_ip_address require_prefix_length matches
    contains_any has_infix valid_utf8 utf8_from contains same
validate_instance_spec-IsSound_example =
    validate_instance_spec-IsSound parse_cidr parse_ip web_spec refl

validate_ssh_destination-IsDestination_example :
    IsDestination (codes "root@backup.lan:tank/vm") (codes "root@backup.lan", codes "tank/vm")
unfolding validate_ssh_destination matches
validate_ssh_destination-IsDestination_example =
    validate_ssh_destination-IsDestination (codes "root@backup.lan:tank/vm")
      (codes "root@backup.lan", codes "tank/vm") refl

-- A host that would be read as an option is refused.
option_refused : validate_ssh_destination (codes "-oProxyCommand=x:tank") ≡ none
unfolding validate_ssh_destination matches
option_refused = refl
