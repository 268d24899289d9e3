-- ===== src/Validation/Names.antt =====
-- pkg/validation/validation.go: the checks on names, labels, paths, environment and commands.
use hospitus.Shared.{
  ◌-◌, Bool, true, false, not, ◌&&◌, ◌||◌, List, [], ◌∷◌, ◌++◌, Option, none, leb, ltb, ◌==◌,
  if◌then◌else◌, length, Text, codes, contains,
}
use hospitus.Validation.{
  ◌<|>◌, refuse, wrap, each, contains_any, has_byte, has_prefix, has_infix, command_injection_chars,
  is_empty, valid_utf8,
}
use hospitus.Validation.Regex.{Class, Regex, one, seq, star, optional, at_most, matches}

-- `[a-zA-Z0-9]`, and the classes made of it.
abbrev pub alphanumeric : Class
alphanumeric = (97, 122) ∷ (65, 90) ∷ (48, 57) ∷ []

abbrev pub letter : Class
letter = (97, 122) ∷ (65, 90) ∷ []

abbrev pub lower : Class
lower = (97, 122) ∷ []

abbrev pub lower_or_digit : Class
lower_or_digit = (97, 122) ∷ (48, 57) ∷ []

-- With `_` and `-`.
abbrev pub name_class : Class
name_class = (95, 95) ∷ (45, 45) ∷ alphanumeric

abbrev pub valid_instance_name : Regex
valid_instance_name = seq (one alphanumeric) (at_most 62 (one name_class))

abbrev pub valid_snapshot_name : Regex
valid_snapshot_name = seq (one alphanumeric) (at_most 62 (one ((46, 46) ∷ name_class)))

abbrev pub valid_provider_name : Regex
valid_provider_name = seq (one lower) (at_most 31 (one ((45, 45) ∷ lower_or_digit)))

-- `[a-z0-9]([-a-z0-9.]*[a-z0-9])?`.
abbrev pub label_part : Regex
label_part =
    seq (one lower_or_digit)
      (optional (seq (star (one ((45, 45) ∷ (46, 46) ∷ lower_or_digit))) (one lower_or_digit)))

abbrev pub valid_label_key : Regex
valid_label_key = seq label_part (star (seq (one ((47, 47) ∷ [])) label_part))

abbrev pub valid_username : Regex
valid_username =
    seq (one ((95, 95) ∷ lower)) (at_most 31 (one ((95, 95) ∷ (45, 45) ∷ lower_or_digit)))

abbrev pub valid_service_name : Regex
valid_service_name = seq (one letter) (at_most 63 (one name_class))

abbrev pub valid_env_key : Regex
valid_env_key = seq (one ((95, 95) ∷ letter)) (star (one ((95, 95) ∷ alphanumeric)))

abbrev pub valid_interface_name : Regex
valid_interface_name = seq (one letter) (at_most 14 (one name_class))

unfoldable pub validate_instance_name : Text → Option Text
validate_instance_name name =
    refuse (is_empty name) (codes "instance name cannot be empty")
    <|> refuse (ltb 63 (length name)) (codes "instance name too long (max 63 characters)")
    <|> refuse (not (matches valid_instance_name name)) (codes "invalid instance name")

unfoldable pub validate_snapshot_name : Text → Option Text
validate_snapshot_name name =
    refuse (is_empty name) (codes "snapshot name cannot be empty")
    <|> refuse (ltb 63 (length name)) (codes "snapshot name too long (max 63 characters)")
    <|> refuse (not (matches valid_snapshot_name name)) (codes "invalid snapshot name")
    <|> refuse (has_infix name (codes ".."))
        (codes "invalid snapshot name: path traversal not allowed")
    <|> refuse (has_prefix name (codes "/") || has_prefix name (92 ∷ []))
        (codes "invalid snapshot name: cannot start with path separator")
    <|> refuse (contains_any name command_injection_chars)
        (codes "invalid snapshot name: contains invalid characters")

unfoldable pub validate_provider_name : Text → Option Text
validate_provider_name name =
    refuse (is_empty name) (codes "provider name cannot be empty")
    <|> refuse (not (matches valid_provider_name name)) (codes "invalid provider name")

unfoldable pub validate_label : Text → Text → Option Text
validate_label key value =
    refuse (is_empty key) (codes "label key cannot be empty")
    <|> refuse (not (matches valid_label_key key)) (codes "invalid label key format")
    <|> refuse (ltb 253 (length key)) (codes "label key too long (max 253 characters)")
    <|> refuse (ltb 253 (length value)) (codes "label value too long (max 253 characters)")
    <|> refuse (not (valid_utf8 value)) (codes "label value must be valid UTF-8")
    <|> refuse (contains_any value (39 ∷ 34 ∷ 92 ∷ 59 ∷ []))
        (codes "label value contains invalid characters")

unfoldable pub validate_file_path : Text → Bool → Option Text
validate_file_path path allow_absolute =
    refuse (is_empty path) (codes "path cannot be empty")
    <|> refuse (has_infix path (codes "..")) (codes "path cannot contain '..'")
    <|> refuse (not allow_absolute && (has_prefix path (codes "/") || has_prefix path (92 ∷ [])))
        (codes "absolute paths not allowed")
    <|> refuse (has_infix path (0 ∷ [])) (codes "path cannot contain null bytes")

unfoldable pub validate_service_name : Text → Option Text
validate_service_name name =
    refuse (not (matches valid_service_name name)) (codes "invalid service name")

abbrev pub allowed_jail_parameters : List Text
allowed_jail_parameters =
    codes "host.hostname"
    ∷ codes "path"
    ∷ codes "ip4.addr"
    ∷ codes "ip6.addr"
    ∷ codes "allow.raw_sockets"
    ∷ codes "mount.devfs"
    ∷ codes "exec.start"
    ∷ codes "exec.stop"
    ∷ codes "persist"
    ∷ codes "allow.chflags"
    ∷ codes "allow.mount"
    ∷ codes "allow.set_hostname"
    ∷ codes "allow.sysvipc"
    ∷ codes "sysvmsg"
    ∷ codes "sysvsem"
    ∷ codes "sysvshm"
    ∷ codes "enforce_statfs"
    ∷ codes "mount.fstab"
    ∷ codes "allow.mount.linprocfs"
    ∷ codes "allow.mount.linsysfs"
    ∷ []

unfoldable pub validate_jail_parameter : Text → Option Text
validate_jail_parameter key =
    refuse (not (contains key allowed_jail_parameters)) (codes "jail parameter not allowed")

unfoldable pub validate_jail_parameter_value : Text → Option Text
validate_jail_parameter_value value =
    refuse (contains_any value command_injection_chars)
      (codes "parameter value contains invalid characters")

abbrev pub dangerous_vars : List Text
dangerous_vars =
    codes "PATH"
    ∷ codes "LD_PRELOAD"
    ∷ codes "LD_LIBRARY_PATH"
    ∷ codes "DYLD_INSERT_LIBRARIES"
    ∷ codes "DYLD_LIBRARY_PATH"
    ∷ codes "IFS"
    ∷ codes "SHELL"
    ∷ codes "ENV"
    ∷ codes "BASH_ENV"
    ∷ []

-- `strings.ToUpper` of an ASCII text, which the key is by then.
abbrev pub to_upper : Text → Text
to_upper [] = []
to_upper (x ∷ xs) = (if leb 97 x && leb x 122 then x - 32 else x) ∷ to_upper xs

abbrev pub has_control : Text → Bool
has_control [] = false
has_control (x ∷ xs) = (ltb x 32 && not (x == 9) && not (x == 10)) || has_control xs

unfoldable pub validate_env_var : Text → Text → Option Text
validate_env_var key value =
    refuse (is_empty key) (codes "environment variable name cannot be empty")
    <|> refuse (not (matches valid_env_key key)) (codes "invalid environment variable name")
    <|> refuse (contains (to_upper key) dangerous_vars)
        (codes "environment variable is not allowed")
    <|> refuse (has_byte 0 value) (codes "environment variable value cannot contain null bytes")
    <|> refuse (has_control value)
        (codes "environment variable value contains invalid control character")

unfoldable pub validate_interface_name : Text → Option Text
validate_interface_name name =
    refuse (is_empty name) (codes "interface name cannot be empty")
    <|> refuse (ltb 15 (length name)) (codes "interface name too long (max 15 characters)")
    <|> refuse (not (matches valid_interface_name name)) (codes "invalid interface name")
    <|> refuse (contains_any name command_injection_chars)
        (codes "interface name contains invalid characters")

unfoldable pub validate_bridge_name : Text → Option Text
validate_bridge_name name = wrap (codes "invalid bridge name: ") (validate_interface_name name)

-- What stands behind the last `/`: `found` is what it is so far.
abbrev base_name : Text → Text → Text
base_name found [] = found
base_name found (x ∷ xs) = if x == 47 then base_name xs xs else base_name found xs

unfoldable pub is_shell_interpreter : Text → Bool
is_shell_interpreter cmd = contains (base_name cmd cmd) (
    codes "sh"
    ∷ codes "bash"
    ∷ codes "dash"
    ∷ codes "zsh"
    ∷ codes "ksh"
    ∷ codes "csh"
    ∷ codes "tcsh"
    ∷ [])

unfoldable pub validate_exec_command : Text → Option Text
validate_exec_command cmd =
    refuse (is_empty cmd) (codes "command cannot be empty")
    <|> refuse (contains_any cmd command_injection_chars)
        (codes "command contains invalid characters")
    <|> refuse (has_infix cmd (codes ".."))
        (codes "command cannot contain path traversal sequences")
    <|> refuse (not (valid_utf8 cmd)) (codes "command must be valid UTF-8")

unfoldable pub validate_exec_argument : Text → Option Text
validate_exec_argument arg =
    refuse (contains_any arg (0 ∷ 13 ∷ [])) (codes "argument contains an invalid control character")
    <|> refuse (not (valid_utf8 arg)) (codes "argument must be valid UTF-8")

unfoldable pub validate_username : Text → Option Text
validate_username username =
    refuse (is_empty username) (codes "username cannot be empty")
    <|> refuse (not (matches valid_username username)) (codes "invalid username format")

-- A field that may be empty.
abbrev pub unless_empty : Text → Option Text → Option Text
unless_empty value checked = if is_empty value then none else checked

unfoldable pub validate_safe_field : Text → Text → Option Text
validate_safe_field name value = unless_empty value (
    refuse (not (valid_utf8 value)) (name ++ codes " must be valid UTF-8")
    <|> refuse (contains_any value command_injection_chars)
        (name ++ codes " contains invalid characters"))

pub record ExecOptions : Type 0 where
  pub command : Text
  pub args : List Text
  pub user : Text
  pub working_dir : Text
  pub env : List (Text × Text)

unfoldable pub validate_exec_options : ExecOptions → Option Text
validate_exec_options opts =
    wrap (codes "invalid command: ") (validate_exec_command opts.command)
    <|> each (λ arg. wrap (codes "invalid argument: ") (validate_exec_argument arg)) opts.args
    <|> unless_empty opts.user (wrap (codes "invalid user: ") (validate_username opts.user))
    <|> unless_empty opts.working_dir
        (wrap (codes "invalid working directory: ") (validate_file_path opts.working_dir true))
    <|> each (λ kv. wrap (codes "invalid environment variable: ") (validate_env_var kv.0 kv.1))
        opts.env
