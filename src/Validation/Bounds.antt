-- ===== src/Validation/Bounds.antt =====
-- pkg/validation/validation.go: what an accepted specification keeps to.
use mathlib.Core.Path.{subst}
use hospitus.Shared.{
  ℕ, ap, ◌∙◌, same_iff, Option-cases, Bool-cases, ◌≡◌, ◌↔◌, refl, ◌⊎◌, inl, inr, Bool, true, false,
  ◌&&◌, ◌||◌, [], ◌∷◌, Option, none, some, leb, arith, if◌then◌else◌, All, Text, codes, contains,
  same,
}
use hospitus.Validation.{
  ◌<|>◌, <|>-none, refuse, wrap, each, each-All, contains_any, has_infix, command_injection_chars,
  is_empty,
}
use hospitus.Validation.Names.{validate_label, validate_bridge_name, unless_empty}
use hospitus.Validation.Safety.{
  IsPlain, validate_instance_name-IsPlain, validate_interface_name-IsPlain, All-map,
}
use hospitus.Validation.Specs.{
  ℤ, pos, negsuc, below, above, validate_resource_limits, DiskSpec, validate_disk_spec,
  allowed_bridge_flags, validate_bridge_flag, NetworkSpec, Family, four, six, same_family,
  require_prefix_length, InstanceSpec, validate_ip_address, family_of, require_family,
  validate_static, validate_network_spec, validate_instance_spec,
}

abbrev pub is_between : ℕ → ℕ → ℤ → Bool
is_between low high (pos a) = leb low a && leb a high
is_between low high (negsuc a) = false

-- Limits are accepted exactly if there are 1 to 1024 CPUs and 128 MB to 4 TB of memory.
pub validate_resource_limits_lem :
    (cpus memory_mb : ℤ)
    → (validate_resource_limits cpus memory_mb ≡ none)
      ↔ (is_between 1 1024 cpus && is_between 128 4194304 memory_mb ≡ true)
unfolding validate_resource_limits
validate_resource_limits_lem (pos c) (pos m) = ground arith
validate_resource_limits_lem (pos c) (negsuc m) = ground arith
validate_resource_limits_lem (negsuc c) (pos m) = ground arith
validate_resource_limits_lem (negsuc c) (negsuc m) = ground arith

module _ (parse_cidr parse_ip : Text → Option Family) where
  -- A field of an address gives none, or a parsed one of its family with a prefix length.
  pub record IsStatic (family : Family) (addr : Text) : Type 0 where
    pub parsed : family_of parse_cidr parse_ip addr ≡ some family
    pub with_prefix : has_infix addr (codes "/") ≡ true

  allowed_flag : (f : Text) → validate_bridge_flag f ≡ none → contains f allowed_bridge_flags ≡ true
  unfolding validate_bridge_flag
  allowed_flag f a = ground arith

  pub record IsPlaced (network : NetworkSpec) : Type 0 where
    pub vlan_tag : is_between 0 4094 network.vlan ≡ true
    pub flags : All (λ f. contains f allowed_bridge_flags ≡ true) network.bridge_flags
    pub bridge : (network.bridge ≡ []) ⊎ IsPlain 15 network.bridge
    pub ipv4 : (network.ipv4 ≡ []) ⊎ (network.ipv4 ≡ codes "dhcp") ⊎ IsStatic four network.ipv4
    pub ipv6 : (network.ipv6 ≡ []) ⊎ IsStatic six network.ipv6

  validate_static-IsStatic :
      (addr : Text) (family : Family) (message : Text)
      → validate_static parse_cidr parse_ip addr family message ≡ none
      → IsStatic family addr
  unfolding require_family validate_ip_address require_prefix_length
  validate_static-IsStatic addr family message h = record {
    parsed = family_found;
    with_prefix = ground arith;
  }
    where
      same_family-eq : (a b : Family) → same_family a b ≡ true → a ≡ b
      same_family-eq four four e = refl
      same_family-eq six six e = refl
      same_family-eq four six e = cc
      same_family-eq six four e = cc

      family_found : family_of parse_cidr parse_ip addr ≡ some family
      family_found = elim (Option-cases (family_of parse_cidr parse_ip addr)) [
        | inl e ↦ absurd (ground (arith, e))
        | inr (found, e) ↦ e ∙ ap some (same_family-eq found family (ground (arith, e)))
      ]

  empty_text : (s : Text) → is_empty s ≡ true → s ≡ []
  empty_text [] h = refl
  empty_text (x ∷ xs) h = cc

  validate_bridge_name-IsPlain : (name : Text) → validate_bridge_name name ≡ none → IsPlain 15 name
  unfolding validate_bridge_name
  validate_bridge_name-IsPlain name h = validate_interface_name-IsPlain name (ground arith)

  -- Whatever the parsers of addresses accept, an accepted network has a VLAN tag of 0 to 4094 and
  -- only allowed bridge flags, no bridge or a plain one, and in each address field nothing or an
  -- address of the family of that field with a prefix length; for IPv4 it may also be `dhcp`.
  pub validate_network_spec-IsPlaced :
      (network : NetworkSpec)
      → validate_network_spec parse_cidr parse_ip network ≡ none
      → IsPlaced network
  unfolding validate_network_spec
  validate_network_spec-IsPlaced network h =
      let bridge = <|>-none _ _ (<|>-none _ _ h).1 in
      let ipv4 = <|>-none _ _ (<|>-none _ _ bridge.1).1 in
      let ipv6 = <|>-none _ _ ipv4.1 in
      let flags = <|>-none _ _ ipv6.1 in
      record {
        vlan_tag = vlan_between network.vlan flags.1;
        flags =
            All-map (λ f. validate_bridge_flag f ≡ none)
              (λ f. contains f allowed_bridge_flags ≡ true) network.bridge_flags allowed_flag
              (each-All validate_bridge_flag network.bridge_flags flags.0);
        bridge = bridge_placed network.bridge bridge.0;
        ipv4 = ipv4_placed network.ipv4 ipv4.0;
        ipv6 = ipv6_placed network.ipv6 ipv6.0;
      }
    where
      vlan_between :
          (z : ℤ)
          → refuse (below z 0 || above z 4094) (codes "invalid VLAN id") ≡ none
          → is_between 0 4094 z ≡ true
      vlan_between (pos a) e = ground arith
      vlan_between (negsuc a) e = cc

      bridge_placed :
          (name : Text)
          → unless_empty name (wrap (codes "invalid bridge name: ") (validate_bridge_name name))
            ≡ none
          → (name ≡ []) ⊎ IsPlain 15 name
      bridge_placed [] e = inl refl
      bridge_placed (x ∷ xs) e = inr (validate_bridge_name-IsPlain (x ∷ xs) (ground arith))

      ipv4_placed :
          (addr : Text)
          → (if is_empty addr || same addr (codes "dhcp")
              then none
              else validate_static parse_cidr parse_ip addr four (codes "invalid IPv4 address: "))
            ≡ none
          → (addr ≡ []) ⊎ (addr ≡ codes "dhcp") ⊎ IsStatic four addr
      ipv4_placed [] e = inl refl
      ipv4_placed (x ∷ xs) e = elim (Bool-cases (same (x ∷ xs) (codes "dhcp"))) [
        | inl d ↦ inr (inl ((same_iff (x ∷ xs) (codes "dhcp")).0 d))
        | inr d ↦ inr (
            inr (
              validate_static-IsStatic (x ∷ xs) four (codes "invalid IPv4 address: ") (
                subst
                  (λ b.
                    (if b
                      then none
                      else validate_static parse_cidr parse_ip (x ∷ xs) four
                          (codes "invalid IPv4 address: "))
                    ≡ none)
                  d e)))
      ]

      ipv6_placed :
          (addr : Text)
          → unless_empty addr (
              refuse
                (contains addr (codes "dhcp" ∷ codes "auto" ∷ codes "slaac" ∷ []))
                (codes "network IPv6 takes a static address")
              <|> validate_static parse_cidr parse_ip addr six (codes "invalid IPv6 address: "))
            ≡ none
          → (addr ≡ []) ⊎ IsStatic six addr
      ipv6_placed [] e = inl refl
      ipv6_placed (x ∷ xs) e = inr (
          validate_static-IsStatic (x ∷ xs) six (codes "invalid IPv6 address: ") (<|>-none _ _ e).1)

  -- What of an instance reaches commands and paths.
  pub record IsSound (spec : InstanceSpec) : Type 0 where
    pub name : IsPlain 63 spec.name
    pub image : has_infix spec.image (codes "..") ≡ false
    pub disk_paths : All (λ d. has_infix d.path (codes "..") ≡ false) spec.disks
    pub disk_ids : All (λ d. contains_any d.id command_injection_chars ≡ false) spec.disks
    pub placed : All IsPlaced spec.networks
    pub label_values : All (λ kv. contains_any kv.1 (39 ∷ 34 ∷ 92 ∷ 59 ∷ []) ≡ false) spec.labels

  empty-has_infix : (s : Text) → is_empty s ≡ true → has_infix s (codes "..") ≡ false
  unfolding has_infix
  empty-has_infix [] h = refl
  empty-has_infix (x ∷ xs) h = cc

  empty-contains_any : (s chars : Text) → is_empty s ≡ true → contains_any s chars ≡ false
  unfolding contains_any
  empty-contains_any [] chars h = refl
  empty-contains_any (x ∷ xs) chars h = cc

  validate_disk_spec-clean :
      (d : DiskSpec)
      → validate_disk_spec d ≡ none
      → (has_infix d.path (codes "..") ≡ false)
        × (contains_any d.id command_injection_chars ≡ false)
  unfolding validate_disk_spec
  validate_disk_spec-clean d h = (
    ground (arith, empty-has_infix d.path),
    ground (arith, empty-contains_any d.id command_injection_chars),
  )

  validate_label-clean :
      (k v : Text) → validate_label k v ≡ none → contains_any v (39 ∷ 34 ∷ 92 ∷ 59 ∷ []) ≡ false
  unfolding validate_label
  validate_label-clean k v h = ground arith

  -- An accepted instance has a plain name; neither its image nor the path of a disk goes up a
  -- directory; no disk has a character of the command-injection set in its ID, and no label a quote,
  -- a backslash or a semicolon in its value; and every network has a VLAN tag of 0 to 4094, allowed
  -- flags, no bridge or a plain one, and in each address field nothing or an address of the family of
  -- that field with a prefix length; for IPv4 it may also be `dhcp`.
  pub validate_instance_spec-IsSound :
      (spec : InstanceSpec) → validate_instance_spec parse_cidr parse_ip spec ≡ none → IsSound spec
  unfolding validate_instance_spec
  validate_instance_spec-IsSound spec h =
      let disk : DiskSpec → Option Text =
        λ d. wrap (codes "invalid disk spec: ") (validate_disk_spec d) in
      let network : NetworkSpec → Option Text =
        λ n. wrap (codes "invalid network spec: ") (validate_network_spec parse_cidr parse_ip n) in
      let label : Text × Text → Option Text =
        λ kv. wrap (codes "invalid label: ") (validate_label kv.0 kv.1) in
      let disks : each disk spec.disks ≡ none = ground arith in
      let networks : each network spec.networks ≡ none = ground arith in
      let labels : each label spec.labels ≡ none = ground arith in
      record {
        name = validate_instance_name-IsPlain spec.name (ground arith);
        image = ground (arith, empty-has_infix spec.image);
        disk_paths =
            All-map (λ d. disk d ≡ none) (λ d. has_infix d.path (codes "..") ≡ false) spec.disks
              (λ d a. (validate_disk_spec-clean d (ground arith)).0)
              (each-All disk spec.disks disks);
        disk_ids =
            All-map (λ d. disk d ≡ none) (λ d. contains_any d.id command_injection_chars ≡ false)
              spec.disks (λ d a. (validate_disk_spec-clean d (ground arith)).1)
              (each-All disk spec.disks disks);
        placed =
            All-map (λ n. network n ≡ none) IsPlaced spec.networks
              (λ n a. validate_network_spec-IsPlaced n (ground arith))
              (each-All network spec.networks networks);
        label_values =
            All-map (λ kv. label kv ≡ none)
              (λ kv. contains_any kv.1 (39 ∷ 34 ∷ 92 ∷ 59 ∷ []) ≡ false) spec.labels
              (λ kv a. validate_label-clean kv.0 kv.1 (ground arith))
              (each-All label spec.labels labels);
      }
