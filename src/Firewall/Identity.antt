-- ===== src/Firewall/Identity.antt =====
-- pkg/firewall/rules.go: the identifier of a port mapping tells mappings apart.
use hospitus.Shared.{
  decimal_from, decimal-injective, ℕ, zero, suc, ◌+◌, ◌/◌, ◌%◌, ◌≡◌, refl, ap, inl, inr, Bool, true,
  false, not, ◌&&◌, ◌||◌, [], ◌∷◌, ◌++◌, Option, none, some, ◌==◌, arith, All, Text, codes, same,
  same_iff, Bool-cases, Option-cases,
}
use hospitus.Validation.{<|>-none, refuse, wrap, is_empty, contains_any, has_byte}
use hospitus.Validation.Regex.{matches, in_class, at_most-IsWithin, matches-All, one}
use hospitus.Validation.Names.{
  validate_instance_name, validate_provider_name, validate_interface_name, unless_empty,
  valid_provider_name, lower, lower_or_digit,
}
use hospitus.Validation.Safety.{
  validate_instance_name-IsPlain, validate_interface_name-IsPlain, avoids, unsafe_chars,
}
use hospitus.Validation.Specs.{Family}
use hospitus.Firewall.{PortMapping, is_port, validate_port_mapping, or_any, ◌</>◌, generate_id}

-- No slash stands in it.
abbrev pub has_slash : Text → Bool
has_slash s = has_byte 47 s

-- Two texts that agree up to their first slash, and behind it.
pub slash-split :
    (s s' t t' : Text)
    → has_slash s ≡ false
    → has_slash s' ≡ false
    → (s </> t) ≡ (s' </> t')
    → (s ≡ s') × (t ≡ t')
slash-split [] [] t t' n n' e = (refl, ground (arith, e))
slash-split [] (y ∷ s') t t' n n' e = absurd (ground (arith, e, n'))
slash-split (x ∷ s) [] t t' n n' e = absurd (ground (arith, e, n))
slash-split (x ∷ s) (y ∷ s') t t' n n' e =
    let rest = slash-split s s' t t' (ground (arith, n)) (ground (arith, n')) (ground (arith, e)) in
    (ground (arith, e, rest.0), rest.1)

has_slash-concat : (s : Text) (c : ℕ) → has_slash (s ++ c ∷ []) ≡ (has_slash s || 47 == c)
has_slash-concat [] c = ground arith
has_slash-concat (x ∷ s) c = ground (arith, has_slash-concat s c)

pub decimal_from-slash : (fuel n : ℕ) → has_slash (decimal_from fuel n) ≡ false
unfolding decimal_from
decimal_from-slash zero n = ground arith
decimal_from-slash (suc fuel) n = ground (
  arith,
  decimal_from-slash fuel (n / 10),
  has_slash-concat (decimal_from fuel (n / 10)) (48 + n % 10),
)

clean-slash : (s : Text) → contains_any s unsafe_chars ≡ false → has_slash s ≡ false
unfolding contains_any
clean-slash [] h = refl
clean-slash (x ∷ s) h = ground (arith, h, clean-slash s)

lower-avoids : (x : ℕ) → in_class lower x ≡ true → avoids (47 ∷ []) x ≡ true
lower-avoids x h = ground arith

provider_class-avoids :
    (x : ℕ) → in_class ((45, 45) ∷ lower_or_digit) x ≡ true → avoids (47 ∷ []) x ≡ true
provider_class-avoids x h = ground arith

All-slash : (s : Text) → All (λ x. avoids (47 ∷ []) x ≡ true) s → has_slash s ≡ false
All-slash [] h = refl
All-slash (x ∷ s) h = ground (arith, h.0, All-slash s h.1)

validate_provider_name-slash : (s : Text) → validate_provider_name s ≡ none → has_slash s ≡ false
unfolding validate_provider_name
validate_provider_name-slash s h =
    let m : matches valid_provider_name s ≡ true = ground arith in
    All-slash s (
      matches-All (avoids (47 ∷ [])) s valid_provider_name
        (
          lower-avoids,
          at_most-IsWithin (avoids (47 ∷ [])) 31 (one ((45, 45) ∷ lower_or_digit))
              provider_class-avoids,
        )
        m)

-- The parts of an identifier that stand before a slash, without one.
record IsSlashless (pm : PortMapping) : Type 0 where
  instance_part : has_slash pm.instance_name ≡ false
  provider_part : has_slash pm.provider ≡ false
  protocol_part : has_slash pm.protocol ≡ false
  interface_part : has_slash (or_any pm.host_interface) ≡ false
  target_part : has_slash pm.target_ip ≡ false
  target_whole : is_empty pm.target_ip ≡ false

provider-slash :
    (s : Text) (m : Text)
    → unless_empty s (wrap m (validate_provider_name s)) ≡ none
    → has_slash s ≡ false
provider-slash [] m h = refl
provider-slash (x ∷ s) m h = validate_provider_name-slash (x ∷ s) (ground arith)

interface-slash :
    (s : Text) (m : Text)
    → unless_empty s (wrap m (validate_interface_name s)) ≡ none
    → has_slash (or_any s) ≡ false
interface-slash [] m h = refl
interface-slash (x ∷ s) m h =
    let plain = validate_interface_name-IsPlain (x ∷ s) (ground arith) in
    clean-slash (x ∷ s) plain.clean

protocol-slash :
    (s m : Text)
    → refuse (not (same s (codes "tcp")) && not (same s (codes "udp"))) m ≡ none
    → has_slash s ≡ false
protocol-slash s m h = elim (Bool-cases (same s (codes "tcp"))) [
  | inl e ↦ ap has_slash ((same_iff s (codes "tcp")).0 e)
  | inr e ↦ ap has_slash ((same_iff s (codes "udp")).0 (ground (arith, e, h)))
]

-- What a mapping is, but for its interface, of which `any` and none are the same here.
pub record IsSameMapping (pm other : PortMapping) : Type 0 where
  pub instance_name : pm.instance_name ≡ other.instance_name
  pub provider : pm.provider ≡ other.provider
  pub protocol : pm.protocol ≡ other.protocol
  pub host_interface : or_any pm.host_interface ≡ or_any other.host_interface
  pub host_port : pm.host_port ≡ other.host_port
  pub target_ip : pm.target_ip ≡ other.target_ip
  pub target_port : pm.target_port ≡ other.target_port

module _ (parse_ip : Text → Option Family)
    (no_slash : (s : Text) (f : Family) → parse_ip s ≡ some f → has_slash s ≡ false) where
  target-slash :
      (s m : Text)
      → elim (parse_ip s) [ none ↦ some m | some f ↦ none ] ≡ none
      → has_slash s ≡ false
  target-slash s m h = elim (Option-cases (parse_ip s)) [
    | inl e ↦ absurd (ground (arith, e, h))
    | inr (f, e) ↦ no_slash s f e
  ]

  validate_port_mapping-IsSlashless :
      (pm : PortMapping) → validate_port_mapping parse_ip pm ≡ none → IsSlashless pm
  unfolding validate_port_mapping
  validate_port_mapping-IsSlashless pm h =
      let named = <|>-none _ _ (<|>-none _ _ h).1 in
      let provided = <|>-none _ _ named.1 in
      let bound = <|>-none _ _ provided.1 in
      let spoken = <|>-none _ _ bound.1 in
      let ported =
        <|>-none
          (refuse (not (is_port pm.host_port)) (codes "host_port must be between 1 and 65535")) _
          spoken.1 in
      let aimed =
        <|>-none
          (refuse (not (is_port pm.target_port)) (codes "target_port must be between 1 and 65535"))
          _ ported.1 in
      let target = <|>-none _ _ aimed.1 in
      record {
        instance_part = instance-slash pm.instance_name named.0;
        provider_part = provider-slash pm.provider (codes "invalid provider: ") provided.0;
        interface_part =
            interface-slash pm.host_interface (codes "invalid host interface: ") bound.0;
        protocol_part =
            protocol-slash pm.protocol (codes "protocol must be 'tcp' or 'udp'") spoken.0;
        target_part = target-slash pm.target_ip (codes "invalid target_ip") target.1;
        target_whole =
            refuse-empty (is_empty pm.target_ip) (codes "target_ip is required") target.0;
      }
    where
      instance-slash :
          (s : Text)
          → wrap (codes "invalid instance name: ") (validate_instance_name s) ≡ none
          → has_slash s ≡ false
      instance-slash s e =
          let plain = validate_instance_name-IsPlain s (ground arith) in clean-slash s plain.clean

      refuse-empty : (b : Bool) (m : Text) → refuse b m ≡ none → b ≡ false
      refuse-empty b m e = ground arith

  same_id-IsSameMapping :
      (pm other : PortMapping)
      → validate_port_mapping parse_ip pm ≡ none
      → validate_port_mapping parse_ip other ≡ none
      → generate_id pm ≡ generate_id other
      → IsSameMapping pm other
  unfolding generate_id
  same_id-IsSameMapping pm other v w e =
      let a = validate_port_mapping-IsSlashless pm v in
      let b = validate_port_mapping-IsSlashless other w in
      let s1 = slash-split _ _ _ _ a.instance_part b.instance_part e in
      let s2 = slash-split _ _ _ _ a.provider_part b.provider_part s1.1 in
      let s3 = slash-split _ _ _ _ a.protocol_part b.protocol_part s2.1 in
      let s4 = slash-split _ _ _ _ a.interface_part b.interface_part s3.1 in
      let s5 =
        slash-split _ _ _ _ (decimal_from-slash pm.host_port pm.host_port)
          (decimal_from-slash other.host_port other.host_port) s4.1 in
      let s6 =
        slash-split _ _ _ _ (or_any-slash pm.target_ip a.target_part)
          (or_any-slash other.target_ip b.target_part) s5.1 in
      record {
        instance_name = s1.0;
        provider = s2.0;
        protocol = s3.0;
        host_interface = s4.0;
        host_port = decimal-injective pm.host_port other.host_port s5.0;
        target_ip = or_any-same pm.target_ip other.target_ip a.target_whole b.target_whole s6.0;
        target_port = decimal-injective pm.target_port other.target_port s6.1;
      }
    where
      or_any-slash : (s : Text) → has_slash s ≡ false → has_slash (or_any s) ≡ false
      or_any-slash [] h = refl
      or_any-slash (x ∷ s) h = h

      or_any-same :
          (s t : Text) → is_empty s ≡ false → is_empty t ≡ false → or_any s ≡ or_any t → s ≡ t
      or_any-same (x ∷ s) (y ∷ t) h k e = e
      or_any-same [] t h k e = cc
      or_any-same (x ∷ s) [] h k e = cc

  IsSameMapping-same_id :
      (pm other : PortMapping) → IsSameMapping pm other → generate_id pm ≡ generate_id other
  unfolding generate_id
  IsSameMapping-same_id pm other m = ground (
    arith, m.instance_name, m.provider, m.protocol, m.host_interface, m.host_port, m.target_ip,
    m.target_port,
  )

  -- When no text with a slash parses as an address, two accepted mappings have the same identifier
  -- exactly if they agree in instance, provider, protocol, ports and target, and in the interface up to
  -- one difference: a mapping without one and a mapping for an interface called `any` are not told apart.
  pub generate_id-IsSameMapping :
      (pm other : PortMapping)
      → validate_port_mapping parse_ip pm ≡ none
      → validate_port_mapping parse_ip other ≡ none
      → (generate_id pm ≡ generate_id other → IsSameMapping pm other)
        × (IsSameMapping pm other → generate_id pm ≡ generate_id other)
  generate_id-IsSameMapping pm other v w =
      (same_id-IsSameMapping pm other v w, IsSameMapping-same_id pm other)
