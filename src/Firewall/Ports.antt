-- ===== src/Firewall/Ports.antt =====
-- pkg/firewall/rules.go: ParsePortSpec, which reads `80`, `8080:80` and `udp/5353:53`.
use hospitus.Shared.{
  split_at, has_separator, split_at-append, decimal_from, decimal, value_from, value-decimal_from,
  ℕ, zero, suc, ◌+◌, ◌/◌, ◌%◌, ◌≡◌, refl, ap, ◌∙◌, inl, inr, Bool, true, false, ◌&&◌, [], ◌∷◌, ◌++◌,
  Option, none, some, leb, ltb, ◌==◌, arith, if◌then◌else◌, every, Text, codes, same, Bool-cases,
}
use hospitus.Firewall.{is_port}

pub data Protocol : Type 0 where
  tcp udp : Protocol

pub record PortSpec : Type 0 where
  pub protocol : Protocol
  pub host_port : ℕ
  pub target_port : ℕ

abbrev pub is_digit : ℕ → Bool
is_digit c = leb 48 c && leb c 57

abbrev pub digits_value : Text → Option ℕ
digits_value [] = none
digits_value (c ∷ cs) = if every is_digit (c ∷ cs) then some (value_from 0 (c ∷ cs)) else none

-- `strconv.Atoi`. A number below 0 counts as 0, and one beyond the machine's range as itself: the
-- caller refuses either.
unfoldable pub atoi : Text → Option ℕ
atoi [] = none
atoi (c ∷ cs) =
    if c == 43
    then digits_value cs
    else if c == 45
    then elim (digits_value cs) [ none ↦ none | some n ↦ some 0 ]
    else digits_value (c ∷ cs)

abbrev pub to_lower : Text → Text
to_lower [] = []
to_lower (x ∷ xs) = (if leb 65 x && leb x 90 then x + 32 else x) ∷ to_lower xs

unfoldable pub protocol_of : Text → Option Protocol
protocol_of s =
    if same (to_lower s) (codes "tcp")
    then some tcp
    else if same (to_lower s) (codes "udp")
    then some udp
    else none

abbrev pub in_range : Protocol → ℕ → ℕ → Option PortSpec
in_range protocol host target =
    if is_port host && is_port target
    then some (record { protocol = protocol; host_port = host; target_port = target })
    else none

abbrev pub both : Option ℕ → Option ℕ → Protocol → Option PortSpec
both none target protocol = none
both (some h) none protocol = none
both (some h) (some t) protocol = in_range protocol h t

unfoldable pub parse_ports : Protocol → Text → Option PortSpec
parse_ports protocol spec = elim (split_at 58 spec) [
  | some parts ↦ both (atoi parts.0) (atoi parts.1) protocol
  | none ↦ both (atoi spec) (atoi spec) protocol
]

-- None where the code returns an error.
unfoldable pub parse_port_spec : Text → Option PortSpec
parse_port_spec spec = elim (split_at 47 spec) [
  | none ↦ parse_ports tcp spec
  | some parts ↦ elim (protocol_of parts.0) [ none ↦ none | some p ↦ parse_ports p parts.1 ]
]

digits-separator :
    (sep : ℕ) (s : Text)
    → is_digit sep ≡ false
    → every is_digit s ≡ true
    → has_separator sep s ≡ false
unfolding has_separator
digits-separator sep [] n d = refl
digits-separator sep (x ∷ s) n d = ground (arith, n, d, digits-separator sep s)

every-digit_concat :
    (s : Text) (c : ℕ) → every is_digit (s ++ c ∷ []) ≡ (every is_digit s && is_digit c)
every-digit_concat [] c = ground arith
every-digit_concat (x ∷ s) c = ground (arith, every-digit_concat s c)

decimal_from-digits : (fuel n : ℕ) → every is_digit (decimal_from fuel n) ≡ true
unfolding decimal_from
decimal_from-digits zero n = ground arith
decimal_from-digits (suc fuel) n = ground (
  arith,
  decimal_from-digits fuel (n / 10),
  every-digit_concat (decimal_from fuel (n / 10)) (48 + n % 10),
)

digits_value-digits :
    (s : Text)
    → every is_digit s ≡ true
    → (x : ℕ) (xs : Text) → s ≡ x ∷ xs
    → atoi s ≡ some (value_from 0 s)
unfolding atoi
digits_value-digits [] d x xs e = cc
digits_value-digits (y ∷ ys) d x xs e = ground (arith, d)

-- A number is printed with at least one digit.
decimal_from-cons : (fuel n : ℕ) → (x : ℕ) × (xs : Text) × (decimal_from fuel n ≡ x ∷ xs)
unfolding decimal_from
decimal_from-cons zero n = (48 + n % 10, [], refl)
decimal_from-cons (suc fuel) n = elim (Bool-cases (ltb n 10)) [
  | inl e ↦ (48 + n % 10, [], rw e refl)
  | inr e ↦
      let (x, xs, front) = decimal_from-cons fuel (n / 10) in
      (x, xs ++ (48 + n % 10) ∷ [], rw e (ap (λ s. s ++ (48 + n % 10) ∷ []) front))
]

atoi-decimal : (n : ℕ) → atoi (decimal n) ≡ some n
atoi-decimal n =
    let (x, xs, cons) = decimal_from-cons n n in
    digits_value-digits (decimal n) (decimal_from-digits n n) x xs cons
    ∙ ap some (value-decimal_from n n (omega arith))

abbrev pub protocol_text : Protocol → Text
protocol_text tcp = codes "tcp"
protocol_text udp = codes "udp"

-- Whatever ports in range and protocol are written as `protocol/host:target`, the parser gives them
-- back.
pub parse_port_spec-printed :
    (p : Protocol) (host target : ℕ)
    → is_port host ≡ true
    → is_port target ≡ true
    → parse_port_spec (protocol_text p ++ 47 ∷ (decimal host ++ 58 ∷ decimal target))
      ≡ some (record { protocol = p; host_port = host; target_port = target })
unfolding parse_port_spec parse_ports has_separator protocol_of same
parse_port_spec-printed p host target h t = ground (
  arith,
  h,
  t,
  split_at-append 47 (protocol_text p) (decimal host ++ 58 ∷ decimal target) (no_slash p),
  protocol_of-text p,
  split_at-append 58 (decimal host) (decimal target)
      (digits-separator 58 (decimal host) refl (decimal_from-digits host host)),
  atoi-decimal host,
  atoi-decimal target,
)
  where
    no_slash : (p : Protocol) → has_separator 47 (protocol_text p) ≡ false
    no_slash tcp = refl
    no_slash udp = refl

    protocol_of-text : (p : Protocol) → protocol_of (protocol_text p) ≡ some p
    protocol_of-text tcp = refl
    protocol_of-text udp = refl
