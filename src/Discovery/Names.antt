-- ===== src/Discovery/Names.antt =====
-- pkg/orchestration/discovery.go: the keys of services, and the names that lead to them.
use hospitus.Shared.{
  ℕ, ◌≡◌, refl, sym, ap, ◌∙◌, inl, inr, Bool, true, false, not, ◌&&◌, List, [], ◌∷◌, ◌++◌, Option,
  none, some, arith, if◌then◌else◌, Text, lookup-insert, same, same_iff, same_refl, split_at,
  has_separator, split_at-append, Bool-cases,
}
use hospitus.Discovery.{
  ServiceRegistry, ServiceInfo, service_key, register, get, parse_service_name, resolve, is_empty,
}

-- No slash stands in it.
abbrev pub is_slashless : Text → Bool
is_slashless s = not (has_separator 47 s)

split_at-none : (sep : ℕ) (s : Text) → has_separator sep s ≡ false → split_at sep s ≡ none
unfolding split_at has_separator
split_at-none sep [] h = refl
split_at-none sep (x ∷ s) h = ground (arith, h, split_at-none sep s)

-- A key tells the stack and the service: what a cut at the first slash gives.
cut_key : Text → Option (Text × Text)
cut_key k = split_at 47 k

cut_key-service_key :
    (stack service : Text)
    → is_slashless stack ≡ true
    → is_slashless service ≡ true
    → cut_key (service_key stack service) ≡ (if is_empty stack then none else some (stack, service))
unfolding cut_key service_key
cut_key-service_key [] service h k = split_at-none 47 service (ground (arith, k))
cut_key-service_key (x ∷ stack) service h k =
    split_at-append 47 (x ∷ stack) service (ground (arith, h))

service_key-injective :
    (s n s' n' : Text)
    → is_slashless s ≡ true
    → is_slashless n ≡ true
    → is_slashless s' ≡ true
    → is_slashless n' ≡ true
    → service_key s n ≡ service_key s' n'
    → (s ≡ s') × (n ≡ n')
unfolding service_key
service_key-injective [] n [] n' a b c d e = (refl, e)
service_key-injective [] n (y ∷ s') n' a b c d e = absurd (
    ground (arith, cut_key-service_key [] n a b, cut_key-service_key (y ∷ s') n' c d, ap cut_key e))
service_key-injective (x ∷ s) n [] n' a b c d e =
    absurd (
      ground
        (arith, cut_key-service_key (x ∷ s) n a b, cut_key-service_key [] n' c d, ap cut_key e))
service_key-injective (x ∷ s) n (y ∷ s') n' a b c d e =
    ground
      (arith, cut_key-service_key (x ∷ s) n a b, cut_key-service_key (y ∷ s') n' c d, ap cut_key e)

pub same-service_key :
    (s n s' n' : Text)
    → is_slashless s ≡ true
    → is_slashless n ≡ true
    → is_slashless s' ≡ true
    → is_slashless n' ≡ true
    → same (service_key s n) (service_key s' n') ≡ (same s s' && same n n')
same-service_key s n s' n' a b c d =
    elim (Bool-cases (same (service_key s n) (service_key s' n'))) [
      | inl e ↦
          let parts =
            service_key-injective s n s' n' a b c d
              ((same_iff (service_key s n) (service_key s' n')).0 e) in
          ground (arith, e, same_iff s s', same_iff n n', parts.0, parts.1)
      | inr e ↦ elim (Bool-cases (same s s' && same n n')) [
        | inl both ↦
            absurd
              (ground (arith, e, both, same_iff s s', same_iff n n', same_refl (service_key s' n')))
        | inr other ↦ e ∙ sym other
      ]
    ]

-- A service that is registered under a stack is found under `stack/service`, with its addresses.
pub resolve-register :
    (sr : ServiceRegistry) (info : ServiceInfo) (x : ℕ) (stack : Text) (a : Text) (more : List Text)
    → info.stack_name ≡ x ∷ stack
    → is_slashless info.stack_name ≡ true
    → info.addresses ≡ a ∷ more
    → resolve (register sr info) (info.stack_name ++ 47 ∷ info.name) ≡ some (a ∷ more)
unfolding resolve register get parse_service_name service_key
resolve-register sr info x stack a more e h f = ground (
  arith,
  e,
  h,
  f,
  split_at-append 47 info.stack_name info.name,
  lookup-insert (info.stack_name ++ 47 ∷ info.name) (info.stack_name ++ 47 ∷ info.name) info sr,
  same_refl (info.stack_name ++ 47 ∷ info.name),
)
