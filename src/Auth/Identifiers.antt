-- ===== src/Auth/Identifiers.antt =====
-- internal/auth/auth.go: the identifiers of configured keys, by which the audit log names them.
use hospitus.Shared.{
  ℕ, suc, ◌≤◌, ◌≡◌, refl, sym, ◌∙◌, ◌⊎◌, inl, inr, Bool, true, false, List, [], ◌∷◌, ◌++◌, Option,
  none, some, arith, Text, codes, same_iff, Dict, lookup, insert, remove, lookup-insert,
  lookup-remove, decimal, decimal-injective,
}
use hospitus.Auth.{
  SimpleAuthProvider, key_identifier, add_key, add_keys, new_simple_auth_provider, remove_key,
  has_key, validate_key, authenticate,
}

pub data Change : Type 0 where
  adds : Text → Change
  removes : Text → Change

unfoldable pub change : SimpleAuthProvider → Change → SimpleAuthProvider
change sap (adds key) = add_key sap key
change sap (removes key) = remove_key sap key

unfoldable pub change_all : SimpleAuthProvider → List Change → SimpleAuthProvider
change_all sap [] = sap
change_all sap (c ∷ cs) = change_all (change sap c) cs

abbrev pub is_known {ℓ} : {A : Type ℓ} → Option A → Bool
is_known none = false
is_known (some x) = true

-- Identifiers are numbered up to `next`, no two keys share one, and there is no empty key.
pub record KeysFit (sap : SimpleAuthProvider) : Type 0 where
  pub numbered :
      (key id : Text)
      → lookup key sap.valid_keys ≡ some id
      → (n : ℕ) × ((id ≡ key_identifier n) × (n ≤ sap.next))
  pub distinct :
      (key other id : Text)
      → lookup key sap.valid_keys ≡ some id
      → lookup other sap.valid_keys ≡ some id
      → key ≡ other
  pub no_empty : lookup [] sap.valid_keys ≡ none

append-injective : (p s t : Text) → p ++ s ≡ p ++ t → s ≡ t
append-injective [] s t h = h
append-injective (x ∷ p) s t h = append-injective p s t (ground (arith, h))

key_identifier-injective : (m n : ℕ) → key_identifier m ≡ key_identifier n → m ≡ n
key_identifier-injective m n h =
    decimal-injective m n (append-injective (codes "config-key-") (decimal m) (decimal n) h)

module _ (sap : SimpleAuthProvider) (fit : KeysFit sap) where
  -- The next identifier is not in use.
  fresh :
      (key : Text) (id : Text)
      → lookup key sap.valid_keys ≡ some id
      → key_identifier (suc sap.next) ≡ id
      → 1 ≤ 0
  fresh key id h e =
      let n = fit.numbered key id h in
      ground (arith, n.1.1, key_identifier-injective (suc sap.next) n.0 (e ∙ n.1.0))

  module _ (x : ℕ) (key : Text) (absent : lookup (x ∷ key) sap.valid_keys ≡ none) where
    abbrev added : SimpleAuthProvider
    added = record {
      valid_keys = insert (x ∷ key) (key_identifier (suc sap.next)) sap.valid_keys;
      next = suc sap.next;
    }

    looked_up :
        (k id : Text)
        → lookup k added.valid_keys ≡ some id
        → ((x ∷ key ≡ k) × (id ≡ key_identifier (suc sap.next)))
          ⊎ (lookup k sap.valid_keys ≡ some id)
    looked_up k id h = ground (
      arith,
      h,
      lookup-insert (x ∷ key) k (key_identifier (suc sap.next)) sap.valid_keys,
      same_iff (x ∷ key) k,
    )

    added-KeysFit : KeysFit added
    added-KeysFit = record {
      numbered = λ k id h. elim (looked_up k id h) [
        | inl new ↦ (suc sap.next, (new.1, ground arith))
        | inr old ↦ let n = fit.numbered k id old in (n.0, (n.1.0, ground (arith, n.1.1)))
      ];
      distinct = λ k other id h h'. both k other id (looked_up k id h) (looked_up other id h');
      no_empty = ground (
        arith,
        fit.no_empty,
        lookup-insert (x ∷ key) [] (key_identifier (suc sap.next)) sap.valid_keys,
        same_iff (x ∷ key) [],
      );
    }
      where
        both :
            (k other id : Text)
            → ((x ∷ key ≡ k) × (id ≡ key_identifier (suc sap.next)))
              ⊎ (lookup k sap.valid_keys ≡ some id)
            → ((x ∷ key ≡ other) × (id ≡ key_identifier (suc sap.next)))
              ⊎ (lookup other sap.valid_keys ≡ some id)
            → k ≡ other
        both k other id (inl a) (inl b) = sym a.0 ∙ b.0
        both k other id (inr a) (inr b) = fit.distinct k other id a b
        both k other id (inl a) (inr b) = ground (arith, fresh other id b (sym a.1))
        both k other id (inr a) (inl b) = ground (arith, fresh k id a (sym b.1))

  add_key-KeysFit : (key : Text) → KeysFit (add_key sap key)
  unfolding add_key
  add_key-KeysFit [] = fit
  add_key-KeysFit (x ∷ key) = by_entry (lookup (x ∷ key) sap.valid_keys) refl
    where
      by_entry :
          (o : Option Text)
          → lookup (x ∷ key) sap.valid_keys ≡ o
          → KeysFit (elim o [
            | some id ↦ sap
            | none ↦ record {
              valid_keys = insert (x ∷ key) (key_identifier (suc sap.next)) sap.valid_keys;
              next = suc sap.next;
            }
          ])
      by_entry (some id) e = fit
      by_entry none e = added-KeysFit x key e

  remove_key-KeysFit : (key : Text) → KeysFit (remove_key sap key)
  unfolding remove_key
  remove_key-KeysFit key = record {
    numbered = λ k id h. fit.numbered k id (kept k id h);
    distinct = λ k other id h h'. fit.distinct k other id (kept k id h) (kept other id h');
    no_empty = ground (arith, fit.no_empty, lookup-remove key [] sap.valid_keys);
  }
    where
      kept :
          (k id : Text)
          → lookup k (remove key sap.valid_keys) ≡ some id
          → lookup k sap.valid_keys ≡ some id
      kept k id h = ground (arith, h, lookup-remove key k sap.valid_keys)

add_keys-KeysFit :
    (keys : List Text) (sap : SimpleAuthProvider) → KeysFit sap → KeysFit (add_keys sap keys)
unfolding add_keys
add_keys-KeysFit [] sap fit = fit
add_keys-KeysFit (key ∷ keys) sap fit =
    add_keys-KeysFit keys (add_key sap key) (add_key-KeysFit sap fit key)

change_all-KeysFit :
    (cs : List Change) (sap : SimpleAuthProvider) → KeysFit sap → KeysFit (change_all sap cs)
unfolding change_all change
change_all-KeysFit [] sap fit = fit
change_all-KeysFit (adds key ∷ cs) sap fit =
    change_all-KeysFit cs (add_key sap key) (add_key-KeysFit sap fit key)
change_all-KeysFit (removes key ∷ cs) sap fit =
    change_all-KeysFit cs (remove_key sap key) (remove_key-KeysFit sap fit key)

has_key-lookup : (key : Text) (m : Dict Text) → has_key key m ≡ is_known (lookup key m)
unfolding lookup
has_key-lookup key [] = refl
has_key-lookup key ((k, id) ∷ m) =
    ground (arith, has_key-lookup key m, same_iff key k, same_iff k key)

-- Both ways of asking give one answer, which is no for an empty key, and an identifier names one key.
pub record AnswersFit (sap : SimpleAuthProvider) : Type 0 where
  pub agree : (key : Text) → validate_key sap key ≡ is_known (authenticate sap key)
  pub refuses_empty : authenticate sap [] ≡ none
  pub identify :
      (key other : Text) (given granted : List Text) (id : Text)
      → authenticate sap key ≡ some (given, id)
      → authenticate sap other ≡ some (granted, id)
      → key ≡ other

KeysFit-AnswersFit : (sap : SimpleAuthProvider) → KeysFit sap → AnswersFit sap
unfolding validate_key authenticate
KeysFit-AnswersFit sap fit = record {
  agree = λ key. agreed key;
  refuses_empty = ground (arith, fit.no_empty);
  identify = λ key other given granted id h h'.
      fit.distinct key other id (ground (arith, h)) (ground (arith, h'));
}
  where
    agreed : (key : Text) → validate_key sap key ≡ is_known (authenticate sap key)
    agreed [] = ground (arith, fit.no_empty)
    agreed (x ∷ key) = ground (arith, has_key-lookup (x ∷ key) sap.valid_keys)

-- Whatever keys are configured, and whatever keys are added and removed later, ValidateKey and
-- Authenticate accept the same keys, never the empty one, and no two accepted keys have the same
-- identifier.
pub change_all-AnswersFit :
    (keys : List Text) (cs : List Change)
    → AnswersFit (change_all (new_simple_auth_provider keys) cs)
unfolding lookup
change_all-AnswersFit keys cs = KeysFit-AnswersFit (change_all (new_simple_auth_provider keys) cs) (
    change_all-KeysFit cs (new_simple_auth_provider keys) (
      add_keys-KeysFit keys (record { valid_keys = []; next = 0 })
        (record {
          numbered = λ key id h. ground (arith, h);
          distinct = λ key other id h h'. ground (arith, h);
          no_empty = refl;
        })))
