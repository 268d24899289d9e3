-- ===== src/Locks/Exclusion.antt =====
-- Mutual exclusion by name, and no entry kept that nobody wants.
use hospitus.Shared.{
  ℕ, ◌+◌, ◌≤◌, ◌<◌, ◌≡◌, refl, List, [], ◌∷◌, Option, none, some, if◌then◌else◌, get_elem?, Text,
  same, lookup, arith, inl, inr, Option-cases,
}
use hospitus.Locks.Counts.{LocksFit, run-LocksFit}
use hospitus.Locks.{Claim, InstanceLocks, no_locks, count_claim, Event, run}

-- The holders of a name, whatever entry they hold.
unfoldable pub holders : Text → List Claim → ℕ
holders n [] = 0
holders n ((m, b) ∷ cs) = (if same m n then 1 else 0) + holders n cs

-- If all claims for a name are at one entry, they are counted there.
holders_at :
    (n : Text) (a : ℕ) (cs : List Claim)
    → ((b : ℕ) → 0 < count_claim n b cs → b ≡ a)
    → holders n cs ≡ count_claim n a cs
unfolding holders count_claim
holders_at n a [] one = refl
holders_at n a ((m, b) ∷ cs) one =
    ground (arith, one b, holders_at n a cs (λ c h. one c (ground arith)))

holders_none : (n : Text) (cs : List Claim) → ((b : ℕ) → count_claim n b cs ≡ 0) → holders n cs ≡ 0
unfolding holders count_claim
holders_none n [] none_at = refl
holders_none n ((m, b) ∷ cs) none_at =
    ground (arith, none_at b, holders_none n cs (λ c. ground (arith, none_at c)))

holding-points :
    (l : InstanceLocks) (n : Text) (a : ℕ)
    → LocksFit l
    → 0 < count_claim n a l.holding
    → lookup n l.locks ≡ some a
holding-points l n a f h = elim (Option-cases (get_elem? l.entries a)) [
  | inl nowhere ↦ ground (arith, f n a)
  | inr (e, there) ↦ ground (arith, f n a)
]

holding-le : (l : InstanceLocks) (n : Text) (a : ℕ) → LocksFit l → count_claim n a l.holding ≤ 1
holding-le l n a f = elim (Option-cases (get_elem? l.entries a)) [
  | inl nowhere ↦ ground (arith, f n a)
  | inr (e, there) ↦ ground (arith, f n a)
]

-- Whatever callers do and in whatever order, no two of them hold one name, though entries are
-- dropped and made anew.
pub mutual_exclusion : (es : List Event) (n : Text) → holders n (run no_locks es).holding ≤ 1
mutual_exclusion es n = go (lookup n l.locks) refl
  where
    l : InstanceLocks
    l = run no_locks es

    go : (o : Option ℕ) → lookup n l.locks ≡ o → holders n l.holding ≤ 1
    go none e = omega (
      arith,
      holders_none n l.holding (λ b. ground (arith, holding-points l n b (run-LocksFit es))),
    )
    go (some a) e = omega (
      arith,
      holding-le l n a (run-LocksFit es),
      holders_at n a l.holding (λ b h. ground (arith, holding-points l n b (run-LocksFit es) h)),
    )

claims-le-holders : (n : Text) (a : ℕ) (cs : List Claim) → count_claim n a cs ≤ holders n cs
unfolding holders count_claim
claims-le-holders n a [] = omega arith
claims-le-holders n a ((m, b) ∷ cs) = ground (arith, claims-le-holders n a cs)

wanted :
    (l : InstanceLocks) (n : Text) (a : ℕ)
    → LocksFit l
    → lookup n l.locks ≡ some a
    → 0 < count_claim n a l.waiting + count_claim n a l.holding
wanted l n a f h = elim (Option-cases (get_elem? l.entries a)) [
  | inl nowhere ↦ ground (arith, f n a)
  | inr (e, there) ↦ ground (arith, f n a)
]

-- When nobody waits for a name and nobody holds it, the map has no entry for it.
pub idle_forgotten :
    (es : List Event) (n : Text)
    → holders n (run no_locks es).waiting ≡ 0
    → holders n (run no_locks es).holding ≡ 0
    → lookup n (run no_locks es).locks ≡ none
idle_forgotten es n w h = go (lookup n l.locks) refl
  where
    l : InstanceLocks
    l = run no_locks es

    go : (o : Option ℕ) → lookup n l.locks ≡ o → lookup n l.locks ≡ none
    go none e = e
    go (some a) e = absurd (
        ground (
          arith,
          wanted l n a (run-LocksFit es) e,
          claims-le-holders n a l.waiting,
          claims-le-holders n a l.holding,
        ))
