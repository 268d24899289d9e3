-- ===== src/Locks/AllOrNothing.antt =====
-- `AcquireAll` takes all of its names or leaves no claim behind.
use hospitus.Shared.{
  ℕ, ◌⊎◌, inl, inr, ◌≡◌, ◌∙◌, refl, ap, Bool, true, false, ◌||◌, List, [], ◌∷◌, ◌++◌, Text, same,
  same_iff, same_refl, contains, arith,
}
use hospitus.Locks.{InstanceLocks, Claim, want}
use hospitus.Locks.All.{
  Context, Acquired, got, refused, held_already, acquire, hold, lock_order, release_all,
  after_acquire, AllAcquired, acquire_each, acquire_all, next_grant, later_grants,
}
use hospitus.Locks.Order.{acquire-claims, release_all-claims}

-- Every one of the names is recorded in the context.
abbrev pub AllHeld : Context → List Text → Type 0
AllHeld ctx names = (n : Text) → contains n names ≡ true → contains n ctx.held ≡ true

-- What is left of a call that started with the claims of `l`, by whether it failed.
abbrev pub Left : InstanceLocks → List Text → AllAcquired → Bool → Type 0
Left l names r true = (r.locks.waiting ≡ l.waiting) × (r.locks.holding ≡ l.holding) × (r.taken ≡ [])
Left l names r false =
    (r.locks.waiting ≡ l.waiting)
    × (r.locks.holding ≡ r.taken ++ l.holding)
    × AllHeld r.context names

-- The same in the middle of the loop: `hs` are the claims that were held at its start.
abbrev LeftFrom : List Claim → List Claim → AllAcquired → Bool → Type 0
LeftFrom ws hs r true = (r.locks.waiting ≡ ws) × (r.locks.holding ≡ hs) × (r.taken ≡ [])
LeftFrom ws hs r false = (r.locks.waiting ≡ ws) × (r.locks.holding ≡ r.taken ++ hs)

-- What one round of the loop comes to, by the outcome of its `Acquire`.
module _ (l : InstanceLocks) (ctx : Context) (taken : List Claim) (n : Text) (names : List Text)
    (gs : List Bool) where
  abbrev answered : InstanceLocks × Acquired
  answered = acquire l ctx n (next_grant gs)

  each_refused :
      answered.1 ≡ refused
      → acquire_each l ctx taken (n ∷ names) gs
        ≡ record { locks = release_all answered.0 taken; context = ctx; taken = []; failed = true }
  unfolding acquire_each after_acquire
  each_refused e = rw (e, acquire_each) refl

  each_held :
      answered.1 ≡ held_already
      → acquire_each l ctx taken (n ∷ names) gs
        ≡ acquire_each answered.0 ctx taken names (later_grants gs)
  unfolding acquire_each after_acquire
  each_held e = rw (e, acquire_each) refl

  each_got :
      {a : ℕ} {ctx' : Context}
      → answered.1 ≡ got a ctx'
      → acquire_each l ctx taken (n ∷ names) gs
        ≡ acquire_each answered.0 ctx' ((n, a) ∷ taken) names (later_grants gs)
  unfolding acquire_each after_acquire
  each_got e = rw (e, acquire_each) refl

Acquired-cases :
    (r : Acquired)
    → (r ≡ refused) ⊎ (r ≡ held_already) ⊎ ((a : ℕ) × (ctx : Context) × (r ≡ got a ctx))
Acquired-cases refused = inl refl
Acquired-cases held_already = inr (inl refl)
Acquired-cases (got a ctx) = inr (inr (a, ctx, refl))

acquire_each-LeftFrom :
    (names : List Text) (l : InstanceLocks) (ctx : Context) (taken hs : List Claim) (gs : List Bool)
    → l.holding ≡ taken ++ hs
    → let r = acquire_each l ctx taken names gs in LeftFrom l.waiting hs r r.failed
acquire_each-LeftFrom [] l ctx taken hs gs e = unfold acquire_each in (refl, e)
acquire_each-LeftFrom (n ∷ names) l ctx taken hs gs e =
    let (l', r) = acquire l ctx n (next_grant gs) in
    let claims = acquire-claims l ctx n (next_grant gs) in
    elim (Acquired-cases r) [
      | inl x ↦
          rw (each_refused l ctx taken n names gs x)
            (ground (arith, claims, release_all-claims l' taken hs))
      | inr (inl x) ↦
          rw (each_held l ctx taken n names gs x)
            (ground (arith, claims, acquire_each-LeftFrom names l' ctx taken hs (later_grants gs)))
      | inr (inr (a, ctx', x)) ↦ rw (each_got l ctx taken n names gs x) (
          ground (
            arith,
            claims,
            acquire_each-LeftFrom names l' ctx' ((n, a) ∷ taken) hs (later_grants gs),
          ))
    ]

-- The context that comes with the outcome of an `Acquire` has the name among those it holds.
abbrev ContextOf : Context → Text → Acquired → Type 0
ContextOf ctx n refused = Unit
ContextOf ctx n held_already = contains n ctx.held ≡ true
ContextOf ctx n (got a ctx') = ctx' ≡ hold n ctx

acquire-context :
    (l : InstanceLocks) (ctx : Context) (n : Text) (granted : Bool)
    → ContextOf ctx n (acquire l ctx n granted).1
unfolding acquire
acquire-context l ctx n granted = ground arith

contains-hold :
    (m n : Text) (held : List Text) → contains m (n ∷ held) ≡ (same m n || contains m held)
unfolding contains
contains-hold m n held = refl

acquire_each-keeps :
    (names : List Text) (l : InstanceLocks) (ctx : Context) (taken : List Claim) (gs : List Bool)
    (m : Text)
    → contains m ctx.held ≡ true
    → contains m (acquire_each l ctx taken names gs).context.held ≡ true
acquire_each-keeps [] l ctx taken gs m h = unfold acquire_each in h
acquire_each-keeps (n ∷ names) l ctx taken gs m h =
    let (l', r) = acquire l ctx n (next_grant gs) in
    elim (Acquired-cases r) [
      | inl x ↦ rw (each_refused l ctx taken n names gs x) h
      | inr (inl x) ↦
          rw (each_held l ctx taken n names gs x)
            (acquire_each-keeps names l' ctx taken (later_grants gs) m h)
      | inr (inr (a, ctx', x)) ↦ rw (each_got l ctx taken n names gs x) (
          acquire_each-keeps names l' ctx' ((n, a) ∷ taken) (later_grants gs) m
            (ground (arith, acquire-context l ctx n (next_grant gs), contains-hold m n ctx.held)))
    ]

-- A name is recorded once the loop has passed it.
acquire_each-holds :
    (names : List Text) (l : InstanceLocks) (ctx : Context) (taken : List Claim) (gs : List Bool)
    (m : Text)
    → (acquire_each l ctx taken names gs).failed ≡ false
    → contains m names ≡ true
    → contains m (acquire_each l ctx taken names gs).context.held ≡ true
acquire_each-holds [] l ctx taken gs m f c = unfold contains in cc
acquire_each-holds (n ∷ names) l ctx taken gs m f c =
    let (l', r) = acquire l ctx n (next_grant gs) in
    let said = acquire-context l ctx n (next_grant gs) in
    let listed = contains-hold m n names in
    elim (Acquired-cases r) [
      | inl x ↦ ground (arith, each_refused l ctx taken n names gs x)
      | inr (inl x) ↦
          let eq = each_held l ctx taken n names gs x in
          rw eq (
            ground (
              arith,
              eq,
              said,
              listed,
              same_iff m n,
              acquire_each-keeps names l' ctx taken (later_grants gs) m,
              acquire_each-holds names l' ctx taken (later_grants gs) m,
            ))
      | inr (inr (a, ctx', x)) ↦
          let eq = each_got l ctx taken n names gs x in
          rw eq (
            ground (
              arith,
              eq,
              said,
              listed,
              contains-hold m n ctx.held,
              acquire_each-keeps names l' ctx' ((n, a) ∷ taken) (later_grants gs) m,
              acquire_each-holds names l' ctx' ((n, a) ∷ taken) (later_grants gs) m,
            ))
    ]

Left-from :
    (l : InstanceLocks) (names : List Text) (r : AllAcquired) (failed : Bool)
    → LeftFrom l.waiting l.holding r failed
    → (failed ≡ false → (n : Text) → contains n names ≡ true → contains n r.context.held ≡ true)
    → Left l names r failed
Left-from l names r true f h = f
Left-from l names r false f h = (f.0, f.1, h refl)

-- A call of `AcquireAll` that fails leaves the waiting and the holding claims as they were before.
-- One that succeeds adds the claims that its release gives back, and its context records every name
-- that was given and is not empty.
pub acquire_all-Left :
    (l : InstanceLocks) (ctx : Context) (names : List Text) (gs : List Bool)
    → let r = acquire_all l ctx names gs in Left l (lock_order names) r r.failed
unfolding acquire_all
acquire_all-Left l ctx names gs =
    Left-from l (lock_order names) (acquire_each l ctx [] (lock_order names) gs) _
      (acquire_each-LeftFrom (lock_order names) l ctx [] l.holding gs refl)
      (λ f n. acquire_each-holds (lock_order names) l ctx [] gs n f)

module _ (l : InstanceLocks) (ctx : Context) (n : Text) where
  acquire_got :
      ctx.ended ≡ false
      → contains n ctx.held ≡ false
      → (acquire l ctx n true).1 ≡ got (want l n).1 (hold n ctx)
  unfolding acquire
  acquire_got e h = ground arith

  acquire_refused : contains n ctx.held ≡ false → (acquire l ctx n false).1 ≡ refused
  unfolding acquire
  acquire_refused h = ground arith

  acquire_held : (g : Bool) → contains n ctx.held ≡ true → acquire l ctx n g ≡ (l, held_already)
  unfolding acquire
  acquire_held g h = ground arith

acquire_all-order :
    (l : InstanceLocks) (ctx : Context) (given : List Text) (gs : List Bool) {names : List Text}
    → lock_order given ≡ names
    → acquire_all l ctx given gs ≡ acquire_each l ctx [] names gs
unfolding acquire_all
acquire_all-order l ctx given gs o = ap (λ ns. acquire_each l ctx [] ns gs) o

-- The context that a failed call hands back still records the names that it acquired first and
-- released again, so a later `Acquire` of them in that context does nothing.
pub failed_context :
    (l : InstanceLocks) (ctx : Context) (m n : Text) (names given : List Text)
    → lock_order given ≡ m ∷ n ∷ names
    → ctx.ended ≡ false
    → contains m ctx.held ≡ false
    → contains n (m ∷ ctx.held) ≡ false
    → let r = acquire_all l ctx given (true ∷ false ∷ []) in
      (r.failed ≡ true)
      × (r.locks.holding ≡ l.holding)
      × ((acquire r.locks r.context m true) ≡ (r.locks, held_already))
failed_context l ctx m n names given o e hm hn =
    let first = acquire_got l ctx m e hm in
    let l' = (acquire l ctx m true).0 in
    let second = acquire_refused l' (hold m ctx) n hn in
    let eq =
      each_got l ctx [] m (n ∷ names) (true ∷ false ∷ []) first
      ∙ each_refused l' (hold m ctx) ((m, (want l m).1) ∷ []) n names (false ∷ []) second in
    let left = acquire_each-LeftFrom (m ∷ n ∷ names) l ctx [] l.holding (true ∷ false ∷ []) refl in
    rw (acquire_all-order l ctx given (true ∷ false ∷ []) o) (
      ground (arith, eq, left),
      ground (arith, eq, left),
      rw eq (acquire_held _ (hold m ctx) m true (contains-hold m m ctx.held ∙ rw same_refl refl)),
    )
