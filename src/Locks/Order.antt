-- ===== src/Locks/Order.antt =====
-- `AcquireAll`: its order, why it cannot deadlock, and what a failure leaves.
use hospitus.Shared.{
  ℕ, ◌⊎◌, inl, inr, ◌||◌, same, subst, sym, Bool-cases, ◌≡◌, ◌∙◌, refl, ap, Bool, true, false, not,
  ◌&&◌, List, [], ◌∷◌, ◌++◌, Text, same_iff, same_refl, contains, arith, text_lt, text_lt_irrefl,
  text_lt_trans, AllAfter, IsAscending, IsDistinct, contains-sort_texts, sort_texts-IsAscending,
}
use hospitus.Locks.{InstanceLocks, Claim, want, take, give_up, release, drop, remove_claim}
use hospitus.Locks.All.{
  Context, Acquired, got, acquire, is_empty, unique, lock_order, release_all, hold, Loop, begin_all,
  onward, after_acquire,
}

contains-unique :
    (n : Text) (seen names : List Text)
    → contains n (unique seen names)
      ≡ (contains n names && not (is_empty n) && not (contains n seen))
unfolding contains unique
contains-unique n seen [] = refl
contains-unique n seen (m ∷ names) = ground (
  arith,
  contains-unique n seen names,
  contains-unique n (m ∷ seen) names,
  same_iff n m,
  same_iff m n,
)

unique-IsDistinct : (seen names : List Text) → IsDistinct (unique seen names)
unfolding unique contains
unique-IsDistinct seen [] = tt
unique-IsDistinct seen (m ∷ names) = ground (
  arith,
  unique-IsDistinct seen names,
  unique-IsDistinct (m ∷ seen) names,
  contains-unique m (m ∷ seen) names,
  same_refl m,
)

contains-nil : (n : Text) → contains n [] ≡ false
unfolding contains
contains-nil n = refl

-- `AcquireAll` locks the given names that are not empty, each once, in ascending order.
pub lock_order_lem :
    (names : List Text) (n : Text)
    → IsAscending (lock_order names)
      × (contains n (lock_order names) ≡ (contains n names && not (is_empty n)))
unfolding lock_order
lock_order_lem names n = (
  sort_texts-IsAscending (unique [] names) (unique-IsDistinct [] names),
  contains-sort_texts n (unique [] names)
      ∙ contains-unique n [] names
      ∙ rw contains-nil (ground arith),
)

-- The rounds of a call of `AcquireAll`, between which others may do whatever they do to the locks.
pub data Reaches (ctx : Context) (names : List Text) : Loop → Type 0 where
  begins : Reaches ctx names (begin_all ctx names)
  goes :
      (s : Loop) (n : Text) (left : List Text) (l : InstanceLocks) (ctx' : Context)
      (taken : List Claim)
      → Reaches ctx names s
      → s.left ≡ n ∷ left
      → after_acquire s.context s.taken n (acquire l s.context n true).1 ≡ onward ctx' taken
      → Reaches ctx names (record { context = ctx'; taken = taken; left = left })

-- The names that are still to be locked stand in their order, and behind each that the call holds.
record InOrder (s : Loop) : Type 0 where
  ascending : IsAscending s.left
  behind : (x : Text) → contains x s.context.held ≡ true → AllAfter x s.left

begin_all-InOrder :
    (ctx : Context) (names : List Text) → ctx.held ≡ [] → InOrder (begin_all ctx names)
begin_all-InOrder ctx names bare = record {
  ascending = (lock_order_lem names []).0;
  behind = λ x h. absurd (ground (arith, h, bare, contains-nil x));
}

contains-hold :
    (x n : Text) (ctx : Context) → contains x (hold n ctx).held ≡ (same x n || contains x ctx.held)
unfolding contains
contains-hold x n ctx = refl

-- A round that goes on leaves the context as it was, or holds the name.
round-context :
    (l : InstanceLocks) (s : Loop) (n : Text) (ctx' : Context) (taken : List Claim)
    → after_acquire s.context s.taken n (acquire l s.context n true).1 ≡ onward ctx' taken
    → (ctx' ≡ s.context) ⊎ (ctx' ≡ hold n s.context)
unfolding acquire after_acquire
round-context l s n ctx' taken e = elim (Bool-cases (contains n s.context.held)) [
  | inl held ↦ inl (ground (arith, e, held))
  | inr free ↦ elim (Bool-cases s.context.ended) [
    | inl over ↦ absurd (ground (arith, e, free, over))
    | inr runs ↦ inr (ground (arith, e, free, runs))
  ]
]

Reaches-InOrder :
    {ctx : Context} {names : List Text} (s : Loop) → ctx.held ≡ [] → Reaches ctx names s → InOrder s
Reaches-InOrder {ctx} {names} s bare begins = begin_all-InOrder ctx names bare
Reaches-InOrder s bare (goes before n left l ctx' taken r e round) =
    let inv = Reaches-InOrder before bare r in
    let ordered : IsAscending (n ∷ left) = rw e at (inv.ascending) in
    record {
      ascending = ordered.1;
      behind = λ x h. elim (round-context l before n ctx' taken round) [
        | inl same_context ↦
            (subst (AllAfter x) e (inv.behind x (ground (arith, h, same_context)))).1
        | inr held ↦ elim (Bool-cases (same x n)) [
          | inl own ↦ subst (λ y. AllAfter y left) (sym ((same_iff x n).0 own)) ordered.0
          | inr other ↦
              (subst (AllAfter x) e
                (inv.behind x (ground (arith, h, held, other, contains-hold x n before.context)))).1
        ]
      ];
    }

-- A caller of `AcquireAll`, in a context that held nothing before, that waits for the next of its
-- names.
pub record Waiter : Type 0 where
  pub ctx : Context
  pub names : List Text
  pub bare : ctx.held ≡ []
  pub state : Loop
  pub reached : Reaches ctx names state
  pub waits : Text
  pub later : List Text
  pub next : state.left ≡ waits ∷ later

abbrev pub holds : Waiter → List Text
holds c = c.state.context.held

-- Each caller of the chain waits for a name that the next one holds.
pub data Chain : Waiter → Waiter → Type 0 where
  blocked : (c d : Waiter) → contains c.waits (holds d) ≡ true → Chain c d
  through : {c d e : Waiter} → Chain c d → Chain d e → Chain c e

Chain-lt : {c d : Waiter} → Chain c d → text_lt c.waits d.waits ≡ true
Chain-lt (blocked c d h) =
    (subst (AllAfter c.waits) d.next
      ((Reaches-InOrder d.state d.bare d.reached).behind c.waits h)).0
Chain-lt (through {c} {d} {e} p q) = text_lt_trans c.waits d.waits e.waits (Chain-lt p) (Chain-lt q)

-- Callers of `AcquireAll` whose contexts held nothing when they called never wait for one another in a
-- circle, wherever in their loops they stand.
pub no_deadlock : (c : Waiter) → ¬ Chain c c
no_deadlock c p = ground (arith, Chain-lt p, text_lt_irrefl c.waits)

remove_claim_head : (n : Text) (a : ℕ) (cs : List Claim) → remove_claim n a ((n, a) ∷ cs) ≡ cs
unfolding remove_claim
remove_claim_head n a cs = ground (arith, same_refl n)

-- The claims of two states are the same.
abbrev pub SameClaims : InstanceLocks → InstanceLocks → Type 0
SameClaims l m = (m.waiting ≡ l.waiting) × (m.holding ≡ l.holding)

module _ (l : InstanceLocks) (n : Text) where
  want-claims :
      ((want l n).0.waiting ≡ (n, (want l n).1) ∷ l.waiting) × ((want l n).0.holding ≡ l.holding)
  unfolding want
  want-claims = ground arith

  release-claims :
      (a : ℕ) (hs : List Claim)
      → l.holding ≡ (n, a) ∷ hs
      → ((release l n a).waiting ≡ l.waiting) × ((release l n a).holding ≡ hs)
  unfolding release drop
  release-claims a hs e = ground (arith, ap (remove_claim n a) e, remove_claim_head n a hs)

  give_up-claims :
      (a : ℕ) (ws : List Claim)
      → l.waiting ≡ (n, a) ∷ ws
      → ((give_up l n a).waiting ≡ ws) × ((give_up l n a).holding ≡ l.holding)
  unfolding give_up drop
  give_up-claims a ws e = ground (arith, ap (remove_claim n a) e, remove_claim_head n a ws)

-- What one `Acquire` does to the claims, by its outcome.
abbrev pub AcquireClaims : InstanceLocks → Text → InstanceLocks → Acquired → Type 0
AcquireClaims l n m (got a ctx) = (m.waiting ≡ l.waiting) × (m.holding ≡ (n, a) ∷ l.holding)
AcquireClaims l n m _ = SameClaims l m

pub acquire-claims :
    (l : InstanceLocks) (ctx : Context) (n : Text) (granted : Bool)
    → AcquireClaims l n (acquire l ctx n granted).0 (acquire l ctx n granted).1
unfolding acquire take
acquire-claims l ctx n granted =
    let (wanting, a) = want l n in
    ground (
      arith,
      want-claims l n,
      give_up-claims wanting n a l.waiting,
      ap (remove_claim n a) (want-claims l n).0,
      remove_claim_head n a l.waiting,
    )

pub release_all-claims :
    (l : InstanceLocks) (taken hs : List Claim)
    → l.holding ≡ taken ++ hs
    → ((release_all l taken).waiting ≡ l.waiting) × ((release_all l taken).holding ≡ hs)
unfolding release_all
release_all-claims l [] hs e = (refl, e)
release_all-claims l ((n, a) ∷ taken) hs e = ground (
  arith,
  release-claims l n a (taken ++ hs) e,
  release_all-claims (release l n a) taken hs (release-claims l n a (taken ++ hs) e).1,
)
