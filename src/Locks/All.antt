-- ===== src/Locks/All.antt =====
-- pkg/provider/locks.go: `Acquire` as one call, and `AcquireAll`.
use hospitus.Shared.{
  ℕ, Bool, true, false, not, ◌||◌, List, [], ◌∷◌, if◌then◌else◌, Text, contains, sort_texts,
}
use hospitus.Locks.{InstanceLocks, Claim, want, take, give_up, release}

-- What a context records for this owner: the names that its call chain holds; and whether it ended.
pub record Context : Type 0 where
  pub held : List Text
  pub ended : Bool

pub data Acquired : Type 0 where
  held_already : Acquired
  got : ℕ → Context → Acquired
  refused : Acquired

abbrev pub hold : Text → Context → Context
hold name ctx = record ctx { held = name ∷ ctx.held }

-- `granted` says how the wait ends: with the lock, or with the end of the context.
unfoldable pub acquire : InstanceLocks → Context → Text → Bool → InstanceLocks × Acquired
acquire l ctx name granted =
    let (wanting, a) = want l name in
    if contains name ctx.held
    then (l, held_already)
    else if ctx.ended || not granted
    then (give_up wanting name a, refused)
    else (take wanting name a, got a (hold name ctx))

abbrev pub is_empty : Text → Bool
is_empty [] = true
is_empty (x ∷ s) = false

-- The loop that skips a name that is empty or was seen.
unfoldable pub unique : List Text → List Text → List Text
unique seen [] = []
unique seen (n ∷ names) =
    let skip = is_empty n || contains n seen in
    let rest = unique (if skip then seen else n ∷ seen) names in if skip then rest else n ∷ rest

-- The order in which `AcquireAll` locks.
unfoldable pub lock_order : List Text → List Text
lock_order names = sort_texts (unique [] names)

-- `releaseAll`: the last acquired first.
unfoldable pub release_all : InstanceLocks → List Claim → InstanceLocks
release_all l [] = l
release_all l ((name, a) ∷ taken) = release_all (release l name a) taken

pub record AllAcquired : Type 0 where
  pub locks : InstanceLocks
  pub context : Context
  pub taken : List Claim
  pub failed : Bool

abbrev pub next_grant : List Bool → Bool
next_grant [] = false
next_grant (g ∷ grants) = g

abbrev pub later_grants : List Bool → List Bool
later_grants [] = []
later_grants (g ∷ grants) = grants

-- Where the loop over the names stands: `taken` has what to release, the last acquired first.
pub record Loop : Type 0 where
  pub context : Context
  pub taken : List Claim
  pub left : List Text

abbrev pub begin_all : Context → List Text → Loop
begin_all ctx names = record { context = ctx; taken = []; left = lock_order names }

-- One round, with the name that is next: it ends the call, or the loop goes on.
pub data Round : Type 0 where
  stopped : Round
  onward : Context → List Claim → Round

unfoldable pub after_acquire : Context → List Claim → Text → Acquired → Round
after_acquire ctx taken n refused = stopped
after_acquire ctx taken n held_already = onward ctx taken
after_acquire ctx taken n (got a ctx') = onward ctx' ((n, a) ∷ taken)

-- On failure the context comes back as it stands then, with the names acquired so far.
unfoldable pub acquire_each :
    InstanceLocks → Context → List Claim → List Text → List Bool → AllAcquired
acquire_each l ctx taken [] grants = record {
  locks = l;
  context = ctx;
  taken = taken;
  failed = false;
}
acquire_each l ctx taken (n ∷ names) grants =
    let (l', r) = acquire l ctx n (next_grant grants) in
    elim (after_acquire ctx taken n r) [
      | stopped ↦ record { locks = release_all l' taken; context = ctx; taken = []; failed = true }
      | onward ctx' taken' ↦ acquire_each l' ctx' taken' names (later_grants grants)
    ]

unfoldable pub acquire_all : InstanceLocks → Context → List Text → List Bool → AllAcquired
acquire_all l ctx names grants =
    let start = begin_all ctx names in acquire_each l start.context start.taken start.left grants
