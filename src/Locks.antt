-- ===== src/Locks.antt =====
-- pkg/provider/locks.go: `InstanceLocks`, by critical sections. The wait for a lock is a step of its
-- own, so an interleaving of callers is a list of events.
pub mod All
pub mod AllOrNothing
pub mod Counts
pub mod Exclusion
pub mod Order
mod Tests
use mathlib.Core.Option
use hospitus.Shared.{
  ℕ, ◌+◌, ◌-◌, Bool, true, false, not, ◌&&◌, ◌||◌, List, [], ◌∷◌, ◌++◌, Option, none, some, ltb,
  ◌==◌, if◌then◌else◌, length, get_elem?, modify, Text, same, text_lt, sort_texts, Dict, lookup,
  insert, remove,
}

-- An `instanceLock`: `held` says that the token is in its channel. `name` is the name that it was
-- made for, which the code does not store.
pub record Entry : Type 0 where
  pub name : Text
  pub held : Bool
  pub refs : ℕ

-- A call of `Acquire` that has counted itself: its name, and the address of the entry it found.
abbrev pub Claim : Type 0
Claim = Text × ℕ

-- `entries` has every entry ever made, by address; `locks` is the map of the code. `waiting` and
-- `holding` are the calls that wait for their entry, and those that have it and did not release it.
pub record InstanceLocks : Type 0 where
  pub entries : List Entry
  pub locks : Dict ℕ
  pub waiting : List Claim
  pub holding : List Claim

abbrev pub no_locks : InstanceLocks
no_locks = record { entries = []; locks = []; waiting = []; holding = [] }

abbrev pub is_claim : Text → ℕ → Claim → Bool
is_claim n a (m, b) = same m n && b == a

-- How many of the claims are for this name and this entry.
unfoldable pub count_claim : Text → ℕ → List Claim → ℕ
count_claim n a [] = 0
count_claim n a (c ∷ cs) = (if is_claim n a c then 1 else 0) + count_claim n a cs

unfoldable pub remove_claim : Text → ℕ → List Claim → List Claim
remove_claim n a [] = []
remove_claim n a (c ∷ cs) =
    let rest = remove_claim n a cs in if is_claim n a c then cs else c ∷ rest

abbrev pub add_ref : Entry → Entry
add_ref e = record e { refs = e.refs + 1 }

-- The first critical section of `Acquire`: find the entry or make one, and count the caller.
unfoldable pub want : InstanceLocks → Text → InstanceLocks × ℕ
want l name = elim (lookup name l.locks) [
  | some a ↦ (record l { entries = modify l.entries a add_ref; waiting = (name, a) ∷ l.waiting }, a)
  | none ↦
      let a = length l.entries in
      let made : Entry = record { name = name; held = false; refs = 1 } in
      (
        record l {
          entries = l.entries ++ made ∷ [];
          locks = insert name a l.locks;
          waiting = (name, a) ∷ l.waiting;
        },
        a,
      )
]

abbrev pub drop_ref : Entry → Entry
drop_ref e = record e { refs = e.refs - 1 }

abbrev pub refs_at : InstanceLocks → ℕ → ℕ
refs_at l a = elim (get_elem? l.entries a) [ none ↦ 0 | some e ↦ e.refs ]

abbrev pub held_at : InstanceLocks → ℕ → Bool
held_at l a = elim (get_elem? l.entries a) [ none ↦ false | some e ↦ e.held ]

unfoldable pub drop : InstanceLocks → Text → ℕ → InstanceLocks
drop l name a =
    let dropped = record l { entries = modify l.entries a drop_ref } in
    if refs_at dropped a == 0 then record dropped { locks = remove name dropped.locks } else dropped

abbrev pub set_held : Bool → Entry → Entry
set_held b e = record e { held = b }

-- `entry.ch <- struct{}{}` goes through.
unfoldable pub take : InstanceLocks → Text → ℕ → InstanceLocks
take l name a = record l {
  entries = modify l.entries a (set_held true);
  waiting = remove_claim name a l.waiting;
  holding = (name, a) ∷ l.holding;
}

-- The caller's context ended: before the wait, or during it.
unfoldable pub give_up : InstanceLocks → Text → ℕ → InstanceLocks
give_up l name a = drop (record l { waiting = remove_claim name a l.waiting }) name a

-- What the returned function does the first time.
unfoldable pub release : InstanceLocks → Text → ℕ → InstanceLocks
release l name a =
    drop
      (record l {
        entries = modify l.entries a (set_held false);
        holding = remove_claim name a l.holding;
      })
      name a

pub data Event : Type 0 where
  wants : Text → Event
  takes gives_up releases : Text → ℕ → Event

-- A caller goes on only from where it stands, and a send waits until the channel is empty.
unfoldable pub step : InstanceLocks → Event → InstanceLocks
step l (wants name) = (want l name).0
step l (takes name a) =
    if ltb 0 (count_claim name a l.waiting) && not (held_at l a) then take l name a else l
step l (gives_up name a) = if ltb 0 (count_claim name a l.waiting) then give_up l name a else l
step l (releases name a) = if ltb 0 (count_claim name a l.holding) then release l name a else l

unfoldable pub run : InstanceLocks → List Event → InstanceLocks
run l [] = l
run l (e ∷ es) = run (step l e) es
