-- ===== src/Locks/Counts.antt =====
-- What the counts of an entry mean, at any moment.
use hospitus.Shared.{
  ℕ, ◌+◌, ◌-◌, ◌<◌, ◌≡◌, refl, Bool, true, false, ◌&&◌, List, [], ◌∷◌, Option, none, some, ltb,
  ◌==◌, if◌then◌else◌, length, get_elem?, modify, Text, same, same_iff, lookup, arith, inl, inr,
  Option-cases, get_elem?-modify, get_elem?-concat, get_elem?_of_ge, lookup-insert, lookup-remove,
}
use hospitus.Locks.{
  Entry, Claim, InstanceLocks, no_locks, count_claim, remove_claim, add_ref, drop_ref, set_held,
  want, held_at, drop, take, give_up, release, Event, wants, takes, gives_up, releases, step, run,
}

abbrev flag : Bool → ℕ
flag true = 1
flag false = 0

abbrev pub points : Option ℕ → ℕ → Bool
points none a = false
points (some b) a = b == a

-- What `waiting` and `holding` claims there are for a name at an entry, and whether the map leads
-- from the name to it; the first argument says whether the entry was made for the name.
abbrev pub NameFits : Bool → ℕ → ℕ → Bool → Entry → Type 0
NameFits true w h p e = (w + h ≡ e.refs) × (h ≡ flag e.held) × (p ≡ ltb 0 e.refs)
NameFits false w h p e = (w ≡ 0) × (h ≡ 0) × (p ≡ false)

abbrev pub SlotFits : Text → ℕ → ℕ → Bool → Option Entry → Type 0
SlotFits n w h p none = (w ≡ 0) × (h ≡ 0) × (p ≡ false)
SlotFits n w h p (some e) = NameFits (same n e.name) w h p e

abbrev pub LocksFit : InstanceLocks → Type 0
LocksFit l =
    (n : Text) (a : ℕ)
    → SlotFits n (count_claim n a l.waiting) (count_claim n a l.holding)
        (points (lookup n l.locks) a) (get_elem? l.entries a)

count_claim-remove_claim :
    (n m : Text) (a b : ℕ) (cs : List Claim)
    → count_claim m b (remove_claim n a cs)
      ≡ count_claim m b cs - (if same n m && a == b then 1 else 0)
unfolding count_claim remove_claim
count_claim-remove_claim n m a b [] = ground arith
count_claim-remove_claim n m a b ((k, c) ∷ cs) =
    ground (arith, count_claim-remove_claim n m a b cs, same_iff n m, same_iff k n, same_iff k m)

want-LocksFit : (l : InstanceLocks) (n : Text) → LocksFit l → LocksFit (want l n).0
unfolding want count_claim
want-LocksFit l n f m b = elim (Option-cases (lookup n l.locks)) [
  | inl missing ↦
      let a = length l.entries in
      let made : Entry = record { name = n; held = false; refs = 1 } in
      ground (
        arith,
        f m b,
        f n b,
        get_elem?-concat l.entries made b,
        get_elem?_of_ge l.entries b,
        lookup-insert n m a l.locks,
        same_iff n m,
        same_iff m n,
      )
  | inr (a, found) ↦ elim (Option-cases (get_elem? l.entries b)) [
    | inl nowhere ↦
        ground (arith, f m b, f n b, get_elem?-modify l.entries a b add_ref, same_iff n m)
    | inr (e, there) ↦ ground (
      arith,
      f m b,
      f n b,
      get_elem?-modify l.entries a b add_ref,
      same_iff n m,
      same_iff m e.name,
      same_iff n e.name,
    )
  ]
]

module _ (l : InstanceLocks) (n : Text) (a : ℕ) (f : LocksFit l) where
  take-LocksFit : 0 < count_claim n a l.waiting → held_at l a ≡ false → LocksFit (take l n a)
  unfolding take count_claim
  take-LocksFit waits free m b = elim (Option-cases (get_elem? l.entries b)) [
    | inl nowhere ↦ ground (
      arith,
      f m b,
      f n b,
      get_elem?-modify l.entries a b (set_held true),
      same_iff n m,
      count_claim-remove_claim n m a b l.waiting,
    )
    | inr (e, there) ↦ ground (
      arith,
      f m b,
      f n b,
      get_elem?-modify l.entries a b (set_held true),
      same_iff n m,
      same_iff m e.name,
      same_iff n e.name,
      count_claim-remove_claim n m a b l.waiting,
    )
  ]

  give_up-LocksFit : 0 < count_claim n a l.waiting → LocksFit (give_up l n a)
  unfolding give_up drop
  give_up-LocksFit waits m b = elim (Option-cases (get_elem? l.entries b)) [
    | inl nowhere ↦ ground (
      arith,
      f m b,
      f n b,
      f n a,
      get_elem?-modify l.entries a b drop_ref,
      get_elem?-modify l.entries a a drop_ref,
      same_iff n m,
      count_claim-remove_claim n m a b l.waiting,
      lookup-remove n m l.locks,
    )
    | inr (e, there) ↦ ground (
      arith,
      f m b,
      f n b,
      f n a,
      get_elem?-modify l.entries a b drop_ref,
      get_elem?-modify l.entries a a drop_ref,
      same_iff n m,
      same_iff m e.name,
      same_iff n e.name,
      count_claim-remove_claim n m a b l.waiting,
      lookup-remove n m l.locks,
    )
  ]

  release-LocksFit : 0 < count_claim n a l.holding → LocksFit (release l n a)
  unfolding release drop
  release-LocksFit holds m b =
      let freed = modify l.entries a (set_held false) in
      elim (Option-cases (get_elem? l.entries b)) [
        | inl nowhere ↦ ground (
          arith,
          f m b,
          f n b,
          f n a,
          get_elem?-modify freed a b drop_ref,
          get_elem?-modify freed a a drop_ref,
          get_elem?-modify l.entries a b (set_held false),
          get_elem?-modify l.entries a a (set_held false),
          same_iff n m,
          count_claim-remove_claim n m a b l.holding,
          lookup-remove n m l.locks,
        )
        | inr (e, there) ↦ ground (
          arith,
          f m b,
          f n b,
          f n a,
          get_elem?-modify freed a b drop_ref,
          get_elem?-modify freed a a drop_ref,
          get_elem?-modify l.entries a b (set_held false),
          get_elem?-modify l.entries a a (set_held false),
          same_iff n m,
          same_iff m e.name,
          same_iff n e.name,
          count_claim-remove_claim n m a b l.holding,
          lookup-remove n m l.locks,
        )
      ]

-- Every step keeps the counts: the references of an entry are its waiting and holding claims, its
-- token is held exactly by a holding claim, and the map leads to it exactly while it is wanted.
pub step-LocksFit : (l : InstanceLocks) (e : Event) → LocksFit l → LocksFit (step l e)
unfolding step
step-LocksFit l (wants n) f m b = want-LocksFit l n f m b
step-LocksFit l (takes n a) f m b = ground (
  arith,
  f m b,
  λ (h : 0 < count_claim n a l.waiting) (k : held_at l a ≡ false). take-LocksFit l n a f h k m b,
)
step-LocksFit l (gives_up n a) f m b =
    ground (arith, f m b, λ (h : 0 < count_claim n a l.waiting). give_up-LocksFit l n a f h m b)
step-LocksFit l (releases n a) f m b =
    ground (arith, f m b, λ (h : 0 < count_claim n a l.holding). release-LocksFit l n a f h m b)

no_locks-LocksFit : LocksFit no_locks
unfolding count_claim lookup
no_locks-LocksFit n a = (refl, refl, refl)

run_from-LocksFit : (es : List Event) (l : InstanceLocks) → LocksFit l → LocksFit (run l es)
unfolding run
run_from-LocksFit [] l f = f
run_from-LocksFit (e ∷ es) l f = run_from-LocksFit es (step l e) (step-LocksFit l e f)

pub run-LocksFit : (es : List Event) → LocksFit (run no_locks es)
run-LocksFit es = run_from-LocksFit es no_locks no_locks-LocksFit
