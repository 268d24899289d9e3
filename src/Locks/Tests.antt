-- ===== src/Locks/Tests.antt =====
-- Two callers that meet, and the theorems at them.
use hospitus.Shared.{
  ◌≤◌, ◌≡◌, refl, true, false, List, [], ◌∷◌, none, Text, codes, lookup, insert, remove, same,
  contains, sort_texts, text_lt,
}
use hospitus.Locks.{
  no_locks, count_claim, remove_claim, want, take, drop, give_up, release, Event, wants, takes,
  releases, step, run,
}
use hospitus.Locks.Counts.{LocksFit, run-LocksFit}
use hospitus.Locks.Exclusion.{holders, mutual_exclusion, idle_forgotten}
use hospitus.Locks.All.{
  Context, held_already, acquire, unique, lock_order, acquire_all, hold, Loop, begin_all, onward,
  after_acquire,
}
use hospitus.Locks.Order.{Reaches, begins, goes, Waiter, Chain, no_deadlock}
use hospitus.Locks.AllOrNothing.{Left, acquire_all-Left, failed_context}

abbrev web : Text
web = codes "web"

abbrev db : Text
db = codes "db"

-- The first caller holds `web` and releases it; the second waited meanwhile, and takes it.
abbrev meeting : List Event
meeting = wants web ∷ wants web ∷ takes web 0 ∷ takes web 0 ∷ releases web 0 ∷ takes web 0 ∷ []

meeting_ends :
    (holders web (run no_locks meeting).holding ≡ 1)
    × (holders web (run no_locks meeting).waiting ≡ 0)
unfolding run step want take drop give_up release count_claim remove_claim lookup insert remove same
    holders
meeting_ends = (refl, refl)

run-LocksFit_example : LocksFit (run no_locks meeting)
run-LocksFit_example = run-LocksFit meeting

mutual_exclusion_example : holders web (run no_locks meeting).holding ≤ 1
mutual_exclusion_example = mutual_exclusion meeting web

abbrev visit : List Event
visit = wants db ∷ takes db 0 ∷ releases db 0 ∷ []

idle_forgotten_example : lookup db (run no_locks visit).locks ≡ none
unfolding run step want take drop give_up release count_claim remove_claim lookup insert remove same
    holders
idle_forgotten_example = idle_forgotten visit db refl refl

abbrev given : List Text
given = web ∷ db ∷ [] ∷ web ∷ []

lock_order-given : lock_order given ≡ db ∷ web ∷ []
unfolding lock_order unique sort_texts contains same text_lt
lock_order-given = refl

abbrev idle : Context
idle = record { held = []; ended = false }

-- It holds `db` and waits for `web`.
abbrev at_web : Loop
at_web = record { context = hold db idle; taken = (db, 0) ∷ []; left = web ∷ [] }

db_taken :
    after_acquire idle [] db (acquire no_locks idle db true).1
    ≡ onward (hold db idle) ((db, 0) ∷ [])
unfolding after_acquire acquire want lookup contains
db_taken = refl

at_web-Reaches : Reaches idle given at_web
at_web-Reaches =
    goes (begin_all idle given) db (web ∷ []) no_locks (hold db idle) ((db, 0) ∷ []) begins
      lock_order-given db_taken

abbrev waiter : Waiter
waiter = record {
  ctx = idle;
  names = given;
  bare = refl;
  state = at_web;
  reached = at_web-Reaches;
  waits = web;
  later = [];
  next = refl;
}

no_deadlock_example : ¬ Chain waiter waiter
no_deadlock_example = no_deadlock waiter

acquire_all-Left_example :
    let r = acquire_all no_locks idle given (true ∷ true ∷ []) in
    Left no_locks (lock_order given) r r.failed
acquire_all-Left_example = acquire_all-Left no_locks idle given (true ∷ true ∷ [])

failed_context_example :
    let r = acquire_all no_locks idle given (true ∷ false ∷ []) in
    acquire r.locks r.context db true ≡ (r.locks, held_already)
unfolding contains same
failed_context_example =
    (failed_context no_locks idle db web [] given lock_order-given refl refl refl).2
