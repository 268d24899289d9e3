-- ===== src/Migrations/Loops.antt =====
-- internal/datastore/migrations/migrations.go: the loops of Migrate and Rollback skip with `continue`
-- and end with `break`; on sorted migrations that is a choice of some of them.
use hospitus.Shared.{
  ℕ, suc, ◌≤◌, ◌≡◌, refl, inl, inr, Bool, ◌&&◌, List, [], ◌∷◌, ◌++◌, Option, none, some, leb, ltb,
  arith, keep, All, Text, Option-cases,
}
use hospitus.Migrations.{
  Migration, Database, Failure, failed, sort_migrations, insert_migration, reverse, apply_migration,
  rollback_migration, apply_from, rollback_from,
}

-- All versions are this one or later, or this one or earlier.
abbrev pub From : ℕ → List Migration → Type 0
From v ms = All (λ m. v ≤ m.version) ms

abbrev pub UpTo : ℕ → List Migration → Type 0
UpTo v ms = All (λ m. m.version ≤ v) ms

abbrev pub IsSorted : List Migration → Type 0
IsSorted [] = Unit
IsSorted (m ∷ ms) = From m.version ms × IsSorted ms

abbrev pub IsReversed : List Migration → Type 0
IsReversed [] = Unit
IsReversed (m ∷ ms) = UpTo m.version ms × IsReversed ms

From-trans : (v w : ℕ) (ms : List Migration) → v ≤ w → From w ms → From v ms
From-trans v w [] h f = tt
From-trans v w (m ∷ ms) h f = (omega (arith, f.0), From-trans v w ms h f.1)

UpTo-trans : (v w : ℕ) (ms : List Migration) → w ≤ v → UpTo w ms → UpTo v ms
UpTo-trans v w [] h f = tt
UpTo-trans v w (m ∷ ms) h f = (omega (arith, f.0), UpTo-trans v w ms h f.1)

insert_migration-From :
    (v : ℕ) (m : Migration) (ms : List Migration)
    → v ≤ m.version
    → From v ms
    → From v (insert_migration m ms)
insert_migration-From v m [] h f = (h, tt)
insert_migration-From v m (x ∷ xs) h f = ground (arith, insert_migration-From v m xs h f.1)

insert_migration-IsSorted :
    (m : Migration) (ms : List Migration) → IsSorted ms → IsSorted (insert_migration m ms)
insert_migration-IsSorted m [] s = (tt, tt)
insert_migration-IsSorted m (x ∷ xs) s = ground (
  arith,
  insert_migration-IsSorted m xs s.1,
  insert_migration-From x.version m xs,
  From-trans m.version x.version xs,
)

pub sort_migrations-IsSorted : (ms : List Migration) → IsSorted (sort_migrations ms)
unfolding sort_migrations
sort_migrations-IsSorted [] = tt
sort_migrations-IsSorted (m ∷ ms) =
    insert_migration-IsSorted m (sort_migrations ms) (sort_migrations-IsSorted ms)

concat-UpTo :
    (v : ℕ) (ms : List Migration) (m : Migration)
    → UpTo v ms
    → m.version ≤ v
    → UpTo v (ms ++ m ∷ [])
concat-UpTo v [] m f h = (h, tt)
concat-UpTo v (x ∷ xs) m f h = (f.0, concat-UpTo v xs m f.1 h)

concat-IsReversed :
    (ms : List Migration) (m : Migration)
    → IsReversed ms
    → From m.version ms
    → IsReversed (ms ++ m ∷ [])
concat-IsReversed [] m s f = (tt, tt)
concat-IsReversed (x ∷ xs) m s f =
    (concat-UpTo x.version xs m s.0 f.0, concat-IsReversed xs m s.1 f.1)

concat-From :
    (v : ℕ) (ms : List Migration) (m : Migration)
    → From v ms
    → v ≤ m.version
    → From v (ms ++ m ∷ [])
concat-From v [] m f h = (h, tt)
concat-From v (x ∷ xs) m f h = (f.0, concat-From v xs m f.1 h)

reverse-From : (v : ℕ) (ms : List Migration) → From v ms → From v (reverse ms)
reverse-From v [] f = tt
reverse-From v (m ∷ ms) f = concat-From v (reverse ms) m (reverse-From v ms f.1) f.0

pub reverse-IsReversed : (ms : List Migration) → IsSorted ms → IsReversed (reverse ms)
reverse-IsReversed [] s = tt
reverse-IsReversed (m ∷ ms) s =
    concat-IsReversed (reverse ms) m (reverse-IsReversed ms s.1) (reverse-From m.version ms s.0)

-- Behind one version and up to another.
abbrev pub is_due : ℕ → ℕ → Migration → Bool
is_due low high m = ltb low m.version && leb m.version high

keep-beyond :
    (low high : ℕ) (ms : List Migration) → From (suc high) ms → keep (is_due low high) ms ≡ []
keep-beyond low high [] f = refl
keep-beyond low high (m ∷ ms) f = ground (arith, f.0, keep-beyond low high ms f.1)

keep-below : (low high : ℕ) (ms : List Migration) → UpTo low ms → keep (is_due low high) ms ≡ []
keep-below low high [] f = refl
keep-below low high (m ∷ ms) f = ground (arith, f.0, keep-below low high ms f.1)

module _ {S : Type 0} (exec : Text → S → Option S) (commits : Migration → Bool) where
  -- One after the other, up to the first failure.
  abbrev pub apply_each : List Migration → Database S → Database S × Option Failure
  apply_each [] db = (db, none)
  apply_each (m ∷ ms) db = elim (apply_migration exec commits db m) [
    | none ↦ (db, some (failed m.version))
    | some db' ↦ apply_each ms db'
  ]

  abbrev pub rollback_each : List Migration → Database S → Database S × Option Failure
  rollback_each [] db = (db, none)
  rollback_each (m ∷ ms) db = elim (rollback_migration exec commits db m) [
    | none ↦ (db, some (failed m.version))
    | some db' ↦ rollback_each ms db'
  ]

  pub apply_from-each :
      (current target : ℕ) (ms : List Migration) (db : Database S)
      → IsSorted ms
      → apply_from exec commits current target ms db
        ≡ apply_each (keep (is_due current target) ms) db
  unfolding apply_from
  apply_from-each current target [] db s = refl
  apply_from-each current target (m ∷ ms) db s =
      elim (Option-cases (apply_migration exec commits db m)) [
        | inl e ↦ ground (
          arith,
          e,
          apply_from-each current target ms db s.1,
          keep-beyond current target ms,
          From-trans (suc target) m.version ms,
        )
        | inr (db', e) ↦ ground (
          arith,
          e,
          apply_from-each current target ms db s.1,
          apply_from-each current target ms db' s.1,
          keep-beyond current target ms,
          From-trans (suc target) m.version ms,
        )
      ]

  pub rollback_from-each :
      (current target : ℕ) (ms : List Migration) (db : Database S)
      → IsReversed ms
      → rollback_from exec commits current target ms db
        ≡ rollback_each (keep (is_due target current) ms) db
  unfolding rollback_from
  rollback_from-each current target [] db s = refl
  rollback_from-each current target (m ∷ ms) db s =
      elim (Option-cases (rollback_migration exec commits db m)) [
        | inl e ↦ ground (
          arith,
          e,
          rollback_from-each current target ms db s.1,
          keep-below target current ms,
          UpTo-trans target m.version ms,
        )
        | inr (db', e) ↦ ground (
          arith,
          e,
          rollback_from-each current target ms db s.1,
          rollback_from-each current target ms db' s.1,
          keep-below target current ms,
          UpTo-trans target m.version ms,
        )
      ]
