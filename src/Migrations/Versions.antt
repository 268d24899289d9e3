-- ===== src/Migrations/Versions.antt =====
-- internal/datastore/migrations/migrations.go: the version that a run of migrations leads to.
use hospitus.Shared.{
  ℕ, ◌≤◌, ◌≡◌, refl, sym, ap, ◌∙◌, inl, inr, Bool, true, List, [], ◌∷◌, ◌++◌, Option, none, some,
  arith, keep, Text, Option-cases,
}
use hospitus.Migrations.{
  Migration, Applied, Database, apply_migration, max, max_version, current_version, migrate,
  sort_migrations, target_of,
}
use hospitus.Migrations.Loops.{is_due, apply_each, apply_from-each, sort_migrations-IsSorted}

abbrev pub greatest : List Migration → ℕ
greatest [] = 0
greatest (m ∷ ms) = max m.version (greatest ms)

max_version-concat :
    (rows : List Applied) (r : Applied)
    → max_version (rows ++ r ∷ []) ≡ max (max_version rows) r.version
max_version-concat [] r = ground arith
max_version-concat (x ∷ xs) r = ground (arith, max_version-concat xs r)

pub greatest-keep_le :
    (low high : ℕ) (ms : List Migration) → greatest (keep (is_due low high) ms) ≤ high
greatest-keep_le low high [] = omega arith
greatest-keep_le low high (m ∷ ms) = ground (arith, greatest-keep_le low high ms)

pub greatest-keep_nil :
    (low high : ℕ) (ms : List Migration)
    → greatest (keep (is_due low high) ms) ≤ low
    → keep (is_due low high) ms ≡ []
greatest-keep_nil low high [] h = refl
greatest-keep_nil low high (m ∷ ms) h = ground (arith, greatest-keep_nil low high ms)

-- The bound may be lowered to the greatest version that is chosen.
pub keep-lower :
    (low high bound : ℕ) (ms : List Migration)
    → greatest (keep (is_due low high) ms) ≤ bound
    → bound ≤ max low high
    → keep (is_due low bound) ms ≡ keep (is_due low high) ms
keep-lower low high bound [] h k = refl
keep-lower low high bound (m ∷ ms) h k = ground (arith, keep-lower low high bound ms)

module _ {S : Type 0} (exec : Text → S → Option S) (commits : Migration → Bool) where
  apply_migration-version :
      (db db' : Database S) (m : Migration)
      → apply_migration exec commits db m ≡ some db'
      → max_version db'.rows ≡ max (max_version db.rows) m.version
  unfolding apply_migration
  apply_migration-version db db' m h = ground (
    arith,
    max_version-concat db.rows (record { version = m.version; description = m.description }),
  )

  pub apply_each-version :
      (ms : List Migration) (db db' : Database S)
      → apply_each exec commits ms db ≡ (db', none)
      → max_version db'.rows ≡ max (max_version db.rows) (greatest ms)
  apply_each-version [] db db' h = ground arith
  apply_each-version (m ∷ ms) db db' h = elim (Option-cases (apply_migration exec commits db m)) [
    | inl e ↦ ground (arith, e)
    | inr (mid, e) ↦
        ground (arith, e, apply_migration-version db mid m e, apply_each-version ms mid db')
  ]

  keep-done :
      (low high reached : ℕ) (ms : List Migration)
      → low ≤ reached
      → greatest (keep (is_due low high) ms) ≤ reached
      → keep (is_due reached high) ms ≡ []
  keep-done low high reached [] h k = refl
  keep-done low high reached (m ∷ ms) h k = ground (arith, keep-done low high reached ms)

  pub migrate-apply_each :
      (ms : List Migration) (target : ℕ) (db : Database S)
      → migrate exec commits true ms target db
        ≡ apply_each exec commits
            (keep
              (is_due (current_version db) (target_of exec commits target (sort_migrations ms)))
              (sort_migrations ms))
            db
  unfolding migrate
  migrate-apply_each ms target db =
      apply_from-each exec commits (current_version db)
        (target_of exec commits target (sort_migrations ms)) (sort_migrations ms) db
        (sort_migrations-IsSorted ms)

  -- Where a migration to a target succeeds, the same migration again succeeds and changes nothing.
  pub migrate-migrate :
      (ms : List Migration) (target : ℕ) (db db' : Database S)
      → migrate exec commits true ms target db ≡ (db', none)
      → migrate exec commits true ms target db' ≡ (db', none)
  unfolding current_version
  migrate-migrate ms target db db' h =
      let sorted = sort_migrations ms in
      let goal = target_of exec commits target sorted in
      let reached =
        apply_each-version (keep (is_due (max_version db.rows) goal) sorted) db db'
          (sym (migrate-apply_each ms target db) ∙ h) in
      migrate-apply_each ms target db'
      ∙ ap (λ due. apply_each exec commits due db')
          (keep-done (max_version db.rows) goal (max_version db'.rows) sorted
            (ground (arith, reached)) (ground (arith, reached)))
