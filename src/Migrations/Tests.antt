-- ===== src/Migrations/Tests.antt =====
-- A schema that counts its columns, and the theorems at it.
use hospitus.Shared.{
  ℕ, zero, suc, ◌≡◌, refl, Bool, true, false, List, [], ◌∷◌, Option, none, some, Text, codes, same,
  if◌then◌else◌,
}
use hospitus.Migrations.{
  Migration, Database, failed, sort_migrations, rollback_migration, rollback_from, rollback,
  current_version, scan_sql, has_executable_sql,
}

-- `add` adds a column and `drop` removes one.
abbrev drop_one : ℕ → Option ℕ
drop_one zero = none
drop_one (suc n) = some n

abbrev exec : Text → ℕ → Option ℕ
exec script n = if same script (codes "add") then some (suc n) else drop_one n

abbrev commits : Migration → Bool
commits m = true

abbrev adding : ℕ → Migration
adding v = record { version = v; description = []; up = codes "add"; down = codes "drop" }

-- The first one cannot be undone.
abbrev three : List Migration
three =
    adding 3
    ∷ (record { version = 1; description = []; up = codes "add"; down = codes "-- no" })
    ∷ adding 2
    ∷ []

abbrev old : Database ℕ
old = record { schema = 1; rows = (record { version = 1; description = [] }) ∷ [] }

abbrev migrated : Database ℕ
migrated = record {
  schema = 3;
  rows =
      (record { version = 1; description = [] })
      ∷ (record { version = 2; description = [] })
      ∷ (record { version = 3; description = [] })
      ∷ [];
}

-- A comment is nothing to execute, and a migration that cannot be undone stops a rollback.
irreversible_refused :
    (has_executable_sql (codes "  -- no way back") ≡ false)
    × (rollback exec commits true
          ((record { version = 1; description = []; up = codes "add"; down = codes "-- no" }) ∷ [])
          0
          (record { schema = 1; rows = (record { version = 1; description = [] }) ∷ [] })
        ≡ (
          record { schema = 1; rows = (record { version = 1; description = [] }) ∷ [] },
          some (failed 1),
        ))
unfolding has_executable_sql scan_sql rollback rollback_from rollback_migration sort_migrations
    current_version same
irreversible_refused = (refl, refl)
