-- ===== src/Migrations.antt =====
-- internal/datastore/migrations/migrations.go: the migrator of the database schema. What a database
-- makes of a statement, and whether a transaction can be begun and committed, are parameters.
pub mod Loops
pub mod Versions
pub mod RoundTrip
mod Tests
use hospitus.Shared.{
  ℕ, zero, suc, ◌≡◌, refl, Bool, true, false, not, ◌&&◌, ◌||◌, List, [], ◌∷◌, ◌++◌, Option, none,
  some, leb, ltb, ◌==◌, if◌then◌else◌, length, Text,
}

-- Versions are natural numbers; the code starts them at 1.
pub record Migration : Type 0 where
  pub version : ℕ
  pub description : Text
  pub up : Text
  pub down : Text

-- A row of `schema_versions`; when it was written is left out.
pub record Applied : Type 0 where
  pub version : ℕ
  pub description : Text

-- The rows stand in the order in which they were written.
pub record Database (S : Type 0) : Type 0 where
  pub schema : S
  pub rows : List Applied

-- The database cannot be read, or a migration failed.
pub data Failure : Type 0 where
  unavailable : Failure
  failed : ℕ → Failure

abbrev pub has_version : ℕ → List Applied → Bool
has_version v [] = false
has_version v (r ∷ rs) = r.version == v || has_version v rs

abbrev pub max : ℕ → ℕ → ℕ
max a b = if leb a b then b else a

abbrev pub max_version : List Applied → ℕ
max_version [] = 0
max_version (r ∷ rs) = max r.version (max_version rs)

-- `DELETE FROM schema_versions WHERE version = ?`.
abbrev pub delete_version : ℕ → List Applied → List Applied
delete_version v [] = []
delete_version v (r ∷ rs) =
    let rest = delete_version v rs in if r.version == v then rest else r ∷ rest

-- `sort.Slice` by version.
abbrev pub insert_migration : Migration → List Migration → List Migration
insert_migration m [] = m ∷ []
insert_migration m (x ∷ xs) =
    let rest = insert_migration m xs in if ltb x.version m.version then x ∷ rest else m ∷ x ∷ xs

unfoldable pub sort_migrations : List Migration → List Migration
sort_migrations [] = []
sort_migrations (m ∷ ms) = insert_migration m (sort_migrations ms)

abbrev pub reverse : List Migration → List Migration
reverse [] = []
reverse (m ∷ ms) = reverse ms ++ m ∷ []

-- Where in a line a scan stands: behind white space only, behind one dash, or in a comment.
pub data LinePart : Type 0 where
  blank dash comment : LinePart

-- The white space of ASCII.
abbrev pub is_space : ℕ → Bool
is_space c = c == 32 || (leb 9 c && leb c 13)

-- None where the line has something else.
abbrev pub scan_byte : LinePart → ℕ → Option LinePart
scan_byte blank c = if is_space c then some blank else if c == 45 then some dash else none
scan_byte dash c = if c == 45 then some comment else none
scan_byte comment c = if c == 10 then some blank else some comment

unfoldable pub scan_sql : LinePart → Text → Bool
scan_sql blank [] = false
scan_sql dash [] = true
scan_sql comment [] = false
scan_sql part (c ∷ cs) = elim (scan_byte part c) [ none ↦ true | some next ↦ scan_sql next cs ]

-- `hasExecutableSQL`.
unfoldable pub has_executable_sql : Text → Bool
has_executable_sql body = scan_sql blank body

module _ {S : Type 0} where
  unfoldable pub current_version : Database S → ℕ
  current_version db = max_version db.rows

  -- `exec` gives the schema that a script leaves, or none where it fails; `commits` tells whether the
  -- transaction of a migration is begun and committed. A failed one leaves nothing behind.
  module _ (exec : Text → S → Option S) (commits : Migration → Bool) where
    unfoldable pub apply_migration : Database S → Migration → Option (Database S)
    apply_migration db m = if not (commits m) then none else elim (exec m.up db.schema) [
      | none ↦ none
      | some s ↦
          if has_version m.version db.rows
          then none
          else some (record {
            schema = s;
            rows = db.rows ++ (record { version = m.version; description = m.description }) ∷ [];
          })
    ]

    unfoldable pub rollback_migration : Database S → Migration → Option (Database S)
    rollback_migration db m =
        if not (has_executable_sql m.down) || not (commits m)
        then none
        else elim (exec m.down db.schema) [
          | none ↦ none
          | some s ↦ some (record { schema = s; rows = delete_version m.version db.rows })
        ]

    -- The loop of `Migrate`, with its `continue` and its `break`.
    unfoldable pub apply_from : ℕ → ℕ → List Migration → Database S → Database S × Option Failure
    apply_from current target [] db = (db, none)
    apply_from current target (m ∷ ms) db =
        let next = if leb m.version current then some db else apply_migration db m in
        if ltb current m.version && ltb target m.version then (db, none) else elim next [
          | none ↦ (db, some (failed m.version))
          | some db' ↦ apply_from current target ms db'
        ]

    unfoldable pub rollback_from : ℕ → ℕ → List Migration → Database S → Database S × Option Failure
    rollback_from current target [] db = (db, none)
    rollback_from current target (m ∷ ms) db =
        let next = if ltb current m.version then some db else rollback_migration db m in
        if leb m.version target then (db, none) else elim next [
          | none ↦ (db, some (failed m.version))
          | some db' ↦ rollback_from current target ms db'
        ]

    abbrev pub last_version : ℕ → List Migration → ℕ
    last_version target [] = target
    last_version target (m ∷ ms) = last_version m.version ms

    abbrev pub target_of : ℕ → List Migration → ℕ
    target_of target sorted = if target == 0 then last_version 0 sorted else target

    -- `ready` tells whether the version table can be made and read.
    unfoldable pub migrate : Bool → List Migration → ℕ → Database S → Database S × Option Failure
    migrate ready migrations target db =
        let sorted = sort_migrations migrations in
        if ready
        then apply_from (current_version db) (target_of target sorted) sorted db
        else (db, some unavailable)

    -- `sort.Slice` the other way round.
    unfoldable pub rollback : Bool → List Migration → ℕ → Database S → Database S × Option Failure
    rollback ready migrations target db =
        if not ready
        then (db, some unavailable)
        else if leb (current_version db) target
        then (db, none)
        else rollback_from (current_version db) target (reverse (sort_migrations migrations)) db
