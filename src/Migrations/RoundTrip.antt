-- ===== src/Migrations/RoundTrip.antt =====
-- internal/datastore/migrations/migrations.go: Rollback undoes what Migrate did.
use hospitus.Shared.{
  ℕ, ◌≡◌, refl, Bool, true, false, List, [], ◌∷◌, Option, some, ltb, arith, All, Text,
}
use hospitus.Migrations.{Migration, Applied, has_version, delete_version, has_executable_sql}

delete_version-missing :
    (v : ℕ) (rows : List Applied) → has_version v rows ≡ false → delete_version v rows ≡ rows
delete_version-missing v [] h = refl
delete_version-missing v (r ∷ rs) h = ground (arith, delete_version-missing v rs)

module _ {S : Type 0} (exec : Text → S → Option S) (commits : Migration → Bool) where
  -- The down script is one, and takes back what the up script did.
  pub record IsReversible (m : Migration) : Type 0 where
    pub executable : has_executable_sql m.down ≡ true
    pub undoes : (s t : S) → exec m.up s ≡ some t → exec m.down t ≡ some s

  -- Each migration that is newer than the version `v` can be undone.
  abbrev pub NewerReversible : ℕ → List Migration → Type 0
  NewerReversible v = All (λ m. ltb v m.version ≡ true → IsReversible m)
