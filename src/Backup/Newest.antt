-- ===== src/Backup/Newest.antt =====
-- pkg/backup/backup.go: applyRetention keeps the newest backups.
use hospitus.Shared.{
  ℕ, suc, ◌-◌, ◌≤◌, ◌≡◌, refl, ap, ◌∙◌, ◌⊎◌, inl, inr, Bool, true, false, ◌&&◌, ◌||◌, List, [], ◌∷◌,
  ◌++◌, some, ltb, leb, ◌==◌, arith, if◌then◌else◌, All, Text, same, same_iff, same_refl, contains,
  Bool-cases,
}
use hospitus.Backup.{
  BackupInfo, RetentionPolicy, is_incremental_base, find_backup, delete_backup, of_instance,
  insert_newest, newest_first, first_ids, interval_ids, kept_ids, is_young, prune_one, prune,
  apply_retention,
}
use hospitus.Backup.Retention.{find-delete_backup}

-- The backups of the instance that are at least as new, itself included.
abbrev pub count_since : ℕ → List BackupInfo → ℕ
count_since t [] = 0
count_since t (b ∷ bs) =
    let rest = count_since t bs in if leb t b.created_at then suc rest else rest

abbrev IsIn : BackupInfo → List BackupInfo → Type 0
IsIn b [] = true ≡ false
IsIn b (c ∷ cs) = (b ≡ c) ⊎ IsIn b cs

abbrev IsSorted : List BackupInfo → Type 0
IsSorted [] = Unit
IsSorted (b ∷ bs) = All (λ c. c.created_at ≤ b.created_at) bs × IsSorted bs

count_since-insert :
    (t : ℕ) (b : BackupInfo) (bs : List BackupInfo)
    → count_since t (insert_newest b bs) ≡ count_since t (b ∷ bs)
count_since-insert t b [] = refl
count_since-insert t b (c ∷ cs) = ground (arith, count_since-insert t b cs)

count_since-newest_first :
    (t : ℕ) (bs : List BackupInfo) → count_since t (newest_first bs) ≡ count_since t bs
count_since-newest_first t [] = refl
count_since-newest_first t (b ∷ bs) =
    ground (arith, count_since-insert t b (newest_first bs), count_since-newest_first t bs)

IsIn-insert_newest :
    (a b : BackupInfo) (bs : List BackupInfo) → (a ≡ b) ⊎ IsIn a bs → IsIn a (insert_newest b bs)
IsIn-insert_newest a b [] i = i
IsIn-insert_newest a b (c ∷ cs) i =
    by_age (ltb b.created_at c.created_at) (λ j. IsIn-insert_newest a b cs j)
  where
    by_age :
        (d : Bool)
        → ((a ≡ b) ⊎ IsIn a cs → IsIn a (insert_newest b cs))
        → IsIn a (if d then c ∷ insert_newest b cs else b ∷ c ∷ cs)
    by_age false rest = i
    by_age true rest = moved i
      where
        moved : (a ≡ b) ⊎ IsIn a (c ∷ cs) → IsIn a (c ∷ insert_newest b cs)
        moved (inl e) = inr (rest (inl e))
        moved (inr (inl e)) = inl e
        moved (inr (inr j)) = inr (rest (inr j))

IsIn-newest_first : (a : BackupInfo) (bs : List BackupInfo) → IsIn a bs → IsIn a (newest_first bs)
IsIn-newest_first a [] i = i
IsIn-newest_first a (b ∷ bs) (inl e) = IsIn-insert_newest a b (newest_first bs) (inl e)
IsIn-newest_first a (b ∷ bs) (inr j) =
    IsIn-insert_newest a b (newest_first bs) (inr (IsIn-newest_first a bs j))

All-insert_newest :
    (t : ℕ) (b : BackupInfo) (bs : List BackupInfo)
    → b.created_at ≤ t
    → All (λ c. c.created_at ≤ t) bs
    → All (λ c. c.created_at ≤ t) (insert_newest b bs)
All-insert_newest t b [] h all = (h, tt)
All-insert_newest t b (c ∷ cs) h all =
    by_age (ltb b.created_at c.created_at) (All-insert_newest t b cs h all.1)
  where
    by_age :
        (d : Bool)
        → All (λ c. c.created_at ≤ t) (insert_newest b cs)
        → All (λ c. c.created_at ≤ t) (if d then c ∷ insert_newest b cs else b ∷ c ∷ cs)
    by_age true rest = (all.0, rest)
    by_age false rest = (h, all)

older-All :
    (t u : ℕ) (cs : List BackupInfo)
    → t ≤ u
    → All (λ c. c.created_at ≤ t) cs
    → All (λ c. c.created_at ≤ u) cs
older-All t u [] h all = tt
older-All t u (c ∷ cs) h all = (ground (arith, h, all.0), older-All t u cs h all.1)

insert_newest-IsSorted :
    (b : BackupInfo) (cs : List BackupInfo) → IsSorted cs → IsSorted (insert_newest b cs)
insert_newest-IsSorted b [] s = (tt, tt)
insert_newest-IsSorted b (c ∷ cs) s =
    by_age (ltb b.created_at c.created_at) refl (insert_newest-IsSorted b cs s.1)
  where
    by_age :
        (d : Bool)
        → ltb b.created_at c.created_at ≡ d
        → IsSorted (insert_newest b cs)
        → IsSorted (if d then c ∷ insert_newest b cs else b ∷ c ∷ cs)
    by_age true e rest = (All-insert_newest c.created_at b cs (ground (arith, e)) s.0, rest)
    by_age false e rest =
        let le : c.created_at ≤ b.created_at = ground (arith, e) in
        ((le, older-All c.created_at b.created_at cs le s.0), s)

newest_first-IsSorted : (bs : List BackupInfo) → IsSorted (newest_first bs)
newest_first-IsSorted [] = tt
newest_first-IsSorted (b ∷ bs) =
    insert_newest-IsSorted b (newest_first bs) (newest_first-IsSorted bs)

-- In a sorted list, one with few enough that are as new is among the first.
contains-first_ids :
    (n : ℕ) (b : BackupInfo) (bs : List BackupInfo)
    → IsSorted bs
    → IsIn b bs
    → count_since b.created_at bs ≤ n
    → contains b.id (first_ids n bs) ≡ true
unfolding contains
contains-first_ids n b [] s i h = ground (arith, i)
contains-first_ids n b (c ∷ cs) s (inl e) h =
    ground (arith, h, ap (λ x. x.created_at) e, ap (λ x. x.id) e, same_iff b.id c.id)
contains-first_ids n b (c ∷ cs) s (inr j) h =
    ground (arith, h, newer cs s.0 j, contains-first_ids (n - 1) b cs s.1 j)
  where
    newer :
        (ds : List BackupInfo)
        → All (λ d. d.created_at ≤ c.created_at) ds
        → IsIn b ds
        → b.created_at ≤ c.created_at
    newer [] all i = ground (arith, i)
    newer (d ∷ ds) all (inl e) = ground (arith, all.0, ap (λ x. x.created_at) e)
    newer (d ∷ ds) all (inr k) = newer ds all.1 k

contains-append :
    (x : Text) (xs ys : List Text) → contains x (xs ++ ys) ≡ (contains x xs || contains x ys)
unfolding contains
contains-append x [] ys = refl
contains-append x (y ∷ xs) ys = ground (arith, contains-append x xs ys)

prune-kept :
    (removes : Text → Bool) (policy : RetentionPolicy) (now : ℕ) (kept : List Text) (b : BackupInfo)
    (cs bs : List BackupInfo)
    → contains b.id kept ≡ true
    → find_backup b.id bs ≡ some b
    → find_backup b.id (prune removes policy now kept bs cs) ≡ some b
unfolding prune
prune-kept removes policy now kept b [] bs k f = f
prune-kept removes policy now kept b (c ∷ cs) bs k f =
    prune-kept removes policy now kept b cs (prune_one removes policy now kept bs c) k
      (by_case (contains c.id kept || is_young policy now c || is_incremental_base c bs) refl)
  where
    by_case :
        (d : Bool)
        → (contains c.id kept || is_young policy now c || is_incremental_base c bs) ≡ d
        → find_backup b.id (if d then bs else (delete_backup removes bs c.id).0) ≡ some b
    by_case true e = f
    by_case false e =
        find-delete_backup removes bs c.id b.id
          (ground (arith, k, e, same_iff c.id b.id, ap (λ x. contains x kept)))
        ∙ f

IsIn-of_instance :
    (b : BackupInfo) (bs : List BackupInfo)
    → find_backup b.id bs ≡ some b
    → IsIn b (of_instance b.instance_id bs)
IsIn-of_instance b [] f = ground (arith, f)
IsIn-of_instance b (c ∷ cs) f =
    by_instance (same c.instance_id b.instance_id) refl (IsIn-of_instance b cs)
  where
    by_instance :
        (d : Bool)
        → same c.instance_id b.instance_id ≡ d
        → (find_backup b.id cs ≡ some b → IsIn b (of_instance b.instance_id cs))
        → IsIn b (if d then c ∷ of_instance b.instance_id cs else of_instance b.instance_id cs)
    by_instance true e rest = elim (Bool-cases (same c.id b.id)) [
      | inl t ↦ inl (ground (arith, f, t))
      | inr n ↦ inr (rest (ground (arith, f, n)))
    ]
    by_instance false e rest = elim (Bool-cases (same c.id b.id)) [
      | inl t ↦
          let eq : c ≡ b = ground (arith, f, t) in
          ground (arith, e, ap (λ x. x.instance_id) eq, same_refl b.instance_id)
      | inr n ↦ rest (ground (arith, f, n))
    ]

-- A backup with no more than KeepLast backups of its instance that are at least as new, itself
-- included, is still there after the policy was applied, whichever deletions fail.
pub apply_retention-keeps_last :
    (removes : Text → Bool) (policy : RetentionPolicy) (now : ℕ) (backups : List BackupInfo)
    (b : BackupInfo)
    → find_backup b.id backups ≡ some b
    → count_since b.created_at (of_instance b.instance_id backups) ≤ policy.keep_last
    → find_backup b.id (apply_retention removes policy now b.instance_id backups) ≡ some b
unfolding apply_retention kept_ids
apply_retention-keeps_last removes policy now backups b f h = by_policy (
    policy.keep_last == 0
    && policy.keep_hourly == 0
    && policy.keep_daily == 0
    && policy.keep_weekly == 0
    && policy.keep_monthly == 0)
  where
    sorted : List BackupInfo
    sorted = newest_first (of_instance b.instance_id backups)

    first : contains b.id (first_ids policy.keep_last sorted) ≡ true
    first =
        contains-first_ids policy.keep_last b sorted
          (newest_first-IsSorted (of_instance b.instance_id backups))
          (IsIn-newest_first b (of_instance b.instance_id backups) (IsIn-of_instance b backups f))
          (ground
            (arith, h, count_since-newest_first b.created_at (of_instance b.instance_id backups)))

    by_policy :
        (d : Bool)
        → find_backup b.id (
            if d then backups else prune removes policy now (kept_ids policy sorted) backups sorted)
          ≡ some b
    by_policy true = f
    by_policy false =
        prune-kept removes policy now (kept_ids policy sorted) b sorted backups
          (contains-append b.id (first_ids policy.keep_last sorted) (interval_ids policy sorted)
            ∙ ap (λ d. d || contains b.id (interval_ids policy sorted)) first)
          f
