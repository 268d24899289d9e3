-- ===== src/Backup/Retention.antt =====
-- pkg/backup/backup.go: applyRetention deletes no backup that another one needs.
use hospitus.Shared.{
  ℕ, ◌≡◌, refl, ◌∙◌, ◌⊎◌, inl, inr, Bool, true, false, ◌&&◌, ◌||◌, List, [], ◌∷◌, ◌++◌, some, ◌==◌,
  arith, if◌then◌else◌, Text, same, same_iff, contains, Bool-cases, Option-cases,
}
use hospitus.Backup.{
  BackupInfo, RetentionPolicy, refers, is_referred, is_incremental_base, find_backup, remove_backup,
  delete_backup, of_instance, newest_first, kept_ids, is_young, prune_one, prune, apply_retention,
}

is_referred-append :
    (b c : BackupInfo) (bs : List BackupInfo)
    → is_referred b (bs ++ c ∷ []) ≡ (is_referred b bs || refers b c)
is_referred-append b c [] = ground arith
is_referred-append b c (x ∷ bs) = ground (arith, is_referred-append b c bs)

remove-is_referred :
    (b : BackupInfo) (id : Text) (bs : List BackupInfo)
    → is_referred b bs ≡ false
    → is_referred b (remove_backup id bs) ≡ false
remove-is_referred b id [] h = refl
remove-is_referred b id (x ∷ bs) h = ground (arith, h, remove-is_referred b id bs)

found-is_referred :
    (b c : BackupInfo) (id : Text) (bs : List BackupInfo)
    → is_referred b bs ≡ false
    → find_backup id bs ≡ some c
    → refers b c ≡ false
found-is_referred b c id [] h f = ground (arith, f)
found-is_referred b c id (x ∷ bs) h f = ground (arith, h, f, found-is_referred b c id bs)

find-remove :
    (id other : Text) (bs : List BackupInfo)
    → same other id ≡ false
    → find_backup id (remove_backup other bs) ≡ find_backup id bs
find-remove id other [] e = refl
find-remove id other (x ∷ bs) e =
    ground
      (arith, e, find-remove id other bs, same_iff x.id other, same_iff x.id id, same_iff other id)

find-append :
    (id : Text) (c : BackupInfo) (bs : List BackupInfo)
    → same c.id id ≡ false
    → find_backup id (bs ++ c ∷ []) ≡ find_backup id bs
find-append id c [] e = ground (arith, e)
find-append id c (x ∷ bs) e = ground (arith, e, find-append id c bs)

find-id :
    (id : Text) (c : BackupInfo) (bs : List BackupInfo)
    → find_backup id bs ≡ some c
    → same c.id id ≡ true
find-id id c [] f = ground (arith, f)
find-id id c (x ∷ bs) f = ground (arith, f, find-id id c bs)

-- A deletion of another identifier.
pub find-delete_backup :
    (removes : Text → Bool) (bs : List BackupInfo) (other id : Text)
    → same other id ≡ false
    → find_backup id (delete_backup removes bs other).0 ≡ find_backup id bs
unfolding delete_backup
find-delete_backup removes bs other id e = elim (Option-cases (find_backup other bs)) [
  | inl f ↦ ground (arith, f)
  | inr found ↦ ground (
    arith,
    e,
    found.1,
    find-remove id other bs,
    find-id other found.0 bs found.1,
    same_iff found.0.id other,
    find-append id found.0 (remove_backup other bs),
  )
]

-- The backup is there, or nothing was sent against it.
abbrev Safe : BackupInfo → List BackupInfo → Type 0
Safe b bs = (find_backup b.id bs ≡ some b) ⊎ (is_incremental_base b bs ≡ false)

delete_backup-unreferred :
    (removes : Text → Bool) (b : BackupInfo) (bs : List BackupInfo) (id : Text)
    → is_incremental_base b bs ≡ false
    → is_incremental_base b (delete_backup removes bs id).0 ≡ false
unfolding delete_backup is_incremental_base
delete_backup-unreferred removes b bs id h = elim (Option-cases (find_backup id bs)) [
  | inl f ↦ ground (arith, h, f)
  | inr found ↦ ground (
    arith,
    h,
    found.1,
    remove-is_referred b id bs,
    found-is_referred b found.0 id bs,
    is_referred-append b found.0 (remove_backup id bs),
  )
]

delete_backup-Safe :
    (removes : Text → Bool) (b : BackupInfo) (bs : List BackupInfo) (id : Text)
    → Safe b bs
    → Safe b (delete_backup removes bs id).0
unfolding delete_backup
delete_backup-Safe removes b bs id (inr h) = inr (delete_backup-unreferred removes b bs id h)
delete_backup-Safe removes b bs id (inl f) = elim (Bool-cases (is_incremental_base b bs)) [
  | inr h ↦ inr (delete_backup-unreferred removes b bs id h)
  | inl t ↦ inl (elim (Bool-cases (same id b.id)) [
    | inr e ↦ find-delete_backup removes bs id b.id e ∙ f
    | inl e ↦ ground (arith, same_iff id b.id, e, f, t)
  ])
]

prune-Safe :
    (removes : Text → Bool) (policy : RetentionPolicy) (now : ℕ) (kept : List Text) (b : BackupInfo)
    (cs bs : List BackupInfo)
    → Safe b bs
    → Safe b (prune removes policy now kept bs cs)
unfolding prune
prune-Safe removes policy now kept b [] bs safe = safe
prune-Safe removes policy now kept b (c ∷ cs) bs safe =
    prune-Safe removes policy now kept b cs (prune_one removes policy now kept bs c)
      (by_case (contains c.id kept || is_young policy now c || is_incremental_base c bs))
  where
    by_case : (d : Bool) → Safe b (if d then bs else (delete_backup removes bs c.id).0)
    by_case true = safe
    by_case false = delete_backup-Safe removes b bs c.id safe

-- A backup that another one which is left was sent against is left as well, whatever the policy and
-- whichever deletions fail.
pub apply_retention-chain :
    (removes : Text → Bool) (policy : RetentionPolicy) (now : ℕ) (instance : Text)
    (backups : List BackupInfo) (b : BackupInfo)
    → find_backup b.id backups ≡ some b
    → is_incremental_base b (apply_retention removes policy now instance backups) ≡ true
    → find_backup b.id (apply_retention removes policy now instance backups) ≡ some b
unfolding apply_retention
apply_retention-chain removes policy now instance backups b f t = by_safe (
    by_policy (
      policy.keep_last == 0
      && policy.keep_hourly == 0
      && policy.keep_daily == 0
      && policy.keep_weekly == 0
      && policy.keep_monthly == 0))
  where
    sorted : List BackupInfo
    sorted = newest_first (of_instance instance backups)

    by_policy :
        (d : Bool)
        → Safe b (
            if d then backups else prune removes policy now (kept_ids policy sorted) backups sorted)
    by_policy true = inl f
    by_policy false =
        prune-Safe removes policy now (kept_ids policy sorted) b sorted backups (inl f)

    by_safe :
        Safe b (apply_retention removes policy now instance backups)
        → find_backup b.id (apply_retention removes policy now instance backups) ≡ some b
    by_safe (inl there) = there
    by_safe (inr h) = ground (arith, h, t)
