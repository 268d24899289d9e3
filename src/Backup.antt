-- ===== src/Backup.antt =====
-- pkg/backup/backup.go: which backups a retention policy deletes. Times are nanoseconds. The map from
-- instances to their backups stands as one list, in which each backup names its instance. The counts of
-- a policy are natural numbers here; the code does not refuse negative ones.
pub mod Retention
pub mod Newest
mod Tests
use hospitus.Shared.{
  ℕ, suc, ◌+◌, ◌-◌, ◌*◌, ◌/◌, Bool, true, false, not, ◌&&◌, ◌||◌, List, [], ◌∷◌, ◌++◌, Option, none,
  some, ltb, leb, ◌==◌, if◌then◌else◌, keep, Text, same, contains,
}

pub record BackupInfo : Type 0 where
  pub id : Text
  pub instance_id : Text
  pub created_at : ℕ
  pub dataset : Text
  pub snapshot_name : Text
  pub base_snapshot : Text

pub record RetentionPolicy : Type 0 where
  pub keep_last : ℕ
  pub keep_hourly : ℕ
  pub keep_daily : ℕ
  pub keep_weekly : ℕ
  pub keep_monthly : ℕ
  pub min_age : ℕ

abbrev is_blank : Text → Bool
is_blank [] = true
is_blank (x ∷ xs) = false

-- `other` was sent against the snapshot of `b`.
abbrev pub refers : BackupInfo → BackupInfo → Bool
refers b other =
    not (same other.id b.id) && same other.base_snapshot (b.dataset ++ 64 ∷ b.snapshot_name)

abbrev pub is_referred : BackupInfo → List BackupInfo → Bool
is_referred b [] = false
is_referred b (other ∷ others) = let rest = is_referred b others in refers b other || rest

unfoldable pub is_incremental_base : BackupInfo → List BackupInfo → Bool
is_incremental_base b backups =
    not (is_blank b.dataset || is_blank b.snapshot_name) && is_referred b backups

abbrev pub find_backup : Text → List BackupInfo → Option BackupInfo
find_backup id [] = none
find_backup id (b ∷ bs) = let rest = find_backup id bs in if same b.id id then some b else rest

abbrev pub remove_backup : Text → List BackupInfo → List BackupInfo
remove_backup id [] = []
remove_backup id (b ∷ bs) = let rest = remove_backup id bs in if same b.id id then bs else b ∷ rest

-- `removes` says whether what the backup left on the host could be removed.
unfoldable pub delete_backup : (Text → Bool) → List BackupInfo → Text → List BackupInfo × Bool
delete_backup removes backups id = elim (find_backup id backups) [
  | none ↦ (backups, false)
  | some b ↦
      if is_incremental_base b backups
      then (backups, false)
      else if removes id
      then (remove_backup id backups, true)
      else (remove_backup id backups ++ b ∷ [], false)
]

abbrev pub of_instance : Text → List BackupInfo → List BackupInfo
of_instance instance [] = []
of_instance instance (b ∷ bs) =
    let rest = of_instance instance bs in if same b.instance_id instance then b ∷ rest else rest

abbrev pub insert_newest : BackupInfo → List BackupInfo → List BackupInfo
insert_newest b [] = b ∷ []
insert_newest b (c ∷ cs) =
    let rest = insert_newest b cs in if ltb b.created_at c.created_at then c ∷ rest else b ∷ c ∷ cs

-- `sort.Slice` by creation time, newest first; it leaves open how equal times are ordered.
abbrev pub newest_first : List BackupInfo → List BackupInfo
newest_first [] = []
newest_first (b ∷ bs) = insert_newest b (newest_first bs)

abbrev pub first_ids : ℕ → List BackupInfo → List Text
first_ids n [] = []
first_ids n (b ∷ bs) = let rest = first_ids (n - 1) bs in if n == 0 then [] else b.id ∷ rest

abbrev has_bucket : ℕ → List (ℕ × Text) → Bool
has_bucket bucket [] = false
has_bucket bucket (p ∷ ps) = let rest = has_bucket bucket ps in p.0 == bucket || rest

-- The first backup of each bucket.
abbrev buckets_of : ℕ → List BackupInfo → List (ℕ × Text) → List (ℕ × Text)
buckets_of seconds [] buckets = buckets
buckets_of seconds (b ∷ bs) buckets =
    let bucket = b.created_at / 1000000000 / seconds in
    buckets_of seconds bs
      (if has_bucket bucket buckets then buckets else buckets ++ (bucket, b.id) ∷ [])

abbrev insert_bucket : ℕ × Text → List (ℕ × Text) → List (ℕ × Text)
insert_bucket p [] = p ∷ []
insert_bucket p (q ∷ qs) =
    let rest = insert_bucket p qs in if ltb p.0 q.0 then q ∷ rest else p ∷ q ∷ qs

abbrev newest_buckets : List (ℕ × Text) → List (ℕ × Text)
newest_buckets [] = []
newest_buckets (p ∷ ps) = insert_bucket p (newest_buckets ps)

abbrev bucket_ids : ℕ → List (ℕ × Text) → List Text
bucket_ids n [] = []
bucket_ids n (p ∷ ps) = let rest = bucket_ids (n - 1) ps in if n == 0 then [] else p.1 ∷ rest

unfoldable pub keep_by_interval : List BackupInfo → ℕ → ℕ → List Text
keep_by_interval backups count seconds =
    bucket_ids count (newest_buckets (buckets_of seconds backups []))

unfoldable pub interval_ids : RetentionPolicy → List BackupInfo → List Text
interval_ids policy sorted =
    keep_by_interval sorted policy.keep_hourly 3600
    ++ keep_by_interval sorted policy.keep_daily 86400
    ++ keep_by_interval sorted policy.keep_weekly 604800
    ++ keep_by_interval sorted policy.keep_monthly 2592000

unfoldable pub kept_ids : RetentionPolicy → List BackupInfo → List Text
kept_ids policy sorted = first_ids policy.keep_last sorted ++ interval_ids policy sorted

abbrev pub is_young : RetentionPolicy → ℕ → BackupInfo → Bool
is_young policy now b = ltb 0 policy.min_age && ltb now (b.created_at + policy.min_age)

abbrev pub prune_one :
    (Text → Bool) → RetentionPolicy → ℕ → List Text → List BackupInfo → BackupInfo → List BackupInfo
prune_one removes policy now kept backups b =
    if contains b.id kept || is_young policy now b || is_incremental_base b backups
    then backups
    else (delete_backup removes backups b.id).0

unfoldable pub prune :
    (Text → Bool)
    → RetentionPolicy
    → ℕ
    → List Text
    → List BackupInfo
    → List BackupInfo
    → List BackupInfo
prune removes policy now kept backups [] = backups
prune removes policy now kept backups (b ∷ bs) =
    prune removes policy now kept (prune_one removes policy now kept backups b) bs

abbrev keeps_everything : RetentionPolicy → Bool
keeps_everything p =
    p.keep_last == 0
    && p.keep_hourly == 0
    && p.keep_daily == 0
    && p.keep_weekly == 0
    && p.keep_monthly == 0

unfoldable pub apply_retention :
    (Text → Bool) → RetentionPolicy → ℕ → Text → List BackupInfo → List BackupInfo
apply_retention removes policy now instance backups =
    let sorted = newest_first (of_instance instance backups) in
    if keeps_everything policy
    then backups
    else prune removes policy now (kept_ids policy sorted) backups sorted
