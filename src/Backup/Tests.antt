-- ===== src/Backup/Tests.antt =====
-- Three backups of one instance, of which the newest was sent against the one before, and the
-- theorems at them.
use hospitus.Shared.{◌≡◌, refl, true, List, [], ◌∷◌, some, arith, codes, same, contains}
use hospitus.Backup.{
  BackupInfo, RetentionPolicy, is_incremental_base, find_backup, delete_backup, keep_by_interval,
  interval_ids, kept_ids, prune, apply_retention,
}
use hospitus.Backup.Retention.{apply_retention-chain}
use hospitus.Backup.Newest.{apply_retention-keeps_last}

abbrev oldest : BackupInfo
oldest = record {
  id = codes "b1";
  instance_id = codes "web";
  created_at = 1000000000;
  dataset = codes "tank/web";
  snapshot_name = codes "s1";
  base_snapshot = [];
}

abbrev middle : BackupInfo
middle = record oldest { id = codes "b2"; created_at = 2000000000; snapshot_name = codes "s2" }

abbrev newest : BackupInfo
newest = record oldest {
  id = codes "b3";
  created_at = 3000000000;
  snapshot_name = codes "s3";
  base_snapshot = codes "tank/web@s2";
}

abbrev backups : List BackupInfo
backups = oldest ∷ middle ∷ newest ∷ []

abbrev keep_one : RetentionPolicy
keep_one = record {
  keep_last = 1;
  keep_hourly = 0;
  keep_daily = 0;
  keep_weekly = 0;
  keep_monthly = 0;
  min_age = 0;
}

-- The oldest goes; the middle one stays for the newest.
oldest_goes :
    apply_retention (λ id. true) keep_one 9000000000 (codes "web") backups ≡ middle ∷ newest ∷ []
unfolding apply_retention prune kept_ids interval_ids keep_by_interval is_incremental_base
    delete_backup same contains
oldest_goes = refl

apply_retention-chain_example :
    find_backup
      (codes "b2")
      (apply_retention (λ id. true) keep_one 9000000000 (codes "web") backups)
    ≡ some middle
unfolding apply_retention prune kept_ids interval_ids keep_by_interval is_incremental_base
    delete_backup same contains
apply_retention-chain_example =
    apply_retention-chain (λ id. true) keep_one 9000000000 (codes "web") backups middle refl refl

apply_retention-keeps_last_example :
    find_backup
      (codes "b3")
      (apply_retention (λ id. true) keep_one 9000000000 (codes "web") backups)
    ≡ some newest
unfolding same
apply_retention-keeps_last_example =
    apply_retention-keeps_last (λ id. true) keep_one 9000000000 backups newest refl (omega arith)
