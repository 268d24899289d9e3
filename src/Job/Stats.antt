-- ===== src/Job/Stats.antt =====
-- `Stats` counts each job once.
use hospitus.Shared.{
  ℕ, ◌+◌, ◌≡◌, refl, Bool, true, false, [], ◌∷◌, Option, none, some, arith, inl, inr, length,
  Option-cases, Text, Dict, lookup, insert, lookup-insert, same, same_iff, same_refl, codes,
  if◌then◌else◌,
}
use hospitus.Job.{JobStatus, pending, running, completed, failed, canceled, status_name}
use hospitus.Job.Manager.{JobManager, status_of, bump, count_statuses, stats}

abbrev pub value_or_zero : Option ℕ → ℕ
value_or_zero none = 0
value_or_zero (some n) = n

-- A missing key reads as 0.
abbrev pub stat : Text → Dict ℕ → ℕ
stat key m = value_or_zero (lookup key m)

abbrev pub same_status : JobStatus → JobStatus → Bool
same_status pending pending = true
same_status running running = true
same_status completed completed = true
same_status failed failed = true
same_status canceled canceled = true
same_status _ _ = false

abbrev pub tally : JobManager → JobStatus → Dict ℕ → ℕ
tally jm s [] = 0
tally jm s ((id, a) ∷ m) =
    elim (status_of jm a) [ none ↦ 0 | some t ↦ if same_status t s then 1 else 0 ] + tally jm s m

same-status_name : (s t : JobStatus) → same (status_name s) (status_name t) ≡ same_status s t
unfolding same
same-status_name pending pending = refl
same-status_name pending _ = refl
same-status_name running pending = refl
same-status_name running _ = refl
same-status_name completed pending = refl
same-status_name completed _ = refl
same-status_name failed pending = refl
same-status_name failed _ = refl
same-status_name canceled pending = refl
same-status_name canceled _ = refl

stat-bump :
    (s t : JobStatus) (m : Dict ℕ)
    → stat (status_name s) (bump (status_name t) m)
      ≡ (if same_status t s then 1 else 0) + stat (status_name s) m
stat-bump s t m = elim (Option-cases (lookup (status_name t) m)) [
  | inl missing ↦ ground (
    arith,
    missing,
    lookup-insert (status_name t) (status_name s) 1 m,
    same-status_name t s,
    same_iff (status_name t) (status_name s),
  )
  | inr (n, found) ↦ ground (
    arith,
    found,
    lookup-insert (status_name t) (status_name s) (n + 1) m,
    same-status_name t s,
    same_iff (status_name t) (status_name s),
  )
]

count_statuses-tally :
    (jm : JobManager) (s : JobStatus) (m : Dict ℕ) (counted : Dict ℕ)
    → stat (status_name s) (count_statuses jm m counted)
      ≡ tally jm s m + stat (status_name s) counted
unfolding count_statuses
count_statuses-tally jm s [] counted = omega arith
count_statuses-tally jm s ((id, a) ∷ m) counted = elim (Option-cases (status_of jm a)) [
  | inl missing ↦ rw missing (ground (arith, count_statuses-tally jm s m counted))
  | inr (t, found) ↦ rw found (
      omega
        (arith, count_statuses-tally jm s m (bump (status_name t) counted), stat-bump s t counted))
]

-- The two keys that are no status.
other_keys :
    (s : JobStatus)
    → (same (codes "total") (status_name s) ≡ false)
      × (same (codes "queue_depth") (status_name s) ≡ false)
unfolding same
other_keys pending = (refl, refl)
other_keys _ = (refl, refl)

stat-nil : (k : Text) → stat k [] ≡ 0
unfolding lookup
stat-nil k = refl

-- `Stats` gives for each status the number of jobs of the map that have it, and the length of the
-- queue.
pub stats-tally :
    (jm : JobManager) (s : JobStatus)
    → (stat (status_name s) (stats jm) ≡ tally jm s jm.jobs)
      × (stat (codes "queue_depth") (stats jm) ≡ length jm.queue)
unfolding stats
stats-tally jm s =
    let counted = count_statuses jm jm.jobs [] in
    let (total, depth) = other_keys s in
    (
      ground (
        arith,
        total,
        depth,
        count_statuses-tally jm s jm.jobs [],
        stat-nil (status_name s),
        lookup-insert (codes "queue_depth") (status_name s) (length jm.queue)
            (insert (codes "total") (length jm.jobs) counted),
        lookup-insert (codes "total") (status_name s) (length jm.jobs) counted,
      ),
      ground (
        arith,
        same_refl (codes "queue_depth"),
        lookup-insert (codes "queue_depth") (codes "queue_depth") (length jm.queue)
            (insert (codes "total") (length jm.jobs) counted),
      ),
    )
