-- ===== src/Job.antt =====
-- pkg/job/job.go: one job. Its manager is in Job/Manager.antt.
--
-- A `Job` object is shared by pointer; here it stands in the manager's heap, and this file has
-- the methods that read and write one object. A float64 is a whole number of units of 2^-1074, of
-- which every finite float64 is a multiple, so that comparisons are exact.
pub mod Progress
pub mod Manager
pub mod Places
pub mod Lifecycle
pub mod Queue
pub mod Registry
pub mod Drain
pub mod Stats
mod Tests
use hospitus.Shared.{
  ℕ, ◌^◌, ◌+◌, ◌-◌, ◌/◌, ◌%◌, Bool, true, false, List, [], ◌∷◌, ◌++◌, Option, none, some, ltb, ◌==◌,
  if◌then◌else◌, Text, codes, Dict,
}

pub data JobStatus : Type 0 where
  pending running completed failed canceled : JobStatus

pub JobStatus-discrete : Discrete JobStatus
JobStatus-discrete = hlevel

abbrev pub status_name : JobStatus → Text
status_name pending = codes "pending"
status_name running = codes "running"
status_name completed = codes "completed"
status_name failed = codes "failed"
status_name canceled = codes "canceled"

-- `minus n` is -(n + 1) units.
pub data Float64 : Type 0 where
  nan pos_inf neg_inf : Float64
  minus : ℕ → Float64
  units : ℕ → Float64

unfoldable pub one_units : ℕ
one_units = 2 ^ 1074

abbrev pub float_zero : Float64
float_zero = units 0

abbrev pub float_one : Float64
float_one = units one_units

-- `a < b` on float64; false on NaN.
unfoldable pub less : Float64 → Float64 → Bool
less nan b = false
less a nan = false
less pos_inf b = false
less a neg_inf = false
less a pos_inf = true
less neg_inf b = true
less (minus m) (minus n) = ltb n m
less (minus m) (units n) = true
less (units m) (minus n) = false
less (units m) (units n) = ltb m n

abbrev pub is_nan : Float64 → Bool
is_nan nan = true
is_nan _ = false

-- What a job holds. `cancel_set` says that `cancel` is not nil; `ctx_canceled` that it was called;
-- `done` that the channel `done` is closed. The values of `result` are kept as text.
pub record Job : Type 0 where
  pub id : Text
  pub job_type : Text
  pub description : Text
  pub status : JobStatus
  pub progress : Float64
  pub message : Text
  pub result : Dict Text
  pub error : Text
  pub created_at : ℕ
  pub started_at : Option ℕ
  pub completed_at : Option ℕ
  pub metadata : Dict Text
  pub cancel_set : Bool
  pub ctx_canceled : Bool
  pub done : Bool

unfoldable pub clamp : Float64 → Float64
clamp progress =
    let number = if is_nan progress then float_zero else progress in
    let raised = if less number float_zero then float_zero else number in
    if less float_one raised then float_one else raised

unfoldable pub update_progress : Float64 → Text → Job → Job
update_progress progress message j = record j { progress = clamp progress; message = message }

unfoldable pub set_result : Dict Text → Job → Job
set_result result j = record j { result = result }

-- The persistable fields.
pub record JobRecord : Type 0 where
  pub id : Text
  pub job_type : Text
  pub description : Text
  pub status : JobStatus
  pub progress : Float64
  pub message : Text
  pub result : Dict Text
  pub error : Text
  pub created_at : ℕ
  pub started_at : Option ℕ
  pub completed_at : Option ℕ
  pub metadata : Dict Text

unfoldable pub snapshot : Job → JobRecord
snapshot j = record {
  id = j.id;
  job_type = j.job_type;
  description = j.description;
  status = j.status;
  progress = j.progress;
  message = j.message;
  result = j.result;
  error = j.error;
  created_at = j.created_at;
  started_at = j.started_at;
  completed_at = j.completed_at;
  metadata = j.metadata;
}

-- `hex.EncodeToString`.
abbrev hex_digit : ℕ → ℕ
hex_digit n = if ltb n 10 then b'0' + n else b'a' + n - 10

pub hex : List ℕ → Text
hex [] = []
hex (b ∷ bs) = hex_digit (b / 16) ∷ hex_digit (b % 16) ∷ hex bs

-- The object that `Submit` makes.
unfoldable pub new_job : List ℕ → Text → Text → Dict Text → ℕ → Job
new_job bytes job_type description metadata now = record {
  id = codes "job-" ++ hex bytes;
  job_type = job_type;
  description = description;
  status = pending;
  progress = float_zero;
  message = [];
  result = [];
  error = [];
  created_at = now;
  started_at = none;
  completed_at = none;
  metadata = metadata;
  cancel_set = false;
  ctx_canceled = false;
  done = false;
}
