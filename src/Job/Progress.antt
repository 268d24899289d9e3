-- ===== src/Job/Progress.antt =====
-- `UpdateProgress` stores a number from 0 to 1.
use hospitus.Shared.{◌≡◌, false, arith}
use hospitus.Job.{
  Float64, nan, pos_inf, neg_inf, minus, units, less, is_nan, float_zero, float_one, clamp,
}

-- A number from 0 to 1.
pub record InUnit (p : Float64) : Type 0 where
  pub number : is_nan p ≡ false
  pub at_least_zero : less p float_zero ≡ false
  pub at_most_one : less float_one p ≡ false

pub float_zero-InUnit : InUnit float_zero
unfolding less
float_zero-InUnit = ground arith

pub float_one-InUnit : InUnit float_one
unfolding less
float_one-InUnit = ground arith

-- Whatever number is reported, what is stored is a number from 0 to 1.
pub clamp-InUnit : (p : Float64) → InUnit (clamp p)
unfolding clamp less
clamp-InUnit nan = ground arith
clamp-InUnit pos_inf = ground arith
clamp-InUnit neg_inf = ground arith
clamp-InUnit (minus n) = ground arith
clamp-InUnit (units n) = ground arith

-- A number from 0 to 1 is stored as it is.
pub clamp-eq_self : (p : Float64) → InUnit p → clamp p ≡ p
unfolding clamp
clamp-eq_self p u = ground arith
