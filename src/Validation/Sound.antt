-- ===== src/Validation/Sound.antt =====
-- What a value that passed its validator satisfies (codex_work_scheduler/validation.py).
use codex_work_scheduler.Common.{err, ℕ, ◌*◌, ◌≤◌, ◌≡◌, [], ok, arith}
use codex_work_scheduler.Common.Int.{ℤ, pos, negsuc}
use codex_work_scheduler.Common.Ensures.{
  Ensures-if, Ensures, Ensures-bind, Ensures-then, Ensures-ok,
}
use codex_work_scheduler.Contracts.{unit, Policy}
use codex_work_scheduler.Json.{
  is_huge, Value, null, bool, int, float, non_finite, str, arr, obj, get, scale,
}
use codex_work_scheduler.Validation.Fields.{object, exact_keys, version, number, integer, in_range}
use codex_work_scheduler.Validation.Policies.{validate_policy, policy_keys}

abbrev pub IsWithin : ℕ → ℕ → ℕ → Type 0
IsWithin low high n = (low ≤ n) × (n ≤ high)

in_range-IsWithin : (low high : ℕ) (x : ℤ) → Ensures (IsWithin low high) (in_range low high x)
in_range-IsWithin low high (pos n) = ground arith
in_range-IsWithin low high (negsuc n) = tt

pub number-IsWithin : (v : Value) (low high : ℕ) → Ensures (IsWithin low high) (number v low high)
unfolding number
number-IsWithin (int n) low high =
    Ensures-if (IsWithin low high) (is_huge n) (err "OverflowError") (in_range low high (scale n))
      (λ _. tt) (λ _. in_range-IsWithin low high (scale n))
number-IsWithin (float x) low high = in_range-IsWithin low high x
number-IsWithin null low high = tt
number-IsWithin (bool b) low high = tt
number-IsWithin non_finite low high = tt
number-IsWithin (str s) low high = tt
number-IsWithin (arr vs) low high = tt
number-IsWithin (obj fs) low high = tt

pub integer-IsWithin : (v : Value) (low high : ℕ) → Ensures (IsWithin low high) (integer v low high)
unfolding integer
integer-IsWithin (int n) low high = in_range-IsWithin low high n
integer-IsWithin (float x) low high = tt
integer-IsWithin null low high = tt
integer-IsWithin (bool b) low high = tt
integer-IsWithin non_finite low high = tt
integer-IsWithin (str s) low high = tt
integer-IsWithin (arr vs) low high = tt
integer-IsWithin (obj fs) low high = tt

-- The ranges of a policy: reserves from 0 to 100 percent, a safety factor from 1 to 10, an age of
-- at most an hour, a lease from 5 seconds to an hour, and one run at a time.
pub record IsSafePolicy (p : Policy) : Type 0 where
  pub five_hour : p.five_hour_reserve_percent ≤ 100 * unit
  pub weekly : p.weekly_reserve_percent ≤ 100 * unit
  pub factor_low : unit ≤ p.estimate_multiplier
  pub factor_high : p.estimate_multiplier ≤ 10 * unit
  pub age_low : 1 ≤ p.max_snapshot_age_seconds
  pub age_high : p.max_snapshot_age_seconds ≤ 3600
  pub lease_low : 5 ≤ p.lease_seconds
  pub lease_high : p.lease_seconds ≤ 3600
  pub concurrency : p.max_concurrency ≡ 1

-- Every policy that passes the validator lies in its ranges.
pub validate_policy-IsSafePolicy :
    (v : Value) {p : Policy} → validate_policy v ≡ ok p → IsSafePolicy p
unfolding validate_policy
validate_policy-IsSafePolicy v = Ensures-ok IsSafePolicy (validate_policy v) (
    Ensures-then IsSafePolicy (object v) _ λ fs.
      Ensures-then IsSafePolicy (exact_keys fs policy_keys []) _ λ _.
        Ensures-then IsSafePolicy (version fs) _ λ _.
          Ensures-bind (IsWithin 0 (100 * unit)) IsSafePolicy _ _
            (number-IsWithin (get "five_hour_reserve_percent" fs) 0 (100 * unit))
            λ a ha.
              Ensures-bind (IsWithin 0 (100 * unit)) IsSafePolicy _ _
                (number-IsWithin (get "weekly_reserve_percent" fs) 0 (100 * unit))
                λ b hb.
                  Ensures-bind (IsWithin unit (10 * unit)) IsSafePolicy _ _
                    (number-IsWithin (get "estimate_multiplier" fs) unit (10 * unit))
                    λ c hc.
                      Ensures-bind (IsWithin 1 3600) IsSafePolicy _ _
                        (integer-IsWithin (get "max_snapshot_age_seconds" fs) 1 3600)
                        λ d hd.
                          Ensures-bind (IsWithin 5 3600) IsSafePolicy _ _
                            (integer-IsWithin (get "lease_seconds" fs) 5 3600)
                            λ e he.
                              Ensures-bind (IsWithin 1 1) IsSafePolicy _ _
                                (integer-IsWithin (get "max_concurrency" fs) 1 1)
                                λ f hf. omega arith)
