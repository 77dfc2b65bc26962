-- ===== src/Policy.antt =====
-- The reserve policy (codex_work_scheduler/policy.py): whether a quota snapshot lets work of an
-- expected usage start.
pub mod Eligible
pub mod Reasons
pub mod Tests
use codex_work_scheduler.Common.{
  ℕ, ◌*◌, String, Bool, true, false, not, Option, none, some, List, [], ◌∷◌, ◌++◌, any, contains,
  str_eq, if◌then◌else◌, leb,
}
use codex_work_scheduler.Common.Int.{ℤ, pos, negsuc, sub_ℕ, ltb_ℤ, leb_ℤ}
use codex_work_scheduler.Common.Codes.{sorted_set}
use codex_work_scheduler.Contracts.{unit, Policy, Usage, Window, Snapshot}

-- `SIGNAL_REASON_CODES`
abbrev pub signal_reason_codes : List String
signal_reason_codes =
    "SIGNAL_MISSING" ∷ "SIGNAL_STALE" ∷ "SIGNAL_INVALID" ∷ "PROFILE_MISMATCH"
    ∷ "ACCOUNT_IDENTITY_UNAVAILABLE" ∷ "RATE_LIMIT_REACHED" ∷ []

-- What a decision reports of one window. The two products, and what is subtracted from them, are
-- in units of 10⁻¹⁸.
pub record WindowReport : Type 0 where
  pub guarded_estimate_percent : ℕ
  pub post_run_remaining_percent : ℤ
  pub remaining_percent : ℕ
  pub reserve_percent : ℕ
  pub resets_at : ℕ
  pub safe : Bool

-- A decision. The last three fields are absent from the decisions that see no valid snapshot.
pub record Decision : Type 0 where
  pub eligible : Bool
  pub reasons : List String
  pub signal_status : String
  pub credit_signal : Option String
  pub signal_age_seconds : Option ℤ
  pub windows : Option (WindowReport × WindowReport)

unfoldable pub missing_decision : Decision
missing_decision = record {
  eligible = false;
  reasons = "SIGNAL_MISSING" ∷ [];
  signal_status = "missing";
  credit_signal = none;
  signal_age_seconds = none;
  windows = none;
}

unfoldable pub invalid_signal_decision : String → Decision
invalid_signal_decision reason = record {
  eligible = false;
  reasons = reason ∷ [];
  signal_status = "invalid";
  credit_signal = none;
  signal_age_seconds = none;
  windows = none;
}

-- `if snapshot.get("rate_limit_reached_type")`: absent and empty texts are false.
abbrev pub is_truthy : Option String → Bool
is_truthy none = false
is_truthy (some s) = not (str_eq s "")

-- -60 seconds
abbrev pub clock_skew : ℤ
clock_skew = negsuc 59_999_999_999

-- The reasons that the age of the snapshot gives.
unfoldable pub age_reasons : ℤ → Policy → List String
age_reasons age policy =
    if ltb_ℤ age clock_skew
    then "SIGNAL_INVALID" ∷ []
    else if ltb_ℤ (pos (policy.max_snapshot_age_seconds * unit)) age
    then "SIGNAL_STALE" ∷ []
    else []

-- The body of the loop over the two windows: its report, and the reasons that it appends.
unfoldable pub window_report : Window → ℕ → ℕ → ℕ → WindowReport
window_report window reserve expected multiplier =
    let guarded = expected * multiplier in
    let post = sub_ℕ (window.remaining_percent * unit) guarded in
    record {
      guarded_estimate_percent = guarded;
      post_run_remaining_percent = post;
      remaining_percent = window.remaining_percent;
      reserve_percent = reserve;
      resets_at = window.resets_at;
      safe = leb_ℤ (pos (reserve * unit)) post;
    }

unfoldable pub window_reasons : WindowReport → ℕ → String → List String
window_reasons report now reason_code =
    (if leb report.resets_at now then "SIGNAL_STALE" ∷ [] else [])
    ++ (if report.safe then [] else reason_code ∷ [])

unfoldable pub signal_status_of : List String → String
signal_status_of reasons =
    if contains "SIGNAL_STALE" reasons
    then "stale"
    else if contains "SIGNAL_INVALID" reasons
    then "invalid"
    else "fresh"

abbrev pub no_usage : Usage
no_usage = record { five_hour_percent = 0; weekly_percent = 0 }

-- `expected_usage or {...}`
abbrev pub usage_or_none : Option Usage → Usage
usage_or_none none = no_usage
usage_or_none (some u) = u

abbrev pub is_empty : List String → Bool
is_empty [] = true
is_empty (x ∷ xs) = false

-- The reasons in the order in which the code appends them.
unfoldable pub raw_reasons : Snapshot → Policy → ℕ → Usage → List String
raw_reasons snapshot policy now expected =
    age_reasons (sub_ℕ now snapshot.observed_at) policy
    ++ ((if is_truthy snapshot.rate_limit_reached_type then "RATE_LIMIT_REACHED" ∷ [] else [])
        ++ (window_reasons
              (window_report snapshot.five_hour policy.five_hour_reserve_percent
                expected.five_hour_percent policy.estimate_multiplier)
              now "FIVE_HOUR_RESERVE"
            ++ window_reasons
                (window_report snapshot.weekly policy.weekly_reserve_percent expected.weekly_percent
                  policy.estimate_multiplier)
                now "WEEKLY_RESERVE"))

unfoldable pub evaluate_policy : Option Snapshot → Policy → ℕ → Option Usage → Decision
unfolding missing_decision
evaluate_policy none policy now expected_usage = missing_decision
evaluate_policy (some snapshot) policy now expected_usage =
    let expected = usage_or_none expected_usage in
    let reasons = sorted_set (raw_reasons snapshot policy now expected) in
    record {
      eligible = is_empty reasons;
      reasons = reasons;
      signal_status = signal_status_of reasons;
      credit_signal = some snapshot.credit_signal;
      signal_age_seconds = some (sub_ℕ now snapshot.observed_at);
      windows = some (
        window_report snapshot.five_hour policy.five_hour_reserve_percent expected.five_hour_percent
            policy.estimate_multiplier,
        window_report snapshot.weekly policy.weekly_reserve_percent expected.weekly_percent
            policy.estimate_multiplier,
      );
    }

unfoldable pub has_signal_failure : Decision → Bool
has_signal_failure decision = any (λ reason. contains reason signal_reason_codes) decision.reasons
