-- ===== src/Policy/Tests.antt =====
-- The reserve policy on one snapshot (codex_work_scheduler/policy.py).
use codex_work_scheduler.Common.{◌*◌, ◌≡◌, refl, ◌↔◌, true, false, none, some, [], ◌∷◌}
use codex_work_scheduler.Common.Int.{sub_ℕ}
use codex_work_scheduler.Common.Codes.{insert_code, sorted_set}
use codex_work_scheduler.Contracts.{unit, Policy, Usage, Snapshot}
use codex_work_scheduler.Policy.{
  evaluate_policy, has_signal_failure, no_usage, raw_reasons, age_reasons, window_reasons,
  window_report,
}
use codex_work_scheduler.Policy.Eligible.{MayStart, eligible-MayStart}
use codex_work_scheduler.Policy.Reasons.{HasSignal, has_signal_failure-HasSignal}

-- The policy of scheduler.example.json.
abbrev pub sample_policy : Policy
sample_policy = record {
  five_hour_reserve_percent = 10 * unit;
  weekly_reserve_percent = 10 * unit;
  estimate_multiplier = 1_250_000_000;
  max_snapshot_age_seconds = 300;
  lease_seconds = 300;
  max_concurrency = 1;
}

abbrev pub sample_snapshot : Snapshot
sample_snapshot = record {
  observed_at = 1000 * unit;
  source = "fixture";
  profile_key = "default";
  limit_id = "codex";
  account_fingerprint = "f";
  account_type = "chatgpt";
  plan_type = none;
  credit_signal = "absent";
  paid_credit_state = "unavailable";
  spend_control_state = "not_reached";
  rate_limit_reached_type = none;
  five_hour = record {
    window_duration_minutes = 300;
    used_percent = 40 * unit;
    remaining_percent = 60 * unit;
    resets_at = 9000 * unit;
  };
  weekly = record {
    window_duration_minutes = 10_080;
    used_percent = 80 * unit;
    remaining_percent = 20 * unit;
    resets_at = 90_000 * unit;
  };
}

abbrev pub sample_usage : Usage
sample_usage = record { five_hour_percent = 5 * unit; weekly_percent = 10 * unit }

-- 10 percent at the factor 1.25 do not leave 10 of the 20 percent of the week.
weekly_denied :
    (evaluate_policy (some sample_snapshot) sample_policy (1100 * unit) (some sample_usage)).reasons
    ≡ "WEEKLY_RESERVE" ∷ []
unfolding evaluate_policy raw_reasons age_reasons window_reasons window_report sorted_set
    insert_code sub_ℕ
weekly_denied = refl

stale_sorted :
    (evaluate_policy (some sample_snapshot) sample_policy (9500 * unit) (some sample_usage)).reasons
    ≡ "SIGNAL_STALE" ∷ "WEEKLY_RESERVE" ∷ []
unfolding evaluate_policy raw_reasons age_reasons window_reasons window_report sorted_set
    insert_code sub_ℕ
stale_sorted = refl

eligible-MayStart_example :
    ((evaluate_policy (some sample_snapshot) sample_policy (1100 * unit) none).eligible ≡ true)
    ↔ MayStart sample_snapshot sample_policy (1100 * unit) no_usage
eligible-MayStart_example = eligible-MayStart sample_snapshot sample_policy (1100 * unit) none

has_signal_failure-HasSignal_example :
    (has_signal_failure
        (evaluate_policy (some sample_snapshot) sample_policy (1100 * unit) (some sample_usage))
      ≡ false)
    ↔ HasSignal sample_snapshot sample_policy (1100 * unit)
has_signal_failure-HasSignal_example =
    has_signal_failure-HasSignal sample_snapshot sample_policy (1100 * unit) (some sample_usage)
