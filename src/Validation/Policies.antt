-- ===== src/Validation/Policies.antt =====
-- `validate_policy` and `validate_usage` of codex_work_scheduler/validation.py.
use codex_work_scheduler.Common.{◌*◌, String, List, [], ◌∷◌, Result, ok, ◌>>=◌, ◌>>◌}
use codex_work_scheduler.Contracts.{unit, Policy, Usage}
use codex_work_scheduler.Json.{Value, get}
use codex_work_scheduler.Validation.Fields.{object, exact_keys, version, number, integer}

abbrev pub policy_keys : List String
policy_keys =
    "schema_version" ∷ "five_hour_reserve_percent" ∷ "weekly_reserve_percent"
    ∷ "estimate_multiplier" ∷ "max_snapshot_age_seconds" ∷ "lease_seconds" ∷ "max_concurrency" ∷ []

-- `validate_policy`
unfoldable pub validate_policy : Value → Result Policy
validate_policy value = do
  fs ← object value
  exact_keys fs policy_keys []
  version fs
  five_hour_reserve_percent ← number (get "five_hour_reserve_percent" fs) 0 (100 * unit)
  weekly_reserve_percent ← number (get "weekly_reserve_percent" fs) 0 (100 * unit)
  estimate_multiplier ← number (get "estimate_multiplier" fs) unit (10 * unit)
  max_snapshot_age_seconds ← integer (get "max_snapshot_age_seconds" fs) 1 3600
  lease_seconds ← integer (get "lease_seconds" fs) 5 3600
  max_concurrency ← integer (get "max_concurrency" fs) 1 1
  ok (record {
    five_hour_reserve_percent = five_hour_reserve_percent;
    weekly_reserve_percent = weekly_reserve_percent;
    estimate_multiplier = estimate_multiplier;
    max_snapshot_age_seconds = max_snapshot_age_seconds;
    lease_seconds = lease_seconds;
    max_concurrency = max_concurrency;
  })

-- `validate_usage`
unfoldable pub validate_usage : Value → Result Usage
validate_usage value = do
  fs ← object value
  exact_keys fs ("five_hour_percent" ∷ "weekly_percent" ∷ []) []
  five_hour_percent ← number (get "five_hour_percent" fs) 0 (100 * unit)
  weekly_percent ← number (get "weekly_percent" fs) 0 (100 * unit)
  ok (record { five_hour_percent = five_hour_percent; weekly_percent = weekly_percent })
