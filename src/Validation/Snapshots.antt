-- ===== src/Validation/Snapshots.antt =====
-- `validate_window`, `validate_snapshot` and `ensure_profile` of
-- codex_work_scheduler/validation.py.
use codex_work_scheduler.Common.{
  ℕ, Bool, ◌*◌, ◌+◌, String, ◌==◌, ◌&&◌, ◌||◌, not, Option, none, some, false, List, [], ◌∷◌,
  str_eq, ltb, if◌then◌else◌, Result, ok, err, ◌>>=◌, ◌>>◌, guard,
}
use codex_work_scheduler.Contracts.{unit, max_time, Window, Snapshot}
use codex_work_scheduler.Json.{
  Value, null, bool, int, float, non_finite, str, arr, obj, get, is_hashable,
}
use codex_work_scheduler.Validation.Fields.{
  object, exact_keys, number, integer, text, is_text, validate_identifier,
}
use codex_work_scheduler.Validation.Jobs.{one_of}
use codex_work_scheduler.Validation.Approvals.{hex_digest}

abbrev pub window_keys : List String
window_keys = "window_duration_minutes" ∷ "used_percent" ∷ "remaining_percent" ∷ "resets_at" ∷ []

-- `abs((100.0 - used) - remaining) > 0.000001`, for percentages.
unfoldable pub is_inconsistent : ℕ → ℕ → Bool
is_inconsistent used remaining =
    ltb (used + remaining + 1000) (100 * unit) || ltb (100 * unit + 1000) (used + remaining)

-- `validate_window`
unfoldable pub validate_window : Value → ℕ → Result Window
validate_window value expected_minutes = do
  fs ← object value
  exact_keys fs window_keys []
  duration ← integer (get "window_duration_minutes" fs) 1 100_000
  guard (duration == expected_minutes) "SIGNAL_INVALID"
  used ← number (get "used_percent" fs) 0 (100 * unit)
  remaining ← number (get "remaining_percent" fs) 0 (100 * unit)
  guard (not (is_inconsistent used remaining)) "SIGNAL_INVALID"
  resets_at ← number (get "resets_at" fs) 0 max_time
  ok (record {
    window_duration_minutes = duration;
    used_percent = used;
    remaining_percent = remaining;
    resets_at = resets_at;
  })

abbrev pub snapshot_keys : List String
snapshot_keys =
    "schema_version" ∷ "observed_at" ∷ "source" ∷ "profile_key" ∷ "limit_id" ∷ "account_fingerprint"
    ∷ "account_type" ∷ "plan_type" ∷ "credit_signal" ∷ "paid_credit_state" ∷ "spend_control_state"
    ∷ "rate_limit_reached_type" ∷ "five_hour" ∷ "weekly" ∷ []

-- A text of at most 64 characters, or null.
unfoldable pub optional_text : Value → Result (Option String)
optional_text null = ok none
optional_text (str s) = text (str s) false 64 >>= λ t. ok (some t)
optional_text (bool b) = err "SCHEMA_INVALID"
optional_text (int n) = err "SCHEMA_INVALID"
optional_text (float x) = err "SCHEMA_INVALID"
optional_text non_finite = err "SCHEMA_INVALID"
optional_text (arr vs) = err "SCHEMA_INVALID"
optional_text (obj fs) = err "SCHEMA_INVALID"

-- A text that is one of three. A value that cannot be hashed raises `TypeError`.
unfoldable pub one_of_three : String → String → String → Value → Result String
one_of_three a b c v =
    if not (is_hashable v)
    then err "TypeError"
    else if is_text a v
    then ok a
    else if is_text b v
    then ok b
    else if is_text c v
    then ok c
    else err "SCHEMA_INVALID"

-- The credit signal that goes with a state of the paid credits.
abbrev pub expected_credit_signal : String → String
expected_credit_signal state =
    if str_eq state "available"
    then "present"
    else if str_eq state "unavailable"
    then "absent"
    else "unknown"

-- `validate_snapshot`
unfoldable pub validate_snapshot : Value → Result Snapshot
validate_snapshot value = do
  fs ← object value
  exact_keys fs snapshot_keys []
  guard (is_text "3" (get "schema_version" fs)) "SCHEMA_UNSUPPORTED"
  source ← one_of "codex_app_server" "fixture" (get "source" fs)
  plan_type ← optional_text (get "plan_type" fs)
  reached ← optional_text (get "rate_limit_reached_type" fs)
  credit_signal ← one_of_three "absent" "present" "unknown" (get "credit_signal" fs)
  paid ← one_of_three "available" "unavailable" "unknown" (get "paid_credit_state" fs)
  spend ← one_of_three "reached" "not_reached" "unknown" (get "spend_control_state" fs)
  guard (str_eq credit_signal (expected_credit_signal paid)) "SIGNAL_INVALID"
  account_fingerprint ← hex_digest (get "account_fingerprint" fs)
  observed_at ← number (get "observed_at" fs) 0 max_time
  profile_key ← validate_identifier (get "profile_key" fs)
  limit_id ← validate_identifier (get "limit_id" fs)
  account_type ← validate_identifier (get "account_type" fs)
  five_hour ← validate_window (get "five_hour" fs) 300
  weekly ← validate_window (get "weekly" fs) 10_080
  ok (record {
    observed_at = observed_at;
    source = source;
    profile_key = profile_key;
    limit_id = limit_id;
    account_fingerprint = account_fingerprint;
    account_type = account_type;
    plan_type = plan_type;
    credit_signal = credit_signal;
    paid_credit_state = paid;
    spend_control_state = spend;
    rate_limit_reached_type = reached;
    five_hour = five_hour;
    weekly = weekly;
  })

-- `ensure_profile`, on the profile and the limit of the configuration.
unfoldable pub ensure_profile : Snapshot → String → String → Result (Unit {0})
ensure_profile snapshot profile_key limit_id =
    guard
      (str_eq snapshot.profile_key profile_key
        && (str_eq limit_id "auto" || str_eq snapshot.limit_id limit_id))
      "PROFILE_MISMATCH"
