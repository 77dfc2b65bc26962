-- ===== src/Validation/Tests.antt =====
-- The validators on concrete objects (codex_work_scheduler/validation.py).
use codex_work_scheduler.Common.{
  ℕ, ◌*◌, ◌≡◌, refl, ◌↔◌, ◌⊎◌, true, false, none, [], ◌∷◌, ◌++◌, List, String, ok,
}
use codex_work_scheduler.Common.Int.{pos}
use codex_work_scheduler.Common.Codes.{insert_code, sorted_set}
use codex_work_scheduler.Contracts.{unit, Policy, Approval, Package, Window}
use codex_work_scheduler.Json.{is_huge, Value, null, int, str, arr, obj, nil, cons, end, field}
use codex_work_scheduler.Validation.Fields.{
  object, exact_keys, version, number, integer, matches_tail, matches_identifier, text,
  validate_identifier, text_list, identifiers, array,
}
use codex_work_scheduler.Validation.Identifier.{IsIdentifier, matches_identifier-IsIdentifier}
use codex_work_scheduler.Validation.Approvals.{validate_approval, hex_digest, check_times}
use codex_work_scheduler.Validation.Policies.{validate_policy, validate_usage}
use codex_work_scheduler.Validation.Jobs.{one_of, optional_simulation, validate_job}
use codex_work_scheduler.Validation.Packages.{optional_time, validate_work_package}
use codex_work_scheduler.Validation.Snapshots.{validate_window, is_inconsistent}
use codex_work_scheduler.Validation.Sound.{IsSafePolicy, validate_policy-IsSafePolicy}
use codex_work_scheduler.Validation.Current.{
  IsCurrent, validate_approval-IsCurrent, IsRunnable, validate_work_package-IsRunnable,
  IsConsistent, validate_window-IsConsistent,
}

abbrev pub num : ℕ → Value
num n = int (pos n)

abbrev pub policy_value : Value
policy_value = obj (
    field "schema_version" (str "1") (
      field "five_hour_reserve_percent" (num 10) (
        field "weekly_reserve_percent" (num 20) (
          field "estimate_multiplier" (Value.float (pos 1_250_000_000)) (
            field "max_snapshot_age_seconds" (num 300)
              (field "lease_seconds" (num 60) (field "max_concurrency" (num 1) end)))))))

abbrev pub policy : Policy
policy = record {
  five_hour_reserve_percent = 10 * unit;
  weekly_reserve_percent = 20 * unit;
  estimate_multiplier = 1_250_000_000;
  max_snapshot_age_seconds = 300;
  lease_seconds = 60;
  max_concurrency = 1;
}

policy_accepted : validate_policy policy_value ≡ ok policy
unfolding validate_policy object exact_keys version number is_huge integer
policy_accepted = refl

validate_policy-IsSafePolicy_example : IsSafePolicy policy
validate_policy-IsSafePolicy_example = validate_policy-IsSafePolicy policy_value policy_accepted

abbrev pub digest : String
digest = "0123456789abcdef0123456789abcdef0123456789abcdef0123456789abcdef"

abbrev approval_value : Value
approval_value = obj (
    field "schema_version" (str "1") (
      field "approval_id" (str "apr-1") (
        field "actor" (str "operator") (
          field "action" (str "resume") (
            field "scope_hash" (str digest) (
              field "capabilities" (arr (cons (str "control.local.write") nil))
                (field "granted_at" (num 1000) (field "expires_at" (num 2000) end))))))))

abbrev pub approval : Approval
approval = record {
  approval_id = "apr-1";
  actor = "operator";
  action = "resume";
  scope_hash = digest;
  capabilities = "control.local.write" ∷ [];
  granted_at = 1000 * unit;
  expires_at = 2000 * unit;
}

approval_accepted : validate_approval approval_value (1500 * unit) false ≡ ok approval
unfolding validate_approval object exact_keys version number is_huge text validate_identifier
    text_list check_times hex_digest matches_identifier matches_tail sorted_set insert_code
approval_accepted = refl

validate_approval-IsCurrent_example : IsCurrent approval (1500 * unit)
validate_approval-IsCurrent_example =
    validate_approval-IsCurrent approval_value (1500 * unit) approval_accepted

abbrev usage_value : Value
usage_value = obj (field "five_hour_percent" (num 5) (field "weekly_percent" (num 1) end))

abbrev job_value : Value
job_value = obj (
    field "schema_version" (str "1") (
      field "job_id" (str "job-2") (
        field "work_ref" (str "repo:2")
          (field "priority" (num 50) (field "expected_usage" usage_value end)))))

abbrev package_value : Value
package_value = obj (
    field "schema_version" (str "1") (
      field "job" job_value (
        field "objective" (str "Update the guide.") (
          field "execution"
            (obj (
              field "cwd" (str "work") (
                field "model" (str "m") (
                  field "effort" (str "high") (
                    field "sandbox" (str "read_only")
                      (field "max_runtime_seconds" (num 600) end))))))
            (field "dependencies" (arr (cons (str "job-1") nil)) (field "not_before" null end))))))

abbrev pub work_package : Package
work_package = record {
  job = record {
    job_id = "job-2";
    work_ref = "repo:2";
    priority = 50;
    expected_usage = record { five_hour_percent = 5 * unit; weekly_percent = 1 * unit };
    simulation = none;
  };
  objective = "Update the guide.";
  execution = record {
    cwd = "work";
    model = "m";
    effort = "high";
    sandbox = "read_only";
    max_runtime_seconds = 600;
  };
  dependencies = "job-1" ∷ [];
  not_before = none;
}

package_accepted : validate_work_package package_value ≡ ok work_package
unfolding validate_work_package validate_job validate_usage one_of optional_simulation optional_time
    object exact_keys version number is_huge integer text validate_identifier identifiers array
    matches_identifier matches_tail
package_accepted = refl

validate_work_package-IsRunnable_example : IsRunnable work_package
validate_work_package-IsRunnable_example =
    validate_work_package-IsRunnable package_value package_accepted

abbrev pub window_value : Value
window_value = obj (
    field "window_duration_minutes" (num 300) (
      field "used_percent" (num 40)
        (field "remaining_percent" (num 60) (field "resets_at" (num 9000) end))))

abbrev window : Window
window = record {
  window_duration_minutes = 300;
  used_percent = 40 * unit;
  remaining_percent = 60 * unit;
  resets_at = 9000 * unit;
}

window_accepted : validate_window window_value 300 ≡ ok window
unfolding validate_window object exact_keys number is_huge integer is_inconsistent
window_accepted = refl

validate_window-IsConsistent_example : IsConsistent window 300
validate_window-IsConsistent_example = validate_window-IsConsistent window_value 300 window_accepted

-- "a" followed by a line feed.
matches_identifier-IsIdentifier_example : (matches_identifier (97 ∷ 10 ∷ []) ≡ true) ↔ (
    IsIdentifier (97 ∷ 10 ∷ [])
    ⊎ ((body : List ℕ) × (97 ∷ 10 ∷ [] ≡ body ++ 10 ∷ []) × IsIdentifier body))
matches_identifier-IsIdentifier_example = matches_identifier-IsIdentifier (97 ∷ 10 ∷ [])

line_feed_accepted : matches_identifier (97 ∷ 10 ∷ []) ≡ true
unfolding matches_identifier matches_tail
line_feed_accepted = refl
