-- ===== src/Contracts.antt =====
-- The objects that the validators of codex_work_scheduler/validation.py return and that the rest of
-- the program computes with. A float (a percentage, a time in seconds, a multiplier) is a native
-- number of units of 10⁻⁹: the validators accept no negative float, and the model computes exactly
-- on that grid, without the rounding of doubles. An integer field is a plain native number.
use codex_work_scheduler.Common.{ℕ, String, Option, List}

-- One, in units of 10⁻⁹.
abbrev pub unit : ℕ
unit = 1_000_000_000

-- 32_503_680_000.0, the last time that is accepted (year 3000).
abbrev pub max_time : ℕ
max_time = 32_503_680_000_000_000_000

-- The result of `validate_policy`, less its constant `schema_version`.
pub record Policy : Type 0 where
  pub five_hour_reserve_percent : ℕ
  pub weekly_reserve_percent : ℕ
  pub estimate_multiplier : ℕ
  pub max_snapshot_age_seconds : ℕ
  pub lease_seconds : ℕ
  pub max_concurrency : ℕ

-- The result of `validate_usage`.
pub record Usage : Type 0 where
  pub five_hour_percent : ℕ
  pub weekly_percent : ℕ

-- The result of `validate_window`.
pub record Window : Type 0 where
  pub window_duration_minutes : ℕ
  pub used_percent : ℕ
  pub remaining_percent : ℕ
  pub resets_at : ℕ

-- The result of `validate_snapshot`, less its constant `schema_version`.
pub record Snapshot : Type 0 where
  pub observed_at : ℕ
  pub source : String
  pub profile_key : String
  pub limit_id : String
  pub account_fingerprint : String
  pub account_type : String
  pub plan_type : Option String
  pub credit_signal : String
  pub paid_credit_state : String
  pub spend_control_state : String
  pub rate_limit_reached_type : Option String
  pub five_hour : Window
  pub weekly : Window

-- The optional `simulation` object of a job.
pub record Simulation : Type 0 where
  pub outcome : String
  pub actual_usage : Usage

-- The result of `validate_job`, less its constant `schema_version`.
pub record Job : Type 0 where
  pub job_id : String
  pub work_ref : String
  pub priority : ℕ
  pub expected_usage : Usage
  pub simulation : Option Simulation

-- The `execution` object of a work package.
pub record Execution : Type 0 where
  pub cwd : String
  pub model : String
  pub effort : String
  pub sandbox : String
  pub max_runtime_seconds : ℕ

-- The result of `validate_work_package`, less its constant `schema_version`.
pub record Package : Type 0 where
  pub job : Job
  pub objective : String
  pub execution : Execution
  pub dependencies : List String
  pub not_before : Option ℕ

-- The result of `validate_approval`, less its constant `schema_version`.
pub record Approval : Type 0 where
  pub approval_id : String
  pub actor : String
  pub action : String
  pub scope_hash : String
  pub capabilities : List String
  pub granted_at : ℕ
  pub expires_at : ℕ
