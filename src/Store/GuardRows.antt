-- ===== src/Store/GuardRows.antt =====
-- The rows of `quota_guard_sessions` and `quota_guard_targets` (codex_work_scheduler/store.py).
use codex_work_scheduler.Common.{ℕ, String, Bool, Option, List}

-- `QUOTA_GUARD_SESSION_STATES`
pub data SessionState : Type 0 where
  armed stopping held_quota resuming needs_review disarmed : SessionState

-- `QUOTA_GUARD_TARGET_STATES`
pub data TargetState : Type 0 where
  monitoring stopping held resuming resumed completed needs_review : TargetState

pub record GuardSession : Type 0 where
  pub guard_id : String
  pub state : SessionState
  pub profile_key : String
  pub limit_id : String
  pub threshold_remaining_percent : ℕ
  pub resume_hysteresis_percent : ℕ
  pub check_interval_seconds : ℕ
  pub resume_non_goal_threads : Bool
  pub approval_id : String
  pub plan_hash : String
  pub stop_snapshot_hash : Option String
  pub tripped_windows : List String
  pub next_check_at : ℕ
  pub last_checked_at : Option ℕ
  pub reason_code : Option String
  pub revision : ℕ
  pub created_at : ℕ
  pub updated_at : ℕ

pub record GuardTarget : Type 0 where
  pub guard_id : String
  pub thread_id : String
  pub state : TargetState
  pub original_status : Option String
  pub original_turn_id : Option String
  pub goal_was_active : Bool
  pub goal_changed_by_guard : Bool
  pub goal_pause_updated_at : Option ℕ
  pub reason_code : Option String
  pub revision : ℕ
  pub created_at : ℕ
  pub updated_at : ℕ
