-- ===== src/Store/GuardTests.antt =====
-- The rows of the quota guard on concrete tables (codex_work_scheduler/store.py).
use codex_work_scheduler.Common.{◌≡◌, refl, ◌≢◌, true, false, none, some, [], ◌∷◌, ok, err}
use codex_work_scheduler.Common.Codes.{sorted_set, insert_code}
use codex_work_scheduler.Contracts.{Approval}
use codex_work_scheduler.Store.Tables.{Db}
use codex_work_scheduler.Store.Tests.{fresh_db}
use codex_work_scheduler.Store.GuardRows.{SessionState, TargetState, GuardSession, GuardTarget}
use codex_work_scheduler.Store.Guards.{
  set_state, set_reason_code, has_single_active, get_quota_guard_session,
}
use codex_work_scheduler.Store.GuardWrites.{
  create_quota_guard_session, insert_guard, update_sessions, update_quota_guard_session,
}
use codex_work_scheduler.Store.GuardFence.{
  fence_session, pending_guards, fence_guards, recover_quota_guard_pending,
}
use codex_work_scheduler.Store.GuardFenced.{Fenced, recover_quota_guard_pending-fences}
use codex_work_scheduler.Store.GuardSteps.{GuardSteps, here, after, creating, updating, recovering}
use codex_work_scheduler.Store.Revisions.{IsKey, GuardSteps-IsKey, update_quota_guard_session-once}

abbrev pub approved : Approval
approved = record {
  approval_id = "apr-1";
  actor = "operator";
  action = "quota_guard.arm";
  scope_hash = "plan";
  capabilities = [];
  granted_at = 0;
  expires_at = 100;
}

abbrev pub session : GuardSession
session = record {
  guard_id = "guard-1";
  state = SessionState.armed;
  profile_key = "primary";
  limit_id = "codex";
  threshold_remaining_percent = 10;
  resume_hysteresis_percent = 5;
  check_interval_seconds = 30;
  resume_non_goal_threads = false;
  approval_id = "apr-1";
  plan_hash = "plan";
  stop_snapshot_hash = none;
  tripped_windows = "weekly" ∷ "weekly" ∷ [];
  next_check_at = 30;
  last_checked_at = none;
  reason_code = none;
  revision = 1;
  created_at = 0;
  updated_at = 0;
}

abbrev pub target : GuardTarget
target = record {
  guard_id = "";
  thread_id = "thread-1";
  state = TargetState.monitoring;
  original_status = none;
  original_turn_id = none;
  goal_was_active = true;
  goal_changed_by_guard = false;
  goal_pause_updated_at = none;
  reason_code = none;
  revision = 1;
  created_at = 0;
  updated_at = 0;
}

abbrev pub db : Db
db = record fresh_db { approvals = approved ∷ [] }

abbrev pub stored : GuardSession
stored = record session { tripped_windows = "weekly" ∷ [] }

abbrev pub armed_db : Db
armed_db = record db {
  quota_guard_sessions = stored ∷ [];
  quota_guard_targets = record target { guard_id = "guard-1" } ∷ [];
}

created : create_quota_guard_session session (target ∷ []) db ≡ ok (stored, armed_db)
unfolding create_quota_guard_session insert_guard get_quota_guard_session
created = refl

-- A second guard is refused while one is not disarmed.
second_guard :
    create_quota_guard_session (record session { guard_id = "guard-2" }) [] armed_db
    ≡ err "GUARD_EXISTS"
unfolding create_quota_guard_session insert_guard get_quota_guard_session
second_guard = refl

abbrev stopping : GuardSession
stopping = record stored { state = SessionState.stopping; revision = 2; updated_at = 40 }

abbrev pub stopping_db : Db
stopping_db = record armed_db { quota_guard_sessions = stopping ∷ [] }

updated :
    update_quota_guard_session "guard-1"
      (some 1)
      (some SessionState.armed)
      40
      (set_state SessionState.stopping ∷ [])
      armed_db
    ≡ ok (stopping, stopping_db)
unfolding update_quota_guard_session update_sessions get_quota_guard_session
updated = refl

abbrev reviewed_db : Db
reviewed_db = record stopping_db {
  quota_guard_sessions = fence_session "CRASH_PENDING_EXTERNAL_CALL" 50 stopping ∷ [];
  quota_guard_targets =
      record target {
        guard_id = "guard-1";
        state = TargetState.needs_review;
        reason_code = some "CRASH_PENDING_EXTERNAL_CALL";
        revision = 2;
        updated_at = 50;
      }
      ∷ [];
}

recovered :
    recover_quota_guard_pending 50 "CRASH_PENDING_EXTERNAL_CALL" stopping_db
    ≡ ok ("guard-1" ∷ [], reviewed_db)
unfolding recover_quota_guard_pending fence_guards pending_guards sorted_set insert_code
recovered = refl

recover_quota_guard_pending-fences_example :
    Fenced 50 "CRASH_PENDING_EXTERNAL_CALL" stopping_db reviewed_db
    × (pending_guards reviewed_db ≡ [])
    × (recover_quota_guard_pending 60 "AGAIN" reviewed_db ≡ ok ([], reviewed_db))
recover_quota_guard_pending-fences_example =
    recover_quota_guard_pending-fences 50 60 "CRASH_PENDING_EXTERNAL_CALL" "AGAIN" stopping_db
      recovered

steps : GuardSteps db reviewed_db
steps =
    after
      (after (after here (creating session stored (target ∷ []) created)) (
        updating "guard-1" (some 1) (some SessionState.armed) 40
          (set_state SessionState.stopping ∷ []) stopping updated))
      (recovering 50 "CRASH_PENDING_EXTERNAL_CALL" ("guard-1" ∷ []) recovered)

GuardSteps-IsKey_example :
    IsKey reviewed_db.quota_guard_sessions
    × (has_single_active reviewed_db.quota_guard_sessions ≡ true)
GuardSteps-IsKey_example = GuardSteps-IsKey steps (λ guard_id. refl) refl

pub armed_keys : IsKey armed_db.quota_guard_sessions
armed_keys =
    (GuardSteps-IsKey (after here (creating session stored (target ∷ []) created))
      (λ guard_id. refl) refl).0

update_quota_guard_session-once_example :
    update_quota_guard_session "guard-1" (some 1) none 60 (set_reason_code none ∷ []) reviewed_db
    ≢ ok (stored, reviewed_db)
update_quota_guard_session-once_example =
    update_quota_guard_session-once "guard-1" 1 (some SessionState.armed) none 40 60
      (set_state SessionState.stopping ∷ []) (set_reason_code none ∷ []) armed_db
      (stored, reviewed_db) armed_keys refl refl updated
      (after here (recovering 50 "CRASH_PENDING_EXTERNAL_CALL" ("guard-1" ∷ []) recovered))
