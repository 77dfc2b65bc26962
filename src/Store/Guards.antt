-- ===== src/Store/Guards.antt =====
-- The rows of the quota guard: `create_quota_guard_session`, `update_quota_guard_session`,
-- `update_quota_guard_target`, `recover_quota_guard_pending` and the queries of
-- codex_work_scheduler/store.py. Arguments that name no column or have a type of their own that the
-- column does not take are left out. A row that a call returns is read behind its transaction, with
-- nothing written in between.
use codex_work_scheduler.Common.{
  ℕ, String, Bool, true, false, ◌&&◌, ◌||◌, Option, none, some, List, [], ◌∷◌, any, find, select,
  count_where, str_eq, leb, ltb, ◌==◌, Result, ok, err,
}
use codex_work_scheduler.Common.Codes.{codes, lex_lt}
use codex_work_scheduler.Common.Sweep.{sort_by}
use codex_work_scheduler.Store.GuardRows.{SessionState, TargetState, GuardSession, GuardTarget}
use codex_work_scheduler.Store.Tables.{Db}

-- The keyword arguments of `update_quota_guard_session` that name a column: one `SET column = ?` each.
pub data SessionChange : Type 0 where
  set_state : SessionState → SessionChange
  set_profile_key set_limit_id set_approval_id set_plan_hash : String → SessionChange
  set_threshold set_hysteresis set_check_interval set_next_check_at : ℕ → SessionChange
  set_resume_non_goal_threads : Bool → SessionChange
  set_stop_snapshot_hash set_reason_code : Option String → SessionChange
  set_tripped_windows : List String → SessionChange
  set_last_checked_at : Option ℕ → SessionChange

abbrev pub write_session : SessionChange → GuardSession → GuardSession
write_session (set_state x) row = record row { state = x }
write_session (set_profile_key x) row = record row { profile_key = x }
write_session (set_limit_id x) row = record row { limit_id = x }
write_session (set_approval_id x) row = record row { approval_id = x }
write_session (set_plan_hash x) row = record row { plan_hash = x }
write_session (set_threshold x) row = record row { threshold_remaining_percent = x }
write_session (set_hysteresis x) row = record row { resume_hysteresis_percent = x }
write_session (set_check_interval x) row = record row { check_interval_seconds = x }
write_session (set_next_check_at x) row = record row { next_check_at = x }
write_session (set_resume_non_goal_threads x) row = record row { resume_non_goal_threads = x }
write_session (set_stop_snapshot_hash x) row = record row { stop_snapshot_hash = x }
write_session (set_reason_code x) row = record row { reason_code = x }
write_session (set_tripped_windows x) row = record row { tripped_windows = x }
write_session (set_last_checked_at x) row = record row { last_checked_at = x }

-- The keyword arguments of `update_quota_guard_target` that name a column.
pub data TargetChange : Type 0 where
  set_target_state : TargetState → TargetChange
  set_original_status set_original_turn_id set_target_reason : Option String → TargetChange
  set_goal_was_active set_goal_changed : Bool → TargetChange
  set_goal_pause : Option ℕ → TargetChange

abbrev pub write_target : TargetChange → GuardTarget → GuardTarget
write_target (set_target_state x) row = record row { state = x }
write_target (set_original_status x) row = record row { original_status = x }
write_target (set_original_turn_id x) row = record row { original_turn_id = x }
write_target (set_target_reason x) row = record row { reason_code = x }
write_target (set_goal_was_active x) row = record row { goal_was_active = x }
write_target (set_goal_changed x) row = record row { goal_changed_by_guard = x }
write_target (set_goal_pause x) row = record row { goal_pause_updated_at = x }

abbrev pub write_all : {C A : Type 0} → (C → A → A) → List C → A → A
write_all write [] row = row
write_all write (change ∷ changes) row = write_all write changes (write change row)

-- `state <> 'DISARMED'`
abbrev pub is_enabled : SessionState → Bool
is_enabled SessionState.armed = true
is_enabled SessionState.stopping = true
is_enabled SessionState.held_quota = true
is_enabled SessionState.resuming = true
is_enabled SessionState.needs_review = true
is_enabled SessionState.disarmed = false

abbrev pub same_state : SessionState → SessionState → Bool
same_state SessionState.armed SessionState.armed = true
same_state SessionState.stopping SessionState.stopping = true
same_state SessionState.held_quota SessionState.held_quota = true
same_state SessionState.resuming SessionState.resuming = true
same_state SessionState.needs_review SessionState.needs_review = true
same_state SessionState.disarmed SessionState.disarmed = true
same_state _ _ = false

abbrev pub same_target_state : TargetState → TargetState → Bool
same_target_state TargetState.monitoring TargetState.monitoring = true
same_target_state TargetState.stopping TargetState.stopping = true
same_target_state TargetState.held TargetState.held = true
same_target_state TargetState.resuming TargetState.resuming = true
same_target_state TargetState.resumed TargetState.resumed = true
same_target_state TargetState.completed TargetState.completed = true
same_target_state TargetState.needs_review TargetState.needs_review = true
same_target_state _ _ = false

-- The parts of a WHERE clause.
abbrev pub is_guard : String → GuardSession → Bool
is_guard guard_id row = str_eq row.guard_id guard_id

abbrev pub is_target : String → String → GuardTarget → Bool
is_target guard_id thread_id row = str_eq row.guard_id guard_id && str_eq row.thread_id thread_id

abbrev pub fits_revision : Option ℕ → ℕ → Bool
fits_revision none revision = true
fits_revision (some expected) revision = revision == expected

abbrev pub fits_state : Option SessionState → SessionState → Bool
fits_state none state = true
fits_state (some expected) state = same_state state expected

abbrev pub fits_target_state : Option TargetState → TargetState → Bool
fits_target_state none state = true
fits_target_state (some expected) state = same_target_state state expected

abbrev pub is_enabled_row : GuardSession → Bool
is_enabled_row row = is_enabled row.state

-- `quota_guard_single_active_idx`: at most one session is not disarmed.
abbrev pub has_single_active : List GuardSession → Bool
has_single_active rows = leb (count_where is_enabled_row rows) 1

-- `approval_id ... REFERENCES approvals(approval_id)`
abbrev pub has_approval : String → Db → Bool
has_approval approval_id db = any (λ row. str_eq row.approval_id approval_id) db.approvals

-- The row of a query, or the error on a missing one.
abbrev pub row_or : {A : Type 0} → String → Option A → Result A
row_or code none = err code
row_or code (some row) = ok row

unfoldable pub get_quota_guard_session : String → Db → Result GuardSession
get_quota_guard_session guard_id db =
    row_or "GUARD_NOT_FOUND" (find (is_guard guard_id) db.quota_guard_sessions)

unfoldable pub get_quota_guard_target : String → String → Db → Result GuardTarget
get_quota_guard_target guard_id thread_id db =
    row_or "GUARD_TARGET_NOT_FOUND" (find (is_target guard_id thread_id) db.quota_guard_targets)

-- `ORDER BY created_at ASC, guard_id ASC`
abbrev pub session_before : GuardSession → GuardSession → Bool
session_before a b =
    ltb a.created_at b.created_at
    || (a.created_at == b.created_at && lex_lt (codes a.guard_id) (codes b.guard_id))

-- The clauses of `list_quota_guard_sessions`: `state IN (...)` and `next_check_at <= ?`.
abbrev pub is_listed : Option (List SessionState) → Option ℕ → GuardSession → Bool
is_listed none none row = true
is_listed none (some due_before) row = leb row.next_check_at due_before
is_listed (some states) none row = any (same_state row.state) states
is_listed (some states) (some due_before) row =
    any (same_state row.state) states && leb row.next_check_at due_before

unfoldable pub list_quota_guard_sessions :
    Option (List SessionState) → Option ℕ → Db → List GuardSession
list_quota_guard_sessions states due_before db =
    sort_by session_before (select (is_listed states due_before) db.quota_guard_sessions)

unfoldable pub list_due_quota_guard_sessions : ℕ → Db → List GuardSession
list_due_quota_guard_sessions now db =
    list_quota_guard_sessions (some (SessionState.armed ∷ SessionState.held_quota ∷ [])) (some now)
      db

-- `ORDER BY created_at ASC, thread_id ASC`
abbrev pub target_before : GuardTarget → GuardTarget → Bool
target_before a b =
    ltb a.created_at b.created_at
    || (a.created_at == b.created_at && lex_lt (codes a.thread_id) (codes b.thread_id))

unfoldable pub list_quota_guard_targets : String → Db → List GuardTarget
list_quota_guard_targets guard_id db =
    sort_by target_before (select (λ row. str_eq row.guard_id guard_id) db.quota_guard_targets)
