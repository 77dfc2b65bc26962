-- ===== src/Store/GuardFence.antt =====
-- `recover_quota_guard_pending` of codex_work_scheduler/store.py: a guard with an external call that a
-- crash left unanswered is set aside for a review.
use codex_work_scheduler.Common.{
  ℕ, suc, String, Bool, true, false, ◌&&◌, some, List, [], ◌∷◌, ◌++◌, update_where, contains,
  if◌then◌else◌, ok,
}
use codex_work_scheduler.Common.Codes.{sorted_set}
use codex_work_scheduler.Store.GuardRows.{SessionState, TargetState, GuardSession, GuardTarget}
use codex_work_scheduler.Store.Tables.{Db, Transaction}
use codex_work_scheduler.Store.Guards.{is_enabled, is_guard}
use codex_work_scheduler.Store.GuardWrites.{is_guard_of}

-- `state IN ('STOPPING', 'RESUMING')`
abbrev pub is_pending_session : SessionState → Bool
is_pending_session SessionState.stopping = true
is_pending_session SessionState.resuming = true
is_pending_session SessionState.armed = false
is_pending_session SessionState.held_quota = false
is_pending_session SessionState.needs_review = false
is_pending_session SessionState.disarmed = false

abbrev pub is_pending_target : TargetState → Bool
is_pending_target TargetState.stopping = true
is_pending_target TargetState.resuming = true
is_pending_target TargetState.monitoring = false
is_pending_target TargetState.held = false
is_pending_target TargetState.resumed = false
is_pending_target TargetState.completed = false
is_pending_target TargetState.needs_review = false

-- `state NOT IN ('COMPLETED', 'RESUMED', 'NEEDS_REVIEW')`
abbrev pub is_unsettled : TargetState → Bool
is_unsettled TargetState.monitoring = true
is_unsettled TargetState.stopping = true
is_unsettled TargetState.held = true
is_unsettled TargetState.resuming = true
is_unsettled TargetState.resumed = false
is_unsettled TargetState.completed = false
is_unsettled TargetState.needs_review = false

abbrev pub pending_sessions : List GuardSession → List String
pending_sessions [] = []
pending_sessions (row ∷ rows) =
    let rest = pending_sessions rows in
    if is_pending_session row.state then row.guard_id ∷ rest else rest

abbrev pub pending_targets : List GuardTarget → List String
pending_targets [] = []
pending_targets (row ∷ rows) =
    let rest = pending_targets rows in
    if is_pending_target row.state then row.guard_id ∷ rest else rest

abbrev pub unique : List String → List String
unique [] = []
unique (x ∷ xs) = let rest = unique xs in if contains x rest then rest else x ∷ rest

-- `SELECT DISTINCT guard_id ... UNION SELECT guard_id ...`, in any order.
unfoldable pub pending_guards : Db → List String
pending_guards db =
    unique (pending_targets db.quota_guard_targets ++ pending_sessions db.quota_guard_sessions)

abbrev pub fence_target : String → ℕ → GuardTarget → GuardTarget
fence_target reason_code now row = record row {
  state = TargetState.needs_review;
  reason_code = some reason_code;
  revision = suc row.revision;
  updated_at = now;
}

abbrev pub fence_session : String → ℕ → GuardSession → GuardSession
fence_session reason_code now row = record row {
  state = SessionState.needs_review;
  reason_code = some reason_code;
  revision = suc row.revision;
  updated_at = now;
}

abbrev pub hits_target : String → GuardTarget → Bool
hits_target guard_id row = is_guard_of guard_id row && is_unsettled row.state

abbrev pub hits_session : String → GuardSession → Bool
hits_session guard_id row = is_guard guard_id row && is_enabled row.state

-- One round of the loop.
abbrev pub fence_guard : String → ℕ → String → Db → Db
fence_guard reason_code now guard_id db = record db {
  quota_guard_targets =
      update_where (hits_target guard_id) (fence_target reason_code now) db.quota_guard_targets;
  quota_guard_sessions =
      update_where (hits_session guard_id) (fence_session reason_code now) db.quota_guard_sessions;
}

unfoldable pub fence_guards : String → ℕ → List String → Db → Db
fence_guards reason_code now [] db = db
fence_guards reason_code now (guard_id ∷ guard_ids) db =
    fence_guards reason_code now guard_ids (fence_guard reason_code now guard_id db)

-- `recover_quota_guard_pending`
unfoldable pub recover_quota_guard_pending : ℕ → String → Transaction (List String)
recover_quota_guard_pending now reason_code db =
    ok (sorted_set (pending_guards db), fence_guards reason_code now (pending_guards db) db)
