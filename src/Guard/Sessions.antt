-- ===== src/Guard/Sessions.antt =====
-- The commands of the coordinator on one guard: `create`, `arm`, `disarm`, the writes of a due cycle,
-- and the helpers `_audit`, `_mark_session_review`, `_mark_target_review` and `_schedule_check` of
-- codex_work_scheduler/quota_guard.py. A command reads the guard from the tables `seen`, in a reader of
-- its own, before the transaction that writes it; a session that a helper is given was read before as
-- well. Neither need be what is stored. `create` is given the row of its plan; the views that the
-- commands return are left out. Where a command is two transactions, the tables that it leaves stand
-- beside its result.
use codex_work_scheduler.Common.{
  ℕ, ◌+◌, ◌*◌, String, Bool, true, false, not, ◌&&◌, Option, none, some, List, [], ◌∷◌, str_eq,
  if◌then◌else◌, Result, ok, err, ◌>>=◌, ◌>>◌, guard,
}
use codex_work_scheduler.Contracts.{unit}
use codex_work_scheduler.Json.{Value, Fields, null, str, end, field}
use codex_work_scheduler.Store.Tables.{Db, Digest, Transaction}
use codex_work_scheduler.Store.Audit.{append_audit}
use codex_work_scheduler.Store.GuardRows.{SessionState, TargetState, GuardSession, GuardTarget}
use codex_work_scheduler.Store.Guards.{
  SessionChange, set_stop_snapshot_hash, set_tripped_windows, set_reason_code, set_next_check_at,
  set_last_checked_at, set_target_reason, is_enabled, same_state, get_quota_guard_session,
  get_quota_guard_target,
}
use codex_work_scheduler.Store.GuardWrites.{
  create_quota_guard_session, update_quota_guard_session, transition_quota_guard_session,
  transition_quota_guard_target,
}

abbrev pub session_text : SessionState → String
session_text SessionState.armed = "ARMED"
session_text SessionState.stopping = "STOPPING"
session_text SessionState.held_quota = "HELD_QUOTA"
session_text SessionState.resuming = "RESUMING"
session_text SessionState.needs_review = "NEEDS_REVIEW"
session_text SessionState.disarmed = "DISARMED"

abbrev pub is_under_review : SessionState → Bool
is_under_review SessionState.needs_review = true
is_under_review SessionState.armed = false
is_under_review SessionState.stopping = false
is_under_review SessionState.held_quota = false
is_under_review SessionState.resuming = false
is_under_review SessionState.disarmed = false

abbrev pub is_armed : SessionState → Bool
is_armed SessionState.armed = true
is_armed SessionState.stopping = false
is_armed SessionState.held_quota = false
is_armed SessionState.resuming = false
is_armed SessionState.needs_review = false
is_armed SessionState.disarmed = false

abbrev pub is_target_under_review : TargetState → Bool
is_target_under_review TargetState.needs_review = true
is_target_under_review TargetState.monitoring = false
is_target_under_review TargetState.stopping = false
is_target_under_review TargetState.held = false
is_target_under_review TargetState.resuming = false
is_target_under_review TargetState.resumed = false
is_target_under_review TargetState.completed = false

-- `except SchedulerError: return ...`: the errors of SQLite and of Python pass.
abbrev pub caught : {A : Type 0} → Result A → Result A → Result A
caught (ok a) other = ok a
caught (err code) other = if str_eq code "IntegrityError" then err code else other

-- The row that is read after a write was refused.
abbrev pub unchanged : {A : Type 0} → Db → Result A → Result (A × Db)
unchanged db row = row >>= λ r. ok (r, db)

-- `arm` of a guard by its identifier: it is read before the transaction that writes it.
unfoldable pub arm : String → ℕ → Db → Transaction GuardSession
arm guard_id now seen db = do
  session ← get_quota_guard_session guard_id seen
  guard (is_enabled session.state) "GUARD_DISARMED"
  guard (not (is_under_review session.state)) "GUARD_NEEDS_REVIEW"
  if is_armed session.state
      then ok (session, db)
      else transition_quota_guard_session guard_id SessionState.armed (some session.revision)
          (some session.state) now (set_reason_code none ∷ []) db

-- What a due cycle writes of an armed session that it contains: the snapshot of the stop and the
-- windows that tripped, where the signal is fresh, and then the state.
unfoldable pub record_stop : GuardSession → String → List String → ℕ → Transaction GuardSession
record_stop session snapshot_hash windows now db =
    update_quota_guard_session session.guard_id (some session.revision) (some SessionState.armed)
      now (set_stop_snapshot_hash (some snapshot_hash) ∷ set_tripped_windows windows ∷ []) db

unfoldable pub start_stopping : GuardSession → String → ℕ → Transaction GuardSession
start_stopping session reason now db =
    transition_quota_guard_session session.guard_id SessionState.stopping (some session.revision)
      (some SessionState.armed) now (set_reason_code (some reason) ∷ []) db

-- `_mark_session_review`
unfoldable pub mark_session_review : GuardSession → String → ℕ → Transaction GuardSession
mark_session_review session reason now db =
    if is_enabled session.state && not (is_under_review session.state)
    then caught
        (transition_quota_guard_session session.guard_id SessionState.needs_review
          (some session.revision) (some session.state) now (set_reason_code (some reason) ∷ []) db)
        (unchanged db (get_quota_guard_session session.guard_id db))
    else ok (session, db)

-- `_mark_target_review`
unfoldable pub mark_target_review : GuardTarget → String → ℕ → Transaction GuardTarget
mark_target_review target reason now db =
    if is_target_under_review target.state
    then ok (target, db)
    else caught
        (transition_quota_guard_target target.guard_id target.thread_id TargetState.needs_review
          (some target.revision) (some target.state) now (set_target_reason (some reason) ∷ []) db)
        (unchanged db (get_quota_guard_target target.guard_id target.thread_id db))

-- The `updates` of `_schedule_check`.
abbrev pub check_changes : GuardSession → Option String → ℕ → List SessionChange
check_changes session reason_code now =
    set_next_check_at (now + session.check_interval_seconds * unit)
    ∷ set_last_checked_at (some now)
    ∷ set_reason_code reason_code
    ∷ []

abbrev pub schedule_as :
    Option SessionState → GuardSession → Option String → ℕ → Transaction GuardSession
schedule_as none session reason_code now db =
    update_quota_guard_session session.guard_id (some session.revision) (some session.state) now
      (check_changes session reason_code now) db
schedule_as (some state) session reason_code now db =
    if same_state state session.state
    then update_quota_guard_session session.guard_id (some session.revision) (some session.state)
        now (check_changes session reason_code now) db
    else transition_quota_guard_session session.guard_id state (some session.revision)
        (some session.state) now (check_changes session reason_code now) db

-- `_schedule_check`
unfoldable pub schedule_check :
    GuardSession → Option SessionState → Option String → ℕ → Transaction GuardSession
schedule_check session state reason_code now db =
    if is_enabled session.state
    then schedule_as state session reason_code now db
    else ok (session, db)

abbrev pub optional_value : Option String → Value
optional_value none = null
optional_value (some s) = str s

module _ ⦃digest : Digest⦄ where
  -- `_audit`, on the details "state" and, where given, "reason_code".
  abbrev pub session_details : GuardSession → Fields
  session_details session = field "guard_id" (str session.guard_id) (
      field "reason_code" (optional_value session.reason_code)
        (field "state" (str (session_text session.state)) end))

  -- A write and the audit event behind it, each in a transaction of its own.
  abbrev pub audited : Result (String × Db) → GuardSession → Db → Result GuardSession × Db
  audited (err code) session db = (err code, db)
  audited (ok (id, db')) session db = (ok session, db')

  abbrev pub then_audit :
      Result (GuardSession × Db)
      → (GuardSession → Fields)
      → String
      → String
      → ℕ
      → String
      → Db
      → Result GuardSession × Db
  then_audit (err code) details event_type actor now event_id db = (err code, db)
  then_audit (ok (session, db')) details event_type actor now event_id db =
      audited (append_audit event_id event_type actor (details session) now db') session db'

  abbrev pub disarm_found :
      Result GuardSession → String → String → ℕ → String → Db → Result GuardSession × Db
  disarm_found (err code) guard_id actor now event_id db = (err code, db)
  disarm_found (ok session) guard_id actor now event_id db =
      if is_enabled session.state
      then then_audit
          (transition_quota_guard_session guard_id SessionState.disarmed (some session.revision)
            (some session.state) now (set_reason_code (some "OPERATOR_DISARM") ∷ []) db)
          session_details "quota_guard.disarmed" actor now event_id db
      else (ok session, db)

  -- `disarm`
  unfoldable pub disarm : String → String → ℕ → String → Db → Db → Result GuardSession × Db
  disarm guard_id actor now event_id seen db =
      disarm_found (get_quota_guard_session guard_id seen) guard_id actor now event_id db

  abbrev pub created_details : GuardSession → Fields
  created_details session =
      field "guard_id" (str session.guard_id) (field "state" (str (session_text session.state)) end)

  abbrev pub create_found :
      Result GuardSession
      → GuardSession
      → List GuardTarget
      → String
      → ℕ
      → String
      → Db
      → Result GuardSession × Db
  create_found (err code) session targets actor now event_id db =
      if str_eq code "GUARD_NOT_FOUND"
      then then_audit (create_quota_guard_session session targets db) created_details
          "quota_guard.created" actor now event_id db
      else (err code, db)
  create_found (ok existing) session targets actor now event_id db =
      if str_eq existing.plan_hash session.plan_hash
        && str_eq existing.approval_id session.approval_id
      then (ok existing, db)
      else (err "GUARD_EXISTS", db)

  -- `create`
  unfoldable pub create :
      GuardSession → List GuardTarget → String → ℕ → String → Db → Db → Result GuardSession × Db
  create session targets actor now event_id seen db =
      create_found (get_quota_guard_session session.guard_id seen) session targets actor now
        event_id db
