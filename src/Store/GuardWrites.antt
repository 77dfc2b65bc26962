-- ===== src/Store/GuardWrites.antt =====
-- The transactions on the rows of the quota guard (codex_work_scheduler/store.py).
use codex_work_scheduler.Common.{
  ℕ, suc, String, Bool, true, false, not, ◌&&◌, ◌||◌, Option, some, List, [], ◌∷◌, ◌++◌, any, all,
  contains, distinct, update_where, count_where, str_eq, ◌==◌, if◌then◌else◌, Result, ok, err,
  ◌>>=◌, ◌>>◌, guard,
}
use codex_work_scheduler.Store.GuardRows.{SessionState, TargetState, GuardSession, GuardTarget}
use codex_work_scheduler.Store.Tables.{Db, Transaction}
use codex_work_scheduler.Store.Guards.{
  SessionChange, set_state, set_reason_code, set_approval_id, set_tripped_windows, write_session,
  TargetChange, set_target_state, write_target, write_all, is_guard, is_target, fits_revision,
  fits_state, fits_target_state, has_single_active, has_approval, get_quota_guard_session,
  get_quota_guard_target,
}

-- `if item not in normalized_windows: normalized_windows.append(item)`
abbrev pub add_window : List String → String → List String
add_window windows item = if contains item windows then windows else windows ++ item ∷ []

abbrev pub add_windows : List String → List String → List String
add_windows windows [] = windows
add_windows windows (item ∷ items) = add_windows (add_window windows item) items

-- The loop over the names of the windows that tripped: none is empty, and each is kept once.
abbrev pub normalize_windows : List String → Result (List String)
normalize_windows items =
    if all (λ item. not (str_eq item "")) items
    then ok (add_windows [] items)
    else err "STATE_INVALID"

abbrev pub thread_ids : List GuardTarget → List String
thread_ids [] = []
thread_ids (row ∷ rows) = row.thread_id ∷ thread_ids rows

-- The columns that `create_quota_guard_session` sets itself: the key, the revision and the times.
abbrev pub new_targets : GuardSession → List GuardTarget → List GuardTarget
new_targets session [] = []
new_targets session (row ∷ rows) =
    record row {
      guard_id = session.guard_id;
      revision = 1;
      created_at = session.created_at;
      updated_at = session.updated_at;
    }
    ∷ new_targets session rows

abbrev pub is_guard_of : String → GuardTarget → Bool
is_guard_of guard_id row = str_eq row.guard_id guard_id

-- A target of the guard that one of the new rows would repeat.
abbrev pub has_target_of : String → List String → List GuardTarget → Bool
has_target_of guard_id ids rows =
    any (λ row. is_guard_of guard_id row && contains row.thread_id ids) rows

-- The INSERTs of a session and its targets, with the errors that a second key and a missing approval
-- give.
unfoldable pub insert_guard : String → String → GuardSession → List GuardTarget → Db → Result Db
insert_guard repeated missing row targets db = do
  guard (not (any (is_guard row.guard_id) db.quota_guard_sessions)) repeated
  guard (has_single_active (row ∷ db.quota_guard_sessions)) repeated
  guard (has_approval row.approval_id db) missing
  guard (not (has_target_of row.guard_id (thread_ids targets) db.quota_guard_targets)) repeated
  ok (record db {
    quota_guard_sessions = db.quota_guard_sessions ++ row ∷ [];
    quota_guard_targets = db.quota_guard_targets ++ new_targets row targets;
  })

-- `create_quota_guard_session`: the row to insert holds its arguments. Of a target, only the thread,
-- the state, the original status and turn, and the goal and the reason are read.
unfoldable pub create_quota_guard_session :
    GuardSession → List GuardTarget → Transaction GuardSession
create_quota_guard_session session targets db = do
  guard (not (str_eq session.guard_id "")) "STATE_INVALID"
  guard (not (str_eq session.profile_key "")) "STATE_INVALID"
  guard (not (str_eq session.limit_id "")) "STATE_INVALID"
  guard (not (str_eq session.approval_id "")) "STATE_INVALID"
  guard (not (str_eq session.plan_hash "")) "STATE_INVALID"
  windows ← normalize_windows session.tripped_windows
  guard (all (λ id. not (str_eq id "")) (thread_ids targets)) "STATE_INVALID"
  guard (distinct (thread_ids targets)) "STATE_INVALID"
  db' ←
      insert_guard "GUARD_EXISTS" "STATE_INVALID" (record session { tripped_windows = windows })
        targets db
  row ← get_quota_guard_session session.guard_id db'
  ok (row, db')

-- The checks on a change: the windows are normalised, and an approval exists.
abbrev pub normalize_change : SessionChange → Result SessionChange
normalize_change (set_tripped_windows windows) =
    normalize_windows windows >>= λ names. ok (set_tripped_windows names)
normalize_change change = ok change

abbrev pub normalize_changes : List SessionChange → Result (List SessionChange)
normalize_changes [] = ok []
normalize_changes (change ∷ changes) = do
  first ← normalize_change change
  rest ← normalize_changes changes
  ok (first ∷ rest)

abbrev pub refers_to_approval : Db → SessionChange → Bool
refers_to_approval db (set_approval_id approval_id) = has_approval approval_id db
refers_to_approval db change = true

-- The WHERE clause of an update of a session.
abbrev pub fits : String → Option ℕ → Option SessionState → GuardSession → Bool
fits guard_id expected_revision expected_state row =
    is_guard guard_id row
    && (fits_revision expected_revision row.revision && fits_state expected_state row.state)

-- Its SET clause.
abbrev pub revise : ℕ → List SessionChange → GuardSession → GuardSession
revise now changes row =
    let written = write_all write_session changes row in
    record written { revision = suc row.revision; updated_at = now }

-- The UPDATE of `quota_guard_disarm` of the service, which expects no revision and no state.
unfoldable pub disarm_rows : String → ℕ → Db → Db
disarm_rows guard_id now db = record db {
  quota_guard_sessions =
      update_where (is_guard guard_id)
        (revise now
          (set_state SessionState.disarmed ∷ set_reason_code (some "OPERATOR_DISARM") ∷ []))
        db.quota_guard_sessions;
}

-- `if not changes`
abbrev pub is_unchanged : {C : Type 0} → List C → Bool
is_unchanged [] = true
is_unchanged (change ∷ changes) = false

-- The UPDATE with at least one change. The indexes of the table refuse what would break them.
unfoldable pub update_sessions :
    String → Option ℕ → Option SessionState → ℕ → List SessionChange → Db → Result Db
update_sessions guard_id expected_revision expected_state now changes db = do
  let hit = fits guard_id expected_revision expected_state
  let rows = update_where hit (revise now changes) db.quota_guard_sessions
  guard (has_single_active rows) "IntegrityError"
  guard (not (any hit db.quota_guard_sessions) || all (refers_to_approval db) changes)
      "IntegrityError"
  if count_where hit db.quota_guard_sessions == 1
      then ok (record db { quota_guard_sessions = rows })
      else if any (is_guard guard_id) db.quota_guard_sessions
      then err "REVISION_CONFLICT"
      else err "GUARD_NOT_FOUND"

-- `update_quota_guard_session`
unfoldable pub update_quota_guard_session :
    String → Option ℕ → Option SessionState → ℕ → List SessionChange → Transaction GuardSession
update_quota_guard_session guard_id expected_revision expected_state now changes db = do
  normalized ← normalize_changes changes
  db' ←
      (if is_unchanged normalized
        then ok db
        else update_sessions guard_id expected_revision expected_state now normalized db)
  row ← get_quota_guard_session guard_id db'
  ok (row, db')

-- `transition_quota_guard_session`
unfoldable pub transition_quota_guard_session :
    String
    → SessionState
    → Option ℕ
    → Option SessionState
    → ℕ
    → List SessionChange
    → Transaction GuardSession
transition_quota_guard_session guard_id state expected_revision expected_state now changes db =
    update_quota_guard_session guard_id expected_revision expected_state now
      (changes ++ set_state state ∷ []) db

abbrev pub fits_target : String → String → Option ℕ → Option TargetState → GuardTarget → Bool
fits_target guard_id thread_id expected_revision expected_state row =
    is_target guard_id thread_id row
    && (fits_revision expected_revision row.revision && fits_target_state expected_state row.state)

abbrev pub revise_target : ℕ → List TargetChange → GuardTarget → GuardTarget
revise_target now changes row =
    let written = write_all write_target changes row in
    record written { revision = suc row.revision; updated_at = now }

unfoldable pub update_targets :
    String → String → Option ℕ → Option TargetState → ℕ → List TargetChange → Db → Result Db
update_targets guard_id thread_id expected_revision expected_state now changes db =
    let hit = fits_target guard_id thread_id expected_revision expected_state in
    if count_where hit db.quota_guard_targets == 1
    then ok (record db {
      quota_guard_targets = update_where hit (revise_target now changes) db.quota_guard_targets;
    })
    else if any (is_target guard_id thread_id) db.quota_guard_targets
    then err "REVISION_CONFLICT"
    else err "GUARD_TARGET_NOT_FOUND"

-- `update_quota_guard_target`
unfoldable pub update_quota_guard_target :
    String
    → String
    → Option ℕ
    → Option TargetState
    → ℕ
    → List TargetChange
    → Transaction GuardTarget
update_quota_guard_target guard_id thread_id expected_revision expected_state now changes db = do
  db' ←
      (if is_unchanged changes
        then ok db
        else update_targets guard_id thread_id expected_revision expected_state now changes db)
  row ← get_quota_guard_target guard_id thread_id db'
  ok (row, db')

-- `transition_quota_guard_target`
unfoldable pub transition_quota_guard_target :
    String
    → String
    → TargetState
    → Option ℕ
    → Option TargetState
    → ℕ
    → List TargetChange
    → Transaction GuardTarget
transition_quota_guard_target guard_id thread_id state expected_revision expected_state now changes
      db =
    update_quota_guard_target guard_id thread_id expected_revision expected_state now
      (changes ++ set_target_state state ∷ []) db
