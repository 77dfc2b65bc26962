-- ===== src/Store/GuardSteps.antt =====
-- The steps that any process may take on the rows of the quota guard, and what they keep: the keys of
-- the sessions and their index (codex_work_scheduler/store.py).
use codex_work_scheduler.Common.{ℕ, String, ◌≡◌, Option, List, ok}
use codex_work_scheduler.Common.Ensures.{Ensures-ok}
use codex_work_scheduler.Store.GuardRows.{SessionState, TargetState, GuardSession, GuardTarget}
use codex_work_scheduler.Store.Tables.{Db}
use codex_work_scheduler.Store.Guards.{SessionChange, TargetChange}
use codex_work_scheduler.Store.GuardWrites.{
  insert_guard, disarm_rows, create_quota_guard_session, update_quota_guard_session,
  update_quota_guard_target,
}
use codex_work_scheduler.Store.GuardFence.{pending_guards, recover_quota_guard_pending}
use codex_work_scheduler.Store.GuardChanges.{
  Change, same, Changed, Added, insert_guard-Added, create-Added, fence_guards-Change, Added-Change,
  disarm_rows-Change, update-Changed, update_target-Changed,
}

-- A write to the tables by any process: one of the store's methods, the INSERTs and the UPDATE that
-- the service makes itself, and a write that leaves the sessions alone.
pub data GuardStep (db db' : Db) : Type 0 where
  creating :
      (session got : GuardSession) (targets : List GuardTarget)
      → create_quota_guard_session session targets db ≡ ok (got, db')
      → GuardStep db db'
  inserting :
      (repeated missing : String) (row : GuardSession) (targets : List GuardTarget)
      → insert_guard repeated missing row targets db ≡ ok db'
      → GuardStep db db'
  disarming_rows :
      (guard_id : String) (now : ℕ) → disarm_rows guard_id now db ≡ db' → GuardStep db db'
  elsewhere : db'.quota_guard_sessions ≡ db.quota_guard_sessions → GuardStep db db'
  updating :
      (guard_id : String) (revision : Option ℕ) (state : Option SessionState) (now : ℕ)
      (changes : List SessionChange) (got : GuardSession)
      → update_quota_guard_session guard_id revision state now changes db ≡ ok (got, db')
      → GuardStep db db'
  updating_target :
      (guard_id thread_id : String) (revision : Option ℕ) (state : Option TargetState) (now : ℕ)
      (changes : List TargetChange) (got : GuardTarget)
      → update_quota_guard_target guard_id thread_id revision state now changes db ≡ ok (got, db')
      → GuardStep db db'
  recovering :
      (now : ℕ) (reason_code : String) (got : List String)
      → recover_quota_guard_pending now reason_code db ≡ ok (got, db')
      → GuardStep db db'

pub data GuardSteps (db : Db) : Db → Type 0 where
  here : GuardSteps db db
  after : {db₁ db₂ : Db} → GuardSteps db db₁ → GuardStep db₁ db₂ → GuardSteps db db₂

-- Every step changes the sessions in one of these ways.
pub GuardStep-Change :
    {db db' : Db} → GuardStep db db' → Change db.quota_guard_sessions db'.quota_guard_sessions
unfolding recover_quota_guard_pending
GuardStep-Change {db} {db'} (creating session got targets e) =
    Added-Change db db' (Ensures-ok (λ r. Added db r.1) _ (create-Added session targets db) e)
GuardStep-Change {db} {db'} (inserting repeated missing row targets e) =
    Added-Change db db'
      (Ensures-ok (Added db) _ (insert_guard-Added repeated missing row targets db) e)
GuardStep-Change {db} (disarming_rows guard_id now e) =
    rw (← e) (disarm_rows-Change guard_id now db)
GuardStep-Change {db} (elsewhere e) = rw e same
GuardStep-Change {db} (updating guard_id revision state now changes got e) =
    Ensures-ok (Changed db) _ (update-Changed guard_id revision state now changes db) e
GuardStep-Change {db} (updating_target guard_id thread_id revision state now changes got e) =
    Ensures-ok (Changed db) _
      (update_target-Changed guard_id thread_id revision state now changes db) e
GuardStep-Change {db} (recovering now reason_code got e) =
    Ensures-ok (Changed db) _
      (fence_guards-Change reason_code now (pending_guards db) db.quota_guard_sessions db same) e
