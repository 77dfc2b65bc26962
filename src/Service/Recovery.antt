-- ===== src/Service/Recovery.antt =====
-- Recovery from expired work: `reconcile`, `background_recover`, `background_safety_stop` and
-- `background_dispatch_failed` of codex_work_scheduler/service.py, with the candidates that
-- codex_work_scheduler/store.py selects.
mod Loops
unfoldable pub use Loops.*
use codex_work_scheduler.Common.{
  ℕ, String, Bool, true, false, ◌&&◌, ◌||◌, Option, none, some, List, [], ◌∷◌, any, find, select,
  update_where, str_eq, ltb, leb, ◌==◌, if◌then◌else◌, ok, ◌>>=◌, ◌>>◌, guard,
}
use codex_work_scheduler.Common.Codes.{codes, lex_lt}
use codex_work_scheduler.Common.Sweep.{sort_by, is_hit}
use codex_work_scheduler.Contracts.{Approval}
use codex_work_scheduler.Json.{Value, Fields, str, bool, arr, end, field}
use codex_work_scheduler.Policy.{is_empty}
use codex_work_scheduler.Validation.Fields.{validate_identifier}
use codex_work_scheduler.Validation.Approvals.{validate_approval, require_approval}
use codex_work_scheduler.Store.Tables.{
  Db, Mode, JobState, LeaseState, LeaseRow, RunRow, JobRow, Request, Payload, Reply, Digest,
  Transaction,
}
use codex_work_scheduler.Store.Audit.{append_audit, verify_audit}
use codex_work_scheduler.Store.Idempotency.{replay_idempotent, execute_idempotent}
use codex_work_scheduler.Service.{
  Config, require_capability, checked_actor, insert_approval, set_controller, replay_or,
}
use codex_work_scheduler.Service.Rows.{find_job, job_or, set_job_state}
use codex_work_scheduler.Service.Control.{is_expired_lease, is_active_run, mode_text}
use codex_work_scheduler.Service.Encode.{texts_value}

-- `if reconciled or reconciled_runs: set_controller(...)`
abbrev pub pause_unless : Bool → String → ℕ → Db → Db
pause_unless true reason_code now db = db
pause_unless false reason_code now db = set_controller Mode.paused (some reason_code) now db

-- What `background_recover` returns.
pub record RecoveryReport : Type 0 where
  pub audit_event_id : Option String
  pub reconciled_lease_ids : List String
  pub reconciled_run_ids : List String
  pub requires_review : Bool

-- What `background_safety_stop` returns, less its constant mode.
pub record SafetyStop : Type 0 where
  pub audit_event_id : Option String
  pub from : Mode
  pub reason_code : String

-- What `background_dispatch_failed` returns.
pub record DispatchFailure : Type 0 where
  pub audit_event_id : Option String
  pub job_id : String
  pub marked_needs_review : Bool
  pub previous_state : JobState
  pub reason_code : String

-- The states from which `background_dispatch_failed` takes a job.
abbrev pub is_dispatchable : JobState → Bool
is_dispatchable JobState.approved = true
is_dispatchable JobState.held_policy = true
is_dispatchable JobState.held_dependency = true
is_dispatchable JobState.held_schedule = true
is_dispatchable JobState.held_capability = true
is_dispatchable JobState.cancelled = false
is_dispatchable JobState.simulating = false
is_dispatchable JobState.simulated = false
is_dispatchable JobState.needs_review = false
is_dispatchable JobState.running = false
is_dispatchable JobState.succeeded = false
is_dispatchable JobState.failed = false
is_dispatchable JobState.interrupted = false

abbrev pub state_text : JobState → String
state_text JobState.approved = "approved"
state_text JobState.cancelled = "cancelled"
state_text JobState.simulating = "simulating"
state_text JobState.simulated = "simulated"
state_text JobState.held_policy = "held_policy"
state_text JobState.held_dependency = "held_dependency"
state_text JobState.held_schedule = "held_schedule"
state_text JobState.held_capability = "held_capability"
state_text JobState.needs_review = "needs_review"
state_text JobState.running = "running"
state_text JobState.succeeded = "succeeded"
state_text JobState.failed = "failed"
state_text JobState.interrupted = "interrupted"

abbrev pub is_blocked_for : String → Db → Bool
is_blocked_for reason_code db = elim db.controller.mode [
  | Mode.blocked ↦ elim db.controller.reason_code [
    | none ↦ false
    | some code ↦ str_eq code reason_code
  ]
  | Mode.paused ↦ false
  | Mode.ready ↦ false
  | Mode.stopped ↦ false
]

-- `reason_code in {"AUDIT_INVALID", "DATABASE_INVALID"}`
abbrev pub is_corruption : String → Bool
is_corruption reason_code =
    str_eq reason_code "AUDIT_INVALID" || str_eq reason_code "DATABASE_INVALID"

abbrev pub failure_mode : String → Mode
failure_mode reason_code = if is_corruption reason_code then Mode.blocked else Mode.paused

abbrev pub failure_reason : String → String
failure_reason reason_code =
    if is_corruption reason_code then reason_code else "WORK_REVIEW_REQUIRED"

-- `hits` of the UPDATE of `background_dispatch_failed`.
abbrev pub hits_dispatchable : String → JobRow → Bool
hits_dispatchable job_id row = str_eq row.job_id job_id && is_dispatchable row.state

module _ ⦃digest : Digest⦄ where
  -- The rest of `background_recover` after its two loops.
  unfoldable pub log_recovery :
      List String → List String → String → ℕ → String → Transaction RecoveryReport
  log_recovery leases runs actor now event_id db =
      if is_empty leases && is_empty runs
      then ok (
        record {
          audit_event_id = none;
          reconciled_lease_ids = leases;
          reconciled_run_ids = runs;
          requires_review = false;
        },
        db,
      )
      else do
        (id, db') ←
            append_audit event_id "background.recovered" actor
              (field "lease_ids" (arr (texts_value leases))
                (field "run_ids" (arr (texts_value runs)) end))
              now (set_controller Mode.paused (some "RECOVERY_REVIEW_REQUIRED") now db)
        ok (
          record {
            audit_event_id = some id;
            reconciled_lease_ids = leases;
            reconciled_run_ids = runs;
            requires_review = true;
          },
          db',
        )

  -- The two loops of `background_recover`, with the runs selected between them.
  unfoldable pub recover : String → ℕ → String → Transaction RecoveryReport
  recover actor now event_id db =
      let (leases, db₁) =
        recover_leases (expire_at now) now (reconciliation_candidates now db) db in
      let (runs, db₂) = recover_runs own_job now (run_reconciliation_candidates now db₁) db₁ in
      log_recovery leases runs actor now event_id db₂

  -- `background_recover`
  unfoldable pub background_recover : Config → String → ℕ → String → Transaction RecoveryReport
  background_recover config actor now event_id db = do
    require_capability config "background.run"
    require_capability config "reconcile.local"
    name ← checked_actor actor
    guard (verify_audit db).valid "AUDIT_INVALID"
    recover name now event_id db

  -- `if self.store.verify_audit_in(connection)["valid"]: append_audit(...)`
  unfoldable pub append_if_valid :
      String → String → String → Fields → ℕ → Transaction (Option String)
  append_if_valid event_id event_type actor details now db =
      if (verify_audit db).valid
      then (do (id, db') ← append_audit event_id event_type actor details now db; ok (some id, db'))
      else ok (none, db)

  -- The transaction of `background_safety_stop`.
  unfoldable pub safety_stop : String → String → ℕ → String → Transaction SafetyStop
  safety_stop reason_code actor now event_id db =
      if is_blocked_for reason_code db
      then ok (
        record { audit_event_id = none; from = db.controller.mode; reason_code = reason_code },
        db,
      )
      else do
        (id, db') ←
            append_if_valid event_id "background.safety_stopped" actor
              (field "from" (str (mode_text db.controller.mode))
                (field "reason_code" (str reason_code) end))
              now (set_controller Mode.blocked (some reason_code) now db)
        ok (
          record { audit_event_id = id; from = db.controller.mode; reason_code = reason_code },
          db',
        )

  -- `background_safety_stop`
  unfoldable pub background_safety_stop :
      Config → String → String → ℕ → String → Transaction SafetyStop
  background_safety_stop config reason_code actor now event_id db = do
    require_capability config "background.run"
    require_capability config "control.local.write"
    name ← checked_actor actor
    reason ← validate_identifier (str reason_code)
    safety_stop reason name now event_id db

  -- The transaction of `background_dispatch_failed`.
  unfoldable pub dispatch_failed :
      String → String → String → ℕ → String → Transaction DispatchFailure
  dispatch_failed job_id reason_code actor now event_id db = do
    row ← job_or "JOB_NOT_FOUND" (find_job job_id db.jobs)
    (id, db') ←
        append_if_valid event_id "background.dispatch_failed" actor
          (field "failure_code" (str reason_code) (
            field "job_id" (str job_id) (
              field "job_marked_review" (bool (any (hits_dispatchable job_id) db.jobs))
                (field "previous_state" (str (state_text row.state)) end))))
          now
          (set_controller (failure_mode reason_code) (some (failure_reason reason_code)) now
            (record db {
              jobs =
                  update_where (hits_dispatchable job_id)
                    (λ r. record r { state = JobState.needs_review; updated_at = now }) db.jobs;
            }))
    ok (
      record {
        audit_event_id = id;
        job_id = job_id;
        marked_needs_review = any (hits_dispatchable job_id) db.jobs;
        previous_state = row.state;
        reason_code = reason_code;
      },
      db',
    )

  -- `background_dispatch_failed`
  unfoldable pub background_dispatch_failed :
      Config → String → String → String → ℕ → String → Transaction DispatchFailure
  background_dispatch_failed config job_id reason_code actor now event_id db = do
    require_capability config "background.run"
    name ← checked_actor actor
    job ← validate_identifier (str job_id)
    reason ← validate_identifier (str reason_code)
    dispatch_failed job reason name now event_id db

  -- The scope object of `reconcile_plan` and `reconcile`, hashed.
  abbrev pub reconcile_scope : ℕ → Db → String
  reconcile_scope now seen = digest.payload_hash (
      Payload.scope "reconcile" (lease_ids (reconciliation_candidates now seen))
        (run_ids (run_reconciliation_candidates now seen)))

  -- The `operation` of `reconcile`, on the candidates that were read before the transaction.
  unfoldable pub reconcile_rows :
      List LeaseRow → List RunRow → Approval → String → ℕ → String → Transaction Reply
  reconcile_rows candidates run_candidates approval actor now event_id db = do
    db₁ ← insert_approval approval db
    let (leases, db₂) = recover_leases expire now candidates db₁
    let (runs, db₃) = recover_runs stored_job now run_candidates db₂
    let db₄ =
        pause_unless (is_empty leases && is_empty runs) "RECONCILIATION_REVIEW_REQUIRED" now db₃
    (id, db₅) ←
        append_audit event_id "controller.reconciled" actor
          (field "approval_id" (str approval.approval_id) (
            field "lease_ids" (arr (texts_value leases))
              (field "run_ids" (arr (texts_value runs)) end)))
          now db₄
    ok (Reply.reconciled approval.approval_id id db₅.controller.mode leases runs, db₅)

  unfoldable pub reconcile_new :
      Value → Approval → String → String → ℕ → String → Db → Transaction (Reply × Bool)
  reconcile_new approval_value old key actor now event_id seen db = do
    approval ← validate_approval approval_value now false
    require_approval approval "reconcile" (reconcile_scope now seen) "reconcile.local"
    execute_idempotent key "reconcile" (Request.reconcile old) now
        (reconcile_rows (reconciliation_candidates now seen)
          (run_reconciliation_candidates now seen) approval actor now event_id)
        db

  -- `reconcile`
  unfoldable pub reconcile :
      Config → Value → String → String → ℕ → String → Db → Transaction (Reply × Bool)
  reconcile config approval_value key actor now event_id seen db = do
    require_capability config "reconcile.local"
    name ← checked_actor actor
    old ← validate_approval approval_value now true
    stored ← replay_idempotent key "reconcile" (Request.reconcile old) seen
    replay_or stored (reconcile_new approval_value old key name now event_id seen) db
