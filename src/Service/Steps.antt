-- ===== src/Service/Steps.antt =====
-- The commands of codex_work_scheduler/service.py as steps of the tables, in whatever order they
-- run and whatever each of them saw before its transaction.
use codex_work_scheduler.Service.TickSafe.{tick_start-Safe, tick_finish-Safe}
use codex_work_scheduler.Service.Tick.{Started, Claim, tick_start, tick_finish}
use codex_work_scheduler.Service.RecoverySafe.{
  reconcile-Safe, background_recover-Safe, background_safety_stop-Safe,
  background_dispatch_failed-Safe,
}
use codex_work_scheduler.Service.Recovery.{
  reconcile, background_recover, background_safety_stop, background_dispatch_failed, RecoveryReport,
  SafetyStop, DispatchFailure,
}
use codex_work_scheduler.Common.{ℕ, String, ◌≡◌, refl, Bool, true, ok}
use codex_work_scheduler.Common.Ensures.{Ensures-ok}
use codex_work_scheduler.Json.{Value}
use codex_work_scheduler.Store.Tables.{Db, Mode, Reply, Digest}
use codex_work_scheduler.Store.Audit.{verify_audit}
use codex_work_scheduler.Service.{Config, Paths}
use codex_work_scheduler.Service.Queue.{queue_propose, queue_approve, queue_submit, queue_cancel}
use codex_work_scheduler.Service.Control.{is_ready, policy_set, pause, stop}
use codex_work_scheduler.Service.Once.{Reaches}
use codex_work_scheduler.Service.Ready.{Safe, Safe-refl}
use codex_work_scheduler.Service.Commands.{
  queue_propose-Safe, queue_approve-Safe, queue_submit-Safe, queue_cancel-Safe, policy_set-Safe,
  set_mode-Safe,
}

module _ ⦃digest : Digest⦄ where
  -- One run of a modelled command other than `resume`, replayed or not, or of one transaction of it.
  pub data Step (db : Db) : Db → Type 0 where
    proposing :
        (config : Config) (paths : Paths) (value : Value) (key actor : String) (now : ℕ)
        (event_id : String) {r : Reply × Bool} {db' : Db}
        → queue_propose config paths value key actor now event_id db ≡ ok (r, db')
        → Step db db'
    approving :
        (config : Config) (paths : Paths) (job_id : String) (approval_value : Value)
        (key actor : String) (now : ℕ) (event_id : String) (seen : Db) {r : Reply × Bool} {db' : Db}
        → queue_approve config paths job_id approval_value key actor now event_id seen db
          ≡ ok (r, db')
        → Step db db'
    submitting :
        (config : Config) (value approval_value : Value) (key actor : String) (now : ℕ)
        (event_id : String) (seen : Db) {r : Reply × Bool} {db' : Db}
        → queue_submit config value approval_value key actor now event_id seen db ≡ ok (r, db')
        → Step db db'
    cancelling :
        (config : Config) (job_id key actor : String) (now : ℕ) (event_id : String)
        {r : Reply × Bool} {db' : Db}
        → queue_cancel config job_id key actor now event_id db ≡ ok (r, db')
        → Step db db'
    replacing :
        (config : Config) (value approval_value : Value) (key actor : String) (now : ℕ)
        (event_id : String) (seen : Db) {r : Reply × Bool} {db' : Db}
        → policy_set config value approval_value key actor now event_id seen db ≡ ok (r, db')
        → Step db db'
    pausing :
        (config : Config) (reason_code key actor : String) (now : ℕ) (event_id : String)
        {r : Reply × Bool} {db' : Db}
        → pause config reason_code key actor now event_id db ≡ ok (r, db')
        → Step db db'
    stopping :
        (config : Config) (reason_code key actor : String) (now : ℕ) (event_id : String)
        {r : Reply × Bool} {db' : Db}
        → stop config reason_code key actor now event_id db ≡ ok (r, db')
        → Step db db'
    reconciling :
        (config : Config) (approval_value : Value) (key actor : String) (now : ℕ)
        (event_id : String) (seen : Db) {r : Reply × Bool} {db' : Db}
        → reconcile config approval_value key actor now event_id seen db ≡ ok (r, db')
        → Step db db'
    recovering :
        (config : Config) (actor : String) (now : ℕ) (event_id : String) {r : RecoveryReport}
        {db' : Db}
        → background_recover config actor now event_id db ≡ ok (r, db')
        → Step db db'
    safety_stopping :
        (config : Config) (reason_code actor : String) (now : ℕ) (event_id : String)
        {r : SafetyStop} {db' : Db}
        → background_safety_stop config reason_code actor now event_id db ≡ ok (r, db')
        → Step db db'
    failing :
        (config : Config) (job_id reason_code actor : String) (now : ℕ) (event_id : String)
        {r : DispatchFailure} {db' : Db}
        → background_dispatch_failed config job_id reason_code actor now event_id db ≡ ok (r, db')
        → Step db db'
    claiming :
        (config : Config) (key actor : String) (now : ℕ) (lease_id event_id : String) {r : Started}
        {db' : Db}
        → tick_start config key actor now lease_id event_id db ≡ ok (r, db')
        → Step db db'
    settling :
        (claim : Claim) (key actor : String) (finished_at : ℕ) (event_id : String) {r : Reply}
        {db' : Db}
        → tick_finish claim key actor finished_at event_id db ≡ ok (r, db')
        → Step db db'

  Step-Safe : {db db' : Db} → Step db db' → Safe db db'
  unfolding pause stop
  Step-Safe {db} (proposing config paths value key actor now event_id e) =
      Ensures-ok (Reaches (Safe db)) _
        (queue_propose-Safe config paths value key actor now event_id db) e
  Step-Safe {db} (approving config paths job_id approval_value key actor now event_id seen e) =
      Ensures-ok (Reaches (Safe db)) _
        (queue_approve-Safe config paths job_id approval_value key actor now event_id seen db) e
  Step-Safe {db} (submitting config value approval_value key actor now event_id seen e) =
      Ensures-ok (Reaches (Safe db)) _
        (queue_submit-Safe config value approval_value key actor now event_id seen db) e
  Step-Safe {db} (cancelling config job_id key actor now event_id e) =
      Ensures-ok (Reaches (Safe db)) _ (queue_cancel-Safe config job_id key actor now event_id db) e
  Step-Safe {db} (replacing config value approval_value key actor now event_id seen e) =
      Ensures-ok (Reaches (Safe db)) _
        (policy_set-Safe config value approval_value key actor now event_id seen db) e
  Step-Safe {db} (pausing config reason_code key actor now event_id e) =
      Ensures-ok (Reaches (Safe db)) _
        (set_mode-Safe config Mode.paused reason_code key actor "pause" now event_id db refl) e
  Step-Safe {db} (stopping config reason_code key actor now event_id e) =
      Ensures-ok (Reaches (Safe db)) _
        (set_mode-Safe config Mode.stopped reason_code key actor "stop" now event_id db refl) e
  Step-Safe {db} (reconciling config approval_value key actor now event_id seen e) =
      Ensures-ok (Reaches (Safe db)) _
        (reconcile-Safe config approval_value key actor now event_id seen db) e
  Step-Safe {db} (recovering config actor now event_id e) =
      Ensures-ok (Reaches (Safe db)) _ (background_recover-Safe config actor now event_id db) e
  Step-Safe {db} (safety_stopping config reason_code actor now event_id e) =
      Ensures-ok (Reaches (Safe db)) _
        (background_safety_stop-Safe config reason_code actor now event_id db) e
  Step-Safe {db} (failing config job_id reason_code actor now event_id e) =
      Ensures-ok (Reaches (Safe db)) _
        (background_dispatch_failed-Safe config job_id reason_code actor now event_id db) e
  Step-Safe {db} (claiming config key actor now lease_id event_id e) =
      Ensures-ok (Reaches (Safe db)) _ (tick_start-Safe config key actor now lease_id event_id db) e
  Step-Safe {db} (settling claim key actor finished_at event_id e) =
      Ensures-ok (Reaches (Safe db)) _ (tick_finish-Safe claim key actor finished_at event_id db) e

  -- Runs of such commands one after the other.
  pub data Steps (db : Db) : Db → Type 0 where
    here : Steps db db
    after : {db' db'' : Db} → Steps db db' → Step db' db'' → Steps db db''

  -- Whatever proposals, approvals, submissions, cancellations, policy changes, pauses, stops,
  -- reconciliations, recoveries, safety stops, dispatch failures and transactions of ticks run one
  -- after the other, replayed or not, and whatever each saw before its transaction, the controller
  -- is ready afterwards only if it was ready before, and an audit chain that verifies still verifies.
  pub Steps-Safe :
      {db db' : Db}
      → Steps db db'
      → (is_ready db'.controller.mode ≡ true → is_ready db.controller.mode ≡ true)
        × ((verify_audit db).valid ≡ true → (verify_audit db').valid ≡ true)
  Steps-Safe {db} here = Safe-refl db
  Steps-Safe (after steps step) =
      let (ready, valid) = Steps-Safe steps in
      let (ready', valid') = Step-Safe step in (λ h. ready (ready' h), λ v. valid' (valid v))
