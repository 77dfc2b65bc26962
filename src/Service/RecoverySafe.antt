-- ===== src/Service/RecoverySafe.antt =====
-- The recovery commands of codex_work_scheduler/service.py make no controller ready and keep the
-- audit chain valid.
use codex_work_scheduler.Common.{
  ℕ, ◌≡◌, refl, sym, ap, ◌∙◌, String, Bool, true, false, Option, some, List, ◌&&◌, update_where,
  if◌then◌else◌,
}
use codex_work_scheduler.Common.Ensures.{
  Ensures, Ensures-bind, Ensures-then, Ensures-guard, Ensures-if,
}
use codex_work_scheduler.Contracts.{Approval}
use codex_work_scheduler.Json.{Value, Fields, str}
use codex_work_scheduler.Policy.{is_empty}
use codex_work_scheduler.Validation.Fields.{validate_identifier}
use codex_work_scheduler.Validation.Approvals.{validate_approval, require_approval}
use codex_work_scheduler.Store.Tables.{Db, Mode, JobState, LeaseRow, RunRow, Reply, Request, Digest}
use codex_work_scheduler.Store.Audit.{verify_audit}
use codex_work_scheduler.Store.Idempotency.{replay_idempotent}
use codex_work_scheduler.Service.{Config, require_capability, checked_actor, set_controller}
use codex_work_scheduler.Service.Rows.{find_job, job_or}
use codex_work_scheduler.Service.Control.{is_ready}
use codex_work_scheduler.Service.Recovery.{
  reconciliation_candidates, run_reconciliation_candidates, expire, expire_at, recover_leases,
  recover_runs, own_job, stored_job, pause_unless, log_recovery, recover, background_recover,
  append_if_valid, safety_stop, background_safety_stop, dispatch_failed, background_dispatch_failed,
  is_blocked_for, is_corruption, failure_mode, failure_reason, hits_dispatchable, reconcile_rows,
  reconcile_new, reconcile, reconcile_scope,
}
use codex_work_scheduler.Service.Recovered.{recover_leases-sweep, recover_runs-sweep}
use codex_work_scheduler.Service.Once.{Reaches, replay_or-Reaches, execute_idempotent-Reaches}
use codex_work_scheduler.Service.Ready.{
  Safe, Safe-stable, Safe-refl, append_audit-Safe, Untouched, insert_approval-Untouched,
  valid_congr,
}

pause_unless-ready :
    (b : Bool) (reason_code : String) (now : ℕ) (db : Db)
    → is_ready (pause_unless b reason_code now db).controller.mode ≡ true
    → is_ready db.controller.mode ≡ true
pause_unless-ready true reason_code now db h = h
pause_unless-ready false reason_code now db h = cc

pause_unless-events :
    (b : Bool) (reason_code : String) (now : ℕ) (db : Db)
    → (pause_unless b reason_code now db).audit_events ≡ db.audit_events
pause_unless-events true reason_code now db = refl
pause_unless-events false reason_code now db = refl

failure_mode-halted : (reason_code : String) → is_ready (failure_mode reason_code) ≡ false
failure_mode-halted reason_code =
    elim (is_corruption reason_code)
      as (λ b. is_ready (if b then Mode.blocked else Mode.paused) ≡ false) [
        | true ↦ refl
        | false ↦ refl
      ]

module _ ⦃digest : Digest⦄ where
  append_if_valid-Safe :
      (db db₁ : Db) (event_id event_type actor : String) (details : Fields) (now : ℕ)
      → (is_ready db₁.controller.mode ≡ true → is_ready db.controller.mode ≡ true)
      → db₁.audit_events ≡ db.audit_events
      → Ensures
          (λ (id, db₂). Safe db db₂)
          (append_if_valid event_id event_type actor details now db₁)
  unfolding append_if_valid
  append_if_valid-Safe db db₁ event_id event_type actor details now ready same =
      let P : Option String × Db → Type 0 = λ (id, db₂). Safe db db₂ in
      Ensures-if P (verify_audit db₁).valid _ _
        (λ _.
          Ensures-bind (λ (id, db₂). Safe db db₂) P _ _
            (append_audit-Safe db db₁ event_id event_type actor details now ready same)
            λ (id, db₂) safe. safe)
        λ _. (ready, λ v. valid_congr db db₁ same ∙ v)

  log_recovery-Safe :
      (ls rs : List String) (actor : String) (now : ℕ) (event_id : String) (db db₁ : Db)
      → Untouched db db₁
      → Ensures (Reaches (Safe db)) (log_recovery ls rs actor now event_id db₁)
  unfolding log_recovery
  log_recovery-Safe ls rs actor now event_id db db₁ (same, events) =
      Ensures-if (Reaches (Safe db)) (is_empty ls && is_empty rs) _ _
        (λ _. (λ h. ap (λ c. is_ready c.mode) (sym same) ∙ h, λ v. valid_congr db db₁ events ∙ v))
        λ _.
          Ensures-bind (λ (id, db₂). Safe db db₂) (Reaches (Safe db)) _ _
            (append_audit-Safe db
              (set_controller Mode.paused (some "RECOVERY_REVIEW_REQUIRED") now db₁) event_id _ _ _
              now (λ h. cc) events)
            λ (id, db₂) safe. safe

  pub background_recover-Safe :
      (config : Config) (actor : String) (now : ℕ) (event_id : String) (db : Db)
      → Ensures (Reaches (Safe db)) (background_recover config actor now event_id db)
  unfolding background_recover recover
  background_recover-Safe config actor now event_id db =
      let R = Reaches (Safe db) in
      let (leases, db₁) =
        recover_leases (expire_at now) now (reconciliation_candidates now db) db in
      let (runs, db₂) = recover_runs own_job now (run_reconciliation_candidates now db₁) db₁ in
      let (_, _, l_controller, l_events) =
        recover_leases-sweep (expire_at now) now (reconciliation_candidates now db) db in
      let (_, _, r_controller, r_events) =
        recover_runs-sweep own_job now (run_reconciliation_candidates now db₁) db₁ in
      Ensures-then R (require_capability config "background.run") _ λ _.
        Ensures-then R (require_capability config "reconcile.local") _ λ _.
          Ensures-then R (checked_actor actor) _ λ name.
            Ensures-guard R (verify_audit db).valid "AUDIT_INVALID" _ λ valid.
              log_recovery-Safe leases runs name now event_id db db₂
                (r_controller ∙ l_controller, r_events ∙ l_events)

  pub background_safety_stop-Safe :
      (config : Config) (reason_code actor : String) (now : ℕ) (event_id : String) (db : Db)
      → Ensures
          (Reaches (Safe db))
          (background_safety_stop config reason_code actor now event_id db)
  unfolding background_safety_stop safety_stop
  background_safety_stop-Safe config reason_code actor now event_id db =
      let R = Reaches (Safe db) in
      Ensures-then R (require_capability config "background.run") _ λ _.
        Ensures-then R (require_capability config "control.local.write") _ λ _.
          Ensures-then R (checked_actor actor) _ λ name.
            Ensures-then R (validate_identifier (str reason_code)) _ λ reason.
              Ensures-if R (is_blocked_for reason db) _ _ (λ _. Safe-refl db)
                λ _.
                  Ensures-bind (λ (id, db₁). Safe db db₁) R _ _
                    (append_if_valid-Safe db (set_controller Mode.blocked (some reason) now db)
                      event_id _ _ _ now (λ h. cc) refl)
                    λ (id, db₁) safe. safe

  pub background_dispatch_failed-Safe :
      (config : Config) (job_id reason_code actor : String) (now : ℕ) (event_id : String) (db : Db)
      → Ensures
          (Reaches (Safe db))
          (background_dispatch_failed config job_id reason_code actor now event_id db)
  unfolding background_dispatch_failed dispatch_failed
  background_dispatch_failed-Safe config job_id reason_code actor now event_id db =
      let R = Reaches (Safe db) in
      Ensures-then R (require_capability config "background.run") _ λ _.
        Ensures-then R (checked_actor actor) _ λ name.
          Ensures-then R (validate_identifier (str job_id)) _ λ job.
            Ensures-then R (validate_identifier (str reason_code)) _ λ reason.
              Ensures-then R (job_or "JOB_NOT_FOUND" (find_job job db.jobs)) _ λ row.
                let halted = failure_mode-halted reason in
                Ensures-bind (λ (id, db₁). Safe db db₁) R _ _
                  (append_if_valid-Safe db
                    (set_controller (failure_mode reason) (some (failure_reason reason)) now
                      (record db {
                        jobs =
                            update_where (hits_dispatchable job)
                              (λ r. record r { state = JobState.needs_review; updated_at = now })
                              db.jobs;
                      }))
                    event_id _ _ _ now (λ h. cc) refl)
                  λ (id, db₁) safe. safe

  reconcile_rows-Safe :
      (candidates : List LeaseRow) (run_candidates : List RunRow) (approval : Approval)
      (actor : String) (now : ℕ) (event_id : String) (db : Db)
      → Ensures
          (Reaches (Safe db))
          (reconcile_rows candidates run_candidates approval actor now event_id db)
  unfolding reconcile_rows
  reconcile_rows-Safe candidates run_candidates approval actor now event_id db =
      let R = Reaches (Safe db) in
      Ensures-bind (Untouched db) R _ _ (insert_approval-Untouched approval db)
        λ db₁ (same₁, events₁).
          let (leases, db₂) = recover_leases expire now candidates db₁ in
          let (runs, db₃) = recover_runs stored_job now run_candidates db₂ in
          let (_, _, l_controller, l_events) = recover_leases-sweep expire now candidates db₁ in
          let (_, _, r_controller, r_events) =
            recover_runs-sweep stored_job now run_candidates db₂ in
          let calm = is_empty leases && is_empty runs in
          let reason : String = "RECONCILIATION_REVIEW_REQUIRED" in
          Ensures-bind (λ (id, db₅). Safe db db₅) R _ _
            (append_audit-Safe db (pause_unless calm reason now db₃) event_id _ _ _ now
              (λ h.
                ap (λ c. is_ready c.mode) (sym (r_controller ∙ l_controller ∙ same₁))
                ∙ pause_unless-ready calm reason now db₃ h)
              (pause_unless-events calm reason now db₃ ∙ r_events ∙ l_events ∙ events₁))
            λ (id, db₅) safe. safe

  pub reconcile-Safe :
      (config : Config) (approval_value : Value) (key actor : String) (now : ℕ) (event_id : String)
      (seen db : Db)
      → Ensures (Reaches (Safe db)) (reconcile config approval_value key actor now event_id seen db)
  unfolding reconcile reconcile_new
  reconcile-Safe config approval_value key actor now event_id seen db =
      let R : (Reply × Bool) × Db → Type 0 = Reaches (Safe db) in
      let candidates = reconciliation_candidates now seen in
      let run_candidates = run_reconciliation_candidates now seen in
      Ensures-then R (require_capability config "reconcile.local") _ λ _.
        Ensures-then R (checked_actor actor) _ λ name.
          Ensures-then R (validate_approval approval_value now true) _ λ old.
            Ensures-then R (replay_idempotent key "reconcile" (Request.reconcile old) seen) _
              λ stored.
                replay_or-Reaches (Safe db) stored
                  (reconcile_new approval_value old key name now event_id seen) db (Safe-refl db)
                  (Ensures-then R (validate_approval approval_value now false) _ λ approval.
                    Ensures-then R
                      (require_approval approval "reconcile" (reconcile_scope now seen)
                        "reconcile.local")
                      _
                      λ _.
                        execute_idempotent-Reaches (Safe db) key "reconcile" _ now
                          (reconcile_rows candidates run_candidates approval name now event_id) db
                          (Safe-stable db) (Safe-refl db)
                          (reconcile_rows-Safe candidates run_candidates approval name now event_id
                            db))
