-- ===== src/Service/TickSafe.antt =====
-- Both transactions of a tick (codex_work_scheduler/service.py) make no controller ready and keep the
-- audit chain valid.
use codex_work_scheduler.Common.{
  subst, ℕ, ◌≡◌, refl, sym, ap, ◌∙◌, String, Bool, true, false, Option, none, some, List, [], ◌∷◌,
  ◌++◌, Result, ok, err, ◌>>=◌, ltb, count_where,
}
use codex_work_scheduler.Common.Ensures.{
  Ensures-map, Ensures, Ensures-bind, Ensures-then, Ensures-guard, Ensures-if,
}
use codex_work_scheduler.Contracts.{Policy, Job}
use codex_work_scheduler.Json.{Fields}
use codex_work_scheduler.Policy.{Decision, has_signal_failure}
use codex_work_scheduler.Store.Tables.{
  Db, Mode, JobState, LeaseState, Reply, Request, Denial, Digest,
}
use codex_work_scheduler.Store.Audit.{append_audit}
use codex_work_scheduler.Store.Idempotency.{record_idempotent}
use codex_work_scheduler.Service.{Config, latest_snapshot, evaluate_current_policy, set_controller}
use codex_work_scheduler.Service.Rows.{set_job_state}
use codex_work_scheduler.Service.Control.{is_ready, is_active_lease}
use codex_work_scheduler.Service.Runner.{RunnerResult, run_job}
use codex_work_scheduler.Service.Tick.{
  Claim, Started, snapshot_or_fail, has_lease, new_active_lease, block, claim_job, after_scan,
  tick_start, pending_jobs, head_reason, fail_claim, complete_claim, settle, tick_finish,
  close_lease, needs_review_after, is_overrun, final_job_state, final_lease_state, pause_if,
  find_lease, is_lease_row_active,
}
use codex_work_scheduler.Service.Ticked.{scan_jobs-Scanned, insert_lease-Ensures, Scanned}
use codex_work_scheduler.Service.Once.{Reaches, record_idempotent-Ensures}
use codex_work_scheduler.Service.Ready.{Safe, Safe-stable, append_audit-Safe, valid_congr}

pause_if-ready :
    (b : Bool) (reason_code : String) (now : ℕ) (db : Db)
    → is_ready (pause_if b reason_code now db).controller.mode ≡ true
    → is_ready db.controller.mode ≡ true
pause_if-ready true reason_code now db h = cc
pause_if-ready false reason_code now db h = h

pause_if-events :
    (b : Bool) (reason_code : String) (now : ℕ) (db : Db)
    → (pause_if b reason_code now db).audit_events ≡ db.audit_events
pause_if-events true reason_code now db = refl
pause_if-events false reason_code now db = refl

module _ ⦃digest : Digest⦄ where
  record_idempotent-Safe :
      (db db₁ : Db) (key command : String) (r : Request) (now : ℕ) (reply : Reply)
      → Safe db db₁
      → Ensures (Safe db) (record_idempotent key command r now reply db₁)
  record_idempotent-Safe db db₁ key command r now reply safe =
      Ensures-map (λ db₂. db₂ ≡ record db₁ { idempotency = db₂.idempotency }) (Safe db) _
        (λ db₂ same. subst (Safe db) (sym same) (Safe-stable db db₁ db₂.idempotency safe))
        (record_idempotent-Ensures key command r now reply db₁)

  -- An event and then the reply, on tables whose controller is no readier.
  log_then_record-Safe :
      {A : Type 0} (db db₁ : Db) (event_id event_type actor : String) (details : Fields) (now : ℕ)
      (key : String) (reply_of : String → Reply) (result_of : Reply → A)
      → (is_ready db₁.controller.mode ≡ true → is_ready db.controller.mode ≡ true)
      → db₁.audit_events ≡ db.audit_events
      → Ensures (Reaches (Safe db)) (
          append_audit event_id event_type actor details now db₁ >>= λ (id, db₂).
          record_idempotent key "tick" Request.tick now (reply_of id) db₂ >>= λ db₃.
          ok (result_of (reply_of id), db₃))
  log_then_record-Safe db db₁ event_id event_type actor details now key reply_of result_of ready
        same =
      let R = Reaches (Safe db) in
      Ensures-bind (λ (id, db₂). Safe db db₂) R _ _
        (append_audit-Safe db db₁ event_id event_type actor details now ready same)
        λ (id, db₂) safe.
          Ensures-bind (Safe db) R _ _
            (record_idempotent-Safe db db₂ key "tick" Request.tick now (reply_of id) safe)
            λ db₃ safe₃. safe₃

  block-Safe :
      (decision : Decision) (key actor : String) (now : ℕ) (event_id : String) (db : Db)
      → Ensures (Reaches (Safe db)) (block decision key actor now event_id db)
  unfolding block
  block-Safe decision key actor now event_id db =
      Ensures-then (Reaches (Safe db)) (head_reason decision.reasons) _ λ reason.
        log_then_record-Safe db (set_controller Mode.blocked (some reason) now db) event_id _ actor
          _ now key (λ id. Reply.tick_blocked id decision) Started.replied (λ h. cc) refl

  claim_job-Safe :
      (config : Config) (snapshot : Option Fields) (policy : Policy) (job : Job)
      (decision : Decision) (actor : String) (now : ℕ) (lease_id event_id : String) (db db₁ : Db)
      → db₁ ≡ record db { jobs = db₁.jobs }
      → Ensures
          (Reaches (Safe db))
          (claim_job config snapshot policy job decision actor now lease_id event_id db₁)
  unfolding claim_job
  claim_job-Safe config snapshot policy job decision actor now lease_id event_id db db₁ same =
      let R = Reaches (Safe db) in
      let row = new_active_lease lease_id job.job_id actor now policy.lease_seconds in
      Ensures-then R (snapshot_or_fail config snapshot) _ λ validated.
        Ensures-bind
          (λ db₂.
            (has_lease lease_id db₁.leases ≡ false)
            × (db₂ ≡ record db₁ { leases = db₁.leases ++ row ∷ [] }))
          R _ _ (insert_lease-Ensures row db₁)
          λ db₂ (unused, same₂).
            let controller =
              ap (λ (d : Db). is_ready d.controller.mode) same₂
              ∙ ap (λ (d : Db). is_ready d.controller.mode) same in
            let events =
              ap (λ (d : Db). d.audit_events) same₂ ∙ ap (λ (d : Db). d.audit_events) same in
            Ensures-bind (λ (id, db₃). Safe db db₃) R _ _
              (append_audit-Safe db
                (record db₂ { jobs = set_job_state JobState.simulating now job.job_id db₂.jobs })
                event_id _ _ _ now (λ h. sym controller ∙ h) events)
              λ (id, db₃) safe. safe

  after_scan-Safe :
      (config : Config) (snapshot : Option Fields) (policy : Policy) (denied : List Denial)
      (o : Option (Job × Decision)) (key actor : String) (now : ℕ) (lease_id event_id : String)
      (db db₁ : Db)
      → db₁ ≡ record db { jobs = db₁.jobs }
      → Ensures
          (Reaches (Safe db))
          (after_scan config snapshot policy denied o key actor now lease_id event_id db₁)
  unfolding after_scan
  after_scan-Safe config snapshot policy denied none key actor now lease_id event_id db db₁ same =
      Ensures-bind (Safe db) (Reaches (Safe db)) _ _
        (record_idempotent-Safe db db₁ key "tick" Request.tick now (Reply.tick_idle denied) (
          λ h. sym (ap (λ (d : Db). is_ready d.controller.mode) same) ∙ h,
          λ v. valid_congr db db₁ (ap (λ (d : Db). d.audit_events) same) ∙ v,
        ))
        λ db₂ safe. safe
  after_scan-Safe config snapshot policy denied (some (job, decision)) key actor now lease_id
        event_id db db₁ same =
      claim_job-Safe config snapshot policy job decision actor now lease_id event_id db db₁ same

  pub tick_start-Safe :
      (config : Config) (key actor : String) (now : ℕ) (lease_id event_id : String) (db : Db)
      → Ensures (Reaches (Safe db)) (tick_start config key actor now lease_id event_id db)
  unfolding tick_start
  tick_start-Safe config key actor now lease_id event_id db =
      let R = Reaches (Safe db) in
      let policy = db.policies.policy in
      let snapshot = latest_snapshot db in
      Ensures-guard R (is_ready db.controller.mode) "CONTROLLER_NOT_READY" _ λ ready.
        Ensures-guard R (ltb (count_where is_active_lease db.leases) policy.max_concurrency)
          "CONCURRENCY_LIMIT" _
          λ few.
            Ensures-then R (evaluate_current_policy config snapshot policy now none db) _ λ signal.
              Ensures-if R (has_signal_failure signal) _ _
                (λ _. block-Safe signal key actor now event_id db)
                λ _.
                  Ensures-bind (Scanned config snapshot policy now db) R _ _
                    (scan_jobs-Scanned config snapshot policy now (pending_jobs db) db)
                    λ (scan, db₁) (same, _).
                      after_scan-Safe config snapshot policy scan.denied scan.selected key actor now
                        lease_id event_id db db₁ same

  settle-Safe :
      (outcome : Result RunnerResult) (claim : Claim) (key actor : String) (finished_at : ℕ)
      (event_id : String) (db : Db)
      → Ensures (Reaches (Safe db)) (settle outcome claim key actor finished_at event_id db)
  unfolding fail_claim complete_claim
  settle-Safe (err code) claim key actor finished_at event_id db =
      log_then_record-Safe db
        (set_controller Mode.blocked (some code) finished_at (record db {
          leases = close_lease LeaseState.failed finished_at claim.lease_id db.leases;
          jobs = set_job_state JobState.needs_review finished_at claim.job.job_id db.jobs;
        }))
        event_id _ actor _ finished_at key
        (λ id. Reply.tick_failed id code claim.job.job_id claim.lease_id) (λ r. r) (λ h. cc) refl
  settle-Safe (ok result) claim key actor finished_at event_id db =
      let review = needs_review_after result claim in
      let overrun = is_overrun result.actual_usage claim.job.expected_usage in
      let reason : String = "SIMULATION_OVERRUN" in
      let rows : Db = record db {
        leases = close_lease (final_lease_state review) finished_at claim.lease_id db.leases;
        jobs = set_job_state (final_job_state review) finished_at claim.job.job_id db.jobs;
      } in
      log_then_record-Safe db (pause_if review reason finished_at rows) event_id _ actor _
        finished_at key
        (λ id. Reply.tick_done id claim.job.job_id claim.lease_id overrun review claim.decision)
        (λ r. r) (λ h. pause_if-ready review reason finished_at rows h)
        (pause_if-events review reason finished_at rows)

  pub tick_finish-Safe :
      (claim : Claim) (key actor : String) (finished_at : ℕ) (event_id : String) (db : Db)
      → Ensures (Reaches (Safe db)) (tick_finish claim key actor finished_at event_id db)
  unfolding tick_finish
  tick_finish-Safe claim key actor finished_at event_id db =
      Ensures-guard (Reaches (Safe db))
        (is_lease_row_active (find_lease claim.lease_id claim.job.job_id db.leases)) "LEASE_LOST" _
        λ held. settle-Safe (run_job claim.job) claim key actor finished_at event_id db
