-- ===== src/Service/RecoveryTests.antt =====
-- Recovery on concrete tables (codex_work_scheduler/service.py).
use codex_work_scheduler.Service.Reconciled.{Reconciled, reconcile-Reconciled}
use codex_work_scheduler.Service.Recovered.{background_recover-Recovered, background_recover-twice}
use codex_work_scheduler.Common.Codes.{insert_code, sorted_set}
use codex_work_scheduler.Store.Idempotency.{
  new_key_row, stored_reply, replay_idempotent, insert_key, execute_new, execute_idempotent,
}
use codex_work_scheduler.Validation.Approvals.{
  hex_digest, check_times, validate_approval, require_approval,
}
use codex_work_scheduler.Validation.Fields.{
  object, exact_keys, version, number, matches_tail, matches_identifier, text, validate_identifier,
  text_list,
}
use codex_work_scheduler.Service.Control.{is_expired_lease}
use codex_work_scheduler.Common.Sweep.{insert_by, sort_by}
use codex_work_scheduler.Service.{require_capability, checked_actor, insert_approval}
use codex_work_scheduler.Common.{
  ◌*◌, ◌≡◌, refl, true, false, none, some, [], ◌∷◌, ok, any, update_where, ◌||◌,
}
use codex_work_scheduler.Contracts.{unit, Approval}
use codex_work_scheduler.Json.{is_huge, str, arr, nil, cons, end, field}
use codex_work_scheduler.Validation.Tests.{work_package, digest}
use codex_work_scheduler.Validation.Current.{IsCurrent}
use codex_work_scheduler.Store.Tables.{
  Db, Mode, JobState, LeaseState, LeaseRow, RunRow, Request, Reply,
}
use codex_work_scheduler.Store.Audit.{
  last_hash, next_sequence, append_audit, verify_audit, genesis_hash, event_row,
}
use codex_work_scheduler.Store.Tests.{fresh_db}
use codex_work_scheduler.Service.Rows.{new_job}
use codex_work_scheduler.Service.Recovery.{
  expire, expire_at, abandon, is_expired_run, reconcile_scope, reconciliation_candidates,
  run_reconciliation_candidates, recover_leases, recover_runs, log_recovery, recover,
  reconcile_rows, reconcile_new, abandon, expire, expire_at, RecoveryReport, background_recover,
  reconcile,
}
use codex_work_scheduler.Service.Samples.{sample_digest, config, noon, approval_for, granted}

abbrev late_lease : LeaseRow
late_lease = record {
  lease_id = "lse-1";
  job_id = "job-2";
  owner = "operator";
  state = LeaseState.active;
  acquired_at = 0;
  expires_at = 900 * unit;
  completed_at = none;
}

abbrev late_run : RunRow
late_run = record {
  run_id = "run-1";
  job_id = none;
  kind = "work";
  state = "running";
  started_at = 0;
  updated_at = 0;
  lease_expires_at = 800 * unit;
  completed_at = none;
  stop_reason = none;
}

abbrev late_db : Db
late_db = record fresh_db {
  jobs = record (new_job work_package.job digest "apr-0" 0) { state = JobState.simulating } ∷ [];
  leases = late_lease ∷ [];
  runs = late_run ∷ [];
}

abbrev recovered_db : Db
recovered_db = record fresh_db {
  controller = record {
    mode = Mode.paused;
    reason_code = some "RECOVERY_REVIEW_REQUIRED";
    updated_at = noon;
  };
  jobs =
      record (new_job work_package.job digest "apr-0" 0) {
        state = JobState.needs_review;
        updated_at = noon;
      }
      ∷ [];
  leases = expire_at noon late_lease ∷ [];
  runs = abandon noon late_run ∷ [];
  audit_events =
      event_row 1 genesis_hash "evt_1" "background.recovered" "operator"
        (field "lease_ids" (arr (cons (str "lse-1") nil))
          (field "run_ids" (arr (cons (str "run-1") nil)) end))
        noon
      ∷ [];
}

abbrev recovery_report : RecoveryReport
recovery_report = record {
  audit_event_id = some "evt_1";
  reconciled_lease_ids = "lse-1" ∷ [];
  reconciled_run_ids = "run-1" ∷ [];
  requires_review = true;
}

abbrev calm_report : RecoveryReport
calm_report = record {
  audit_event_id = none;
  reconciled_lease_ids = [];
  reconciled_run_ids = [];
  requires_review = false;
}

recovered :
    background_recover config "operator" noon "evt_1" late_db ≡ ok (recovery_report, recovered_db)
unfolding require_capability checked_actor reconciliation_candidates run_reconciliation_candidates
    recover_leases recover_runs log_recovery recover background_recover insert_by sort_by
    matches_tail matches_identifier text validate_identifier last_hash next_sequence append_audit
    verify_audit
recovered = refl

recovered_again :
    background_recover config "operator" noon "evt_2" recovered_db ≡ ok (calm_report, recovered_db)
unfolding require_capability checked_actor reconciliation_candidates run_reconciliation_candidates
    recover_leases recover_runs log_recovery recover background_recover sort_by matches_tail
    matches_identifier text validate_identifier event_row verify_audit
recovered_again = refl

background_recover-Recovered_example :
    (recovered_db.leases ≡ update_where (is_expired_lease noon) (expire_at noon) late_db.leases)
    × (recovered_db.runs ≡ update_where (is_expired_run noon) (abandon noon) late_db.runs)
    × (recovery_report.requires_review
        ≡ (any (is_expired_lease noon) late_db.leases || any (is_expired_run noon) late_db.runs))
    × (recovery_report.requires_review ≡ true → recovered_db.controller.mode ≡ Mode.paused)
    × (recovery_report.requires_review ≡ false → recovered_db ≡ late_db)
background_recover-Recovered_example =
    background_recover-Recovered config "operator" noon "evt_1" late_db recovered

background_recover-twice_example :
    (calm_report.requires_review ≡ false) × (recovered_db ≡ recovered_db)
background_recover-twice_example =
    background_recover-twice config "operator" "operator" noon "evt_1" "evt_2" late_db recovered
      recovered_again

abbrev reconciled_reply : Reply
reconciled_reply = Reply.reconciled "apr-1" "evt_1" Mode.paused ("lse-1" ∷ []) ("run-1" ∷ [])

abbrev reconciled_db : Db
reconciled_db = record recovered_db {
  controller = record {
    mode = Mode.paused;
    reason_code = some "RECONCILIATION_REVIEW_REQUIRED";
    updated_at = noon;
  };
  approvals = granted "reconcile" "reconcile.local" ∷ [];
  leases = expire late_lease ∷ [];
  audit_events =
      event_row 1 genesis_hash "evt_1" "controller.reconciled" "operator"
        (field "approval_id" (str "apr-1") (
          field "lease_ids" (arr (cons (str "lse-1") nil))
            (field "run_ids" (arr (cons (str "run-1") nil)) end)))
        noon
      ∷ [];
  idempotency =
      new_key_row "key-1" "reconcile" (Request.reconcile (granted "reconcile" "reconcile.local"))
        noon reconciled_reply
      ∷ [];
}

reconciled :
    reconcile config
      (approval_for "reconcile" "reconcile.local")
      "key-1"
      "operator"
      noon
      "evt_1"
      late_db
      late_db
    ≡ ok ((reconciled_reply, false), reconciled_db)
unfolding require_capability checked_actor insert_approval reconciliation_candidates
    run_reconciliation_candidates recover_leases recover_runs reconcile_rows reconcile_new reconcile
    insert_by sort_by object exact_keys version number is_huge matches_tail matches_identifier text
    validate_identifier text_list hex_digest check_times validate_approval require_approval
    last_hash next_sequence append_audit stored_reply replay_idempotent insert_key execute_new
    execute_idempotent insert_code sorted_set
reconciled = refl

reconcile-Reconciled_example :
    (approval : Approval) × IsCurrent approval noon
    × (require_approval approval "reconcile" (reconcile_scope noon late_db) "reconcile.local"
        ≡ ok tt)
    × Reconciled
        (reconciliation_candidates noon late_db)
        (run_reconciliation_candidates noon late_db)
        approval
        late_db
        noon
        (reconciled_reply, reconciled_db)
reconcile-Reconciled_example =
    reconcile-Reconciled config (approval_for "reconcile" "reconcile.local") "key-1" "operator" noon
      "evt_1" late_db late_db reconciled
