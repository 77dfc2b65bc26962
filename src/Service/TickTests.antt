-- ===== src/Service/TickTests.antt =====
-- One tick on concrete tables (codex_work_scheduler/service.py).
use codex_work_scheduler.Service.Uninterrupted.{IsConflict, tick_finish-returns, crash-recovered}
use codex_work_scheduler.Service.Settled.{IsSettled, Consequence, tick_finish-IsSettled}
use codex_work_scheduler.Service.Ticked.{IsClaim, tick_start-IsClaim}
use codex_work_scheduler.Common.Codes.{sorted_set}
use codex_work_scheduler.Store.Idempotency.{new_key_row, insert_key, record_idempotent}
use codex_work_scheduler.Validation.Snapshots.{
  is_inconsistent, validate_window, optional_text, one_of_three, validate_snapshot, ensure_profile,
}
use codex_work_scheduler.Validation.Jobs.{one_of}
use codex_work_scheduler.Validation.Approvals.{hex_digest}
use codex_work_scheduler.Validation.Fields.{
  object, exact_keys, number, integer, matches_tail, matches_identifier, text, validate_identifier,
}
use codex_work_scheduler.Service.Control.{is_expired_lease}
use codex_work_scheduler.Common.Sweep.{insert_by, sort_by}
use codex_work_scheduler.Service.Runner.{run_simulation, run_job}
use codex_work_scheduler.Service.Recovery.{
  RecoveryReport, expire_at, reconciliation_candidates, run_reconciliation_candidates,
  recover_leases, recover_runs, log_recovery, recover, background_recover,
}
use codex_work_scheduler.Service.{
  require_capability, checked_actor, newest, latest_snapshot, account_binding, checked_snapshot,
  decide_bound, decide_checked, evaluate_current_policy,
}
use codex_work_scheduler.Common.{
  ℕ, ◌+◌, ◌*◌, ◌≤◌, ◌≡◌, refl, String, true, false, none, some, [], ◌∷◌, ◌++◌, ok, err, any, ◌⊎◌,
  arith,
}
use codex_work_scheduler.Common.Int.{sub_ℕ, pos}
use codex_work_scheduler.Contracts.{Window, unit}
use codex_work_scheduler.Json.{is_huge, str, bool, arr, nil, cons, end, field}
use codex_work_scheduler.Policy.{
  age_reasons, window_report, window_reasons, signal_status_of, raw_reasons, evaluate_policy,
  has_signal_failure, Decision,
}
use codex_work_scheduler.Policy.Tests.{sample_policy}
use codex_work_scheduler.Validation.Tests.{work_package, digest}
use codex_work_scheduler.Store.Tables.{Db, Mode, JobState, LeaseState, Request, Reply}
use codex_work_scheduler.Store.Audit.{
  last_hash, next_sequence, append_audit, verify_audit, genesis_hash, event_row,
}
use codex_work_scheduler.Service.Rows.{new_job}
use codex_work_scheduler.Service.Tick.{
  new_active_lease, find_lease, is_lease_row_active, pending_jobs, judge, scan_jobs, insert_lease,
  claim_job, after_scan, complete_claim, Claim, claimed, tick_start, tick_finish,
}
use codex_work_scheduler.Service.Samples.{sample_digest, config, noon, quiet_db}

abbrev ready_db : Db
ready_db = record quiet_db {
  controller = record { mode = Mode.ready; reason_code = none; updated_at = 0 };
  jobs = new_job work_package.job digest "apr-0" 0 ∷ [];
}

abbrev decision : Decision
decision = record {
  eligible = true;
  reasons = [];
  signal_status = "fresh";
  credit_signal = some "absent";
  signal_age_seconds = some (pos (100 * unit));
  windows = some (
    record {
      guarded_estimate_percent = 6_250_000_000_000_000_000;
      post_run_remaining_percent = pos 53_750_000_000_000_000_000;
      remaining_percent = 60 * unit;
      reserve_percent = 10 * unit;
      resets_at = 9000 * unit;
      safe = true;
    },
    record {
      guarded_estimate_percent = 1_250_000_000_000_000_000;
      post_run_remaining_percent = pos 58_750_000_000_000_000_000;
      remaining_percent = 60 * unit;
      reserve_percent = 10 * unit;
      resets_at = 9000 * unit;
      safe = true;
    },
  );
}

abbrev window_minutes : ℕ → Window
window_minutes minutes = record {
  window_duration_minutes = minutes;
  used_percent = 40 * unit;
  remaining_percent = 60 * unit;
  resets_at = 9000 * unit;
}

abbrev sample_claim : Claim
sample_claim = record {
  job = work_package.job;
  decision = decision;
  lease_id = "lse-1";
  snapshot = record {
    observed_at = 1400 * unit;
    source = "fixture";
    profile_key = "default";
    limit_id = "codex";
    account_fingerprint = digest;
    account_type = "chatgpt";
    plan_type = none;
    credit_signal = "absent";
    paid_credit_state = "unavailable";
    spend_control_state = "not_reached";
    rate_limit_reached_type = none;
    five_hour = window_minutes 300;
    weekly = window_minutes 10_080;
  };
  policy = sample_policy;
}

abbrev claimed_db : Db
claimed_db = record ready_db {
  jobs =
      record (new_job work_package.job digest "apr-0" 0) {
        state = JobState.simulating;
        updated_at = noon;
      }
      ∷ [];
  leases = new_active_lease "lse-1" "job-2" "operator" noon 300 ∷ [];
  audit_events =
      event_row 1 genesis_hash "evt_1" "simulation.started" "operator"
        (field "job_id" (str "job-2") (field "lease_id" (str "lse-1") end)) noon
      ∷ [];
}

started :
    tick_start config "key-1" "operator" noon "lse-1" "evt_1" ready_db
    ≡ ok (claimed sample_claim, claimed_db)
unfolding newest latest_snapshot account_binding checked_snapshot decide_bound decide_checked
    evaluate_current_policy pending_jobs judge scan_jobs insert_lease claim_job after_scan
    tick_start insert_by sort_by object exact_keys number is_huge integer matches_tail
    matches_identifier text validate_identifier hex_digest one_of is_inconsistent validate_window
    optional_text one_of_three validate_snapshot ensure_profile last_hash next_sequence append_audit
    age_reasons window_report window_reasons signal_status_of raw_reasons evaluate_policy
    has_signal_failure sorted_set sub_ℕ
started = refl

tick_start-IsClaim_example : IsClaim config noon "operator" ready_db sample_claim claimed_db
tick_start-IsClaim_example =
    tick_start-IsClaim config "key-1" "operator" noon "lse-1" "evt_1" ready_db started

abbrev done_reply : Reply
done_reply = Reply.tick_done "evt_2" "job-2" "lse-1" false false decision

abbrev done_db : Db
done_db = record claimed_db {
  jobs =
      record (new_job work_package.job digest "apr-0" 0) {
        state = JobState.simulated;
        updated_at = 1600 * unit;
      }
      ∷ [];
  leases =
      record (new_active_lease "lse-1" "job-2" "operator" noon 300) {
        state = LeaseState.completed;
        completed_at = some (1600 * unit);
      }
      ∷ [];
  audit_events =
      claimed_db.audit_events
      ++ event_row 2 "evt_1" "evt_2" "simulation.completed" "operator"
          (field "job_id" (str "job-2") (
            field "lease_id" (str "lse-1")
              (field "overrun" (bool false) (field "requires_review" (bool false) end))))
          (1600 * unit)
        ∷ [];
  idempotency = new_key_row "key-1" "tick" Request.tick (1600 * unit) done_reply ∷ [];
}

settled :
    tick_finish sample_claim "key-1" "operator" (1600 * unit) "evt_2" claimed_db
    ≡ ok (done_reply, done_db)
unfolding run_simulation run_job complete_claim tick_finish last_hash next_sequence event_row
    append_audit insert_key record_idempotent sub_ℕ
settled = refl

tick_finish-IsSettled_example :
    (is_lease_row_active (find_lease "lse-1" "job-2" claimed_db.leases) ≡ true)
    × IsSettled sample_claim (1600 * unit) claimed_db (done_reply, done_db)
    × Consequence (run_job work_package.job) sample_claim done_db
tick_finish-IsSettled_example =
    tick_finish-IsSettled sample_claim "key-1" "operator" (1600 * unit) "evt_2" claimed_db settled

tick_finish-returns_example :
    ((r : Reply × Db) × (tick_finish sample_claim "key-1" "operator"
          (1600 * unit)
          "evt_2"
          claimed_db
        ≡ ok r))
    ⊎ ((e : String) × (tick_finish sample_claim "key-1" "operator" (1600 * unit) "evt_2" claimed_db
          ≡ err e)
        × IsConflict "key-1" "evt_2" claimed_db e)
tick_finish-returns_example =
    tick_finish-returns config "key-1" "operator" noon (1600 * unit) "lse-1" "evt_1" "evt_2"
      ready_db started

abbrev crashed_report : RecoveryReport
crashed_report = record {
  audit_event_id = some "evt_2";
  reconciled_lease_ids = "lse-1" ∷ [];
  reconciled_run_ids = [];
  requires_review = true;
}

abbrev crashed_db : Db
crashed_db = record claimed_db {
  controller = record {
    mode = Mode.paused;
    reason_code = some "RECOVERY_REVIEW_REQUIRED";
    updated_at = 1900 * unit;
  };
  jobs =
      record (new_job work_package.job digest "apr-0" 0) {
        state = JobState.needs_review;
        updated_at = 1900 * unit;
      }
      ∷ [];
  leases = expire_at (1900 * unit) (new_active_lease "lse-1" "job-2" "operator" noon 300) ∷ [];
  audit_events =
      claimed_db.audit_events
      ++ event_row 2 "evt_1" "evt_2" "background.recovered" "operator"
          (field "lease_ids" (arr (cons (str "lse-1") nil)) (field "run_ids" (arr nil) end))
          (1900 * unit)
        ∷ [];
}

crashed :
    background_recover config "operator" (1900 * unit) "evt_2" claimed_db
    ≡ ok (crashed_report, crashed_db)
unfolding require_capability checked_actor reconciliation_candidates run_reconciliation_candidates
    recover_leases recover_runs log_recovery recover background_recover insert_by sort_by
    matches_tail matches_identifier text validate_identifier last_hash next_sequence event_row
    append_audit verify_audit
crashed = refl

in_time : noon + ready_db.policies.policy.lease_seconds * unit ≤ 1900 * unit
in_time = omega arith

crash-recovered_example :
    (crashed_report.requires_review ≡ true)
    × (crashed_db.controller.mode ≡ Mode.paused)
    × (any (is_expired_lease (1900 * unit)) crashed_db.leases ≡ false)
crash-recovered_example =
    crash-recovered config config "key-1" "operator" "operator" noon (1900 * unit) "lse-1" "evt_1"
      "evt_2" ready_db started in_time crashed
