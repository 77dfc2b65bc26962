-- ===== src/Service/Tests.antt =====
-- The commands of the service on concrete tables (codex_work_scheduler/service.py).
use codex_work_scheduler.Service.Steps.{Step, Steps, Steps-Safe}
use codex_work_scheduler.Validation.Current.{IsCurrent}
use codex_work_scheduler.Validation.Sound.{IsSafePolicy}
use codex_work_scheduler.Service.Cancelled.{queue_cancel-Cancelled, Replaced, policy_set-Replaced}
use codex_work_scheduler.Service.Approved.{
  IsProposal, Approved, queue_approve-Approved, queue_approve-once,
}
use codex_work_scheduler.Service.Resumed.{IsResumable, resume-IsResumable}
use codex_work_scheduler.Policy.{
  age_reasons, window_report, window_reasons, raw_reasons, evaluate_policy,
}
use codex_work_scheduler.Validation.Snapshots.{
  is_inconsistent, validate_window, optional_text, one_of_three, validate_snapshot, ensure_profile,
}
use codex_work_scheduler.Validation.Packages.{optional_time, validate_work_package}
use codex_work_scheduler.Validation.Jobs.{one_of, optional_simulation, validate_job}
use codex_work_scheduler.Validation.Policies.{validate_policy, validate_usage}
use codex_work_scheduler.Validation.Approvals.{
  hex_digest, check_times, validate_approval, require_approval,
}
use codex_work_scheduler.Validation.Fields.{
  object, exact_keys, version, number, integer, matches_tail, matches_identifier, text,
  validate_identifier, text_list, identifiers, array,
}
use codex_work_scheduler.Service.Encode.{job_value, execution_value, package_value}
use codex_work_scheduler.Common.{
  Option, ℕ, ◌≡◌, ◌≢◌, refl, true, false, none, some, [], ◌∷◌, ◌++◌, ok,
}
use codex_work_scheduler.Common.Int.{sub_ℕ, pos}
use codex_work_scheduler.Common.Codes.{insert_code, sorted_set}
use codex_work_scheduler.Contracts.{Approval, Package, Policy}
use codex_work_scheduler.Json.{is_huge, int, str, end, field}
use codex_work_scheduler.Validation.Tests.{digest, policy_value, policy, work_package}
use codex_work_scheduler.Store.Tables.{
  Db, Mode, JobState, ProposalState, JobRow, ProposalRow, Request, Reply,
}
use codex_work_scheduler.Store.Audit.{
  last_hash, next_sequence, append_audit, verify_audit, genesis_hash, event_row,
}
use codex_work_scheduler.Store.Idempotency.{
  stored_reply, replay_idempotent, insert_key, execute_new, execute_idempotent, new_key_row,
}
use codex_work_scheduler.Store.Tests.{fresh_db}
use codex_work_scheduler.Service.{
  is_used, require_capability, checked_actor, insert_approval, newest, latest_snapshot,
  account_binding, checked_snapshot, decide_bound, decide_checked, evaluate_current_policy,
  resolve_workspace_cwd,
}
use codex_work_scheduler.Service.Rows.{
  find_job, is_cancellable, set_job_state, insert_job, get_proposal, new_job,
}
use codex_work_scheduler.Service.Queue.{
  package_hash_of, approve, queue_approve_new, cancel, queue_approve, queue_cancel,
}
use codex_work_scheduler.Service.Control.{
  is_ready, policy_hash_of, resume_scope, replace_policy, policy_set_new, make_ready, resume_new,
  resume, policy_set,
}
use codex_work_scheduler.Service.Samples.{
  sample_digest, config, paths, approval_for, granted, noon, quiet_db,
}

abbrev resumed_reply : Reply
resumed_reply = Reply.resumed "apr-1" "evt_1" Mode.paused

abbrev resumed_db : Db
resumed_db = record quiet_db {
  controller = record { mode = Mode.ready; reason_code = none; updated_at = noon };
  approvals = granted "resume" "control.local.write" ∷ [];
  audit_events =
      event_row 1 genesis_hash "evt_1" "controller.resumed" "operator"
        (field "approval_id" (str "apr-1")
          (field "from" (str "PAUSED") (field "to" (str "READY") end)))
        noon
      ∷ [];
  idempotency =
      new_key_row "key-1" "resume" (Request.resume (granted "resume" "control.local.write")) noon
        resumed_reply
      ∷ [];
}

resumed :
    resume config
      (approval_for "resume" "control.local.write")
      "key-1"
      "operator"
      noon
      "evt_1"
      quiet_db
      quiet_db
    ≡ ok ((resumed_reply, false), resumed_db)
unfolding require_capability checked_actor insert_approval newest latest_snapshot account_binding
    checked_snapshot decide_bound decide_checked evaluate_current_policy make_ready resume_new
    resume object exact_keys version number is_huge integer matches_tail matches_identifier text
    validate_identifier text_list hex_digest check_times validate_approval require_approval one_of
    is_inconsistent validate_window optional_text one_of_three validate_snapshot ensure_profile
    last_hash next_sequence append_audit stored_reply replay_idempotent insert_key execute_new
    execute_idempotent age_reasons window_report window_reasons raw_reasons evaluate_policy
    insert_code sorted_set sub_ℕ
resumed = refl

resume-IsResumable_example :
    IsResumable config quiet_db noon
    × ((approval : Approval) × IsCurrent approval noon
        × (require_approval approval "resume" resume_scope "control.local.write" ≡ ok tt)
        × (is_used approval.approval_id quiet_db.approvals ≡ false)
        × (resumed_db.approvals ≡ quiet_db.approvals ++ approval ∷ []))
    × (resumed_db.controller.mode ≡ Mode.ready)
resume-IsResumable_example =
    resume-IsResumable config (approval_for "resume" "control.local.write") "key-1" "operator" noon
      "evt_1" quiet_db quiet_db resumed

abbrev proposal : ProposalState → Option ℕ → ℕ → ProposalRow
proposal state approved_at updated_at = record {
  job_id = "job-2";
  work_ref = "repo:2";
  priority = 50;
  state = state;
  work_package = work_package;
  package_hash = digest;
  created_at = 0;
  updated_at = updated_at;
  approved_at = approved_at;
}

abbrev proposed_db : Db
proposed_db = record fresh_db { proposals = proposal ProposalState.proposed none 0 ∷ [] }

abbrev approved_db : Db
approved_db = record fresh_db {
  proposals = proposal ProposalState.approved (some noon) noon ∷ [];
  approvals = granted "queue.approve" "work.dispatch" ∷ [];
  jobs = new_job work_package.job digest "apr-1" noon ∷ [];
  audit_events =
      event_row 1 genesis_hash "evt_1" "backlog.approved" "operator"
        (field "approval_id" (str "apr-1")
          (field "job_id" (str "job-2") (field "package_hash" (str digest) end)))
        noon
      ∷ [];
  idempotency =
      new_key_row "key-1" "queue.approve"
        (Request.approve (granted "queue.approve" "work.dispatch") "job-2" digest) noon
        (Reply.approved "apr-1" "evt_1" "job-2")
      ∷ [];
}

approved :
    queue_approve config paths "job-2"
      (approval_for "queue.approve" "work.dispatch")
      "key-1"
      "operator"
      noon
      "evt_1"
      proposed_db
      proposed_db
    ≡ ok ((Reply.approved "apr-1" "evt_1" "job-2", false), approved_db)
unfolding require_capability checked_actor insert_approval resolve_workspace_cwd approve
    queue_approve_new queue_approve insert_job get_proposal job_value execution_value package_value
    object exact_keys version number is_huge integer matches_tail matches_identifier text
    validate_identifier text_list identifiers array hex_digest check_times validate_approval
    require_approval validate_usage one_of optional_simulation validate_job optional_time
    validate_work_package last_hash next_sequence append_audit stored_reply replay_idempotent
    insert_key execute_new execute_idempotent insert_code sorted_set
approved = refl

queue_approve-Approved_example :
    (package_approved : Package) × (approval : Approval) × IsProposal "job-2" package_approved
      proposed_db
    × IsCurrent approval noon
    × (require_approval approval "queue.approve" (package_hash_of package_approved) "work.dispatch"
        ≡ ok tt)
    × Approved "job-2" package_approved approval proposed_db noon
        (Reply.approved "apr-1" "evt_1" "job-2", approved_db)
queue_approve-Approved_example =
    queue_approve-Approved config paths "job-2" (approval_for "queue.approve" "work.dispatch")
      "key-1" "operator" noon "evt_1" proposed_db proposed_db approved

queue_approve-once_example :
    queue_approve config paths "job-2"
      (approval_for "queue.approve" "work.dispatch")
      "key-2"
      "operator"
      noon
      "evt_2"
      approved_db
      approved_db
    ≢ ok ((Reply.approved "apr-1" "evt_2" "job-2", false), approved_db)
queue_approve-once_example =
    queue_approve-once config paths "job-2" (approval_for "queue.approve" "work.dispatch")
      (approval_for "queue.approve" "work.dispatch") "key-1" "key-2" "operator" "operator" noon noon
      "evt_1" "evt_2" proposed_db approved_db proposed_db approved

abbrev queued_db : Db
queued_db = record fresh_db { jobs = new_job work_package.job digest "apr-1" 0 ∷ [] }

abbrev cancelled_db : Db
cancelled_db = record fresh_db {
  jobs =
      record (new_job work_package.job digest "apr-1" 0) {
        state = JobState.cancelled;
        updated_at = noon;
      }
      ∷ [];
  audit_events =
      event_row 1 genesis_hash "evt_1" "queue.cancelled" "operator"
        (field "job_id" (str "job-2") end) noon
      ∷ [];
  idempotency =
      new_key_row "key-1" "queue.cancel" (Request.cancel "job-2") noon
        (Reply.cancelled "evt_1" "job-2")
      ∷ [];
}

cancelled :
    queue_cancel config "job-2" "key-1" "operator" noon "evt_1" queued_db
    ≡ ok ((Reply.cancelled "evt_1" "job-2", false), cancelled_db)
unfolding require_capability checked_actor cancel queue_cancel matches_tail matches_identifier text
    validate_identifier last_hash next_sequence append_audit stored_reply insert_key execute_new
    execute_idempotent
cancelled = refl

queue_cancel-Cancelled_example :
    ((row : JobRow) × (find_job "job-2" queued_db.jobs ≡ some row)
      × (is_cancellable row.state ≡ true))
    × (cancelled_db.jobs ≡ set_job_state JobState.cancelled noon "job-2" queued_db.jobs)
    × (cancelled_db.leases ≡ queued_db.leases)
    × (cancelled_db.controller ≡ queued_db.controller)
queue_cancel-Cancelled_example =
    queue_cancel-Cancelled config "job-2" "key-1" "operator" noon "evt_1" queued_db cancelled

abbrev replaced_reply : Reply
replaced_reply = Reply.policy_set "apr-1" "evt_1" digest 2

abbrev replaced_db : Db
replaced_db = record fresh_db {
  controller = record {
    mode = Mode.paused;
    reason_code = some "POLICY_CHANGED";
    updated_at = noon;
  };
  policies = record { version = 2; policy = policy; policy_hash = digest; updated_at = noon };
  approvals = granted "policy.set" "policy.local.write" ∷ [];
  audit_events =
      event_row 1 genesis_hash "evt_1" "policy.updated" "operator"
        (field "approval_id" (str "apr-1")
          (field "policy_hash" (str digest) (field "version" (int (pos 2)) end)))
        noon
      ∷ [];
  idempotency =
      new_key_row "key-1" "policy.set"
        (Request.set_policy (granted "policy.set" "policy.local.write") policy) noon replaced_reply
      ∷ [];
}

replaced :
    policy_set config policy_value
      (approval_for "policy.set" "policy.local.write")
      "key-1"
      "operator"
      noon
      "evt_1"
      fresh_db
      fresh_db
    ≡ ok ((replaced_reply, false), replaced_db)
unfolding require_capability checked_actor insert_approval replace_policy policy_set_new policy_set
    object exact_keys version number is_huge integer matches_tail matches_identifier text
    validate_identifier text_list hex_digest check_times validate_approval require_approval
    validate_policy last_hash next_sequence append_audit stored_reply replay_idempotent insert_key
    execute_new execute_idempotent insert_code sorted_set
replaced = refl

policy_set-Replaced_example :
    (new : Policy) × (approval : Approval) × IsSafePolicy new
    × IsCurrent approval noon
    × (require_approval approval "policy.set" (policy_hash_of new) "policy.local.write" ≡ ok tt)
    × Replaced new approval fresh_db noon (replaced_reply, replaced_db)
policy_set-Replaced_example =
    policy_set-Replaced config policy_value (approval_for "policy.set" "policy.local.write") "key-1"
      "operator" noon "evt_1" fresh_db fresh_db replaced

Steps-Safe_example :
    (is_ready cancelled_db.controller.mode ≡ true → is_ready queued_db.controller.mode ≡ true)
    × ((verify_audit queued_db).valid ≡ true → (verify_audit cancelled_db).valid ≡ true)
Steps-Safe_example = Steps-Safe (
    Steps.after Steps.here
      (Step.cancelling config "job-2" "key-1" "operator" noon "evt_1" cancelled))
