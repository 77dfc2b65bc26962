-- ===== src/Service/Queue.antt =====
-- The backlog and the queue: `queue_propose`, `queue_approve`, `queue_submit` and `queue_cancel` of
-- codex_work_scheduler/service.py.
use codex_work_scheduler.Common.{
  ℕ, String, Bool, true, false, not, str_eq, Result, ok, ◌>>=◌, ◌>>◌, guard,
}
use codex_work_scheduler.Common.Int.{pos}
use codex_work_scheduler.Contracts.{Job, Package, Approval}
use codex_work_scheduler.Json.{Value, int, str, end, field}
use codex_work_scheduler.Validation.Fields.{validate_identifier}
use codex_work_scheduler.Validation.Jobs.{validate_job}
use codex_work_scheduler.Validation.Packages.{validate_work_package}
use codex_work_scheduler.Validation.Approvals.{validate_approval, require_approval}
use codex_work_scheduler.Store.Tables.{Db, JobState, Request, Payload, Reply, Digest, Transaction}
use codex_work_scheduler.Store.Audit.{append_audit}
use codex_work_scheduler.Store.Idempotency.{replay_idempotent, execute_idempotent}
use codex_work_scheduler.Service.{
  Config, Paths, require_capability, checked_actor, insert_approval, resolve_workspace_cwd,
  replay_or,
}
use codex_work_scheduler.Service.Encode.{package_value}
use codex_work_scheduler.Service.Rows.{
  find_job, find_proposal, insert_job, insert_proposal, proposal_or, job_or, get_proposal,
  is_proposed, is_cancellable, is_simulating, set_job_state, approve_proposal,
}

-- `_normalize_work_package`
unfoldable pub normalize_work_package : Config → Paths → Value → Result Package
normalize_work_package config paths value = do
  work_package ← validate_work_package value
  cwd ← resolve_workspace_cwd config paths work_package.execution.cwd
  ok (record work_package { execution = record (work_package.execution) { cwd = cwd } })

module _ ⦃digest : Digest⦄ where
  abbrev pub package_hash_of : Package → String
  package_hash_of work_package = digest.payload_hash (Payload.work_package work_package)

  abbrev pub job_hash : Job → String
  job_hash job = digest.payload_hash (Payload.job job)

  -- The `operation` of `queue_propose`.
  unfoldable pub propose : Package → String → ℕ → String → Transaction Reply
  propose work_package actor now event_id db = do
    db₁ ← insert_proposal work_package (package_hash_of work_package) now db
    (id, db₂) ←
        append_audit event_id "backlog.proposed" actor
          (field "job_id" (str work_package.job.job_id) (
            field "package_hash" (str (package_hash_of work_package))
              (field "priority" (int (pos work_package.job.priority)) end)))
          now db₁
    ok (Reply.proposed id work_package.job.job_id (package_hash_of work_package), db₂)

  -- `queue_propose`
  unfoldable pub queue_propose :
      Config → Paths → Value → String → String → ℕ → String → Transaction (Reply × Bool)
  queue_propose config paths package_value key actor now event_id db = do
    require_capability config "backlog.local.write"
    name ← checked_actor actor
    work_package ← normalize_work_package config paths package_value
    execute_idempotent key "queue.propose" (Request.propose work_package) now
        (propose work_package name now event_id) db

  -- The `operation` of `queue_approve`.
  unfoldable pub approve :
      String → String → Package → Approval → String → ℕ → String → Transaction Reply
  approve job_id package_hash work_package approval actor now event_id db = do
    row ← proposal_or "PROPOSAL_NOT_FOUND" (find_proposal job_id db.proposals)
    guard (is_proposed row.state) "INVALID_TRANSITION"
    db₁ ← insert_approval approval db
    db₂ ← insert_job work_package.job (job_hash work_package.job) approval.approval_id now db₁
    (id, db₃) ←
        append_audit event_id "backlog.approved" actor
          (field "approval_id" (str approval.approval_id)
            (field "job_id" (str job_id) (field "package_hash" (str package_hash) end)))
          now (record db₂ { proposals = approve_proposal now job_id db₂.proposals })
    ok (Reply.approved approval.approval_id id job_id, db₃)

  -- What follows the replay in `queue_approve`.
  unfoldable pub queue_approve_new :
      String
      → String
      → Package
      → Value
      → Approval
      → String
      → String
      → ℕ
      → String
      → Transaction (Reply × Bool)
  queue_approve_new job_id package_hash work_package approval_value old key actor now event_id db =
      do
        approval ← validate_approval approval_value now false
        require_approval approval "queue.approve" package_hash "work.dispatch"
        execute_idempotent key "queue.approve" (Request.approve old job_id package_hash) now
            (approve job_id package_hash work_package approval actor now event_id) db

  -- `queue_approve`
  unfoldable pub queue_approve :
      Config
      → Paths
      → String
      → Value
      → String
      → String
      → ℕ
      → String
      → Db
      → Transaction (Reply × Bool)
  queue_approve config paths job_id approval_value key actor now event_id seen db = do
    require_capability config "queue.local.write"
    name ← checked_actor actor
    identifier ← validate_identifier (str job_id)
    proposal ← get_proposal identifier seen
    work_package ← validate_work_package (package_value proposal.work_package)
    guard (str_eq (package_hash_of work_package) proposal.package_hash) "STATE_INVALID"
    cwd ← resolve_workspace_cwd config paths work_package.execution.cwd
    old ← validate_approval approval_value now true
    stored ←
        replay_idempotent key "queue.approve" (Request.approve old job_id proposal.package_hash)
          seen
    replay_or stored
        (queue_approve_new job_id proposal.package_hash work_package approval_value old key name now
          event_id)
        db

  -- The `operation` of `queue_submit`.
  unfoldable pub submit : Job → Approval → String → ℕ → String → Transaction Reply
  submit job approval actor now event_id db = do
    db₁ ← insert_approval approval db
    db₂ ← insert_job job (job_hash job) approval.approval_id now db₁
    (id, db₃) ←
        append_audit event_id "queue.submitted" actor
          (field "approval_id" (str approval.approval_id) (
            field "job_id" (str job.job_id) (
              field "manifest_hash" (str (job_hash job))
                (field "priority" (int (pos job.priority)) end))))
          now db₂
    ok (Reply.submitted approval.approval_id id job.job_id, db₃)

  unfoldable pub queue_submit_new :
      Job → Value → Approval → String → String → ℕ → String → Transaction (Reply × Bool)
  queue_submit_new job approval_value old key actor now event_id db = do
    approval ← validate_approval approval_value now false
    require_approval approval "queue.submit" (job_hash job) "queue.local.write"
    execute_idempotent key "queue.submit" (Request.submit old job) now
        (submit job approval actor now event_id) db

  -- `queue_submit`
  unfoldable pub queue_submit :
      Config → Value → Value → String → String → ℕ → String → Db → Transaction (Reply × Bool)
  queue_submit config job_value approval_value key actor now event_id seen db = do
    require_capability config "queue.local.write"
    name ← checked_actor actor
    job ← validate_job job_value
    old ← validate_approval approval_value now true
    stored ← replay_idempotent key "queue.submit" (Request.submit old job) seen
    replay_or stored (queue_submit_new job approval_value old key name now event_id) db

  -- The `operation` of `queue_cancel`.
  unfoldable pub cancel : String → String → ℕ → String → Transaction Reply
  cancel job_id actor now event_id db = do
    row ← job_or "JOB_NOT_FOUND" (find_job job_id db.jobs)
    guard (not (is_simulating row.state)) "JOB_LEASED"
    guard (is_cancellable row.state) "INVALID_TRANSITION"
    (id, db₁) ←
        append_audit event_id "queue.cancelled" actor (field "job_id" (str job_id) end) now
          (record db { jobs = set_job_state JobState.cancelled now job_id db.jobs })
    ok (Reply.cancelled id job_id, db₁)

  -- `queue_cancel`
  unfoldable pub queue_cancel :
      Config → String → String → String → ℕ → String → Transaction (Reply × Bool)
  queue_cancel config job_id key actor now event_id db = do
    require_capability config "queue.local.write"
    name ← checked_actor actor
    execute_idempotent key "queue.cancel" (Request.cancel job_id) now
        (cancel job_id name now event_id) db
