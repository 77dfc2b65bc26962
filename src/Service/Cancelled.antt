-- ===== src/Service/Cancelled.antt =====
-- Cancelling a job and replacing the policy (codex_work_scheduler/service.py, `queue_cancel` and
-- `policy_set`).
use codex_work_scheduler.Common.{
  ℕ, ◌+◌, String, ◌≡◌, refl, ap, ◌∙◌, true, false, not, Option, none, some, [], ◌∷◌, ◌++◌, ok,
}
use codex_work_scheduler.Common.Ensures.{
  Ensures, Ensures-bind, Ensures-then, Ensures-guard, Ensures-ok, Ensures-eq, Ensures-map,
}
use codex_work_scheduler.Contracts.{Approval, Policy}
use codex_work_scheduler.Json.{Value}
use codex_work_scheduler.Validation.Policies.{validate_policy}
use codex_work_scheduler.Validation.Approvals.{validate_approval, require_approval}
use codex_work_scheduler.Validation.Current.{IsCurrent, validate_approval-IsCurrent}
use codex_work_scheduler.Validation.Sound.{IsSafePolicy, validate_policy-IsSafePolicy}
use codex_work_scheduler.Store.Tables.{Db, Mode, JobState, JobRow, Reply, Request, Digest}
use codex_work_scheduler.Store.Idempotency.{replay_idempotent}
use codex_work_scheduler.Service.{
  Config, require_capability, checked_actor, is_used, set_controller,
}
use codex_work_scheduler.Service.Rows.{
  find_job, job_or, is_cancellable, is_simulating, set_job_state,
}
use codex_work_scheduler.Service.Queue.{cancel, queue_cancel}
use codex_work_scheduler.Service.Control.{
  policy_hash_of, replace_policy, policy_set_new, policy_set,
}
use codex_work_scheduler.Service.Once.{
  Outcome, Executed, Consumed, Appended, insert_approval-Ensures, append_audit-Ensures,
  execute_idempotent-Ensures, replay_or-Ensures,
}

job_or-Ensures :
    (error : String) (found : Option JobRow)
    → Ensures (λ row. found ≡ some row) (job_or error found)
job_or-Ensures error none = tt
job_or-Ensures error (some row) = refl

module _ ⦃digest : Digest⦄ where
  -- What holds after a cancellation.
  abbrev Cancelled : String → Db → ℕ → Outcome
  Cancelled job_id db now = λ (reply, db').
      ((row : JobRow) × (find_job job_id db.jobs ≡ some row) × (is_cancellable row.state ≡ true))
      × (db'.jobs ≡ set_job_state JobState.cancelled now job_id db.jobs)
      × (db'.leases ≡ db.leases)
      × (db'.controller ≡ db.controller)

  cancel-Ensures :
      (job_id actor : String) (now : ℕ) (event_id : String) (db : Db)
      → Ensures (Cancelled job_id db now) (cancel job_id actor now event_id db)
  unfolding cancel
  cancel-Ensures job_id actor now event_id db =
      let P = Cancelled job_id db now in
      Ensures-bind (λ row. find_job job_id db.jobs ≡ some row) P _ _
        (job_or-Ensures "JOB_NOT_FOUND" (find_job job_id db.jobs))
        λ row found. Ensures-guard P (not (is_simulating row.state)) "JOB_LEASED" _ λ unleased.
          Ensures-guard P (is_cancellable row.state) "INVALID_TRANSITION" _ λ cancellable.
            Ensures-bind
              (Appended (record db { jobs = set_job_state JobState.cancelled now job_id db.jobs }))
              P _ _ (append_audit-Ensures event_id _ _ _ now _)
              λ (id, db₁) same.
                let done : P (Reply.cancelled id job_id, db₁) = (
                  (row, found, cancellable),
                  ap (λ (d : Db). d.jobs) same,
                  ap (λ (d : Db). d.leases) same,
                  ap (λ (d : Db). d.controller) same,
                ) in
                done

  -- A cancellation that is no replay finds the job in one of the states from which a job may be
  -- cancelled, moves the rows of that job and no other to `cancelled`, and leaves leases and
  -- controller as they were.
  pub queue_cancel-Cancelled :
      (config : Config) (job_id key actor : String) (now : ℕ) (event_id : String) (db : Db)
      {reply : Reply} {db' : Db}
      → queue_cancel config job_id key actor now event_id db ≡ ok ((reply, false), db')
      → ((row : JobRow) × (find_job job_id db.jobs ≡ some row) × (is_cancellable row.state ≡ true))
        × (db'.jobs ≡ set_job_state JobState.cancelled now job_id db.jobs)
        × (db'.leases ≡ db.leases)
        × (db'.controller ≡ db.controller)
  unfolding queue_cancel
  queue_cancel-Cancelled config job_id key actor now event_id db e =
      let Q = Cancelled job_id db now in
      let E = Executed Q in
      Ensures-ok E _
        (Ensures-then E (require_capability config "queue.local.write") _ λ _.
          Ensures-then E (checked_actor actor) _ λ name.
            execute_idempotent-Ensures Q (λ reply db rows q. q) key "queue.cancel" _ now
              (cancel job_id name now event_id) db (cancel-Ensures job_id name now event_id db))
        e refl

  -- What holds after the policy was replaced.
  abbrev pub Replaced : Policy → Approval → Db → ℕ → Outcome
  Replaced policy approval db now = λ (reply, db').
      (is_used approval.approval_id db.approvals ≡ false)
      × (db'.approvals ≡ db.approvals ++ approval ∷ [])
      × (db'.policies.policy ≡ policy)
      × (db'.policies.version ≡ db.policies.version + 1)
      × (db'.controller.mode ≡ Mode.paused)

  replace_policy-Ensures :
      (policy : Policy) (approval : Approval) (actor : String) (now : ℕ) (event_id : String)
      (db : Db)
      → Ensures
          (Replaced policy approval db now)
          (replace_policy policy approval actor now event_id db)
  unfolding replace_policy
  replace_policy-Ensures policy approval actor now event_id db =
      let P = Replaced policy approval db now in
      Ensures-bind (Consumed approval db) P _ _ (insert_approval-Ensures approval db)
        λ db₁ (unused, same₁).
          Ensures-bind
            (Appended (
              set_controller Mode.paused (some "POLICY_CHANGED") now (record db₁ {
                policies = record {
                  version = db.policies.version + 1;
                  policy = policy;
                  policy_hash = policy_hash_of policy;
                  updated_at = now;
                };
              })))
            P _ _ (append_audit-Ensures event_id _ _ _ now _)
            λ (id, db₂) same₂.
              let reply =
                Reply.policy_set approval.approval_id id (policy_hash_of policy)
                  (db.policies.version + 1) in
              let done : P (reply, db₂) = (
                unused,
                ap (λ (d : Db). d.approvals) same₂ ∙ ap (λ (d : Db). d.approvals) same₁,
                ap (λ (d : Db). d.policies.policy) same₂,
                ap (λ (d : Db). d.policies.version) same₂,
                ap (λ (d : Db). d.controller.mode) same₂,
              ) in
              done

  abbrev ReplacedOnce : Db → ℕ → Outcome
  ReplacedOnce db now = λ reply.
      (policy : Policy) × (approval : Approval) × IsSafePolicy policy
      × IsCurrent approval now
      × (require_approval approval "policy.set" (policy_hash_of policy) "policy.local.write"
          ≡ ok tt)
      × Replaced policy approval db now reply

  policy_set_new-Ensures :
      (policy : Policy) (approval_value : Value) (old : Approval) (key actor : String) (now : ℕ)
      (event_id : String) (db : Db)
      → IsSafePolicy policy
      → Ensures
          (Executed (ReplacedOnce db now))
          (policy_set_new policy approval_value old key actor now event_id db)
  unfolding policy_set_new
  policy_set_new-Ensures policy approval_value old key actor now event_id db safe =
      let Q = ReplacedOnce db now in
      Ensures-eq (Executed Q) (validate_approval approval_value now false) _ λ approval valid.
        Ensures-eq (Executed Q)
          (require_approval approval "policy.set" (policy_hash_of policy) "policy.local.write") _
          λ u covers.
            let current = validate_approval-IsCurrent approval_value now valid in
            execute_idempotent-Ensures Q (λ reply db rows q. q) key "policy.set" _ now
              (replace_policy policy approval actor now event_id) db
              (Ensures-map (Replaced policy approval db now) Q _
                (λ reply replaced. (policy, approval, safe, current, covers, replaced))
                (replace_policy-Ensures policy approval actor now event_id db))

  -- A policy change that is no replay, whatever was seen before the transaction, stores a policy
  -- within its ranges under the next version, consumes an approval that is in force, covers the
  -- hash of that very policy and was not consumed before, and pauses the controller.
  pub policy_set-Replaced :
      (config : Config) (policy_value approval_value : Value) (key actor : String) (now : ℕ)
      (event_id : String) (seen db : Db) {reply : Reply} {db' : Db}
      → policy_set config policy_value approval_value key actor now event_id seen db
        ≡ ok ((reply, false), db')
      → (policy : Policy) × (approval : Approval) × IsSafePolicy policy
        × IsCurrent approval now
        × (require_approval approval "policy.set" (policy_hash_of policy) "policy.local.write"
            ≡ ok tt)
        × Replaced policy approval db now (reply, db')
  unfolding policy_set
  policy_set-Replaced config policy_value approval_value key actor now event_id seen db e =
      let Q = ReplacedOnce db now in
      let E = Executed Q in
      Ensures-ok E _
        (Ensures-then E (require_capability config "policy.local.write") _ λ _.
          Ensures-then E (checked_actor actor) _ λ name.
            Ensures-eq E (validate_policy policy_value) _ λ policy valid.
              Ensures-then E (validate_approval approval_value now true) _ λ old.
                Ensures-then E
                  (replay_idempotent key "policy.set" (Request.set_policy old policy) seen) _
                  λ stored.
                    replay_or-Ensures Q stored
                      (policy_set_new policy approval_value old key name now event_id) db
                      (policy_set_new-Ensures policy approval_value old key name now event_id db
                        (validate_policy-IsSafePolicy policy_value valid)))
        e refl
