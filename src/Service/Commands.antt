-- ===== src/Service/Commands.antt =====
-- Each modelled command of codex_work_scheduler/service.py but `resume` is safe by itself.
use codex_work_scheduler.Common.{ℕ, String, ◌≡◌, Bool, true, false, str_eq}
use codex_work_scheduler.Common.Ensures.{Ensures, Ensures-then, Ensures-guard}
use codex_work_scheduler.Contracts.{Approval, Package}
use codex_work_scheduler.Json.{Value, str}
use codex_work_scheduler.Validation.Fields.{validate_identifier}
use codex_work_scheduler.Validation.Jobs.{validate_job}
use codex_work_scheduler.Validation.Packages.{validate_work_package}
use codex_work_scheduler.Validation.Policies.{validate_policy}
use codex_work_scheduler.Validation.Approvals.{validate_approval, require_approval}
use codex_work_scheduler.Store.Tables.{Db, Mode, Reply, Request, Digest}
use codex_work_scheduler.Store.Idempotency.{replay_idempotent}
use codex_work_scheduler.Service.{
  Config, Paths, require_capability, checked_actor, resolve_workspace_cwd,
}
use codex_work_scheduler.Service.Encode.{package_value}
use codex_work_scheduler.Service.Rows.{get_proposal}
use codex_work_scheduler.Service.Queue.{
  normalize_work_package, propose, approve, submit, cancel, queue_propose, queue_approve,
  queue_approve_new, queue_submit, queue_submit_new, queue_cancel, package_hash_of, job_hash,
}
use codex_work_scheduler.Service.Control.{
  is_ready, replace_policy, policy_set, policy_set_new, change_mode, set_mode, policy_hash_of,
}
use codex_work_scheduler.Service.Once.{Reaches, replay_or-Reaches, execute_idempotent-Reaches}
use codex_work_scheduler.Service.Ready.{
  Safe, Safe-stable, Safe-refl, propose-Safe, approve-Safe, submit-Safe, cancel-Safe,
  replace_policy-Safe, change_mode-Safe,
}

module _ ⦃digest : Digest⦄ where
  pub queue_propose-Safe :
      (config : Config) (paths : Paths) (value : Value) (key actor : String) (now : ℕ)
      (event_id : String) (db : Db)
      → Ensures (Reaches (Safe db)) (queue_propose config paths value key actor now event_id db)
  unfolding queue_propose
  queue_propose-Safe config paths value key actor now event_id db =
      let R : (Reply × Bool) × Db → Type 0 = Reaches (Safe db) in
      Ensures-then R (require_capability config "backlog.local.write") _ λ _.
        Ensures-then R (checked_actor actor) _ λ name.
          Ensures-then R (normalize_work_package config paths value) _ λ work_package.
            execute_idempotent-Reaches (Safe db) key "queue.propose" _ now
              (propose work_package name now event_id) db (Safe-stable db) (Safe-refl db)
              (propose-Safe work_package name now event_id db)

  pub queue_cancel-Safe :
      (config : Config) (job_id key actor : String) (now : ℕ) (event_id : String) (db : Db)
      → Ensures (Reaches (Safe db)) (queue_cancel config job_id key actor now event_id db)
  unfolding queue_cancel
  queue_cancel-Safe config job_id key actor now event_id db =
      let R : (Reply × Bool) × Db → Type 0 = Reaches (Safe db) in
      Ensures-then R (require_capability config "queue.local.write") _ λ _.
        Ensures-then R (checked_actor actor) _ λ name.
          execute_idempotent-Reaches (Safe db) key "queue.cancel" _ now
            (cancel job_id name now event_id) db (Safe-stable db) (Safe-refl db)
            (cancel-Safe job_id name now event_id db)

  pub set_mode-Safe :
      (config : Config) (mode : Mode) (reason_code key actor command : String) (now : ℕ)
      (event_id : String) (db : Db)
      → is_ready mode ≡ false
      → Ensures
          (Reaches (Safe db))
          (set_mode config mode reason_code key actor command now event_id db)
  unfolding set_mode
  set_mode-Safe config mode reason_code key actor command now event_id db halted =
      let R : (Reply × Bool) × Db → Type 0 = Reaches (Safe db) in
      Ensures-then R (require_capability config "control.local.write") _ λ _.
        Ensures-then R (checked_actor actor) _ λ name.
          Ensures-then R (validate_identifier (str reason_code)) _ λ reason.
            execute_idempotent-Reaches (Safe db) key command _ now
              (change_mode mode reason command name now event_id) db (Safe-stable db) (Safe-refl db)
              (change_mode-Safe mode reason command name now event_id db halted)

  pub queue_submit-Safe :
      (config : Config) (value approval_value : Value) (key actor : String) (now : ℕ)
      (event_id : String) (seen db : Db)
      → Ensures
          (Reaches (Safe db))
          (queue_submit config value approval_value key actor now event_id seen db)
  unfolding queue_submit queue_submit_new
  queue_submit-Safe config value approval_value key actor now event_id seen db =
      let R : (Reply × Bool) × Db → Type 0 = Reaches (Safe db) in
      Ensures-then R (require_capability config "queue.local.write") _ λ _.
        Ensures-then R (checked_actor actor) _ λ name. Ensures-then R (validate_job value) _ λ job.
          Ensures-then R (validate_approval approval_value now true) _ λ old.
            Ensures-then R (replay_idempotent key "queue.submit" (Request.submit old job) seen) _
              λ stored.
                replay_or-Reaches (Safe db) stored
                  (queue_submit_new job approval_value old key name now event_id) db (Safe-refl db)
                  (Ensures-then R (validate_approval approval_value now false) _ λ approval.
                    Ensures-then R
                      (require_approval approval "queue.submit" (job_hash job) "queue.local.write")
                      _
                      λ _.
                        execute_idempotent-Reaches (Safe db) key "queue.submit" _ now
                          (submit job approval name now event_id) db (Safe-stable db) (Safe-refl db)
                          (submit-Safe job approval name now event_id db))

  queue_approve_new-Safe :
      (job_id package_hash : String) (work_package : Package) (approval_value : Value)
      (old : Approval) (key actor : String) (now : ℕ) (event_id : String) (db : Db)
      → Ensures (Reaches (Safe db)) (
          queue_approve_new job_id package_hash work_package approval_value old key actor now
            event_id db)
  unfolding queue_approve_new
  queue_approve_new-Safe job_id package_hash work_package approval_value old key actor now event_id
        db =
      let R : (Reply × Bool) × Db → Type 0 = Reaches (Safe db) in
      Ensures-then R (validate_approval approval_value now false) _ λ approval.
        Ensures-then R (require_approval approval "queue.approve" package_hash "work.dispatch") _
          λ _.
            execute_idempotent-Reaches (Safe db) key "queue.approve" _ now
              (approve job_id package_hash work_package approval actor now event_id) db
              (Safe-stable db) (Safe-refl db)
              (approve-Safe job_id package_hash work_package approval actor now event_id db)

  pub queue_approve-Safe :
      (config : Config) (paths : Paths) (job_id : String) (approval_value : Value)
      (key actor : String) (now : ℕ) (event_id : String) (seen db : Db)
      → Ensures
          (Reaches (Safe db))
          (queue_approve config paths job_id approval_value key actor now event_id seen db)
  unfolding queue_approve
  queue_approve-Safe config paths job_id approval_value key actor now event_id seen db =
      let R : (Reply × Bool) × Db → Type 0 = Reaches (Safe db) in
      Ensures-then R (require_capability config "queue.local.write") _ λ _.
        Ensures-then R (checked_actor actor) _ λ name.
          Ensures-then R (validate_identifier (str job_id)) _ λ identifier.
            Ensures-then R (get_proposal identifier seen) _ λ proposal.
              Ensures-then R (validate_work_package (package_value proposal.work_package)) _
                λ work_package.
                  Ensures-guard R (str_eq (package_hash_of work_package) proposal.package_hash)
                    "STATE_INVALID" _
                    λ _.
                      Ensures-then R (resolve_workspace_cwd config paths work_package.execution.cwd)
                        _
                        λ cwd. Ensures-then R (validate_approval approval_value now true) _ λ old.
                          Ensures-then R
                            (replay_idempotent key "queue.approve"
                              (Request.approve old job_id proposal.package_hash) seen)
                            _
                            λ stored.
                              replay_or-Reaches (Safe db) stored
                                (queue_approve_new job_id proposal.package_hash work_package
                                  approval_value old key name now event_id)
                                db (Safe-refl db)
                                (queue_approve_new-Safe job_id proposal.package_hash work_package
                                  approval_value old key name now event_id db)

  pub policy_set-Safe :
      (config : Config) (value approval_value : Value) (key actor : String) (now : ℕ)
      (event_id : String) (seen db : Db)
      → Ensures
          (Reaches (Safe db))
          (policy_set config value approval_value key actor now event_id seen db)
  unfolding policy_set policy_set_new
  policy_set-Safe config value approval_value key actor now event_id seen db =
      let R : (Reply × Bool) × Db → Type 0 = Reaches (Safe db) in
      Ensures-then R (require_capability config "policy.local.write") _ λ _.
        Ensures-then R (checked_actor actor) _ λ name.
          Ensures-then R (validate_policy value) _ λ policy.
            Ensures-then R (validate_approval approval_value now true) _ λ old.
              Ensures-then R
                (replay_idempotent key "policy.set" (Request.set_policy old policy) seen) _
                λ stored.
                  replay_or-Reaches (Safe db) stored
                    (policy_set_new policy approval_value old key name now event_id) db
                    (Safe-refl db)
                    (Ensures-then R (validate_approval approval_value now false) _ λ approval.
                      Ensures-then R
                        (require_approval approval "policy.set" (policy_hash_of policy)
                          "policy.local.write")
                        _
                        λ _.
                          execute_idempotent-Reaches (Safe db) key "policy.set" _ now
                            (replace_policy policy approval name now event_id) db (Safe-stable db)
                            (Safe-refl db)
                            (replace_policy-Safe policy approval name now event_id db))
