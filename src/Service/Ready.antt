-- ===== src/Service/Ready.antt =====
-- The commands as steps of the tables (codex_work_scheduler/service.py): which of them may make the
-- controller ready, and that none breaks the audit chain.
use codex_work_scheduler.Service.Once.{Reaches}
use codex_work_scheduler.Common.{
  ◌+◌, ℕ, String, ◌≡◌, refl, sym, ap, ◌∙◌, subst, true, false, not, some, List, ok, is_some,
}
use codex_work_scheduler.Common.Ensures.{
  Ensures-self, Ensures, Ensures-bind, Ensures-then, Ensures-guard, Ensures-ok, Ensures-if,
}
use codex_work_scheduler.Contracts.{Approval, Package, Job, Policy}
use codex_work_scheduler.Json.{Fields}
use codex_work_scheduler.Store.Tables.{JobState, Db, Mode, Digest, IdempotencyRow}
use codex_work_scheduler.Store.Audit.{
  append_audit, verify_audit, is_duplicate, event_row, last_hash, next_sequence, genesis_hash,
}
use codex_work_scheduler.Store.Chain.{append_audit-valid}
use codex_work_scheduler.Service.{is_used, insert_approval, set_controller}
use codex_work_scheduler.Service.Rows.{
  is_known, find_job, find_proposal, insert_job, insert_proposal, proposal_or, job_or, is_proposed,
  is_cancellable, is_simulating, set_job_state, approve_proposal,
}
use codex_work_scheduler.Service.Queue.{package_hash_of, job_hash, propose, approve, submit, cancel}
use codex_work_scheduler.Service.Control.{policy_hash_of, is_ready, replace_policy, change_mode}

-- The two columns of state on which the theorems here rest stay as they are.
abbrev pub Untouched : Db → Db → Type 0
Untouched db db' = (db'.controller ≡ db.controller) × (db'.audit_events ≡ db.audit_events)

pub insert_approval-Untouched :
    (approval : Approval) (db : Db) → Ensures (Untouched db) (insert_approval approval db)
unfolding insert_approval
insert_approval-Untouched approval db =
    Ensures-if (Untouched db) (is_used approval.approval_id db.approvals) _ _ (λ _. tt)
      λ _. (refl, refl)

insert_job-Untouched :
    (job : Job) (manifest_hash approval_id : String) (now : ℕ) (db : Db)
    → Ensures (Untouched db) (insert_job job manifest_hash approval_id now db)
unfolding insert_job
insert_job-Untouched job manifest_hash approval_id now db =
    Ensures-if (Untouched db) (is_some (find_job job.job_id db.jobs)) _ _ (λ _. tt)
      λ _. (refl, refl)

insert_proposal-Untouched :
    (work_package : Package) (package_hash : String) (now : ℕ) (db : Db)
    → Ensures (Untouched db) (insert_proposal work_package package_hash now db)
unfolding insert_proposal
insert_proposal-Untouched work_package package_hash now db =
    Ensures-if (Untouched db) (is_known work_package package_hash db.proposals) _ _ (λ _. tt)
      λ _. (refl, refl)

module _ ⦃digest : Digest⦄ where
  -- The controller is ready afterwards only if it was ready before, and a chain that verifies
  -- verifies afterwards.
  abbrev pub Safe : Db → Db → Type 0
  Safe db db' =
      (is_ready db'.controller.mode ≡ true → is_ready db.controller.mode ≡ true)
      × ((verify_audit db).valid ≡ true → (verify_audit db').valid ≡ true)

  pub valid_congr :
      (db db' : Db)
      → db'.audit_events ≡ db.audit_events
      → (verify_audit db').valid ≡ (verify_audit db).valid
  unfolding verify_audit
  valid_congr db db' e = rw (e)

  append_audit-id :
      (event_id event_type actor : String) (details : Fields) (now : ℕ) (db : Db)
      → Ensures
          (λ (id, db'). (id ≡ event_id) × (db'.controller ≡ db.controller))
          (append_audit event_id event_type actor details now db)
  unfolding append_audit
  append_audit-id event_id event_type actor details now db =
      let row =
        event_row (next_sequence 1 db.audit_events) (last_hash genesis_hash db.audit_events)
          event_id event_type actor details now in
      Ensures-if {B = String × Db} (λ (id, db'). (id ≡ event_id) × (db'.controller ≡ db.controller))
        (is_duplicate row db.audit_events) _ _ (λ used. tt) λ unused. (refl, refl)

  -- Appending an event to tables whose controller is no readier.
  pub append_audit-Safe :
      (db db₁ : Db) (event_id event_type actor : String) (details : Fields) (now : ℕ)
      → (is_ready db₁.controller.mode ≡ true → is_ready db.controller.mode ≡ true)
      → db₁.audit_events ≡ db.audit_events
      → Ensures (λ (id, db₂). Safe db db₂) (append_audit event_id event_type actor details now db₁)
  append_audit-Safe db db₁ event_id event_type actor details now ready same =
      let Named : String × Db → Type 0 =
        λ (id, db'). (id ≡ event_id) × (db'.controller ≡ db₁.controller) in
      Ensures-self (λ (id, db₂). Safe db db₂) _
        λ (id, db₂) e.
          let (same_id, kept) =
            Ensures-ok Named _ (append_audit-id event_id event_type actor details now db₁) e in
          let appended =
            subst
              (λ (i : String). append_audit event_id event_type actor details now db₁ ≡ ok (i, db₂))
              same_id e in
          (
            λ h. ready (ap (λ c. is_ready c.mode) (sym kept) ∙ h),
            λ v.
                (append_audit-valid event_id event_type actor details now db₁ appended
                  (valid_congr db db₁ same ∙ v)).0,
          )

  pub Safe-stable :
      (db d : Db) (rows : List IdempotencyRow)
      → Safe db d
      → Safe db (record d { idempotency = rows })
  unfolding verify_audit
  Safe-stable db d rows q = q

  pub Safe-refl : (db : Db) → Safe db db
  Safe-refl db = (λ h. h, λ v. v)

  pub propose-Safe :
      (work_package : Package) (actor : String) (now : ℕ) (event_id : String) (db : Db)
      → Ensures (Reaches (Safe db)) (propose work_package actor now event_id db)
  unfolding propose
  propose-Safe work_package actor now event_id db =
      Ensures-bind (Untouched db) (Reaches (Safe db)) _ _
        (insert_proposal-Untouched work_package (package_hash_of work_package) now db)
        λ db₁ (same, events).
          Ensures-bind (λ (id, db₂). Safe db db₂) (Reaches (Safe db)) _ _
            (append_audit-Safe db db₁ event_id _ _ _ now
              (λ h. ap (λ c. is_ready c.mode) (sym same) ∙ h) events)
            λ (id, db₂) safe. safe

  pub submit-Safe :
      (job : Job) (approval : Approval) (actor : String) (now : ℕ) (event_id : String) (db : Db)
      → Ensures (Reaches (Safe db)) (submit job approval actor now event_id db)
  unfolding submit
  submit-Safe job approval actor now event_id db =
      Ensures-bind (Untouched db) (Reaches (Safe db)) _ _ (insert_approval-Untouched approval db)
        λ db₁ (same₁, events₁).
          Ensures-bind (Untouched db₁) (Reaches (Safe db)) _ _
            (insert_job-Untouched job (job_hash job) approval.approval_id now db₁)
            λ db₂ (same₂, events₂).
              Ensures-bind (λ (id, db₃). Safe db db₃) (Reaches (Safe db)) _ _
                (append_audit-Safe db db₂ event_id _ _ _ now
                  (λ h. ap (λ c. is_ready c.mode) (sym (same₂ ∙ same₁)) ∙ h) (events₂ ∙ events₁))
                λ (id, db₃) safe. safe

  pub approve-Safe :
      (job_id package_hash : String) (work_package : Package) (approval : Approval) (actor : String)
      (now : ℕ) (event_id : String) (db : Db)
      → Ensures
          (Reaches (Safe db))
          (approve job_id package_hash work_package approval actor now event_id db)
  unfolding approve
  approve-Safe job_id package_hash work_package approval actor now event_id db =
      let R = Reaches (Safe db) in
      Ensures-then R (proposal_or "PROPOSAL_NOT_FOUND" (find_proposal job_id db.proposals)) _ λ row.
        Ensures-guard R (is_proposed row.state) "INVALID_TRANSITION" _ λ _.
          Ensures-bind (Untouched db) R _ _ (insert_approval-Untouched approval db)
            λ db₁ (same₁, events₁).
              Ensures-bind (Untouched db₁) R _ _
                (insert_job-Untouched work_package.job (job_hash work_package.job)
                  approval.approval_id now db₁)
                λ db₂ (same₂, events₂).
                  Ensures-bind (λ (id, db₃). Safe db db₃) R _ _
                    (append_audit-Safe db
                      (record db₂ { proposals = approve_proposal now job_id db₂.proposals })
                      event_id _ _ _ now (λ h. ap (λ c. is_ready c.mode) (sym (same₂ ∙ same₁)) ∙ h)
                      (events₂ ∙ events₁))
                    λ (id, db₃) safe. safe

  pub cancel-Safe :
      (job_id actor : String) (now : ℕ) (event_id : String) (db : Db)
      → Ensures (Reaches (Safe db)) (cancel job_id actor now event_id db)
  unfolding cancel
  cancel-Safe job_id actor now event_id db =
      let R = Reaches (Safe db) in
      Ensures-then R (job_or "JOB_NOT_FOUND" (find_job job_id db.jobs)) _ λ row.
        Ensures-guard R (not (is_simulating row.state)) "JOB_LEASED" _ λ _.
          Ensures-guard R (is_cancellable row.state) "INVALID_TRANSITION" _ λ _.
            Ensures-bind (λ (id, db₁). Safe db db₁) R _ _
              (append_audit-Safe db
                (record db { jobs = set_job_state JobState.cancelled now job_id db.jobs }) event_id
                _ _ _ now (λ h. h) refl)
              λ (id, db₁) safe. safe

  pub replace_policy-Safe :
      (policy : Policy) (approval : Approval) (actor : String) (now : ℕ) (event_id : String)
      (db : Db)
      → Ensures (Reaches (Safe db)) (replace_policy policy approval actor now event_id db)
  unfolding replace_policy
  replace_policy-Safe policy approval actor now event_id db =
      let R = Reaches (Safe db) in
      Ensures-bind (Untouched db) R _ _ (insert_approval-Untouched approval db)
        λ db₁ (same, events).
          Ensures-bind (λ (id, db₂). Safe db db₂) R _ _
            (append_audit-Safe db
              (set_controller Mode.paused (some "POLICY_CHANGED") now (record db₁ {
                policies = record {
                  version = db.policies.version + 1;
                  policy = policy;
                  policy_hash = policy_hash_of policy;
                  updated_at = now;
                };
              }))
              event_id _ _ _ now (λ h. cc) events)
            λ (id, db₂) safe. safe

  pub change_mode-Safe :
      (mode : Mode) (reason_code command actor : String) (now : ℕ) (event_id : String) (db : Db)
      → is_ready mode ≡ false
      → Ensures (Reaches (Safe db)) (change_mode mode reason_code command actor now event_id db)
  unfolding change_mode
  change_mode-Safe mode reason_code command actor now event_id db halted =
      Ensures-bind (λ (id, db₁). Safe db db₁) (Reaches (Safe db)) _ _
        (append_audit-Safe db (set_controller mode (some reason_code) now db) event_id _ _ _ now
          (λ h. cc) refl)
        λ (id, db₁) safe. safe
