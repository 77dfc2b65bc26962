-- ===== src/Service/Resumed.antt =====
-- Resuming (codex_work_scheduler/service.py, `resume`).
use codex_work_scheduler.Store.Idempotency.{replay_idempotent}
use codex_work_scheduler.Validation.Approvals.{validate_approval, require_approval}
use codex_work_scheduler.Json.{Value}
use codex_work_scheduler.Common.{
  refl, ap, sym, ◌∙◌, not-true, ◌++◌, [], ◌∷◌, not, String, ℕ, ◌≡◌, true, false, none, any, ok,
}
use codex_work_scheduler.Contracts.{Approval}
use codex_work_scheduler.Policy.{Decision}
use codex_work_scheduler.Validation.Current.{validate_approval-IsCurrent, IsCurrent}
use codex_work_scheduler.Store.Tables.{Reply, Request, Digest, Db}
use codex_work_scheduler.Service.{
  require_capability, checked_actor, Reply, set_controller, Mode, Config, is_used, latest_snapshot,
  evaluate_current_policy,
}
use codex_work_scheduler.Service.Once.{
  Appended, Outcome, Consumed, Executed, insert_approval-Ensures, append_audit-Ensures,
  execute_idempotent-Ensures, replay_or-Ensures,
}
use codex_work_scheduler.Common.Ensures.{
  Ensures-eq, Ensures-map, Ensures-eq, Ensures, Ensures-bind, Ensures-then, Ensures-guard,
  Ensures-ok,
}
use codex_work_scheduler.Service.Control.{
  is_expired_lease, resume, resume_new, resume_scope, make_ready, is_active_lease, is_active_run,
  is_ready,
}

-- What must hold of the tables before, for work to be let run again.
pub record IsResumable (config : Config) (db : Db) (now : ℕ) : Type 0 where
  pub no_lease : any is_active_lease db.leases ≡ false
  pub no_run : any is_active_run db.runs ≡ false
  pub halted : is_ready db.controller.mode ≡ false
  pub eligible :
      (decision : Decision) × (evaluate_current_policy config
          (latest_snapshot db)
          db.policies.policy
          now
          none
          db
        ≡ ok decision)
      × (decision.eligible ≡ true)

-- What holds after a resumption by an approval.
abbrev Resumed : Config → Approval → Db → ℕ → Outcome
Resumed config approval db now = λ (reply, db').
    IsResumable config db now
    × (is_used approval.approval_id db.approvals ≡ false)
    × (db'.approvals ≡ db.approvals ++ approval ∷ [])
    × (db'.controller.mode ≡ Mode.ready)

module _ ⦃digest : Digest⦄ where
  make_ready-Ensures :
      (config : Config) (approval : Approval) (actor : String) (now : ℕ) (event_id : String)
      (db : Db)
      → IsCurrent approval now
      → Ensures (Resumed config approval db now) (make_ready config approval actor now event_id db)
  unfolding make_ready
  make_ready-Ensures config approval actor now event_id db current =
      let P = Resumed config approval db now in
      Ensures-guard P (not (any (is_expired_lease now) db.leases)) "RECONCILE_REQUIRED" _
        λ none_expired.
          Ensures-guard P (not (any is_active_lease db.leases)) "LEASE_ACTIVE" _ λ no_lease.
            Ensures-guard P (not (any is_active_run db.runs)) "RUN_ACTIVE" _ λ no_run.
              Ensures-eq P
                (evaluate_current_policy config (latest_snapshot db) db.policies.policy now none db)
                _
                λ decision decided. Ensures-guard P decision.eligible _ _ λ eligible.
                  Ensures-bind (Consumed approval db) P _ _ (insert_approval-Ensures approval db)
                    λ db₁ (unused, same).
                      Ensures-guard P (not (is_ready db₁.controller.mode)) "INVALID_TRANSITION" _
                        λ halted.
                          Ensures-bind (Appended (set_controller Mode.ready none now db₁)) P _ _
                            (append_audit-Ensures event_id _ _ _ now _)
                            λ (id, db₂) same₂.
                              let before : db₁.controller.mode ≡ db.controller.mode =
                                ap (λ (d : Db). d.controller.mode) same in
                              let done : P
                                  (Reply.resumed approval.approval_id id db₁.controller.mode, db₂) =
                                (
                                  record {
                                    no_lease = not-true _ no_lease;
                                    no_run = not-true _ no_run;
                                    halted = ap is_ready (sym before) ∙ not-true _ halted;
                                    eligible = (decision, decided, eligible);
                                  },
                                  unused,
                                  ap (λ (d : Db). d.approvals) same₂
                                      ∙ ap (λ (d : Db). d.approvals) same,
                                  ap (λ (d : Db). d.controller.mode) same₂,
                                ) in
                              done

  abbrev ResumedOnce : Config → Db → ℕ → Outcome
  ResumedOnce config db now = λ (reply, db').
      IsResumable config db now
      × ((approval : Approval) × IsCurrent approval now
          × (require_approval approval "resume" resume_scope "control.local.write" ≡ ok tt)
          × (is_used approval.approval_id db.approvals ≡ false)
          × (db'.approvals ≡ db.approvals ++ approval ∷ []))
      × (db'.controller.mode ≡ Mode.ready)

  resume_new-Ensures :
      (config : Config) (approval_value : Value) (old : Approval) (key actor : String) (now : ℕ)
      (event_id : String) (db : Db)
      → Ensures
          (Executed (ResumedOnce config db now))
          (resume_new config approval_value old key actor now event_id db)
  unfolding resume_new
  resume_new-Ensures config approval_value old key actor now event_id db =
      let Q = ResumedOnce config db now in
      Ensures-eq (Executed Q) (validate_approval approval_value now false) _ λ approval valid.
        Ensures-eq (Executed Q)
          (require_approval approval "resume" resume_scope "control.local.write") _
          λ u covers.
            let current = validate_approval-IsCurrent approval_value now valid in
            execute_idempotent-Ensures Q (λ reply db rows q. q) key "resume" _ now
              (make_ready config approval actor now event_id) db
              (Ensures-map (Resumed config approval db now) Q _
                (λ (reply, db') (resumable, unused, approvals, ready).
                  (resumable, (approval, current, covers, unused, approvals), ready))
                (make_ready-Ensures config approval actor now event_id db current))

  -- A resumption that is no replay, whatever was seen before the transaction, finds no active lease
  -- and no active run, a controller that is not ready and a policy decision that is eligible,
  -- consumes an approval that is in force, covers resuming and was not consumed before, and makes
  -- the controller ready.
  pub resume-IsResumable :
      (config : Config) (approval_value : Value) (key actor : String) (now : ℕ) (event_id : String)
      (seen db : Db) {reply : Reply} {db' : Db}
      → resume config approval_value key actor now event_id seen db ≡ ok ((reply, false), db')
      → IsResumable config db now
        × ((approval : Approval) × IsCurrent approval now
            × (require_approval approval "resume" resume_scope "control.local.write" ≡ ok tt)
            × (is_used approval.approval_id db.approvals ≡ false)
            × (db'.approvals ≡ db.approvals ++ approval ∷ []))
        × (db'.controller.mode ≡ Mode.ready)
  unfolding resume
  resume-IsResumable config approval_value key actor now event_id seen db e =
      let Q = ResumedOnce config db now in
      Ensures-ok (Executed Q) _
        (Ensures-then (Executed Q) (require_capability config "control.local.write") _ λ _.
          Ensures-then (Executed Q) (checked_actor actor) _ λ name.
            Ensures-then (Executed Q) (validate_approval approval_value now true) _ λ old.
              Ensures-then (Executed Q) (replay_idempotent key "resume" (Request.resume old) seen) _
                λ stored.
                  replay_or-Ensures Q stored
                    (resume_new config approval_value old key name now event_id) db
                    (resume_new-Ensures config approval_value old key name now event_id db))
        e refl
