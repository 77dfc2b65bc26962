-- ===== src/Service/Reconciled.antt =====
-- Reconciliation (codex_work_scheduler/service.py, `reconcile`).
use codex_work_scheduler.Common.{
  ℕ, ◌≡◌, refl, ap, ◌∙◌, String, Bool, true, false, List, [], ◌∷◌, ◌++◌, any, update_where, ok,
  ◌&&◌,
}
use codex_work_scheduler.Common.Ensures.{
  Ensures, Ensures-bind, Ensures-then, Ensures-ok, Ensures-eq, Ensures-map,
}
use codex_work_scheduler.Common.Sweep.{sweep-update_where}
use codex_work_scheduler.Contracts.{Approval}
use codex_work_scheduler.Json.{Value}
use codex_work_scheduler.Policy.{is_empty}
use codex_work_scheduler.Validation.Approvals.{validate_approval, require_approval}
use codex_work_scheduler.Validation.Current.{IsCurrent, validate_approval-IsCurrent}
use codex_work_scheduler.Store.Tables.{Db, LeaseRow, RunRow, Reply, Request, Digest}
use codex_work_scheduler.Store.Idempotency.{replay_idempotent}
use codex_work_scheduler.Service.{Config, require_capability, checked_actor, is_used}
use codex_work_scheduler.Service.Control.{is_expired_lease}
use codex_work_scheduler.Service.Recovery.{
  is_expired_run, reconciliation_candidates, run_reconciliation_candidates, expire, abandon,
  lease_key, run_key, hits_lease, hits_run, recover_leases, recover_runs, stored_job, pause_unless,
  reconcile_scope, reconcile_rows, reconcile_new, reconcile,
}
use codex_work_scheduler.Service.Recovered.{recover_leases-sweep, recover_runs-sweep}
use codex_work_scheduler.Service.Once.{
  Outcome, Executed, Consumed, Appended, insert_approval-Ensures, append_audit-Ensures,
  execute_idempotent-Ensures, replay_or-Ensures,
}

pause_unless-leases :
    (b : Bool) (reason_code : String) (now : ℕ) (db : Db)
    → ((pause_unless b reason_code now db).leases ≡ db.leases)
      × ((pause_unless b reason_code now db).runs ≡ db.runs)
      × ((pause_unless b reason_code now db).approvals ≡ db.approvals)
pause_unless-leases true reason_code now db = (refl, refl, refl)
pause_unless-leases false reason_code now db = (refl, refl, refl)

recover_leases-approvals :
    (write : LeaseRow → LeaseRow) (now : ℕ) (cs : List LeaseRow) (db : Db)
    → (recover_leases write now cs db).1.approvals ≡ db.approvals
unfolding recover_leases
recover_leases-approvals write now [] db = refl
recover_leases-approvals write now (c ∷ cs) db = recover_leases-approvals write now cs _

recover_runs-approvals :
    (now : ℕ) (cs : List RunRow) (db : Db)
    → (recover_runs stored_job now cs db).1.approvals ≡ db.approvals
unfolding recover_runs
recover_runs-approvals now [] db = refl
recover_runs-approvals now (c ∷ cs) db = recover_runs-approvals now cs _

module _ ⦃digest : Digest⦄ where
  -- The leases and runs that are written: those that were candidates and still are expired.
  abbrev pub Reconciled : List LeaseRow → List RunRow → Approval → Db → ℕ → Outcome
  Reconciled candidates run_candidates approval db now = λ (reply, db').
      (is_used approval.approval_id db.approvals ≡ false)
      × (db'.approvals ≡ db.approvals ++ approval ∷ [])
      × (db'.leases
          ≡ update_where (λ row. any (λ c. hits_lease now c row) candidates) expire db.leases)
      × (db'.runs
          ≡ update_where (λ row. any (λ c. hits_run now c row) run_candidates) (abandon now)
              db.runs)

  reconcile_rows-Ensures :
      (candidates : List LeaseRow) (run_candidates : List RunRow) (approval : Approval)
      (actor : String) (now : ℕ) (event_id : String) (db : Db)
      → Ensures
          (Reconciled candidates run_candidates approval db now)
          (reconcile_rows candidates run_candidates approval actor now event_id db)
  unfolding reconcile_rows
  reconcile_rows-Ensures candidates run_candidates approval actor now event_id db =
      let P = Reconciled candidates run_candidates approval db now in
      Ensures-bind (Consumed approval db) P _ _ (insert_approval-Ensures approval db)
        λ db₁ (unused, same₁).
          let L = recover_leases expire now candidates db₁ in
          let R = recover_runs stored_job now run_candidates L.1 in
          let calm = is_empty L.0 && is_empty R.0 in
          let db₄ = pause_unless calm "RECONCILIATION_REVIEW_REQUIRED" now R.1 in
          let (l_leases, l_runs, _, _) = recover_leases-sweep expire now candidates db₁ in
          let (r_runs, r_leases, _, _) = recover_runs-sweep stored_job now run_candidates L.1 in
          let (p_leases, p_runs, p_approvals) =
            pause_unless-leases calm "RECONCILIATION_REVIEW_REQUIRED" now R.1 in
          let leases₁ = ap (λ (d : Db). d.leases) same₁ in
          let runs₁ = ap (λ (d : Db). d.runs) same₁ in
          Ensures-bind (Appended db₄) P _ _ (append_audit-Ensures event_id _ _ _ now db₄)
            λ (id, db₅) same₅.
              let done : P
                  (Reply.reconciled approval.approval_id id db₅.controller.mode L.0 R.0, db₅) =
                (
                  unused,
                  ap (λ (d : Db). d.approvals) same₅
                      ∙ p_approvals
                      ∙ recover_runs-approvals now run_candidates L.1
                      ∙ recover_leases-approvals expire now candidates db₁
                      ∙ ap (λ (d : Db). d.approvals) same₁,
                  ap (λ (d : Db). d.leases) same₅
                      ∙ p_leases
                      ∙ r_leases
                      ∙ l_leases
                      ∙ sweep-update_where (is_expired_lease now) lease_key expire candidates
                          db₁.leases (λ row. refl)
                      ∙ ap (update_where (λ row. any (λ c. hits_lease now c row) candidates) expire)
                          leases₁,
                  ap (λ (d : Db). d.runs) same₅
                      ∙ p_runs
                      ∙ r_runs
                      ∙ sweep-update_where (is_expired_run now) run_key (abandon now) run_candidates
                          L.1.runs (λ row. refl)
                      ∙ ap
                          (update_where (λ row. any (λ c. hits_run now c row) run_candidates)
                            (abandon now))
                          (l_runs ∙ runs₁),
                ) in
              done

  abbrev ReconciledOnce : Db → Db → ℕ → Outcome
  ReconciledOnce seen db now = λ reply.
      (approval : Approval) × IsCurrent approval now
      × (require_approval approval "reconcile" (reconcile_scope now seen) "reconcile.local" ≡ ok tt)
      × Reconciled (reconciliation_candidates now seen) (run_reconciliation_candidates now seen)
          approval db now reply

  reconcile_new-Ensures :
      (approval_value : Value) (old : Approval) (key actor : String) (now : ℕ) (event_id : String)
      (seen db : Db)
      → Ensures
          (Executed (ReconciledOnce seen db now))
          (reconcile_new approval_value old key actor now event_id seen db)
  unfolding reconcile_new
  reconcile_new-Ensures approval_value old key actor now event_id seen db =
      let Q = ReconciledOnce seen db now in
      let candidates = reconciliation_candidates now seen in
      let run_candidates = run_reconciliation_candidates now seen in
      Ensures-eq (Executed Q) (validate_approval approval_value now false) _ λ approval valid.
        Ensures-eq (Executed Q)
          (require_approval approval "reconcile" (reconcile_scope now seen) "reconcile.local") _
          λ u covers.
            execute_idempotent-Ensures Q (λ reply db rows q. q) key "reconcile" _ now
              (reconcile_rows candidates run_candidates approval actor now event_id) db
              (Ensures-map (Reconciled candidates run_candidates approval db now) Q _
                (λ reply done.
                  (approval, validate_approval-IsCurrent approval_value now valid, covers, done))
                (reconcile_rows-Ensures candidates run_candidates approval actor now event_id db))

  -- A reconciliation that is no replay consumes an approval that is in force, covers the hash of
  -- exactly the expired leases and runs that were seen and was not consumed before, and closes those
  -- of them that still are expired when it writes, and no other row.
  pub reconcile-Reconciled :
      (config : Config) (approval_value : Value) (key actor : String) (now : ℕ) (event_id : String)
      (seen db : Db) {reply : Reply} {db' : Db}
      → reconcile config approval_value key actor now event_id seen db ≡ ok ((reply, false), db')
      → (approval : Approval) × IsCurrent approval now
        × (require_approval approval "reconcile" (reconcile_scope now seen) "reconcile.local"
            ≡ ok tt)
        × Reconciled
            (reconciliation_candidates now seen)
            (run_reconciliation_candidates now seen)
            approval
            db
            now
            (reply, db')
  unfolding reconcile
  reconcile-Reconciled config approval_value key actor now event_id seen db e =
      let Q = ReconciledOnce seen db now in
      let E = Executed Q in
      Ensures-ok E _
        (Ensures-then E (require_capability config "reconcile.local") _ λ _.
          Ensures-then E (checked_actor actor) _ λ name.
            Ensures-then E (validate_approval approval_value now true) _ λ old.
              Ensures-then E (replay_idempotent key "reconcile" (Request.reconcile old) seen) _
                λ stored.
                  replay_or-Ensures Q stored
                    (reconcile_new approval_value old key name now event_id seen) db
                    (reconcile_new-Ensures approval_value old key name now event_id seen db))
        e refl
