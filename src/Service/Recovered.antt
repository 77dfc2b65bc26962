-- ===== src/Service/Recovered.antt =====
-- Recovery leaves no expired work active (codex_work_scheduler/service.py).
use codex_work_scheduler.Common.{
  ℕ, ◌≡◌, refl, sym, ap, ◌∙◌, String, true, false, not, ◌&&◌, ◌||◌, Option, some, List, [], ◌∷◌,
  any, All, update_where, ok, arith,
}
use codex_work_scheduler.Common.Ensures.{
  Ensures, Ensures-bind, Ensures-then, Ensures-guard, Ensures-ok, Ensures-if, Ensures-map,
}
use codex_work_scheduler.Common.Sweep.{
  sweep, sweep-all, IsCandidate, candidates-IsCandidate, any-candidates, any-update_where,
  sort_by-select-none,
}
use codex_work_scheduler.Policy.{is_empty}
use codex_work_scheduler.Store.Tables.{Db, Mode, LeaseRow, RunRow, Digest}
use codex_work_scheduler.Store.Audit.{verify_audit}
use codex_work_scheduler.Service.{Config, require_capability, checked_actor, set_controller}
use codex_work_scheduler.Service.Control.{is_expired_lease}
use codex_work_scheduler.Service.Recovery.{
  lease_before, run_before, is_expired_run, reconciliation_candidates,
  run_reconciliation_candidates, expire_at, abandon, lease_key, run_key, recover_lease,
  recover_leases, recover_run, recover_runs, own_job, log_recovery, recover, background_recover,
  RecoveryReport,
}
use codex_work_scheduler.Service.Once.{Appended, append_audit-Ensures}

-- The loop over leases is the sweep, and touches neither runs, controller nor events.
pub recover_leases-sweep :
    (write : LeaseRow → LeaseRow) (now : ℕ) (cs : List LeaseRow) (db : Db)
    → ((recover_leases write now cs db).1.leases
        ≡ sweep (is_expired_lease now) lease_key write cs db.leases)
      × ((recover_leases write now cs db).1.runs ≡ db.runs)
      × ((recover_leases write now cs db).1.controller ≡ db.controller)
      × ((recover_leases write now cs db).1.audit_events ≡ db.audit_events)
unfolding recover_leases sweep
recover_leases-sweep write now [] db = (refl, refl, refl, refl)
recover_leases-sweep write now (c ∷ cs) db =
    recover_leases-sweep write now cs (recover_lease write now c db)

pub recover_runs-sweep :
    (job_of : RunRow → Db → Option String) (now : ℕ) (cs : List RunRow) (db : Db)
    → ((recover_runs job_of now cs db).1.runs
        ≡ sweep (is_expired_run now) run_key (abandon now) cs db.runs)
      × ((recover_runs job_of now cs db).1.leases ≡ db.leases)
      × ((recover_runs job_of now cs db).1.controller ≡ db.controller)
      × ((recover_runs job_of now cs db).1.audit_events ≡ db.audit_events)
unfolding recover_runs sweep
recover_runs-sweep job_of now [] db = (refl, refl, refl, refl)
recover_runs-sweep job_of now (c ∷ cs) db =
    recover_runs-sweep job_of now cs (recover_run job_of now c db)

-- It reports an identifier exactly when an expired lease was there.
recover_leases-reports :
    (write : LeaseRow → LeaseRow) (now : ℕ) (cs : List LeaseRow) (db : Db)
    → any (is_expired_lease now) cs ≡ any (is_expired_lease now) db.leases
    → All (IsCandidate (is_expired_lease now) lease_key db.leases) cs
    → is_empty (recover_leases write now cs db).0 ≡ not (any (is_expired_lease now) db.leases)
unfolding recover_leases
recover_leases-reports write now [] db e h = ap not e
recover_leases-reports write now (c ∷ cs) db e ((opened, hit), hs) = ground (arith, e, opened, hit)

recover_runs-reports :
    (job_of : RunRow → Db → Option String) (now : ℕ) (cs : List RunRow) (db : Db)
    → any (is_expired_run now) cs ≡ any (is_expired_run now) db.runs
    → All (IsCandidate (is_expired_run now) run_key db.runs) cs
    → is_empty (recover_runs job_of now cs db).0 ≡ not (any (is_expired_run now) db.runs)
unfolding recover_runs
recover_runs-reports job_of now [] db e h = ap not e
recover_runs-reports job_of now (c ∷ cs) db e ((opened, hit), hs) = ground (arith, e, opened, hit)

recover_leases-calm :
    (write : LeaseRow → LeaseRow) (now : ℕ) (db : Db)
    → any (is_expired_lease now) db.leases ≡ false
    → (recover_leases write now (reconciliation_candidates now db) db).1 ≡ db
unfolding recover_leases reconciliation_candidates
recover_leases-calm write now db calm =
    ap (λ cs. (recover_leases write now cs db).1)
      (sort_by-select-none (is_expired_lease now) lease_before db.leases calm)

recover_runs-calm :
    (job_of : RunRow → Db → Option String) (now : ℕ) (db : Db)
    → any (is_expired_run now) db.runs ≡ false
    → (recover_runs job_of now (run_reconciliation_candidates now db) db).1 ≡ db
unfolding recover_runs run_reconciliation_candidates
recover_runs-calm job_of now db calm =
    ap (λ cs. (recover_runs job_of now cs db).1)
      (sort_by-select-none (is_expired_run now) run_before db.runs calm)

-- All that is expired is closed, a review is asked for exactly when something was expired, it pauses
-- the controller, and without one nothing changes.
abbrev pub Recovered : ℕ → Db → RecoveryReport × Db → Type 0
Recovered now db (report, db') =
    (db'.leases ≡ update_where (is_expired_lease now) (expire_at now) db.leases)
    × (db'.runs ≡ update_where (is_expired_run now) (abandon now) db.runs)
    × (report.requires_review
        ≡ (any (is_expired_lease now) db.leases || any (is_expired_run now) db.runs))
    × (report.requires_review ≡ true → db'.controller.mode ≡ Mode.paused)
    × (report.requires_review ≡ false → db' ≡ db)

module _ ⦃digest : Digest⦄ where
  abbrev Logged : List String → List String → Db → RecoveryReport × Db → Type 0
  Logged ls rs db (report, db') =
      (report.requires_review ≡ not (is_empty ls && is_empty rs))
      × (db'.leases ≡ db.leases)
      × (db'.runs ≡ db.runs)
      × (report.requires_review ≡ true → db'.controller.mode ≡ Mode.paused)
      × (report.requires_review ≡ false → db' ≡ db)

  log_recovery-Ensures :
      (ls rs : List String) (actor : String) (now : ℕ) (event_id : String) (db : Db)
      → Ensures (Logged ls rs db) (log_recovery ls rs actor now event_id db)
  unfolding log_recovery
  log_recovery-Ensures ls rs actor now event_id db =
      Ensures-if (Logged ls rs db) (is_empty ls && is_empty rs) _ _
        (λ e. (sym (ap not e), refl, refl, λ h. cc, λ h. refl))
        λ e.
          Ensures-bind
            (Appended (set_controller Mode.paused (some "RECOVERY_REVIEW_REQUIRED") now db))
            (Logged ls rs db) _ _ (append_audit-Ensures event_id _ _ _ now _)
            λ (id, db') same. (
              sym (ap not e),
              ap (λ (d : Db). d.leases) same,
              ap (λ (d : Db). d.runs) same,
              λ h. ap (λ (d : Db). d.controller.mode) same,
              λ h. cc,
            )

  recover-Ensures :
      (actor : String) (now : ℕ) (event_id : String) (db : Db)
      → Ensures (Recovered now db) (recover actor now event_id db)
  unfolding recover reconciliation_candidates run_reconciliation_candidates
  recover-Ensures actor now event_id db =
      let L = recover_leases (expire_at now) now (reconciliation_candidates now db) db in
      let R = recover_runs own_job now (run_reconciliation_candidates now L.1) L.1 in
      let (l_leases, l_runs, _, _) =
        recover_leases-sweep (expire_at now) now (reconciliation_candidates now db) db in
      let (r_runs, r_leases, _, _) =
        recover_runs-sweep own_job now (run_reconciliation_candidates now L.1) L.1 in
      let l_ids =
        recover_leases-reports (expire_at now) now (reconciliation_candidates now db) db
          (any-candidates (is_expired_lease now) lease_before db.leases)
          (candidates-IsCandidate (is_expired_lease now) lease_key lease_before db.leases) in
      let r_ids =
        recover_runs-reports own_job now (run_reconciliation_candidates now L.1) L.1
          (any-candidates (is_expired_run now) run_before L.1.runs)
          (candidates-IsCandidate (is_expired_run now) run_key run_before L.1.runs) in
      Ensures-map (Logged L.0 R.0 R.1) (Recovered now db) _
        (λ (report, db') (asked, leases, runs, paused, kept).
          let same_runs = ap (any (is_expired_run now)) l_runs in
          let review : report.requires_review
              ≡ (any (is_expired_lease now) db.leases || any (is_expired_run now) db.runs) =
            ground (arith, asked, l_ids, r_ids, same_runs) in
          (
            leases
                ∙ r_leases
                ∙ l_leases
                ∙ sweep-all (is_expired_lease now) lease_key (expire_at now) lease_before db.leases
                    (λ row. refl),
            runs
                ∙ r_runs
                ∙ sweep-all (is_expired_run now) run_key (abandon now) run_before L.1.runs
                    (λ row. refl)
                ∙ ap (update_where (is_expired_run now) (abandon now)) l_runs,
            review,
            paused,
            λ calm.
                let nothing : (any (is_expired_lease now) db.leases ≡ false)
                    × (any (is_expired_run now) L.1.runs ≡ false) =
                  ground (arith, review, calm, same_runs) in
                kept calm
                ∙ recover_runs-calm own_job now L.1 nothing.1
                ∙ recover_leases-calm (expire_at now) now db nothing.0,
          ))
        (log_recovery-Ensures L.0 R.0 actor now event_id R.1)

  -- A recovery closes every expired lease and every expired run, as one update of each table would,
  -- and no other row. It asks for a review exactly when something was expired, and then pauses the
  -- controller; otherwise it changes nothing.
  pub background_recover-Recovered :
      (config : Config) (actor : String) (now : ℕ) (event_id : String) (db : Db)
      {report : RecoveryReport} {db' : Db}
      → background_recover config actor now event_id db ≡ ok (report, db')
      → (db'.leases ≡ update_where (is_expired_lease now) (expire_at now) db.leases)
        × (db'.runs ≡ update_where (is_expired_run now) (abandon now) db.runs)
        × (report.requires_review
            ≡ (any (is_expired_lease now) db.leases || any (is_expired_run now) db.runs))
        × (report.requires_review ≡ true → db'.controller.mode ≡ Mode.paused)
        × (report.requires_review ≡ false → db' ≡ db)
  unfolding background_recover
  background_recover-Recovered config actor now event_id db e =
      let P = Recovered now db in
      Ensures-ok P _
        (Ensures-then P (require_capability config "background.run") _ λ _.
          Ensures-then P (require_capability config "reconcile.local") _ λ _.
            Ensures-then P (checked_actor actor) _ λ name.
              Ensures-guard P (verify_audit db).valid "AUDIT_INVALID" _
                λ valid. recover-Ensures name now event_id db)
        e

  -- Recovery is done after one run: a second one at the same time changes nothing and asks for no
  -- review.
  pub background_recover-twice :
      (config : Config) (actor actor' : String) (now : ℕ) (event_id event_id' : String) (db : Db)
      {report report' : RecoveryReport} {db' db'' : Db}
      → background_recover config actor now event_id db ≡ ok (report, db')
      → background_recover config actor' now event_id' db' ≡ ok (report', db'')
      → (report'.requires_review ≡ false) × (db'' ≡ db')
  background_recover-twice config actor actor' now event_id event_id' db {db'} e e' =
      let (leases, runs, _, _, _) = background_recover-Recovered config actor now event_id db e in
      let (_, _, asked, _, kept) =
        background_recover-Recovered config actor' now event_id' db' e' in
      let no_lease =
        ap (any (is_expired_lease now)) leases
        ∙ any-update_where (is_expired_lease now) (expire_at now) db.leases (λ row. refl) in
      let no_run =
        ap (any (is_expired_run now)) runs
        ∙ any-update_where (is_expired_run now) (abandon now) db.runs (λ row. refl) in
      let calm = asked ∙ ap (λ b. b || any (is_expired_run now) db'.runs) no_lease ∙ no_run in
      (calm, kept calm)
