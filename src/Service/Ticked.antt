-- ===== src/Service/Ticked.antt =====
-- A tick claims a job only when it may, and settles what it claimed (codex_work_scheduler/service.py).
use codex_work_scheduler.Store.Audit.{append_audit}
use codex_work_scheduler.Common.{
  if_cases, eq_iff, ℕ, ◌+◌, ◌<◌, ◌≤◌, ◌≡◌, refl, sym, ap, ◌∙◌, String, Bool, true, false, not, ◌&&◌,
  Option, none, some, List, [], ◌∷◌, ◌++◌, any, count_where, str_eq, ltb, ltb→lt, ok, Result, arith,
}
use codex_work_scheduler.Common.Ensures.{
  Ensures, Ensures-bind, Ensures-then, Ensures-guard, Ensures-ok, Ensures-if, Ensures-eq,
}
use codex_work_scheduler.Contracts.{Policy, Usage, Job}
use codex_work_scheduler.Json.{Fields}
use codex_work_scheduler.Policy.{Decision, has_signal_failure}
use codex_work_scheduler.Store.Tables.{
  Request, Denial, Db, JobState, LeaseRow, JobRow, ProposalRow, Reply, Digest,
}
use codex_work_scheduler.Store.Idempotency.{record_idempotent}
use codex_work_scheduler.Service.{Config, latest_snapshot, account_binding, evaluate_current_policy}
use codex_work_scheduler.Service.Rows.{is_simulating, set_job_state, find_proposal}
use codex_work_scheduler.Service.Control.{is_ready, is_active_lease}
use codex_work_scheduler.Service.Tick.{
  head_reason, scan_on, Verdict, held, chosen, package_verdict, verdict_of, verdict_or, judge, hold,
  Scan, scan_jobs, pending_jobs, Claim, Started, replied, claimed, has_lease, new_active_lease,
  insert_lease, snapshot_or_fail, block, claim_job, after_scan, tick_start, find_lease,
  is_lease_row_active,
}
use codex_work_scheduler.Service.Once.{Appended, append_audit-Ensures}

-- A decision rests on the account bindings only.
evaluate-bindings :
    (config : Config) (snapshot : Option Fields) (policy : Policy) (now : ℕ) (usage : Option Usage)
    (db db' : Db)
    → db'.account_bindings ≡ db.account_bindings
    → evaluate_current_policy config snapshot policy now usage db'
      ≡ evaluate_current_policy config snapshot policy now usage db
unfolding evaluate_current_policy account_binding
evaluate-bindings config none policy now usage db db' e = refl
evaluate-bindings config (some fields) policy now usage db db' e = rw (e)

abbrev is_held : Verdict → Bool
is_held (held reasons state) = true
is_held (chosen decision) = false

package_verdict-held :
    (now : ℕ) (db : Db) (row : Option ProposalRow) {v : Verdict}
    → package_verdict now db row ≡ some v
    → is_held v ≡ true
package_verdict-held now db none e = cc
package_verdict-held now db (some row) e = ground arith

-- A decision in favour of a job.
abbrev pub InFavour : Config → Option Fields → Policy → ℕ → Db → Job → Decision → Type 0
InFavour config snapshot policy now db job decision =
    (evaluate_current_policy config snapshot policy now (some job.expected_usage) db ≡ ok decision)
    × (decision.eligible ≡ true)

module _ (config : Config) (snapshot : Option Fields) (policy : Policy) (now : ℕ) where
  abbrev Judged : Db → JobRow → Verdict → Type 0
  Judged db row (held reasons state) = Unit
  Judged db row (chosen decision) = InFavour config snapshot policy now db row.manifest decision

  held-Judged : (db : Db) (row : JobRow) (v : Verdict) → is_held v ≡ true → Judged db row v
  held-Judged db row (held reasons state) e = tt
  held-Judged db row (chosen decision) e = cc

  verdict_of-Judged :
      (db : Db) (row : JobRow) (decision : Decision)
      → evaluate_current_policy config snapshot policy now (some row.manifest.expected_usage) db
        ≡ ok decision
      → Judged db row (verdict_of decision)
  verdict_of-Judged db row decision e =
      if_cases (Judged db row) decision.eligible (chosen decision)
        (held decision.reasons JobState.held_policy) (λ eligible. (e, eligible)) λ _. tt

  verdict_or-Judged :
      (db : Db) (row : JobRow) (o : Option Verdict) (m : Result Verdict)
      → ((v : Verdict) → o ≡ some v → is_held v ≡ true)
      → Ensures (Judged db row) m
      → Ensures (Judged db row) (verdict_or o m)
  verdict_or-Judged db row none m h k = k
  verdict_or-Judged db row (some v) m h k = held-Judged db row v (h v refl)

  judge-Judged :
      (db : Db) (row : JobRow) → Ensures (Judged db row) (judge config snapshot policy now row db)
  unfolding judge
  judge-Judged db row =
      verdict_or-Judged db row (package_verdict now db (find_proposal row.job_id db.proposals)) _
        (λ v e. package_verdict-held now db (find_proposal row.job_id db.proposals) e)
        (Ensures-eq (Judged db row)
          (evaluate_current_policy config snapshot policy now (some row.manifest.expected_usage) db)
          _ λ decision e. verdict_of-Judged db row decision e)

  abbrev pub Selected : Db → Option (Job × Decision) → Type 0
  Selected db none = Unit
  Selected db (some (job, decision)) = InFavour config snapshot policy now db job decision

  -- The loop writes states of jobs only, and selects a job by a decision in its favour.
  abbrev pub Scanned : Db → Scan × Db → Type 0
  Scanned db (scan, db') = (db' ≡ record db { jobs = db'.jobs }) × Selected db scan.selected

  Selected-bindings :
      (db db' : Db) (o : Option (Job × Decision))
      → db'.account_bindings ≡ db.account_bindings
      → Selected db' o
      → Selected db o
  Selected-bindings db db' none e s = tt
  Selected-bindings db db' (some (job, decision)) e (decided, eligible) = (
    sym (evaluate-bindings config snapshot policy now (some job.expected_usage) db db' e) ∙ decided,
    eligible,
  )

  round-Scanned :
      (row : JobRow) (db : Db) (rest : Db → Result (Scan × Db))
      → ((d : Db) → Ensures (Scanned d) (rest d))
      → (v : Verdict) → Judged db row v
      → Ensures (Scanned db) (scan_on row db rest now v)
  round-Scanned row db rest ih (held reasons state) judged =
      Ensures-bind (Scanned (hold now state row db)) (Scanned db) (rest (hold now state row db)) _
        (ih (hold now state row db))
        λ (scan, db') (same, selected).
          (same, Selected-bindings db (hold now state row db) scan.selected refl selected)
  round-Scanned row db rest ih (chosen decision) judged = (refl, judged)

  pub scan_jobs-Scanned :
      (rows : List JobRow) (db : Db)
      → Ensures (Scanned db) (scan_jobs config snapshot policy now rows db)
  unfolding scan_jobs
  scan_jobs-Scanned [] db = (refl, tt)
  scan_jobs-Scanned (row ∷ rows) db =
      Ensures-bind (Judged db row) (Scanned db) (judge config snapshot policy now row db) _
        (judge-Judged db row)
        λ verdict judged.
          round-Scanned row db (λ d. scan_jobs config snapshot policy now rows d)
            (λ d. scan_jobs-Scanned rows d) verdict judged

pub insert_lease-Ensures :
    (row : LeaseRow) (db : Db)
    → Ensures
        (λ db'.
          (has_lease row.lease_id db.leases ≡ false)
          × (db' ≡ record db { leases = db.leases ++ row ∷ [] }))
        (insert_lease row db)
unfolding insert_lease
insert_lease-Ensures row db =
    Ensures-if
      (λ db'.
        (has_lease row.lease_id db.leases ≡ false)
        × (db' ≡ record db { leases = db.leases ++ row ∷ [] }))
      (has_lease row.lease_id db.leases) _ _ (λ _. tt) λ unused. (unused, refl)

count_where-append :
    (p : LeaseRow → Bool) (rows : List LeaseRow) (row : LeaseRow)
    → count_where p (rows ++ row ∷ []) ≤ count_where p rows + 1
count_where-append p [] row = ground arith
count_where-append p (r ∷ rows) row = ground (arith, count_where-append p rows row)

find_lease-append :
    (rows : List LeaseRow) (lease_id job_id : String) (row : LeaseRow)
    → has_lease lease_id rows ≡ false
    → row.lease_id ≡ lease_id
    → row.job_id ≡ job_id
    → find_lease lease_id job_id (rows ++ row ∷ []) ≡ some row
find_lease-append [] lease_id job_id row e i j =
    ground (arith, eq_iff row.lease_id lease_id, eq_iff row.job_id job_id)
find_lease-append (r ∷ rows) lease_id job_id row e i j =
    ground (arith, find_lease-append rows lease_id job_id row)

-- What holds after a claim.
abbrev pub IsClaim : Config → ℕ → String → Db → Claim → Db → Type 0
IsClaim config now actor db claim db' =
    (is_ready db.controller.mode ≡ true)
    × InFavour config (latest_snapshot db) db.policies.policy now db claim.job claim.decision
    × (has_lease claim.lease_id db.leases ≡ false)
    × (db'.leases
        ≡ db.leases
          ++ new_active_lease claim.lease_id claim.job.job_id actor now
              db.policies.policy.lease_seconds
            ∷ [])
    × (count_where is_active_lease db'.leases ≤ db.policies.policy.max_concurrency)
    × (db'.controller ≡ db.controller)
    × (any (λ row. str_eq row.job_id claim.job.job_id && not (is_simulating row.state)) db'.jobs
        ≡ false)

abbrev pub StartedOf : Config → ℕ → String → Db → Started × Db → Type 0
StartedOf config now actor db (replied reply, db') = Unit
StartedOf config now actor db (claimed claim, db') = IsClaim config now actor db claim db'

simulating_jobs :
    (now : ℕ) (job_id : String) (rows : List JobRow)
    → any
        (λ row. str_eq row.job_id job_id && not (is_simulating row.state))
        (set_job_state JobState.simulating now job_id rows)
      ≡ false
simulating_jobs now job_id [] = refl
simulating_jobs now job_id (r ∷ rows) =
    ground (arith, simulating_jobs now job_id rows, eq_iff r.job_id job_id)

module _ ⦃digest : Digest⦄ where
  block-StartedOf :
      (config : Config) (decision : Decision) (key actor : String) (now : ℕ) (event_id : String)
      (db : Db)
      → Ensures (StartedOf config now actor db) (block decision key actor now event_id db)
  unfolding block
  block-StartedOf config decision key actor now event_id db =
      let P = StartedOf config now actor db in
      Ensures-then P (head_reason decision.reasons) _ λ reason.
        Ensures-then P (append_audit event_id _ _ _ _ _) _ λ (id, db₁).
          Ensures-then P
            (record_idempotent key "tick" Request.tick now (Reply.tick_blocked id decision) db₁) _
            λ db₂. tt

  claim_job-IsClaim :
      (config : Config) (job : Job) (decision : Decision) (actor : String) (now : ℕ)
      (lease_id event_id : String) (db db₁ : Db)
      → is_ready db.controller.mode ≡ true
      → count_where is_active_lease db.leases < db.policies.policy.max_concurrency
      → InFavour config (latest_snapshot db) db.policies.policy now db job decision
      → db₁ ≡ record db { jobs = db₁.jobs }
      → Ensures (StartedOf config now actor db) (
          claim_job config
            (latest_snapshot db)
            db.policies.policy
            job
            decision
            actor
            now
            lease_id
            event_id
            db₁)
  unfolding claim_job
  claim_job-IsClaim config job decision actor now lease_id event_id db db₁ ready few favour same =
      let P = StartedOf config now actor db in
      let seconds = db.policies.policy.lease_seconds in
      let row = new_active_lease lease_id job.job_id actor now seconds in
      Ensures-then P (snapshot_or_fail config (latest_snapshot db)) _ λ validated.
        Ensures-bind
          (λ db₂.
            (has_lease lease_id db₁.leases ≡ false)
            × (db₂ ≡ record db₁ { leases = db₁.leases ++ row ∷ [] }))
          P _ _ (insert_lease-Ensures row db₁)
          λ db₂ (unused, same₂).
            Ensures-bind
              (Appended
                (record db₂ { jobs = set_job_state JobState.simulating now job.job_id db₂.jobs }))
              P _ _ (append_audit-Ensures event_id _ _ _ now _)
              λ (id, db₃) same₃.
                let before : db₁.leases ≡ db.leases = ap (λ (d : Db). d.leases) same in
                let leases : db₃.leases ≡ db.leases ++ row ∷ [] =
                  ap (λ (d : Db). d.leases) same₃
                  ∙ ap (λ (d : Db). d.leases) same₂
                  ∙ ap (λ rows. rows ++ row ∷ []) before in
                let counted = count_where-append is_active_lease db.leases row in
                let few' : count_where is_active_lease db₃.leases
                    ≤ db.policies.policy.max_concurrency =
                  omega (arith, ap (count_where is_active_lease) leases, counted, few) in
                (
                  ready,
                  favour,
                  ap (has_lease lease_id) (sym before) ∙ unused,
                  leases,
                  few',
                  ap (λ (d : Db). d.controller) same₃
                      ∙ ap (λ (d : Db). d.controller) same₂
                      ∙ ap (λ (d : Db). d.controller) same,
                  ap
                        (λ (d : Db).
                          any (λ row. str_eq row.job_id job.job_id && not (is_simulating row.state))
                            d.jobs)
                        same₃
                      ∙ simulating_jobs now job.job_id db₂.jobs,
                )

  after_scan-StartedOf :
      (config : Config) (denied : List Denial) (o : Option (Job × Decision)) (key actor : String)
      (now : ℕ) (lease_id event_id : String) (db db₁ : Db)
      → is_ready db.controller.mode ≡ true
      → count_where is_active_lease db.leases < db.policies.policy.max_concurrency
      → Selected config (latest_snapshot db) db.policies.policy now db o
      → db₁ ≡ record db { jobs = db₁.jobs }
      → Ensures (StartedOf config now actor db) (
          after_scan config
            (latest_snapshot db)
            db.policies.policy
            denied
            o
            key
            actor
            now
            lease_id
            event_id
            db₁)
  unfolding after_scan
  after_scan-StartedOf config denied none key actor now lease_id event_id db db₁ ready few favour
        same =
      Ensures-then (StartedOf config now actor db)
        (record_idempotent key "tick" Request.tick now (Reply.tick_idle denied) db₁) _ λ db₂. tt
  after_scan-StartedOf config denied (some (job, decision)) key actor now lease_id event_id db db₁
        ready few favour same =
      claim_job-IsClaim config job decision actor now lease_id event_id db db₁ ready few favour same

  tick_start-StartedOf :
      (config : Config) (key actor : String) (now : ℕ) (lease_id event_id : String) (db : Db)
      → Ensures
          (StartedOf config now actor db)
          (tick_start config key actor now lease_id event_id db)
  unfolding tick_start
  tick_start-StartedOf config key actor now lease_id event_id db =
      let P = StartedOf config now actor db in
      let policy = db.policies.policy in
      Ensures-guard P (is_ready db.controller.mode) "CONTROLLER_NOT_READY" _ λ ready.
        Ensures-guard P (ltb (count_where is_active_lease db.leases) policy.max_concurrency)
          "CONCURRENCY_LIMIT" _
          λ few.
            Ensures-then P (evaluate_current_policy config (latest_snapshot db) policy now none db)
              _
              λ signal.
                Ensures-if P (has_signal_failure signal) _ _
                  (λ _. block-StartedOf config signal key actor now event_id db)
                  λ _.
                    Ensures-bind (Scanned config (latest_snapshot db) policy now db) P _ _
                      (scan_jobs-Scanned config (latest_snapshot db) policy now (pending_jobs db)
                        db)
                      λ (scan, db₁) (same, selected).
                        after_scan-StartedOf config scan.denied scan.selected key actor now lease_id
                          event_id db db₁ ready (ltb→lt _ _ few) selected same

  -- A tick claims a job only while the controller is ready, by a policy decision in favour of the
  -- expected usage of that job on the current snapshot, under a lease that is new and active, never
  -- beyond the concurrency limit of the policy, and marks the job as simulating.
  pub tick_start-IsClaim :
      (config : Config) (key actor : String) (now : ℕ) (lease_id event_id : String) (db : Db)
      {claim : Claim} {db' : Db}
      → tick_start config key actor now lease_id event_id db ≡ ok (claimed claim, db')
      → IsClaim config now actor db claim db'
  tick_start-IsClaim config key actor now lease_id event_id db e =
      Ensures-ok (StartedOf config now actor db) _
        (tick_start-StartedOf config key actor now lease_id event_id db) e

  -- Where nothing happens between, the lease of a claim is found active.
  pub claim-active :
      (config : Config) (now : ℕ) (actor : String) (db : Db) (claim : Claim) (db' : Db)
      → IsClaim config now actor db claim db'
      → is_lease_row_active (find_lease claim.lease_id claim.job.job_id db'.leases) ≡ true
  claim-active config now actor db claim db' (_, _, unused, leases, _, _, _) =
      let row =
        new_active_lease claim.lease_id claim.job.job_id actor now
          db.policies.policy.lease_seconds in
      ap (λ rows. is_lease_row_active (find_lease claim.lease_id claim.job.job_id rows)) leases
      ∙ ap is_lease_row_active
          (find_lease-append db.leases claim.lease_id claim.job.job_id row unused refl refl)
