-- ===== src/Service/Settled.antt =====
-- The second transaction of a tick (codex_work_scheduler/service.py, `tick`): it closes the lease and
-- takes the job out of the simulation, and between two transactions nothing is lost.
use codex_work_scheduler.Json.{Fields}
use codex_work_scheduler.Store.Audit.{append_audit}
use codex_work_scheduler.Common.{
  ◌>>=◌, ℕ, ◌≡◌, refl, ap, ◌∙◌, String, Bool, true, false, ◌&&◌, some, List, [], ◌∷◌, any, str_eq,
  arith, ok, err, Result,
}
use codex_work_scheduler.Common.Ensures.{
  Ensures, Ensures-bind, Ensures-guard, Ensures-ok, Ensures-map,
}
use codex_work_scheduler.Store.Tables.{
  Controller, Db, Mode, JobState, LeaseState, LeaseRow, JobRow, Reply, Digest, Request,
}
use codex_work_scheduler.Store.Idempotency.{record_idempotent}
use codex_work_scheduler.Service.{set_controller}
use codex_work_scheduler.Service.Rows.{set_job_state, is_simulating}
use codex_work_scheduler.Service.Control.{is_active_lease}
use codex_work_scheduler.Service.Runner.{RunnerResult, run_job}
use codex_work_scheduler.Service.Tick.{
  Claim, close_lease, find_lease, is_lease_row_active, needs_review_after, is_overrun,
  final_job_state, final_lease_state, pause_if, fail_claim, complete_claim, settle, tick_finish,
}
use codex_work_scheduler.Service.Once.{Appended, append_audit-Ensures, record_idempotent-Ensures}

-- A state that ends a lease.
abbrev pub is_closed : LeaseState → Bool
is_closed LeaseState.active = false
is_closed LeaseState.expired = true
is_closed LeaseState.failed = true
is_closed LeaseState.completed = true
is_closed LeaseState.completed_overrun = true

abbrev is_active_of : String → LeaseRow → Bool
is_active_of lease_id row = str_eq row.lease_id lease_id && is_active_lease row

abbrev is_simulating_of : String → JobRow → Bool
is_simulating_of job_id row = str_eq row.job_id job_id && is_simulating row.state

closed_lease :
    (state : LeaseState) (now : ℕ) (lease_id : String) (rows : List LeaseRow)
    → is_closed state ≡ true
    → any (is_active_of lease_id) (close_lease state now lease_id rows) ≡ false
closed_lease state now lease_id [] h = refl
closed_lease state now lease_id (r ∷ rows) h =
    ground (arith, closed_lease state now lease_id rows h)

settled_job :
    (state : JobState) (now : ℕ) (job_id : String) (rows : List JobRow)
    → is_simulating state ≡ false
    → any (is_simulating_of job_id) (set_job_state state now job_id rows) ≡ false
settled_job state now job_id [] h = refl
settled_job state now job_id (r ∷ rows) h = ground (arith, settled_job state now job_id rows h)

-- The lease is closed by one update, no row of it is active and no row of the job is simulating
-- afterwards, and a failure or a review leaves the controller not ready.
abbrev pub IsSettled : Claim → ℕ → Db → Reply × Db → Type 0
IsSettled claim finished_at db (reply, db') =
    ((state : LeaseState) × (is_closed state ≡ true)
      × (db'.leases ≡ close_lease state finished_at claim.lease_id db.leases))
    × (any (is_active_of claim.lease_id) db'.leases ≡ false)
    × (any (is_simulating_of claim.job.job_id) db'.jobs ≡ false)

module _ ⦃digest : Digest⦄ where
  -- What both branches do last: an event is appended and the reply is recorded.
  abbrev Written : Db → Reply × Db → Type 0
  Written db (reply, db') =
      (db'.leases ≡ db.leases) × (db'.jobs ≡ db.jobs) × (db'.controller ≡ db.controller)

  log_then_record :
      (event_id event_type actor : String) (details : Fields) (now : ℕ) (key : String)
      (reply_of : String → Reply) (db : Db)
      → Ensures (Written db) (
          append_audit event_id event_type actor details now db >>= λ (id, db₁).
          record_idempotent key "tick" Request.tick now (reply_of id) db₁ >>= λ db₂.
          ok (reply_of id, db₂))
  log_then_record event_id event_type actor details now key reply_of db =
      let P = Written db in
      Ensures-bind (Appended db) P _ _
        (append_audit-Ensures event_id event_type actor details now db)
        λ (id, db₁) same₁.
          Ensures-bind (λ db'. db' ≡ record db₁ { idempotency = db'.idempotency }) P _ _
            (record_idempotent-Ensures key "tick" Request.tick now (reply_of id) db₁)
            λ db₂ same₂. (
              ap (λ (d : Db). d.leases) same₂ ∙ ap (λ (d : Db). d.leases) same₁,
              ap (λ (d : Db). d.jobs) same₂ ∙ ap (λ (d : Db). d.jobs) same₁,
              ap (λ (d : Db). d.controller) same₂ ∙ ap (λ (d : Db). d.controller) same₁,
            )

  Written-IsSettled :
      (claim : Claim) (finished_at : ℕ) (db db₀ : Db) (lease_state : LeaseState)
      (job_state : JobState) (r : Reply × Db)
      → is_closed lease_state ≡ true
      → is_simulating job_state ≡ false
      → db₀.leases ≡ close_lease lease_state finished_at claim.lease_id db.leases
      → db₀.jobs ≡ set_job_state job_state finished_at claim.job.job_id db.jobs
      → Written db₀ r
      → IsSettled claim finished_at db r
  Written-IsSettled claim finished_at db db₀ lease_state job_state (reply, db') closed out leases₀
        jobs₀ (leases, jobs, _) =
      (
        (lease_state, closed, leases ∙ leases₀),
        ap (any (is_active_of claim.lease_id)) (leases ∙ leases₀)
            ∙ closed_lease lease_state finished_at claim.lease_id db.leases closed,
        ap (any (is_simulating_of claim.job.job_id)) (jobs ∙ jobs₀)
            ∙ settled_job job_state finished_at claim.job.job_id db.jobs out,
      )

  fail_claim-IsSettled :
      (code : String) (claim : Claim) (key actor : String) (finished_at : ℕ) (event_id : String)
      (db : Db)
      → Ensures
          (λ r. IsSettled claim finished_at db r × (r.1.controller.mode ≡ Mode.blocked))
          (fail_claim code claim key actor finished_at event_id db)
  unfolding fail_claim
  fail_claim-IsSettled code claim key actor finished_at event_id db =
      let db₀ = set_controller Mode.blocked (some code) finished_at (record db {
        leases = close_lease LeaseState.failed finished_at claim.lease_id db.leases;
        jobs = set_job_state JobState.needs_review finished_at claim.job.job_id db.jobs;
      }) in
      Ensures-map (Written db₀) _ _
        (λ r written. (
          Written-IsSettled claim finished_at db db₀ LeaseState.failed JobState.needs_review r refl
              refl refl refl written,
          ap (λ (c : Controller). c.mode) written.2,
        ))
        (log_then_record event_id _ actor _ finished_at key
          (λ id. Reply.tick_failed id code claim.job.job_id claim.lease_id) db₀)

  final_closed : (b : Bool) → is_closed (final_lease_state b) ≡ true
  final_closed true = refl
  final_closed false = refl

  final_out : (b : Bool) → is_simulating (final_job_state b) ≡ false
  final_out true = refl
  final_out false = refl

  pause_if-Written :
      (b : Bool) (reason_code : String) (now : ℕ) (db : Db)
      → ((pause_if b reason_code now db).leases ≡ db.leases)
        × ((pause_if b reason_code now db).jobs ≡ db.jobs)
        × (b ≡ true → (pause_if b reason_code now db).controller.mode ≡ Mode.paused)
  pause_if-Written true reason_code now db = (refl, refl, λ h. refl)
  pause_if-Written false reason_code now db = (refl, refl, λ h. cc)

  complete_claim-IsSettled :
      (result : RunnerResult) (claim : Claim) (key actor : String) (finished_at : ℕ)
      (event_id : String) (db : Db)
      → Ensures
          (λ r.
            IsSettled claim finished_at db r
            × (needs_review_after result claim ≡ true → r.1.controller.mode ≡ Mode.paused))
          (complete_claim result claim key actor finished_at event_id db)
  unfolding complete_claim
  complete_claim-IsSettled result claim key actor finished_at event_id db =
      let review = needs_review_after result claim in
      let overrun = is_overrun result.actual_usage claim.job.expected_usage in
      let rows : Db = record db {
        leases = close_lease (final_lease_state review) finished_at claim.lease_id db.leases;
        jobs = set_job_state (final_job_state review) finished_at claim.job.job_id db.jobs;
      } in
      let db₀ = pause_if review "SIMULATION_OVERRUN" finished_at rows in
      let (leases₀, jobs₀, paused) =
        pause_if-Written review "SIMULATION_OVERRUN" finished_at rows in
      Ensures-map (Written db₀) _ _
        (λ r written. (
          Written-IsSettled claim finished_at db db₀ (final_lease_state review)
              (final_job_state review) r (final_closed review) (final_out review) leases₀ jobs₀
              written,
          λ h. ap (λ (c : Controller). c.mode) written.2 ∙ paused h,
        ))
        (log_then_record event_id _ actor _ finished_at key
          (λ id. Reply.tick_done id claim.job.job_id claim.lease_id overrun review claim.decision)
          db₀)

  -- What a settled claim leaves of the controller: a runner that raised blocks it, and usage beyond
  -- the expected one, or beyond what the policy reserves, pauses it.
  abbrev pub Consequence : Result RunnerResult → Claim → Db → Type 0
  Consequence (err code) claim db' = db'.controller.mode ≡ Mode.blocked
  Consequence (ok result) claim db' =
      needs_review_after result claim ≡ true → db'.controller.mode ≡ Mode.paused

  settle-IsSettled :
      (outcome : Result RunnerResult) (claim : Claim) (key actor : String) (finished_at : ℕ)
      (event_id : String) (db : Db)
      → Ensures
          (λ r. IsSettled claim finished_at db r × Consequence outcome claim r.1)
          (settle outcome claim key actor finished_at event_id db)
  settle-IsSettled (err code) claim key actor finished_at event_id db =
      fail_claim-IsSettled code claim key actor finished_at event_id db
  settle-IsSettled (ok result) claim key actor finished_at event_id db =
      complete_claim-IsSettled result claim key actor finished_at event_id db

  -- The second transaction of a tick succeeds only on a lease that still is active, closes exactly
  -- that lease, and leaves no row of the job simulating. A runner that raised blocks the controller;
  -- usage beyond the expected one or into a reserve pauses it.
  pub tick_finish-IsSettled :
      (claim : Claim) (key actor : String) (finished_at : ℕ) (event_id : String) (db : Db)
      {reply : Reply} {db' : Db}
      → tick_finish claim key actor finished_at event_id db ≡ ok (reply, db')
      → (is_lease_row_active (find_lease claim.lease_id claim.job.job_id db.leases) ≡ true)
        × IsSettled claim finished_at db (reply, db')
        × Consequence (run_job claim.job) claim db'
  unfolding tick_finish
  tick_finish-IsSettled claim key actor finished_at event_id db e =
      let active = is_lease_row_active (find_lease claim.lease_id claim.job.job_id db.leases) in
      let P : Reply × Db → Type 0 = λ r.
        (active ≡ true)
        × IsSettled claim finished_at db r
        × Consequence (run_job claim.job) claim r.1 in
      Ensures-ok P _
        (Ensures-guard P active "LEASE_LOST" _ λ held.
          Ensures-map _ P _ (λ r (settled, then_). (held, settled, then_))
            (settle-IsSettled (run_job claim.job) claim key actor finished_at event_id db))
        e
