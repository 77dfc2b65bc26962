-- ===== src/Service/Tick.antt =====
-- The simulation of one job: `tick` of codex_work_scheduler/service.py. Its first transaction claims a
-- job by a lease and its second one settles the claim; another process may run in between.
mod Pending
unfoldable pub use Pending.*
use codex_work_scheduler.Common.{
  ℕ, ◌+◌, ◌*◌, String, Bool, true, false, not, ◌&&◌, ◌||◌, Option, none, some, List, [], ◌∷◌, ◌++◌,
  any, all, find, count_where, select, update_where, str_eq, ltb, ◌==◌, if◌then◌else◌, Result, ok,
  err, ◌>>=◌, ◌>>◌, guard,
}
use codex_work_scheduler.Common.Codes.{codes, lex_lt}
use codex_work_scheduler.Common.Int.{pos, sub_ℕ, leb_ℤ}
use codex_work_scheduler.Common.Sweep.{sort_by}
use codex_work_scheduler.Contracts.{unit, Policy, Usage, Snapshot, Job}
use codex_work_scheduler.Json.{Fields, str, bool, arr, end, field}
use codex_work_scheduler.Policy.{Decision, has_signal_failure}
use codex_work_scheduler.Store.Tables.{
  Db, Mode, JobState, LeaseState, LeaseRow, JobRow, ProposalRow, Request, Reply, Denial, Digest,
  Transaction,
}
use codex_work_scheduler.Store.Audit.{append_audit}
use codex_work_scheduler.Store.Idempotency.{replay_idempotent, record_idempotent}
use codex_work_scheduler.Service.{
  Config, require_capability, checked_actor, set_controller, latest_snapshot, checked_snapshot,
  evaluate_current_policy,
}
use codex_work_scheduler.Service.Rows.{find_job, find_proposal, set_job_state}
use codex_work_scheduler.Service.Control.{is_ready, is_active_lease}
use codex_work_scheduler.Service.Encode.{texts_value}
use codex_work_scheduler.Service.Runner.{RunnerResult, run_job}

-- What the second transaction needs of the first. `snapshot` holds the numbers as
-- `validate_snapshot` read them.
pub record Claim : Type 0 where
  pub job : Job
  pub decision : Decision
  pub lease_id : String
  pub snapshot : Snapshot
  pub policy : Policy

-- The first transaction returns a reply, or goes on with a claim.
pub data Started : Type 0 where
  replied : Reply → Started
  claimed : Claim → Started

-- `signal_decision["reasons"][0]`
abbrev pub head_reason : List String → Result String
head_reason [] = err "IndexError"
head_reason (reason ∷ reasons) = ok reason

abbrev pub has_lease : String → List LeaseRow → Bool
has_lease lease_id rows = any (λ row. str_eq row.lease_id lease_id) rows

abbrev pub new_active_lease : String → String → String → ℕ → ℕ → LeaseRow
new_active_lease lease_id job_id owner now lease_seconds = record {
  lease_id = lease_id;
  job_id = job_id;
  owner = owner;
  state = LeaseState.active;
  acquired_at = now;
  expires_at = now + lease_seconds * unit;
  completed_at = none;
}

-- `INSERT INTO leases`: the identifier is the primary key.
unfoldable pub insert_lease : LeaseRow → Db → Result Db
insert_lease row db =
    if has_lease row.lease_id db.leases
    then err "IntegrityError"
    else ok (record db { leases = db.leases ++ row ∷ [] })

abbrev pub snapshot_or_fail : Config → Option Fields → Result Snapshot
snapshot_or_fail config none = err "STATE_INVALID"
snapshot_or_fail config (some fields) = checked_snapshot config fields

-- `UPDATE leases SET state = ?, completed_at = ? WHERE lease_id = ?`
abbrev pub close_lease : LeaseState → ℕ → String → List LeaseRow → List LeaseRow
close_lease state now lease_id rows =
    update_where (λ row. str_eq row.lease_id lease_id)
      (λ row. record row { state = state; completed_at = some now }) rows

abbrev pub is_lease_row_active : Option LeaseRow → Bool
is_lease_row_active none = false
is_lease_row_active (some row) = is_active_lease row

-- `SELECT state FROM leases WHERE lease_id = ? AND job_id = ?`
abbrev pub find_lease : String → String → List LeaseRow → Option LeaseRow
find_lease lease_id job_id rows =
    find (λ row. str_eq row.lease_id lease_id && str_eq row.job_id job_id) rows

-- `overrun`
abbrev pub is_overrun : Usage → Usage → Bool
is_overrun actual expected =
    ltb expected.five_hour_percent actual.five_hour_percent
    || ltb expected.weekly_percent actual.weekly_percent

-- `post_actual_safe`
abbrev pub is_safe_after : Usage → Snapshot → Policy → Bool
is_safe_after actual snapshot policy =
    leb_ℤ (pos policy.five_hour_reserve_percent)
      (sub_ℕ snapshot.five_hour.remaining_percent actual.five_hour_percent)
    && leb_ℤ (pos policy.weekly_reserve_percent)
        (sub_ℕ snapshot.weekly.remaining_percent actual.weekly_percent)

abbrev pub needs_review_after : RunnerResult → Claim → Bool
needs_review_after result claim =
    is_overrun result.actual_usage claim.job.expected_usage
    || not (is_safe_after result.actual_usage claim.snapshot claim.policy)

abbrev pub final_job_state : Bool → JobState
final_job_state true = JobState.needs_review
final_job_state false = JobState.simulated

abbrev pub final_lease_state : Bool → LeaseState
final_lease_state true = LeaseState.completed_overrun
final_lease_state false = LeaseState.completed

abbrev pub pause_if : Bool → String → ℕ → Db → Db
pause_if false reason_code now db = db
pause_if true reason_code now db = set_controller Mode.paused (some reason_code) now db

module _ ⦃digest : Digest⦄ where
  -- The early return on a signal failure.
  unfoldable pub block : Decision → String → String → ℕ → String → Transaction Started
  block decision key actor now event_id db = do
    reason ← head_reason decision.reasons
    (id, db₁) ←
        append_audit event_id "controller.blocked" actor
          (field "reason_codes" (arr (texts_value decision.reasons)) end) now
          (set_controller Mode.blocked (some reason) now db)
    db₂ ← record_idempotent key "tick" Request.tick now (Reply.tick_blocked id decision) db₁
    ok (replied (Reply.tick_blocked id decision), db₂)

  -- The claim of the job that was selected.
  unfoldable pub claim_job :
      Config
      → Option Fields
      → Policy
      → Job
      → Decision
      → String
      → ℕ
      → String
      → String
      → Transaction Started
  claim_job config snapshot policy job decision actor now lease_id event_id db = do
    validated ← snapshot_or_fail config snapshot
    db₁ ← insert_lease (new_active_lease lease_id job.job_id actor now policy.lease_seconds) db
    (id, db₂) ←
        append_audit event_id "simulation.started" actor
          (field "job_id" (str job.job_id) (field "lease_id" (str lease_id) end)) now
          (record db₁ { jobs = set_job_state JobState.simulating now job.job_id db₁.jobs })
    ok (
      claimed (record {
        job = job;
        decision = decision;
        lease_id = lease_id;
        snapshot = validated;
        policy = policy;
      }),
      db₂,
    )

  -- What follows the loop: an early return if no job was selected, or the claim.
  unfoldable pub after_scan :
      Config
      → Option Fields
      → Policy
      → List Denial
      → Option (Job × Decision)
      → String
      → String
      → ℕ
      → String
      → String
      → Transaction Started
  after_scan config snapshot policy denied none key actor now lease_id event_id db = do
    db₁ ← record_idempotent key "tick" Request.tick now (Reply.tick_idle denied) db
    ok (replied (Reply.tick_idle denied), db₁)
  after_scan config snapshot policy denied (some (job, decision)) key actor now lease_id event_id
        db =
      claim_job config snapshot policy job decision actor now lease_id event_id db

  -- The first transaction of `tick`.
  unfoldable pub tick_start : Config → String → String → ℕ → String → String → Transaction Started
  tick_start config key actor now lease_id event_id db = do
    guard (is_ready db.controller.mode) "CONTROLLER_NOT_READY"
    guard (ltb (count_where is_active_lease db.leases) db.policies.policy.max_concurrency)
        "CONCURRENCY_LIMIT"
    signal ← evaluate_current_policy config (latest_snapshot db) db.policies.policy now none db
    if has_signal_failure signal then block signal key actor now event_id db else (do
      (scan, db₁) ←
          scan_jobs config (latest_snapshot db) db.policies.policy now (pending_jobs db) db
      after_scan config (latest_snapshot db) db.policies.policy scan.denied scan.selected key actor
          now lease_id event_id db₁)

  -- The branch of the second transaction on which the runner raised.
  unfoldable pub fail_claim : String → Claim → String → String → ℕ → String → Transaction Reply
  fail_claim code claim key actor finished_at event_id db = do
    (id, db₁) ←
        append_audit event_id "simulation.failed" actor
          (field "failure_code" (str code)
            (field "job_id" (str claim.job.job_id) (field "lease_id" (str claim.lease_id) end)))
          finished_at
          (set_controller Mode.blocked (some code) finished_at (record db {
            leases = close_lease LeaseState.failed finished_at claim.lease_id db.leases;
            jobs = set_job_state JobState.needs_review finished_at claim.job.job_id db.jobs;
          }))
    db₂ ←
        record_idempotent key "tick" Request.tick finished_at
          (Reply.tick_failed id code claim.job.job_id claim.lease_id) db₁
    ok (Reply.tick_failed id code claim.job.job_id claim.lease_id, db₂)

  -- The branch on which it returned.
  unfoldable pub complete_claim :
      RunnerResult → Claim → String → String → ℕ → String → Transaction Reply
  complete_claim result claim key actor finished_at event_id db = do
    let review = needs_review_after result claim
    let overrun = is_overrun result.actual_usage claim.job.expected_usage
    (id, db₁) ←
        append_audit event_id "simulation.completed" actor
          (field "job_id" (str claim.job.job_id) (
            field "lease_id" (str claim.lease_id)
              (field "overrun" (bool overrun) (field "requires_review" (bool review) end))))
          finished_at
          (pause_if review "SIMULATION_OVERRUN" finished_at (record db {
            leases = close_lease (final_lease_state review) finished_at claim.lease_id db.leases;
            jobs = set_job_state (final_job_state review) finished_at claim.job.job_id db.jobs;
          }))
    let reply = Reply.tick_done id claim.job.job_id claim.lease_id overrun review claim.decision
    db₂ ← record_idempotent key "tick" Request.tick finished_at reply db₁
    ok (reply, db₂)

  abbrev pub settle : Result RunnerResult → Claim → String → String → ℕ → String → Transaction Reply
  settle (err code) claim key actor finished_at event_id db =
      fail_claim code claim key actor finished_at event_id db
  settle (ok result) claim key actor finished_at event_id db =
      complete_claim result claim key actor finished_at event_id db

  -- The second transaction of `tick`, after the runner.
  unfoldable pub tick_finish : Claim → String → String → ℕ → String → Transaction Reply
  tick_finish claim key actor finished_at event_id db = do
    guard (is_lease_row_active (find_lease claim.lease_id claim.job.job_id db.leases)) "LEASE_LOST"
    settle (run_job claim.job) claim key actor finished_at event_id db

  -- The outcome of the second transaction: its tables, or those that it found.
  abbrev pub settled : Result (Reply × Db) → Db → Result (Reply × Bool) × Db
  settled (err code) db = (err code, db)
  settled (ok (reply, db')) db = (ok (reply, false), db')

  -- What follows the first transaction, where `between` is what other processes do to the tables
  -- until the second one.
  abbrev pub go_on :
      Result (Started × Db)
      → String
      → String
      → ℕ
      → String
      → (Db → Db)
      → Db
      → Result (Reply × Bool) × Db
  go_on (err code) key actor finished_at event_id between db = (err code, db)
  go_on (ok (replied reply, db₁)) key actor finished_at event_id between db =
      (ok (reply, false), db₁)
  go_on (ok (claimed claim, db₁)) key actor finished_at event_id between db =
      settled (tick_finish claim key actor finished_at event_id (between db₁)) (between db₁)

  abbrev pub replay_or_start :
      Result (Option Reply) → (Db → Result (Reply × Bool) × Db) → Db → Result (Reply × Bool) × Db
  replay_or_start (err code) run db = (err code, db)
  replay_or_start (ok (some reply)) run db = (ok (reply, true), db)
  replay_or_start (ok none) run db = run db

  -- The checks of `tick`, the name of the actor and the replay.
  unfoldable pub tick_replay : Config → String → String → Db → Result (Option Reply)
  tick_replay config key actor seen = do
    require_capability config "simulate.local"
    name ← checked_actor actor
    replay_idempotent key "tick" Request.tick seen

  -- `tick`: what it returns or raises, and the tables that are left.
  unfoldable pub tick :
      Config
      → String
      → String
      → ℕ
      → ℕ
      → String
      → String
      → String
      → (Db → Db)
      → Db
      → Db
      → Result (Reply × Bool) × Db
  tick config key actor now finished_at lease_id event_id event_id' between seen db =
      replay_or_start (tick_replay config key actor seen)
        (λ d.
          go_on (tick_start config key actor now lease_id event_id d) key actor finished_at
            event_id' between d)
        db
