-- ===== src/Service/Tick/Pending.antt =====
-- The loop of `tick` over the pending jobs (codex_work_scheduler/service.py).
use codex_work_scheduler.Common.{
  ℕ, String, Bool, true, false, ◌&&◌, ◌||◌, Option, none, some, List, [], ◌∷◌, all, select, ltb,
  ◌==◌, if◌then◌else◌, Result, ok, ◌>>=◌,
}
use codex_work_scheduler.Common.Codes.{codes, lex_lt}
use codex_work_scheduler.Common.Sweep.{sort_by}
use codex_work_scheduler.Contracts.{Policy, Job}
use codex_work_scheduler.Json.{Fields}
use codex_work_scheduler.Policy.{Decision}
use codex_work_scheduler.Store.Tables.{Db, JobState, JobRow, ProposalRow, Denial}
use codex_work_scheduler.Service.{Config, evaluate_current_policy}
use codex_work_scheduler.Service.Rows.{find_job, find_proposal, set_job_state}

-- The states from which a job is simulated.
abbrev pub is_pending : JobState → Bool
is_pending JobState.approved = true
is_pending JobState.held_policy = true
is_pending JobState.held_dependency = true
is_pending JobState.held_schedule = true
is_pending JobState.held_capability = false
is_pending JobState.cancelled = false
is_pending JobState.simulating = false
is_pending JobState.simulated = false
is_pending JobState.needs_review = false
is_pending JobState.running = false
is_pending JobState.succeeded = false
is_pending JobState.failed = false
is_pending JobState.interrupted = false

-- `ORDER BY jobs.priority DESC, jobs.created_at ASC, jobs.job_id ASC`
abbrev pub job_before : JobRow → JobRow → Bool
job_before a b =
    ltb b.priority a.priority
    || (a.priority == b.priority
        && (ltb a.created_at b.created_at
            || (a.created_at == b.created_at && lex_lt (codes a.job_id) (codes b.job_id))))

unfoldable pub pending_jobs : Db → List JobRow
pending_jobs db = sort_by job_before (select (λ row. is_pending row.state) db.jobs)

-- `dependency["state"] in {"simulated", "succeeded"}`
abbrev pub is_done : JobState → Bool
is_done JobState.simulated = true
is_done JobState.succeeded = true
is_done JobState.approved = false
is_done JobState.held_policy = false
is_done JobState.held_dependency = false
is_done JobState.held_schedule = false
is_done JobState.held_capability = false
is_done JobState.cancelled = false
is_done JobState.simulating = false
is_done JobState.needs_review = false
is_done JobState.running = false
is_done JobState.failed = false
is_done JobState.interrupted = false

abbrev pub is_row_done : Option JobRow → Bool
is_row_done none = false
is_row_done (some row) = is_done row.state

-- The loop over the dependencies.
abbrev pub dependencies_ready : Db → List String → Bool
dependencies_ready db ids = all (λ id. is_row_done (find_job id db.jobs)) ids

-- `package["not_before"] is not None and package["not_before"] > now`
abbrev pub is_too_early : ℕ → Option ℕ → Bool
is_too_early now none = false
is_too_early now (some t) = ltb now t

-- What the loop over the jobs finds of one.
pub data Verdict : Type 0 where
  held : (reasons : List String) → JobState → Verdict
  chosen : Decision → Verdict

abbrev pub verdict_of : Decision → Verdict
verdict_of decision =
    if decision.eligible then chosen decision else held decision.reasons JobState.held_policy

-- The checks on the work package of a job, where there is one.
abbrev pub package_verdict : ℕ → Db → Option ProposalRow → Option Verdict
package_verdict now db none = none
package_verdict now db (some row) =
    if is_too_early now row.work_package.not_before
    then some (held ("NOT_BEFORE" ∷ []) JobState.held_schedule)
    else if dependencies_ready db row.work_package.dependencies
    then none
    else some (held ("DEPENDENCY_PENDING" ∷ []) JobState.held_dependency)

abbrev pub verdict_or : Option Verdict → Result Verdict → Result Verdict
verdict_or (some verdict) other = ok verdict
verdict_or none other = other

-- One round of the loop, up to what it writes.
unfoldable pub judge : Config → Option Fields → Policy → ℕ → JobRow → Db → Result Verdict
judge config snapshot policy now row db =
    verdict_or (package_verdict now db (find_proposal row.job_id db.proposals)) (do
      decision ←
          evaluate_current_policy config snapshot policy now (some row.manifest.expected_usage) db
      ok (verdict_of decision))

abbrev pub hold : ℕ → JobState → JobRow → Db → Db
hold now state row db = record db { jobs = set_job_state state now row.manifest.job_id db.jobs }

-- The jobs that are passed over, and the job that is chosen.
pub record Scan : Type 0 where
  pub denied : List Denial
  pub selected : Option (Job × Decision)

abbrev pub denied_first : List String → JobRow → Scan × Db → Scan × Db
denied_first reasons row (scan, db) = (
  record scan { denied = record { job_id = row.manifest.job_id; reasons = reasons } ∷ scan.denied },
  db,
)

-- The end of a round, where `rest` is the loop over the jobs that follow.
abbrev pub scan_on : JobRow → Db → (Db → Result (Scan × Db)) → ℕ → Verdict → Result (Scan × Db)
scan_on row db rest now (held reasons state) =
    rest (hold now state row db) >>= λ r. ok (denied_first reasons row r)
scan_on row db rest now (chosen decision) =
    ok (record { denied = []; selected = some (row.manifest, decision) }, db)

-- The loop over the jobs.
unfoldable pub scan_jobs :
    Config → Option Fields → Policy → ℕ → List JobRow → Db → Result (Scan × Db)
scan_jobs config snapshot policy now [] db = ok (record { denied = []; selected = none }, db)
scan_jobs config snapshot policy now (row ∷ rows) db = do
  verdict ← judge config snapshot policy now row db
  scan_on row db (λ d. scan_jobs config snapshot policy now rows d) now verdict
