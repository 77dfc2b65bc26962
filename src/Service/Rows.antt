-- ===== src/Service/Rows.antt =====
-- The statements on the rows of jobs and proposals that the commands of
-- codex_work_scheduler/service.py run.
use codex_work_scheduler.Common.{
  ℕ, String, Bool, true, false, ◌||◌, Option, none, some, List, [], ◌∷◌, ◌++◌, any, find,
  update_where, str_eq, is_some, if◌then◌else◌, Result, ok, err,
}
use codex_work_scheduler.Contracts.{Job, Package}
use codex_work_scheduler.Store.Tables.{Db, JobState, ProposalState, JobRow, ProposalRow}

-- `SELECT ... FROM jobs WHERE job_id = ?`
abbrev pub find_job : String → List JobRow → Option JobRow
find_job job_id rows = find (λ row. str_eq row.job_id job_id) rows

abbrev pub find_proposal : String → List ProposalRow → Option ProposalRow
find_proposal job_id rows = find (λ row. str_eq row.job_id job_id) rows

-- The row of a job that was approved.
abbrev pub new_job : Job → String → String → ℕ → JobRow
new_job job manifest_hash approval_id now = record {
  job_id = job.job_id;
  work_ref = job.work_ref;
  priority = job.priority;
  state = JobState.approved;
  manifest = job;
  manifest_hash = manifest_hash;
  approval_id = approval_id;
  created_at = now;
  updated_at = now;
}

-- `INSERT INTO jobs`: the identifier is the primary key.
unfoldable pub insert_job : Job → String → String → ℕ → Db → Result Db
insert_job job manifest_hash approval_id now db =
    if is_some (find_job job.job_id db.jobs)
    then err "JOB_ALREADY_EXISTS"
    else ok (record db { jobs = db.jobs ++ new_job job manifest_hash approval_id now ∷ [] })

abbrev pub is_known : Package → String → List ProposalRow → Bool
is_known work_package package_hash rows =
    any (λ row. str_eq row.job_id work_package.job.job_id || str_eq row.package_hash package_hash)
      rows

-- `INSERT INTO job_proposals`: neither an identifier nor a hash stands there twice.
unfoldable pub insert_proposal : Package → String → ℕ → Db → Result Db
insert_proposal work_package package_hash now db =
    if is_known work_package package_hash db.proposals
    then err "PROPOSAL_ALREADY_EXISTS"
    else ok (record db {
      proposals =
          db.proposals
          ++ record {
            job_id = work_package.job.job_id;
            work_ref = work_package.job.work_ref;
            priority = work_package.job.priority;
            state = ProposalState.proposed;
            work_package = work_package;
            package_hash = package_hash;
            created_at = now;
            updated_at = now;
            approved_at = none;
          }
            ∷ [];
    })

abbrev pub proposal_or : String → Option ProposalRow → Result ProposalRow
proposal_or error none = err error
proposal_or error (some row) = ok row

abbrev pub job_or : String → Option JobRow → Result JobRow
job_or error none = err error
job_or error (some row) = ok row

-- `get_proposal` of the store.
unfoldable pub get_proposal : String → Db → Result ProposalRow
get_proposal job_id db = proposal_or "PROPOSAL_NOT_FOUND" (find_proposal job_id db.proposals)

abbrev pub is_proposed : ProposalState → Bool
is_proposed ProposalState.proposed = true
is_proposed ProposalState.approved = false

-- The states from which a job may be cancelled.
abbrev pub is_cancellable : JobState → Bool
is_cancellable JobState.approved = true
is_cancellable JobState.held_dependency = true
is_cancellable JobState.held_policy = true
is_cancellable JobState.held_schedule = true
is_cancellable JobState.held_capability = true
is_cancellable JobState.needs_review = true
is_cancellable JobState.cancelled = false
is_cancellable JobState.simulating = false
is_cancellable JobState.simulated = false
is_cancellable JobState.running = false
is_cancellable JobState.succeeded = false
is_cancellable JobState.failed = false
is_cancellable JobState.interrupted = false

abbrev pub is_simulating : JobState → Bool
is_simulating JobState.simulating = true
is_simulating _ = false

-- `UPDATE jobs SET state = ?, updated_at = ? WHERE job_id = ?`
abbrev pub set_job_state : JobState → ℕ → String → List JobRow → List JobRow
set_job_state state now job_id rows =
    update_where (λ row. str_eq row.job_id job_id)
      (λ row. record row { state = state; updated_at = now }) rows

-- `UPDATE job_proposals SET state = 'approved', ... WHERE job_id = ?`
abbrev pub approve_proposal : ℕ → String → List ProposalRow → List ProposalRow
approve_proposal now job_id rows =
    update_where (λ row. str_eq row.job_id job_id)
      (λ row. record row {
        state = ProposalState.approved;
        approved_at = some now;
        updated_at = now;
      })
      rows
