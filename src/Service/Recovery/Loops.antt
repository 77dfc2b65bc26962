-- ===== src/Service/Recovery/Loops.antt =====
-- The expired leases and runs, and the loops that close them (codex_work_scheduler/service.py and
-- codex_work_scheduler/store.py).
use codex_work_scheduler.Common.{
  ℕ, String, Bool, true, false, ◌&&◌, ◌||◌, Option, none, some, List, [], ◌∷◌, any, find, select,
  update_where, str_eq, ltb, leb, ◌==◌,
}
use codex_work_scheduler.Common.Codes.{codes, lex_lt}
use codex_work_scheduler.Common.Sweep.{sort_by, is_hit}
use codex_work_scheduler.Store.Tables.{Db, JobState, LeaseState, LeaseRow, RunRow, JobRow}
use codex_work_scheduler.Service.Rows.{set_job_state}
use codex_work_scheduler.Service.Control.{is_expired_lease, is_active_run}

-- `ORDER BY expires_at ASC, lease_id ASC`
abbrev pub lease_before : LeaseRow → LeaseRow → Bool
lease_before a b =
    ltb a.expires_at b.expires_at
    || (a.expires_at == b.expires_at && lex_lt (codes a.lease_id) (codes b.lease_id))

-- `state IN ('starting', 'running') AND lease_expires_at <= ?`
abbrev pub is_expired_run : ℕ → RunRow → Bool
is_expired_run now row = is_active_run row && leb row.lease_expires_at now

-- `ORDER BY lease_expires_at ASC, run_id ASC`
abbrev pub run_before : RunRow → RunRow → Bool
run_before a b =
    ltb a.lease_expires_at b.lease_expires_at
    || (a.lease_expires_at == b.lease_expires_at && lex_lt (codes a.run_id) (codes b.run_id))

-- `reconciliation_candidates` of the store.
unfoldable pub reconciliation_candidates : ℕ → Db → List LeaseRow
reconciliation_candidates now db = sort_by lease_before (select (is_expired_lease now) db.leases)

-- `run_reconciliation_candidates` of the store.
unfoldable pub run_reconciliation_candidates : ℕ → Db → List RunRow
run_reconciliation_candidates now db = sort_by run_before (select (is_expired_run now) db.runs)

-- What an expired lease is set to: by `reconcile`, which keeps `completed_at`, and by
-- `background_recover`.
abbrev pub expire : LeaseRow → LeaseRow
expire row = record row { state = LeaseState.expired }

abbrev pub expire_at : ℕ → LeaseRow → LeaseRow
expire_at now row = record row { state = LeaseState.expired; completed_at = some now }

-- What an expired run is set to.
abbrev pub abandon : ℕ → RunRow → RunRow
abandon now row = record row {
  state = "needs_review";
  updated_at = now;
  completed_at = some now;
  stop_reason = some "LEASE_EXPIRED";
}

abbrev pub lease_key : LeaseRow → String
lease_key row = row.lease_id

abbrev pub run_key : RunRow → String
run_key row = row.run_id

-- The row that an UPDATE by the identifier of `candidate` writes.
abbrev pub hits_lease : ℕ → LeaseRow → LeaseRow → Bool
hits_lease now candidate = is_hit (is_expired_lease now) lease_key candidate

abbrev pub hits_run : ℕ → RunRow → RunRow → Bool
hits_run now candidate = is_hit (is_expired_run now) run_key candidate

-- `UPDATE jobs SET state = 'needs_review', ...` if a row has changed.
abbrev pub review_if : Bool → ℕ → String → List JobRow → List JobRow
review_if false now job_id rows = rows
review_if true now job_id rows = set_job_state JobState.needs_review now job_id rows

abbrev pub review_some : Bool → ℕ → Option String → List JobRow → List JobRow
review_some changed now none rows = rows
review_some changed now (some job_id) rows = review_if changed now job_id rows

-- One round of the loop over the candidates.
abbrev pub recover_lease : (LeaseRow → LeaseRow) → ℕ → LeaseRow → Db → Db
recover_lease write now candidate db = record db {
  leases = update_where (hits_lease now candidate) write db.leases;
  jobs = review_if (any (hits_lease now candidate) db.leases) now candidate.job_id db.jobs;
}

abbrev pub cons_if : Bool → String → List String → List String
cons_if false id ids = ids
cons_if true id ids = id ∷ ids

-- The loop over leases, and the identifiers of those that it changed.
unfoldable pub recover_leases : (LeaseRow → LeaseRow) → ℕ → List LeaseRow → Db → List String × Db
recover_leases write now [] db = ([], db)
recover_leases write now (candidate ∷ rest) db =
    let (ids, db') = recover_leases write now rest (recover_lease write now candidate db) in
    (cons_if (any (hits_lease now candidate) db.leases) candidate.lease_id ids, db')

-- One round of the loop over runs; `job_of` is where the job of a candidate is read.
abbrev pub recover_run : (RunRow → Db → Option String) → ℕ → RunRow → Db → Db
recover_run job_of now candidate db = record db {
  runs = update_where (hits_run now candidate) (abandon now) db.runs;
  jobs = review_some (any (hits_run now candidate) db.runs) now (job_of candidate db) db.jobs;
}

unfoldable pub recover_runs :
    (RunRow → Db → Option String) → ℕ → List RunRow → Db → List String × Db
recover_runs job_of now [] db = ([], db)
recover_runs job_of now (candidate ∷ rest) db =
    let (ids, db') = recover_runs job_of now rest (recover_run job_of now candidate db) in
    (cons_if (any (hits_run now candidate) db.runs) candidate.run_id ids, db')

abbrev pub job_id_of : Option RunRow → Option String
job_id_of none = none
job_id_of (some row) = row.job_id

-- `SELECT job_id FROM runs WHERE run_id = ?`
abbrev pub stored_job : RunRow → Db → Option String
stored_job candidate db = job_id_of (find (λ row. str_eq row.run_id candidate.run_id) db.runs)

abbrev pub own_job : RunRow → Db → Option String
own_job candidate db = candidate.job_id

abbrev pub lease_ids : List LeaseRow → List String
lease_ids [] = []
lease_ids (row ∷ rows) = row.lease_id ∷ lease_ids rows

abbrev pub run_ids : List RunRow → List String
run_ids [] = []
run_ids (row ∷ rows) = row.run_id ∷ run_ids rows
