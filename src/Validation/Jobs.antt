-- ===== src/Validation/Jobs.antt =====
-- `validate_job` of codex_work_scheduler/validation.py.
use codex_work_scheduler.Common.{
  String, not, Option, none, some, List, [], ◌∷◌, if◌then◌else◌, Result, ok, err, ◌>>=◌, ◌>>◌,
}
use codex_work_scheduler.Contracts.{Job, Simulation}
use codex_work_scheduler.Json.{Value, Fields, get, has_key, is_hashable}
use codex_work_scheduler.Validation.Fields.{
  object, exact_keys, version, integer, is_text, validate_identifier,
}
use codex_work_scheduler.Validation.Policies.{validate_usage}

abbrev pub job_keys : List String
job_keys = "schema_version" ∷ "job_id" ∷ "work_ref" ∷ "priority" ∷ "expected_usage" ∷ []

-- A text that is one of two. A value that cannot be hashed raises `TypeError`.
unfoldable pub one_of : String → String → Value → Result String
one_of a b v =
    if not (is_hashable v)
    then err "TypeError"
    else if is_text a v
    then ok a
    else if is_text b v
    then ok b
    else err "SCHEMA_INVALID"

-- The `simulation` object of a job.
unfoldable pub validate_simulation : Value → Result Simulation
validate_simulation value = do
  fs ← object value
  exact_keys fs ("outcome" ∷ "actual_usage" ∷ []) []
  outcome ← one_of "success" "failure" (get "outcome" fs)
  actual_usage ← validate_usage (get "actual_usage" fs)
  ok (record { outcome = outcome; actual_usage = actual_usage })

-- `if "simulation" in data`
unfoldable pub optional_simulation : Fields → Result (Option Simulation)
optional_simulation fs =
    if has_key "simulation" fs
    then (validate_simulation (get "simulation" fs) >>= λ s. ok (some s))
    else ok none

-- `validate_job`
unfoldable pub validate_job : Value → Result Job
validate_job value = do
  fs ← object value
  exact_keys fs job_keys ("simulation" ∷ [])
  version fs
  job_id ← validate_identifier (get "job_id" fs)
  work_ref ← validate_identifier (get "work_ref" fs)
  priority ← integer (get "priority" fs) 0 100
  expected_usage ← validate_usage (get "expected_usage" fs)
  simulation ← optional_simulation fs
  ok (record {
    job_id = job_id;
    work_ref = work_ref;
    priority = priority;
    expected_usage = expected_usage;
    simulation = simulation;
  })
