-- ===== src/Validation/Packages.antt =====
-- `validate_work_package` of codex_work_scheduler/validation.py.
use codex_work_scheduler.Common.{
  ℕ, String, false, not, Option, none, some, List, [], ◌∷◌, contains, distinct, is_some, Result, ok,
  ◌>>=◌, ◌>>◌, guard,
}
use codex_work_scheduler.Contracts.{max_time, Package}
use codex_work_scheduler.Json.{Value, null, bool, int, float, non_finite, str, arr, obj, get}
use codex_work_scheduler.Validation.Fields.{
  object, exact_keys, version, number, integer, text, validate_identifier, identifiers, array,
}
use codex_work_scheduler.Validation.Jobs.{one_of, validate_job}

abbrev pub package_keys : List String
package_keys =
    "schema_version" ∷ "job" ∷ "objective" ∷ "execution" ∷ "dependencies" ∷ "not_before" ∷ []

abbrev pub execution_keys : List String
execution_keys = "cwd" ∷ "model" ∷ "effort" ∷ "sandbox" ∷ "max_runtime_seconds" ∷ []

-- `not_before`: a null is kept.
unfoldable pub optional_time : Value → Result (Option ℕ)
optional_time null = ok none
optional_time (bool b) = number (bool b) 0 max_time >>= λ t. ok (some t)
optional_time (int n) = number (int n) 0 max_time >>= λ t. ok (some t)
optional_time (float x) = number (float x) 0 max_time >>= λ t. ok (some t)
optional_time non_finite = number non_finite 0 max_time >>= λ t. ok (some t)
optional_time (str s) = number (str s) 0 max_time >>= λ t. ok (some t)
optional_time (arr vs) = number (arr vs) 0 max_time >>= λ t. ok (some t)
optional_time (obj fs) = number (obj fs) 0 max_time >>= λ t. ok (some t)

-- `validate_work_package`
unfoldable pub validate_work_package : Value → Result Package
validate_work_package value = do
  fs ← object value
  exact_keys fs package_keys []
  version fs
  job ← validate_job (get "job" fs)
  guard (not (is_some job.simulation)) "SCHEMA_INVALID"
  ex ← object (get "execution" fs)
  exact_keys ex execution_keys []
  sandbox ← one_of "read_only" "workspace_write" (get "sandbox" ex)
  items ← array (get "dependencies" fs)
  dependencies ← identifiers items
  guard (distinct dependencies) "SCHEMA_INVALID"
  guard (not (contains job.job_id dependencies)) "SCHEMA_INVALID"
  not_before ← optional_time (get "not_before" fs)
  objective ← text (get "objective" fs) false 8000
  cwd ← text (get "cwd" ex) false 1024
  model ← text (get "model" ex) false 128
  effort ← validate_identifier (get "effort" ex)
  max_runtime_seconds ← integer (get "max_runtime_seconds" ex) 10 86_400
  ok (record {
    job = job;
    objective = objective;
    execution = record {
      cwd = cwd;
      model = model;
      effort = effort;
      sandbox = sandbox;
      max_runtime_seconds = max_runtime_seconds;
    };
    dependencies = dependencies;
    not_before = not_before;
  })
