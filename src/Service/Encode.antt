-- ===== src/Service/Encode.antt =====
-- The dicts that `validate_job` and `validate_work_package` (codex_work_scheduler/validation.py)
-- return, as the values that a JSON column gives back.
use codex_work_scheduler.Common.{ℕ, String, Option, none, some, List, [], ◌∷◌}
use codex_work_scheduler.Common.Int.{pos}
use codex_work_scheduler.Contracts.{Usage, Simulation, Job, Execution, Package}
use codex_work_scheduler.Json.{
  Value, Items, Fields, null, int, float, str, arr, obj, nil, cons, end, field,
}

abbrev pub usage_value : Usage → Value
usage_value usage = obj (
    field "five_hour_percent" (float (pos usage.five_hour_percent))
      (field "weekly_percent" (float (pos usage.weekly_percent)) end))

abbrev pub texts_value : List String → Items
texts_value [] = nil
texts_value (s ∷ ss) = cons (str s) (texts_value ss)

abbrev pub time_value : Option ℕ → Value
time_value none = null
time_value (some t) = float (pos t)

abbrev pub simulation_fields : Option Simulation → Fields
simulation_fields none = end
simulation_fields (some simulation) =
    field "simulation"
      (obj (
        field "outcome" (str simulation.outcome)
          (field "actual_usage" (usage_value simulation.actual_usage) end)))
      end

unfoldable pub job_value : Job → Value
job_value job = obj (
    field "schema_version" (str "1") (
      field "job_id" (str job.job_id) (
        field "work_ref" (str job.work_ref) (
          field "priority" (int (pos job.priority)) (
            field "expected_usage" (usage_value job.expected_usage)
              (simulation_fields job.simulation))))))

unfoldable pub execution_value : Execution → Value
execution_value execution = obj (
    field "cwd" (str execution.cwd) (
      field "model" (str execution.model) (
        field "effort" (str execution.effort) (
          field "sandbox" (str execution.sandbox)
            (field "max_runtime_seconds" (int (pos execution.max_runtime_seconds)) end)))))

unfoldable pub package_value : Package → Value
package_value work_package = obj (
    field "schema_version" (str "1") (
      field "job" (job_value work_package.job) (
        field "objective" (str work_package.objective) (
          field "execution" (execution_value work_package.execution) (
            field "dependencies" (arr (texts_value work_package.dependencies))
              (field "not_before" (time_value work_package.not_before) end))))))
