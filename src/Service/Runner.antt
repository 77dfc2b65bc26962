-- ===== src/Service/Runner.antt =====
-- The deterministic runner of simulations (codex_work_scheduler/fake_runner.py).
use codex_work_scheduler.Common.{String, Option, none, some, str_eq, if◌then◌else◌, Result, ok, err}
use codex_work_scheduler.Contracts.{Usage, Simulation, Job}

-- What `FakeRunner.run` returns, less its constants.
pub record RunnerResult : Type 0 where
  pub actual_usage : Usage
  pub work_ref : String

-- `FakeRunner.run` on the optional simulation of a job.
unfoldable pub run_simulation : Option Simulation → Job → Result RunnerResult
run_simulation none job = ok (record { actual_usage = job.expected_usage; work_ref = job.work_ref })
run_simulation (some simulation) job =
    if str_eq simulation.outcome "failure"
    then err "SIMULATION_FAILED"
    else ok (record { actual_usage = simulation.actual_usage; work_ref = job.work_ref })

-- `FakeRunner.run`
unfoldable pub run_job : Job → Result RunnerResult
run_job job = run_simulation job.simulation job
