-- ===== src/Executor/Child.antt =====
-- src/orchestrator/runners/child.py: the child process that runs one job. `host` is the machine that
-- the job meets under the limits which were set; the process that writes no result exits with 1.
use autonomous_ai_job_oreche.Prelude.{
  ℕ, zero, suc, ℤ, pos, ◌*◌, ◌/◌, String, false, Option, none, some, List, [], ◌∷◌, ◌++◌,
}
use autonomous_ai_job_oreche.Services.{Env}
use autonomous_ai_job_oreche.Job.{Json}
use autonomous_ai_job_oreche.Executor.{ExecutionResult}
use autonomous_ai_job_oreche.Executor.Runner.{Envelope}
use autonomous_ai_job_oreche.Executor.Dispatch.{
  Machine, Executed, done, raises, memory_error, exception, base_exception, failed_with,
  execute_job,
}
use autonomous_ai_job_oreche.Output.Texts.{append_text}

-- A soft and hard limit that `setrlimit` is called with: bytes, or whole seconds.
pub data Limit : Type 0 where
  address_space : ℕ → Limit
  cpu_time : ℕ → Limit

abbrev memory_limit : ℕ → List Limit
memory_limit zero = []
memory_limit (suc n) = address_space (suc n * 1024 * 1024) ∷ []

-- `int(cpu_seconds)` of a number of microseconds.
abbrev cpu_limit : ℕ → List Limit
cpu_limit zero = []
cpu_limit (suc n) = cpu_time (suc n / 1_000_000) ∷ []

-- `_apply_limits` on Unix: the calls of `setrlimit`, whose failures are ignored.
unfoldable pub apply_limits : Envelope → List Limit
apply_limits e = memory_limit e.memory_mb ++ cpu_limit e.cpu_seconds

abbrev over_memory : ExecutionResult
over_memory = record {
  success = false;
  exit_code = pos 137;
  stdout = "";
  stderr = "";
  duration_seconds = 0;
  error_message = some "Job exceeded its memory limit";
}

-- What the handlers of `main` make of an execution: the result to write, if there is one.
unfoldable pub reported : Executed → Option ExecutionResult
reported (done result) = some result
reported (raises (memory_error e)) = some over_memory
reported (raises (exception e)) =
    some (failed_with e.trace 0 (append_text "Runner child error: " e.message))
reported (raises (base_exception e)) = none

module _ ⦃env : Env⦄ (show : Json → String) (show_seconds : ℤ → String)
    (host : List Limit → Machine) where
  -- `main`: the result that is written to the file of the envelope.
  unfoldable pub child_main : Envelope → Option ExecutionResult
  unfolding reported apply_limits
  child_main e = reported (execute_job show show_seconds (host (apply_limits e)) e.job e.allowed)
