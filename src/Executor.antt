-- ===== src/Executor.antt =====
-- src/orchestrator/executors/base.py: the result of running a job. The duration is in microseconds.
pub mod Runner
pub mod Dispatch
pub mod Child
pub mod Isolation
use autonomous_ai_job_oreche.Prelude.{ℕ, ℤ, String, Bool, Option}

pub record ExecutionResult : Type 0 where
  pub success : Bool
  pub exit_code : ℤ
  pub stdout : String
  pub stderr : String
  pub duration_seconds : ℕ
  pub error_message : Option String
