-- ===== src/Manager/Failure.antt =====
-- src/orchestrator/job_manager.py: what becomes of a job whose execution failed.
pub mod Decision
pub mod Budget
pub mod Backoff
use autonomous_ai_job_oreche.Prelude.{
  ℕ, suc, ℤ, pos, negsuc, String, Option, none, some, ltb, or_else, if◌then◌else◌,
}
use autonomous_ai_job_oreche.Services.{Env}
use autonomous_ai_job_oreche.Job.{Job, failed, retrying}
use autonomous_ai_job_oreche.Executor.{ExecutionResult}
use autonomous_ai_job_oreche.Output.Texts.{append_text, decimal}
use autonomous_ai_job_oreche.Stream
use autonomous_ai_job_oreche.World.{World, Result, ok, err}
use autonomous_ai_job_oreche.Manager.{get_job, retry_backoff, audit_manual}
use autonomous_ai_job_oreche.Manager.Lifecycle.{update_job_status}
use autonomous_ai_job_oreche.Manager.Runs.{finish_run}

-- The action that the caller takes: 'retry', 'failed' or 'dlq'.
pub data Action : Type 0 where
  retry give_up dlq : Action

unfoldable pub signed_decimal : ℤ → String
unfolding decimal
signed_decimal (pos n) = decimal n
signed_decimal (negsuc n) = append_text "-" (decimal (suc n))

-- `result.error_message or f"exit_code={result.exit_code}"`
unfoldable pub failure_reason : ExecutionResult → String
unfolding signed_decimal
failure_reason r = or_else r.error_message (append_text "exit_code=" (signed_decimal r.exit_code))

module _ ⦃env : Env⦄ where
  open env use {settings}

  abbrev tenant_text : Job → String
  tenant_text job = or_else job.tenant_id ""

  -- After the message is in the dead letter stream.
  abbrev dead_lettered : String → Job → Result String × World → Result (Action × ℕ) × World
  dead_lettered job_id job (ok message_id, w) =
      (ok (dlq, 0), audit_manual job_id "job.dlq" "worker" (tenant_text job) w)
  dead_lettered job_id job (err e, w) = (err e, w)

  -- The decision once the run is finished and the job is read.
  unfoldable pub decide_failure :
      String → ExecutionResult → Option String → Job → World → Result (Action × ℕ) × World
  decide_failure job_id result source job w =
      if ltb job.retry_count settings.max_job_retries
      then (
        ok (retry, retry_backoff job.retry_count),
        audit_manual job_id "job.retry_scheduled" "worker" (tenant_text job)
            (update_job_status job_id retrying none w).1,
      )
      else dead_lettered job_id job (
          Stream.send_to_dlq job_id (failure_reason result) source
            (update_job_status job_id failed none w).1)

  unfoldable pub handle_execution_failure :
      String → String → ExecutionResult → Option String → World → Result (Action × ℕ) × World
  handle_execution_failure job_id run_id result source w =
      let w1 = finish_run run_id failed result w in
      elim (get_job w1.db job_id none) [
        | none ↦ (ok (give_up, 0), w1)
        | some job ↦ decide_failure job_id result source job w1
      ]
