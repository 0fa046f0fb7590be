-- ===== src/Manager/Failure/Budget.antt =====
-- src/orchestrator/job_manager.py: proofs on the retries of a job that keeps failing.
use autonomous_ai_job_oreche.Prelude.{
  ℕ, zero, suc, ◌+◌, String, Option, some, ◌∷◌, ◌≡◌, ap, ◌∙◌, arith, eq_iff, ltb, if◌then◌else◌,
  true, false,
}
use autonomous_ai_job_oreche.Services.{Env}
use autonomous_ai_job_oreche.Job.{failed, retrying}
use autonomous_ai_job_oreche.Db.{JobRow, get_job_row}
use autonomous_ai_job_oreche.Db.Laws.{id-get_job_row}
use autonomous_ai_job_oreche.Executor.{ExecutionResult}
use autonomous_ai_job_oreche.Stream.Effects.{dlq_command}
use autonomous_ai_job_oreche.World.{World, ok}
use autonomous_ai_job_oreche.Manager.{retry_backoff}
use autonomous_ai_job_oreche.Manager.Failure.{retry, failure_reason, handle_execution_failure}
use autonomous_ai_job_oreche.Manager.Failure.Decision.{
  OnlyJob, handle_execution_failure-FailureResult,
}

module _ ⦃env : Env⦄ where
  open env use {settings}

  -- The job fails n times in a row, in runs with the given ids.
  abbrev pub fail_times :
      ℕ → String → (ℕ → String) → ExecutionResult → Option String → World → World
  fail_times zero id runs result source w = w
  fail_times (suc n) id runs result source w =
      fail_times n id runs result source (handle_execution_failure id (runs n) result source w).1

  OnlyJob-self :
      (w w1 : World) (id : String) (old row : JobRow)
      → get_job_row id w.db ≡ some old
      → OnlyJob w w1 old row
      → get_job_row id w1.db ≡ some row
  OnlyJob-self w w1 id old row h only =
      only id
      ∙ ap (λ b. if b then some row else get_job_row id w.db)
          ((eq_iff old.id id).1 (id-get_job_row id old w.db h))

  -- With n retries left, the first n failures of a job only ask for retries, and the next one leaves
  -- it FAILED with all its retries made; in all these failures exactly one command is sent, the
  -- message to the dead letter stream.
  pub retries-then-dead_letter :
      (n : ℕ) (id : String) (runs : ℕ → String) (result : ExecutionResult) (source : Option String)
      (w : World) (old : JobRow)
      → get_job_row id w.db ≡ some old
      → old.retry_count + n ≡ settings.max_job_retries
      → (get_job_row id (fail_times (suc n) id runs result source w).db
          ≡ some (record old { status = failed; retry_count = settings.max_job_retries }))
        × ((fail_times (suc n) id runs result source w).sent
            ≡ dlq_command id (failure_reason result) source ∷ w.sent)
  retries-then-dead_letter zero id runs result source w old h e = (
    OnlyJob-self w (handle_execution_failure id (runs 0) result source w).1 id old
          (record old { status = failed }) h at_end.0
        ∙ ap (λ n. some (record old { status = failed; retry_count = n })) count_is_max,
    at_end.1,
  )
    where
      count_is_max : old.retry_count ≡ settings.max_job_retries
      count_is_max = omega arith

      spent : ltb old.retry_count settings.max_job_retries ≡ false
      spent = ground arith

      at_end :
          OnlyJob w
            (handle_execution_failure id (runs 0) result source w).1
            old
            (record old { status = failed })
          × ((handle_execution_failure id (runs 0) result source w).1.sent
              ≡ dlq_command id (failure_reason result) source ∷ w.sent)
      at_end =
          rw spent at (handle_execution_failure-FailureResult id (runs 0) result source w old h)
  retries-then-dead_letter (suc n) id runs result source w old h e =
      let rest =
        retries-then-dead_letter n id runs result source w1 old1
          (OnlyJob-self w w1 id old old1 h on_retry.1) (omega arith) in
      (rest.0, rest.1 ∙ ap (λ s. dlq_command id (failure_reason result) source ∷ s) on_retry.2)
    where
      w1 : World
      w1 = (handle_execution_failure id (runs (suc n)) result source w).1

      old1 : JobRow
      old1 = record old { status = retrying; retry_count = old.retry_count + 1 }

      more : ltb old.retry_count settings.max_job_retries ≡ true
      more = ground arith

      on_retry :
          ((handle_execution_failure id (runs (suc n)) result source w).0
            ≡ ok (retry, retry_backoff old.retry_count))
          × OnlyJob w w1 old old1
          × (w1.sent ≡ w.sent)
      on_retry =
          rw more at
            (handle_execution_failure-FailureResult id (runs (suc n)) result source w old h)
