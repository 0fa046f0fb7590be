-- ===== src/Manager/Failure/Decision.antt =====
-- src/orchestrator/job_manager.py: proofs on `handle_execution_failure`.
use autonomous_ai_job_oreche.Prelude.{
  ℕ, ◌+◌, String, Option, none, some, ◌∷◌, ◌≡◌, refl, ap, ◌∙◌, str_eq, ltb, if◌then◌else◌,
  Bool-cases, inl, inr,
}
use autonomous_ai_job_oreche.Services.{Env}
use autonomous_ai_job_oreche.Job.{Job, failed, retrying}
use autonomous_ai_job_oreche.Db.{JobRow, get_job_row}
use autonomous_ai_job_oreche.Executor.{ExecutionResult}
use autonomous_ai_job_oreche.Stream
use autonomous_ai_job_oreche.Stream.Effects.{after_command, dlq_command, send_to_dlq-after_command}
use autonomous_ai_job_oreche.World.{World, Result, ok, err}
use autonomous_ai_job_oreche.Manager.{job_of_row, retry_backoff}
use autonomous_ai_job_oreche.Manager.Audits.{get_job_row-audit_manual, sent-audit_manual}
use autonomous_ai_job_oreche.Manager.Visible.{get_job-any}
use autonomous_ai_job_oreche.Manager.Lifecycle.{update_job_status, with_status}
use autonomous_ai_job_oreche.Manager.Lifecycle.Effects.{update_job_status-RowChanged}
use autonomous_ai_job_oreche.Manager.Runs.{finish_run}
use autonomous_ai_job_oreche.Manager.Runs.Effects.{get_job_row-finish_run, sent-finish_run}
use autonomous_ai_job_oreche.Manager.Failure.{
  Action, retry, failure_reason, decide_failure, handle_execution_failure, dead_lettered,
}

module _ ⦃env : Env⦄ where
  open env use {settings}

  -- The table of jobs afterwards: `row` in the place of `old`, and the rest as before.
  abbrev pub OnlyJob : World → World → JobRow → JobRow → Type 0
  OnlyJob w w1 old row =
      (k : String)
      → get_job_row k w1.db ≡ (if str_eq old.id k then some row else get_job_row k w.db)

  -- What a failure owes to the job that it finds.
  abbrev pub FailureResult :
      World
      → String
      → ExecutionResult
      → Option String
      → JobRow
      → Result (Action × ℕ) × World
      → Type 0
  FailureResult w id result source old (r, w1) =
      if ltb old.retry_count settings.max_job_retries
      then (r ≡ ok (retry, retry_backoff old.retry_count))
        × OnlyJob w w1 old (record old { status = retrying; retry_count = old.retry_count + 1 })
        × (w1.sent ≡ w.sent)
      else OnlyJob w w1 old (record old { status = failed })
        × (w1.sent ≡ dlq_command id (failure_reason result) source ∷ w.sent)

  dead_lettered-job :
      (k id : String) (job : Job) (r : Result String × World)
      → get_job_row k (dead_lettered id job r).1.db ≡ get_job_row k r.1.db
  dead_lettered-job k id job (ok m, w) = get_job_row-audit_manual k id _ _ _ w
  dead_lettered-job k id job (err e, w) = refl

  dead_lettered-sent :
      (id : String) (job : Job) (r : Result String × World)
      → (dead_lettered id job r).1.sent ≡ r.1.sent
  dead_lettered-sent id job (ok m, w) = sent-audit_manual id _ _ _ w
  dead_lettered-sent id job (err e, w) = refl

  decide_failure-FailureResult :
      (id : String) (result : ExecutionResult) (source : Option String) (w : World) (old : JobRow)
      → get_job_row id w.db ≡ some old
      → FailureResult w id result source old
          (decide_failure id result source (job_of_row w.db old) w)
  unfolding decide_failure with_status job_of_row
  decide_failure-FailureResult id result source w old h =
      elim (Bool-cases (ltb old.retry_count settings.max_job_retries)) [
        | inl more ↦
            rw (more, decide_failure)
              (
                refl,
                λ k.
                    get_job_row-audit_manual k id _ _ _ _
                    ∙ (update_job_status-RowChanged id retrying none w old h).0.rows_after k,
                sent-audit_manual id _ _ _ _
                    ∙ (update_job_status-RowChanged id retrying none w old h).0.nothing_sent,
              )
        | inr spent ↦
            rw (spent, decide_failure)
              (
                λ k.
                    dead_lettered-job k id (job_of_row w.db old) message
                    ∙ (ap (λ (x : World). get_job_row k x.db) arrived
                        ∙ (update_job_status-RowChanged id failed none w old h).0.rows_after k),
                dead_lettered-sent id (job_of_row w.db old) message
                    ∙ (ap (λ (x : World). x.sent) arrived
                        ∙ ap (λ s. dlq_command id (failure_reason result) source ∷ s)
                            (update_job_status-RowChanged id failed none w old h).0.nothing_sent),
              )
      ]
    where
      message : Result String × World
      message =
          Stream.send_to_dlq id (failure_reason result) source
            (update_job_status id failed none w).1

      arrived :
          message.1
          ≡ after_command
              (dlq_command id (failure_reason result) source)
              (update_job_status id failed none w).1
      arrived =
          send_to_dlq-after_command id (failure_reason result) source
            (update_job_status id failed none w).1

  -- What holds from a state with the same jobs and the same commands sent holds from this one.
  FailureResult-start :
      (w w1 : World) (id : String) (result : ExecutionResult) (source : Option String)
      (old : JobRow) (r : Result (Action × ℕ) × World)
      → ((k : String) → get_job_row k w1.db ≡ get_job_row k w.db)
      → w1.sent ≡ w.sent
      → FailureResult w1 id result source old r
      → FailureResult w id result source old r
  FailureResult-start w w1 id result source old (r, w2) rows sents =
      elim (Bool-cases (ltb old.retry_count settings.max_job_retries)) [
        | inl more ↦ rw more (λ h. (
          h.0,
          λ k. h.1 k ∙ ap (λ x. if str_eq old.id k then some more_row else x) (rows k),
          h.2 ∙ sents,
        ))
        | inr spent ↦ rw spent (λ h. (
          λ k. h.0 k ∙ ap (λ x. if str_eq old.id k then some spent_row else x) (rows k),
          h.1 ∙ ap (λ s. dlq_command id (failure_reason result) source ∷ s) sents,
        ))
      ]
    where
      more_row : JobRow
      more_row = record old { status = retrying; retry_count = old.retry_count + 1 }

      spent_row : JobRow
      spent_row = record old { status = failed }

  -- After a failed execution of a job that exists, `handle_execution_failure` either asks for a retry
  -- with the backoff of the count, the job being RETRYING with one retry more and no command sent, if
  -- fewer than the allowed retries were made; or the job is FAILED with its count as it was, and one
  -- command, the message with the reason, goes to the dead letter stream. All other jobs stay.
  pub handle_execution_failure-FailureResult :
      (id run_id : String) (result : ExecutionResult) (source : Option String) (w : World)
      (old : JobRow)
      → get_job_row id w.db ≡ some old
      → FailureResult w id result source old (handle_execution_failure id run_id result source w)
  unfolding handle_execution_failure
  handle_execution_failure-FailureResult id run_id result source w old h =
      rw (get_job-any w1.db id old stored, handle_execution_failure)
        (FailureResult-start w w1 id result source old
          (decide_failure id result source (job_of_row w1.db old) w1)
          (λ k. get_job_row-finish_run k run_id failed result w)
          (sent-finish_run run_id failed result w)
          (decide_failure-FailureResult id result source w1 old stored))
    where
      w1 : World
      w1 = finish_run run_id failed result w

      stored : get_job_row id w1.db ≡ some old
      stored = get_job_row-finish_run id run_id failed result w ∙ h
