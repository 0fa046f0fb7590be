-- ===== src/Manager/Runs/Effects.antt =====
-- src/orchestrator/job_manager.py: lemmas on the start and the end of a run.
use autonomous_ai_job_oreche.Prelude.{
  ltb, str_length, String, Option, some, ◌≡◌, refl, ap, ◌∙◌, str_eq, eq_iff, if◌then◌else◌,
  Option-cases, inl, inr, Bool-cases,
}
use autonomous_ai_job_oreche.Services.{Env}
use autonomous_ai_job_oreche.Job.{JobStatus}
use autonomous_ai_job_oreche.Db.{RunRow, get_job_row, get_run_row}
use autonomous_ai_job_oreche.Db.Laws.{get_job_row-save_run, get_run_row-save_run, id-get_run_row}
use autonomous_ai_job_oreche.Executor.{ExecutionResult}
use autonomous_ai_job_oreche.Output.{persist_run_output, spill, write_text}
use autonomous_ai_job_oreche.World.{World}
use autonomous_ai_job_oreche.Manager.Audits.{get_job_row-audit, get_run_row-audit}
use autonomous_ai_job_oreche.Manager.Runs.{finish_run, with_result}

module _ ⦃env : Env⦄ where
  -- Storing the output writes files and sends nothing.
  spill-sent :
      (run_id file content : String) (w : World) → (spill run_id file content w).2.sent ≡ w.sent
  unfolding spill write_text
  spill-sent run_id file content w =
      elim (Bool-cases (ltb env.settings.log_spill_threshold_chars (str_length content))) [
        | inl long ↦ rw (long, spill)
        | inr short ↦ rw (short, spill)
      ]

  spill-now :
      (run_id file content : String) (w : World) → (spill run_id file content w).2.now ≡ w.now
  unfolding spill write_text
  spill-now run_id file content w =
      elim (Bool-cases (ltb env.settings.log_spill_threshold_chars (str_length content))) [
        | inl long ↦ rw (long, spill)
        | inr short ↦ rw (short, spill)
      ]

  pub sent-persist :
      (run_id : String) (stdout stderr error : Option String) (w : World)
      → (persist_run_output run_id stdout stderr error w).1.sent ≡ w.sent
  unfolding persist_run_output
  sent-persist run_id stdout stderr error w =
      spill-sent run_id _ _ _ ∙ (spill-sent run_id _ _ _ ∙ spill-sent run_id _ _ _)

  pub get_job_row-finish_run :
      (k run_id : String) (status : JobStatus) (result : ExecutionResult) (w : World)
      → get_job_row k (finish_run run_id status result w).db ≡ get_job_row k w.db
  unfolding finish_run
  get_job_row-finish_run k run_id status result w = elim (Option-cases (get_run_row run_id w.db)) [
    | inl e ↦ rw (e, finish_run)
    | inr (old, e) ↦
        rw (e, finish_run) (get_job_row-audit k _ _ _ _ _ _ _ _ ∙ get_job_row-save_run k _ w.db)
  ]

  pub sent-finish_run :
      (run_id : String) (status : JobStatus) (result : ExecutionResult) (w : World)
      → (finish_run run_id status result w).sent ≡ w.sent
  unfolding finish_run
  sent-finish_run run_id status result w = elim (Option-cases (get_run_row run_id w.db)) [
    | inl e ↦ rw (e, finish_run)
    | inr (old, e) ↦ rw (e, finish_run) (sent-persist run_id _ _ _ w)
  ]

  -- A run that is finished is stored with its status and the time.
  pub get_run_row-finish_run :
      (run_id : String) (status : JobStatus) (result : ExecutionResult) (w : World) (old : RunRow)
      → get_run_row run_id w.db ≡ some old
      → (run : RunRow) × (get_run_row run_id (finish_run run_id status result w).db ≡ some run)
        × (run.status ≡ status)
        × (run.finished_at ≡ some w.now)
  unfolding finish_run with_result
  get_run_row-finish_run run_id status result w old h = (
    run,
    rw (h, finish_run)
        (get_run_row-audit run_id _ _ _ _ _ _ _ _
          ∙ (get_run_row-save_run run_id run old w.db (ap (λ k. get_run_row k w.db) same ∙ h)
              ∙ found)),
    refl,
    refl,
  )
    where
      run : RunRow
      run =
          with_result w.now status result
            (persist_run_output run_id (some result.stdout) (some result.stderr)
              result.error_message w).0
            old

      same : run.id ≡ run_id
      same = id-get_run_row run_id old w.db h

      found : (if str_eq run.id run_id then some run else get_run_row run_id w.db) ≡ some run
      found =
          ap (λ b. if b then some run else get_run_row run_id w.db) ((eq_iff run.id run_id).1 same)

  pub now-finish_run :
      (run_id : String) (status : JobStatus) (result : ExecutionResult) (w : World)
      → (finish_run run_id status result w).now ≡ w.now
  unfolding finish_run persist_run_output
  now-finish_run run_id status result w = elim (Option-cases (get_run_row run_id w.db)) [
    | inl e ↦ rw (e, finish_run)
    | inr (old, e) ↦
        rw (e, finish_run, persist_run_output)
          (spill-now run_id _ _ _ ∙ (spill-now run_id _ _ _ ∙ spill-now run_id _ _ _))
  ]
