-- ===== src/Manager/Lifecycle/Retry.antt =====
-- src/orchestrator/job_manager.py: proofs on `retry_job`.
use autonomous_ai_job_oreche.Prelude.{
  String, true, false, is_some, not, Option, none, some, ◌∷◌, ◌≡◌, refl, ap, ◌∙◌, str_eq,
  if◌then◌else◌, Option-cases, Bool-cases, inl, inr,
}
use autonomous_ai_job_oreche.Services.{Env}
use autonomous_ai_job_oreche.Job.{
  Job, JobStatus, pending, running, completed, failed, retrying, cancelled,
}
use autonomous_ai_job_oreche.Db.{JobRow, get_tenant, get_job_row, save_job, add_audit_row}
use autonomous_ai_job_oreche.Stream.Effects.{after_command, enqueue_command, enqueue-after_command}
use autonomous_ai_job_oreche.World.{
  World, Result, ok, err, cannot_be_retried, dependencies_not_met, validation_error,
  integrity_error,
}
use autonomous_ai_job_oreche.Manager.{
  find_job_row, valid_row, audit, job_of_row, are_dependencies_met, dependencies_refused,
  audit_manual, enqueue_job,
}
use autonomous_ai_job_oreche.Manager.Audits.{get_job_row-audit_manual, sent-audit_manual}
use autonomous_ai_job_oreche.Manager.Visible.{find_job_row-stored}
use autonomous_ai_job_oreche.Manager.Lifecycle.{
  with_status, update_job_status, retry_job, retry_now, can_retry, enqueued, change_status,
}
use autonomous_ai_job_oreche.Manager.Lifecycle.Effects.{update_job_status-RowChanged}

module _ ⦃env : Env⦄ where
  pub enqueue_job-after_command :
      (job_id : String) (w : World)
      → (enqueue_job job_id w).1 ≡ after_command (enqueue_command job_id) w
  unfolding enqueue_job
  enqueue_job-after_command job_id w = enqueue-after_command job_id w

  enqueued-world : (job : Option Job) (r : Result String × World) → (enqueued job r).1 ≡ r.1
  enqueued-world job (ok m, w) = refl
  enqueued-world job (err e, w) = refl

  -- A job that may be retried is PENDING afterwards, with the retry count and all else as before;
  -- every other job stays as it was, and one message for the job is in the queue.
  pub record Requeued (w w1 : World) (id : String) (old : JobRow) : Type 0 where
    pub rows_after :
        (k : String)
        → get_job_row k w1.db
          ≡ (if str_eq old.id k then some (record old { status = pending }) else get_job_row k w.db)
    pub one_message : w1.sent ≡ enqueue_command id ∷ w.sent

  -- The row is PENDING, but the audit entry is refused: nothing is enqueued.
  abbrev pub NotEnqueued : World → JobRow → Result (Option Job) × World → Type 0
  NotEnqueued w old (r, w1) =
      (r ≡ err integrity_error)
      × ((k : String)
          → get_job_row k w1.db ≡ (
              if str_eq old.id k
              then some (record old { status = pending })
              else get_job_row k w.db))
      × (w1.sent ≡ w.sent)

  -- The change to PENDING, which is committed before the audit entry.
  abbrev to_pending : String → World → World
  to_pending id w = (update_job_status id pending none w).1

  tenants-to_pending :
      (id tid : String) (w : World) (old : JobRow)
      → get_job_row id w.db ≡ some old
      → get_tenant tid (to_pending id w).db ≡ get_tenant tid w.db
  unfolding update_job_status change_status audit get_tenant save_job add_audit_row
  tenants-to_pending id tid w old h = rw (h, to_pending, update_job_status)

  rows-to_pending :
      (id k : String) (w : World) (old : JobRow)
      → get_job_row id w.db ≡ some old
      → get_job_row k (to_pending id w).db
        ≡ (if str_eq old.id k then some (record old { status = pending }) else get_job_row k w.db)
  unfolding with_status
  rows-to_pending id k w old h =
      (update_job_status-RowChanged id pending none w old h).0.rows_after k

  sent-to_pending :
      (id : String) (w : World) (old : JobRow)
      → get_job_row id w.db ≡ some old
      → (to_pending id w).sent ≡ w.sent
  sent-to_pending id w old h = (update_job_status-RowChanged id pending none w old h).0.nothing_sent

  retry_now-Requeued :
      (id tid actor : String) (w : World) (old : JobRow)
      → get_job_row id w.db ≡ some old
      → is_some (get_tenant tid w.db) ≡ true
      → Requeued w (retry_now id tid actor w).1 id old
  unfolding retry_now
  retry_now-Requeued id tid actor w old h there = record {
    rows_after = λ k.
        ap (λ (x : World). get_job_row k x.db) end
        ∙ (get_job_row-audit_manual k id "job.manual_retry" actor tid (to_pending id w)
            ∙ rows-to_pending id k w old h);
    one_message =
        ap (λ (x : World). x.sent) end
        ∙ ap (λ s. enqueue_command id ∷ s)
            (sent-audit_manual id "job.manual_retry" actor tid (to_pending id w)
              ∙ sent-to_pending id w old h);
  }
    where
      there_still : is_some (get_tenant tid (to_pending id w).db) ≡ true
      there_still = ap is_some (tenants-to_pending id tid w old h) ∙ there

      end :
          (retry_now id tid actor w).1
          ≡ after_command
              (enqueue_command id)
              (audit_manual id "job.manual_retry" actor tid (to_pending id w))
      end = rw there_still (enqueued-world _ _ ∙ enqueue_job-after_command id _)

  retry_now-NotEnqueued :
      (id tid actor : String) (w : World) (old : JobRow)
      → get_job_row id w.db ≡ some old
      → is_some (get_tenant tid w.db) ≡ false
      → NotEnqueued w old (retry_now id tid actor w)
  unfolding retry_now
  retry_now-NotEnqueued id tid actor w old h missing =
      rw (ap is_some (tenants-to_pending id tid w old h) ∙ missing)
        (refl, λ k. rows-to_pending id k w old h, sent-to_pending id w old h)

  -- A job whose status allows it is enqueued again if its parents are completed.
  abbrev pub Retried :
      World → String → String → String → JobRow → Result (Option Job) × World → Type 0
  Retried w id tid actor old (r, w1) =
      if dependencies_refused w.db (job_of_row w.db old) (some tid)
      then (r ≡ err validation_error) × (w1 ≡ w)
      else if not (are_dependencies_met w.db (job_of_row w.db old) (some tid))
      then (r ≡ err dependencies_not_met) × (w1 ≡ w)
      else if is_some (get_tenant tid w.db)
      then Requeued w w1 id old
      else NotEnqueued w old (r, w1)

  abbrev pub RetryOf :
      JobStatus → World → String → String → String → JobRow → Result (Option Job) × World → Type 0
  RetryOf failed w id tid actor old r = Retried w id tid actor old r
  RetryOf cancelled w id tid actor old r = Retried w id tid actor old r
  RetryOf retrying w id tid actor old r = Retried w id tid actor old r
  RetryOf pending w id tid actor old r = r ≡ (err (cannot_be_retried pending), w)
  RetryOf running w id tid actor old r = r ≡ (err (cannot_be_retried running), w)
  RetryOf completed w id tid actor old r = r ≡ (err (cannot_be_retried completed), w)

  abbrev pub RetryResult :
      World → String → String → String → Option JobRow → Result (Option Job) × World → Type 0
  RetryResult w id tid actor none r = r ≡ (ok none, w)
  RetryResult w id tid actor (some old) r =
      if valid_row w.db old
      then RetryOf old.status w id tid actor old r
      else r ≡ (err validation_error, w)

  module _ (id tid actor : String) (w : World) (old : JobRow)
      (h : find_job_row w.db id (some tid) ≡ some old) where
    retry-invalid :
        valid_row w.db old ≡ false → retry_job id tid actor w ≡ (err validation_error, w)
    unfolding retry_job
    retry-invalid f = rw (h, retry_job, f)

    retry-refused :
        valid_row w.db old ≡ true
        → can_retry old.status ≡ false
        → retry_job id tid actor w ≡ (err (cannot_be_retried old.status), w)
    unfolding retry_job
    retry-refused v f = rw (h, retry_job, v, f)

    retry-Retried :
        valid_row w.db old ≡ true
        → can_retry old.status ≡ true
        → Retried w id tid actor old (retry_job id tid actor w)
    unfolding retry_job
    retry-Retried v t =
        rw (h, retry_job, v, t)
          (elim (Bool-cases (dependencies_refused w.db (job_of_row w.db old) (some tid))) [
            | inl refused ↦ rw refused (refl, refl)
            | inr read ↦
                rw read
                  (elim (Bool-cases (are_dependencies_met w.db (job_of_row w.db old) (some tid))) [
                    | inl m ↦ rw m (elim (Bool-cases (is_some (get_tenant tid w.db))) [
                      | inl there ↦ rw there (retry_now-Requeued id tid actor w old stored there)
                      | inr missing ↦
                          rw missing (retry_now-NotEnqueued id tid actor w old stored missing)
                    ])
                    | inr n ↦ rw n (refl, refl)
                  ])
          ])
      where
        stored : get_job_row id w.db ≡ some old
        stored = find_job_row-stored w.db id (some tid) old h

    retry-RetryOf :
        (s : JobStatus)
        → old.status ≡ s
        → valid_row w.db old ≡ true
        → RetryOf s w id tid actor old (retry_job id tid actor w)
    retry-RetryOf failed e v = retry-Retried v (ap can_retry e)
    retry-RetryOf cancelled e v = retry-Retried v (ap can_retry e)
    retry-RetryOf retrying e v = retry-Retried v (ap can_retry e)
    retry-RetryOf pending e v =
        retry-refused v (ap can_retry e) ∙ ap (λ s. (err (cannot_be_retried s), w)) e
    retry-RetryOf running e v =
        retry-refused v (ap can_retry e) ∙ ap (λ s. (err (cannot_be_retried s), w)) e
    retry-RetryOf completed e v =
        retry-refused v (ap can_retry e) ∙ ap (λ s. (err (cannot_be_retried s), w)) e

    retry_found : RetryResult w id tid actor (some old) (retry_job id tid actor w)
    retry_found = elim (Bool-cases (valid_row w.db old)) [
      | inl v ↦ rw v (retry-RetryOf old.status refl v)
      | inr f ↦ rw f (retry-invalid f)
    ]

  -- On every branch `retry_job` does what it owes. A job that the tenant does not see gives no job; a
  -- row that `Job` refuses, be it that of the job or of a parent that is read, a job that is pending, running or completed, and one with a parent that is
  -- not completed raise: in all these cases the state stays as it was. Any other job, which is failed,
  -- cancelled or waiting for a retry, is PENDING afterwards with all else as before, every other job
  -- stays as it was, and exactly one command, the message that enqueues the job, is sent; if the
  -- tenant is missing (as the empty one is) the job is PENDING too, but the call raises and sends
  -- nothing.
  pub retry_job-RetryResult :
      (id tid actor : String) (w : World)
      → RetryResult w id tid actor (find_job_row w.db id (some tid)) (retry_job id tid actor w)
  unfolding retry_job
  retry_job-RetryResult id tid actor w = elim (Option-cases (find_job_row w.db id (some tid))) [
    | inl e ↦ rw (e, retry_job)
    | inr (old, e) ↦ rw e (retry_found id tid actor w old e)
  ]
