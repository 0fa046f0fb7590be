-- ===== src/Manager/Lifecycle/Cancel.antt =====
-- src/orchestrator/job_manager.py: proofs on `cancel_job`.
use autonomous_ai_job_oreche.Prelude.{
  ◌+◌, String, Bool, true, false, is_some, Option, none, some, ◌≡◌, refl, ap, ◌∙◌, if◌then◌else◌,
  Option-cases, Bool-cases, inl, inr,
}
use autonomous_ai_job_oreche.Services.{Env}
use autonomous_ai_job_oreche.Job.{
  Job, JobStatus, pending, running, completed, failed, retrying, cancelled, text, field, no_fields,
}
use autonomous_ai_job_oreche.Db.{Db, get_tenant, JobRow, AuditLogRow, get_job_row}
use autonomous_ai_job_oreche.Db.Laws.{id-get_job_row}
use autonomous_ai_job_oreche.World.{
  World, Result, ok, err, cannot_be_cancelled, validation_error, integrity_error,
}
use autonomous_ai_job_oreche.Manager.{
  status_text, job_target, audit, find_job_row, valid_row, to_model, job_of_row,
}
use autonomous_ai_job_oreche.Manager.Visible.{find_job_row-stored}
use autonomous_ai_job_oreche.Manager.Lifecycle.{cancel_job, cancelled_row, is_terminal, some_job}
use autonomous_ai_job_oreche.Manager.Lifecycle.Effects.{RowChanged, RowChanged-save}

module _ ⦃env : Env⦄ where
  -- The audit entry of a cancellation.
  abbrev pub cancel_entry : World → String → String → String → JobRow → AuditLogRow
  cancel_entry w id tid actor old = record {
    id = env.uuid w.drawn;
    tenant_id = tid;
    actor = actor;
    action = "job.cancelled";
    target = job_target id;
    payload = field "from" (text (status_text old.status)) no_fields;
    ts = w.now;
  }

  -- The job is cancelled, with an audit entry of the tenant, which has to be in the table. It is
  -- returned as it is then stored, unless `Job` refuses the row.
  abbrev pub Cancelled :
      World → String → String → String → JobRow → Result (Option Job) × World → Type 0
  Cancelled w id tid actor old (r, w1) =
      if is_some (get_tenant tid w.db)
      then (r ≡ (
          if valid_row w1.db old
          then ok (
              some
                (job_of_row w1.db (record old { status = cancelled; completed_at = some w.now })))
          else err validation_error))
        × RowChanged w w1 old (record old { status = cancelled; completed_at = some w.now })
            (cancel_entry w id tid actor old)
      else (r ≡ err integrity_error) × (w1 ≡ w)

  abbrev pub CancelOf :
      JobStatus → World → String → String → String → JobRow → Result (Option Job) × World → Type 0
  CancelOf pending w id tid actor old r = Cancelled w id tid actor old r
  CancelOf running w id tid actor old r = Cancelled w id tid actor old r
  CancelOf retrying w id tid actor old r = Cancelled w id tid actor old r
  CancelOf completed w id tid actor old r = r ≡ (err (cannot_be_cancelled completed), w)
  CancelOf failed w id tid actor old r = r ≡ (err (cannot_be_cancelled failed), w)
  CancelOf cancelled w id tid actor old r = r ≡ (err (cannot_be_cancelled cancelled), w)

  -- What `cancel_job` owes for each job that it may find.
  abbrev pub CancelResult :
      World → String → String → String → Option JobRow → Result (Option Job) × World → Type 0
  CancelResult w id tid actor none r = r ≡ (ok none, w)
  CancelResult w id tid actor (some old) r = CancelOf old.status w id tid actor old r

  module _ (id tid actor : String) (w : World) (old : JobRow)
      (h : find_job_row w.db id (some tid) ≡ some old) where
    cancel-refused :
        is_terminal old.status ≡ true
        → cancel_job id tid actor w ≡ (err (cannot_be_cancelled old.status), w)
    unfolding cancel_job
    cancel-refused t = rw (h, cancel_job, t)

    stored : get_job_row old.id w.db ≡ some old
    stored =
        let e = find_job_row-stored w.db id (some tid) old h in
        ap (λ i. get_job_row i w.db) (id-get_job_row id old w.db e) ∙ e

    -- The validators look at nothing that the cancellation changes.
    read_back :
        (db : Db)
        → some_job (to_model db (cancelled_row w.now old)) ≡ (
            if valid_row db old
            then ok (
                some (job_of_row db (record old { status = cancelled; completed_at = some w.now })))
            else err validation_error)
    unfolding to_model valid_row job_of_row
    read_back db = by_test (valid_row db old) (job_of_row db (cancelled_row w.now old))
      where
        by_test :
            (b : Bool) (job : Job)
            → some_job (if b then ok job else err validation_error)
              ≡ (if b then ok (some job) else err validation_error)
        by_test true job = refl
        by_test false job = refl

    cancel-Cancelled :
        is_terminal old.status ≡ false → Cancelled w id tid actor old (cancel_job id tid actor w)
    unfolding cancel_job audit
    cancel-Cancelled f =
        rw (h, cancel_job, f)
          (elim (Bool-cases (is_some (get_tenant tid w.db))) [
            | inl there ↦ rw there (
              read_back _,
              RowChanged-save w old (cancelled_row w.now old) (cancel_entry w id tid actor old)
                  (w.drawn + 1) stored refl,
            )
            | inr missing ↦ rw missing (refl, refl)
          ])

    cancel-CancelOf :
        (s : JobStatus) → old.status ≡ s → CancelOf s w id tid actor old (cancel_job id tid actor w)
    cancel-CancelOf pending e = cancel-Cancelled (ap is_terminal e)
    cancel-CancelOf running e = cancel-Cancelled (ap is_terminal e)
    cancel-CancelOf retrying e = cancel-Cancelled (ap is_terminal e)
    cancel-CancelOf completed e =
        cancel-refused (ap is_terminal e) ∙ ap (λ s. (err (cannot_be_cancelled s), w)) e
    cancel-CancelOf failed e =
        cancel-refused (ap is_terminal e) ∙ ap (λ s. (err (cannot_be_cancelled s), w)) e
    cancel-CancelOf cancelled e =
        cancel-refused (ap is_terminal e) ∙ ap (λ s. (err (cannot_be_cancelled s), w)) e

  -- On every branch `cancel_job` does what it owes. A job that the tenant does not see gives no job;
  -- one that is completed, failed or cancelled, and a tenant that is missing (as the empty one is),
  -- raise: the state stays as it was. Any other job, which is pending, running or waiting for a retry,
  -- is cancelled in the table with its completion time, every other job and every run stay as they
  -- were, and one audit entry with the actor is added; it is returned so, unless `Job` refuses the row,
  -- in which case the call raises after all this.
  pub cancel_job-CancelResult :
      (id tid actor : String) (w : World)
      → CancelResult w id tid actor (find_job_row w.db id (some tid)) (cancel_job id tid actor w)
  unfolding cancel_job
  cancel_job-CancelResult id tid actor w = elim (Option-cases (find_job_row w.db id (some tid))) [
    | inl e ↦ rw (e, cancel_job)
    | inr (old, e) ↦ rw e (cancel-CancelOf id tid actor w old e old.status refl)
  ]
