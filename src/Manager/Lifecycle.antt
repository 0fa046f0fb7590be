-- ===== src/Manager/Lifecycle.antt =====
-- src/orchestrator/job_manager.py: the changes of a job's status, by the program and by a user.
pub mod Effects
pub mod Status
pub mod Cancel
pub mod Retry
use autonomous_ai_job_oreche.Prelude.{
  ℕ, ◌+◌, String, Bool, ◌&&◌, ◌||◌, not, Option, none, some, given, is_some, if◌then◌else◌,
}
use autonomous_ai_job_oreche.Services.{Env}
use autonomous_ai_job_oreche.Job.{
  Job, JobStatus, pending, running, completed, failed, retrying, cancelled, status_eq, Fields, text,
  field, no_fields,
}
use autonomous_ai_job_oreche.Db.{JobRow, Db, get_tenant, get_job_row, save_job}
use autonomous_ai_job_oreche.World.{
  World, Result, ok, err, validation_error, integrity_error, cannot_be_cancelled, cannot_be_retried,
  dependencies_not_met,
}
use autonomous_ai_job_oreche.Manager.{
  status_text, text_or_null, job_target, audit, job_of_row, valid_row, to_model, find_job_row,
  get_job, are_dependencies_met, dependencies_refused, enqueue_job, audit_manual,
}

-- What `update_job_status` does to the row.
unfoldable pub with_status : ℕ → JobStatus → Option String → JobRow → JobRow
with_status now status worker row = record row {
  status = status;
  started_at =
      if status_eq status running && not (status_eq row.status running)
      then some now
      else row.started_at;
  worker_id = if given worker then worker else row.worker_id;
  completed_at = if status_eq status completed then some now else row.completed_at;
  retry_count = if status_eq status retrying then row.retry_count + 1 else row.retry_count;
}

abbrev pub is_terminal : JobStatus → Bool
is_terminal s = status_eq s completed || status_eq s failed || status_eq s cancelled

abbrev pub can_retry : JobStatus → Bool
can_retry s = status_eq s failed || status_eq s cancelled || status_eq s retrying

abbrev pub change_payload : JobRow → JobRow → Fields
change_payload old row = field "from" (text (status_text old.status)) (
    field "to" (text (status_text row.status))
      (field "worker_id" (text_or_null row.worker_id) no_fields))

module _ ⦃env : Env⦄ where
  open env use {uuid}

  -- The tables after the status of a row has changed and the change is audited.
  unfoldable pub change_status : World → JobStatus → Option String → JobRow → Db
  unfolding with_status audit
  change_status w status worker old =
      let row = with_status w.now status worker old in
      audit (uuid w.drawn) old.tenant_id w.now "job.status_changed" (job_target old.id)
        (change_payload old row) "system" (save_job row w.db)

  -- Its callers have read the row as a job before, so the validators of `Job` accept it.
  unfoldable pub update_job_status : String → JobStatus → Option String → World → Option Job × World
  unfolding change_status
  update_job_status job_id status worker w = elim (get_job_row job_id w.db) [
    | none ↦ (none, w)
    | some old ↦
        let db = change_status w status worker old in
        (
          some (job_of_row db (with_status w.now status worker old)),
          record w { db = db; drawn = w.drawn + 1 },
        )
  ]

  abbrev pub cancelled_row : ℕ → JobRow → JobRow
  cancelled_row now row = record row { status = cancelled; completed_at = some now }

  abbrev pub some_job : Result Job → Result (Option Job)
  some_job (ok job) = ok (some job)
  some_job (err e) = err e

  -- The foreign key of the audit entry undoes all if the tenant is missing; the row is read as a job
  -- when the change is committed.
  unfoldable pub cancel_job : String → String → String → World → Result (Option Job) × World
  unfolding find_job_row audit
  cancel_job job_id tenant_id actor w = elim (find_job_row w.db job_id (some tenant_id)) [
    | none ↦ (ok none, w)
    | some old ↦
        let db =
          audit (uuid w.drawn) tenant_id w.now "job.cancelled" (job_target job_id)
            (field "from" (text (status_text old.status)) no_fields) actor
            (save_job (cancelled_row w.now old) w.db) in
        if is_terminal old.status
        then (err (cannot_be_cancelled old.status), w)
        else if not (is_some (get_tenant tenant_id w.db))
        then (err integrity_error, w)
        else (
          some_job (to_model db (cancelled_row w.now old)),
          record w { db = db; drawn = w.drawn + 1 },
        )
  ]

  -- Enqueueing comes last: if it raises, the status and the audit entry stay committed.
  abbrev pub enqueued : Option Job → Result String × World → Result (Option Job) × World
  enqueued updated (ok message_id, w) = (ok updated, w)
  enqueued updated (err e, w) = (err e, w)

  -- The status is committed before the audit entry, whose foreign key asks for the tenant.
  unfoldable pub retry_now : String → String → String → World → Result (Option Job) × World
  retry_now job_id tenant_id actor w =
      let (updated, w1) = update_job_status job_id pending none w in
      if is_some (get_tenant tenant_id w1.db)
      then enqueued updated
          (enqueue_job job_id (audit_manual job_id "job.manual_retry" actor tenant_id w1))
      else (err integrity_error, w1)

  unfoldable pub retry_job : String → String → String → World → Result (Option Job) × World
  retry_job job_id tenant_id actor w = elim (find_job_row w.db job_id (some tenant_id)) [
    | none ↦ (ok none, w)
    | some row ↦
        if not (valid_row w.db row)
        then (err validation_error, w)
        else if not (can_retry row.status)
        then (err (cannot_be_retried row.status), w)
        else if dependencies_refused w.db (job_of_row w.db row) (some tenant_id)
        then (err validation_error, w)
        else if not (are_dependencies_met w.db (job_of_row w.db row) (some tenant_id))
        then (err dependencies_not_met, w)
        else retry_now job_id tenant_id actor w
  ]
