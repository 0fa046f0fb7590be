-- ===== src/Manager/Lifecycle/Status.antt =====
-- src/orchestrator/job_manager.py: proofs on what a change of status does to each field of the job.
use autonomous_ai_job_oreche.Prelude.{
  ℕ, suc, arith, truthy, given, not, String, Option, none, some, ◌≡◌, refl, ap, if◌then◌else◌,
}
use mathlib.Core.Path.{subst}
use autonomous_ai_job_oreche.Services.{Env}
use autonomous_ai_job_oreche.Output.Texts.{append_text}
use autonomous_ai_job_oreche.Job.{
  JobStatus, pending, running, completed, failed, retrying, cancelled, status_eq, text, field,
  no_fields,
}
use autonomous_ai_job_oreche.Db.{JobRow, get_job_row}
use autonomous_ai_job_oreche.World.{World}
use autonomous_ai_job_oreche.Manager.{job_of_row, status_text, text_or_null}
use autonomous_ai_job_oreche.Manager.Lifecycle.{with_status, change_payload, update_job_status}
use autonomous_ai_job_oreche.Manager.Lifecycle.Effects.{
  RowChanged, status_entry, update_job_status-RowChanged,
}

-- An empty worker changes nothing.
abbrev pub worker_after : Option String → JobRow → Option String
worker_after none old = old.worker_id
worker_after (some name) old = if truthy name then some name else old.worker_id

-- A job that is RUNNING already keeps the time of its start.
abbrev started_after : ℕ → JobStatus → Option ℕ → Option ℕ
started_after now running started = started
started_after now _ started = some now

-- The row after a change of its status: each status but three changes nothing else.
abbrev pub row_after : ℕ → JobStatus → Option String → JobRow → JobRow
row_after now pending worker old = record old {
  status = pending;
  worker_id = worker_after worker old;
}
row_after now failed worker old = record old {
  status = failed;
  worker_id = worker_after worker old;
}
row_after now cancelled worker old = record old {
  status = cancelled;
  worker_id = worker_after worker old;
}
row_after now running worker old = record old {
  status = running;
  worker_id = worker_after worker old;
  started_at = started_after now old.status old.started_at;
}
row_after now completed worker old = record old {
  status = completed;
  worker_id = worker_after worker old;
  completed_at = some now;
}
row_after now retrying worker old = record old {
  status = retrying;
  worker_id = worker_after worker old;
  retry_count = suc old.retry_count;
}

with_status-row_after :
    (now : ℕ) (status : JobStatus) (worker : Option String) (old : JobRow)
    → with_status now status worker old ≡ row_after now status worker old
unfolding with_status
with_status-row_after now status worker old = by_status status
  where
    same_worker :
        (worker : Option String)
        → (if given worker then worker else old.worker_id) ≡ worker_after worker old
    same_worker none = refl
    same_worker (some name) = refl

    same_start :
        (s : JobStatus)
        → (if not (status_eq s running) then some now else old.started_at)
          ≡ started_after now s old.started_at
    same_start pending = refl
    same_start running = refl
    same_start completed = refl
    same_start failed = refl
    same_start retrying = refl
    same_start cancelled = refl

    by_status : (s : JobStatus) → with_status now s worker old ≡ row_after now s worker old
    by_status pending = rw (same_worker worker) refl
    by_status running = rw (same_worker worker, same_start old.status) refl
    by_status completed = rw (same_worker worker) refl
    by_status failed = rw (same_worker worker) refl
    by_status retrying =
        rw (same_worker worker)
          (ap (λ n. record (row_after now retrying worker old) { retry_count = n }) (omega arith))
    by_status cancelled = rw (same_worker worker) refl

module _ ⦃env : Env⦄ where
  row_after-RowChanged :
      (id : String) (status : JobStatus) (worker : Option String) (w : World) (old : JobRow)
      → get_job_row id w.db ≡ some old
      → RowChanged w
          (update_job_status id status worker w).1
          old
          (row_after w.now status worker old)
          (record (status_entry w status worker old) {
            payload = change_payload old (row_after w.now status worker old);
          })
        × ((update_job_status id status worker w).0
            ≡ some (
                job_of_row
                  (update_job_status id status worker w).1.db
                  (row_after w.now status worker old)))
  row_after-RowChanged id status worker w old h =
      let w1 = (update_job_status id status worker w).1 in
      subst
        (λ row.
          RowChanged w w1 old row
            (record (status_entry w status worker old) { payload = change_payload old row })
          × ((update_job_status id status worker w).0 ≡ some (job_of_row w1.db row)))
        (with_status-row_after w.now status worker old)
        (update_job_status-RowChanged id status worker w old h)

  -- `update_job_status` of a job that exists returns it as it is then stored: the row gets the status,
  -- and the worker if one is given; RUNNING sets the start unless the job was RUNNING, COMPLETED sets
  -- the completion time, RETRYING adds one to the retry count, and nothing else of the row changes.
  -- Every other job and every run stay as they were, exactly one audit entry is added, with the old
  -- and the new status and the worker, and no Redis command is sent.
  pub update_job_status-StatusChanged :
      (id : String) (status : JobStatus) (worker : Option String) (w : World) (old : JobRow)
      → get_job_row id w.db ≡ some old
      → RowChanged w
          (update_job_status id status worker w).1
          old
          (row_after w.now status worker old)
          (record {
            id = env.uuid w.drawn;
            tenant_id = old.tenant_id;
            actor = "system";
            action = "job.status_changed";
            target = append_text "job:" old.id;
            payload = field "from" (text (status_text old.status)) (
                field "to"
                  (text (status_text status))
                  (field "worker_id" (text_or_null (worker_after worker old)) no_fields));
            ts = w.now;
          })
        × ((update_job_status id status worker w).0
            ≡ some (
                job_of_row
                  (update_job_status id status worker w).1.db
                  (row_after w.now status worker old)))
  update_job_status-StatusChanged id pending worker w old h =
      row_after-RowChanged id pending worker w old h
  update_job_status-StatusChanged id running worker w old h =
      row_after-RowChanged id running worker w old h
  update_job_status-StatusChanged id completed worker w old h =
      row_after-RowChanged id completed worker w old h
  update_job_status-StatusChanged id failed worker w old h =
      row_after-RowChanged id failed worker w old h
  update_job_status-StatusChanged id retrying worker w old h =
      row_after-RowChanged id retrying worker w old h
  update_job_status-StatusChanged id cancelled worker w old h =
      row_after-RowChanged id cancelled worker w old h
