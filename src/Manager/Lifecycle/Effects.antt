-- ===== src/Manager/Lifecycle/Effects.antt =====
-- src/orchestrator/job_manager.py: proofs on the changes of a job's status.
use autonomous_ai_job_oreche.Prelude.{
  ℕ, ◌+◌, String, Bool, Option, none, some, ◌≡◌, refl, ap, ◌∙◌, str_eq, eq_iff, count, bit,
  if◌then◌else◌,
}
use autonomous_ai_job_oreche.Services.{Env}
use autonomous_ai_job_oreche.Job.{JobStatus}
use autonomous_ai_job_oreche.Db.{
  JobRow, AuditLogRow, get_job_row, get_run_row, audit_rows, job_rows, save_job, add_audit_row,
}
use autonomous_ai_job_oreche.Db.Laws.{
  id-get_job_row, count-save_job, get_job_row-save_job, get_job_row-add_audit_row,
  get_run_row-add_audit_row, get_run_row-save_job, count-add_audit_row, count-audit-save_job,
}
use autonomous_ai_job_oreche.World.{World}
use autonomous_ai_job_oreche.Manager.{job_target, audit, job_of_row}
use autonomous_ai_job_oreche.Manager.Lifecycle.{with_status, change_payload, update_job_status}

module _ ⦃env : Env⦄ where
  -- The audit entry of a change of status.
  abbrev pub status_entry : World → JobStatus → Option String → JobRow → AuditLogRow
  status_entry w status worker old = record {
    id = env.uuid w.drawn;
    tenant_id = old.tenant_id;
    actor = "system";
    action = "job.status_changed";
    target = job_target old.id;
    payload = change_payload old (with_status w.now status worker old);
    ts = w.now;
  }

  -- The tables after `old` became `row` with the audit entry `entry`, and nothing else happened.
  pub record RowChanged (w w1 : World) (old row : JobRow) (entry : AuditLogRow) : Type 0 where
    pub rows_after :
        (k : String)
        → get_job_row k w1.db ≡ (if str_eq old.id k then some row else get_job_row k w.db)
    pub rows_counted :
        (p : JobRow → Bool)
        → count p (job_rows w1.db) + bit (p old) ≡ bit (p row) + count p (job_rows w.db)
    pub runs_kept : (k : String) → get_run_row k w1.db ≡ get_run_row k w.db
    pub audited :
        (p : AuditLogRow → Bool)
        → count p (audit_rows w1.db) ≡ bit (p entry) + count p (audit_rows w.db)
    pub nothing_sent : w1.sent ≡ w.sent

  -- Saving a row under its own id, with an audit entry.
  pub RowChanged-save :
      (w : World) (old row : JobRow) (entry : AuditLogRow) (n : ℕ)
      → get_job_row old.id w.db ≡ some old
      → row.id ≡ old.id
      → RowChanged w
          (record w { db = add_audit_row entry (save_job row w.db); drawn = n })
          old
          row
          entry
  unfolding job_rows add_audit_row
  RowChanged-save w old row entry n h e = record {
    rows_after = λ k.
        get_job_row-add_audit_row k entry (save_job row w.db)
        ∙ (get_job_row-save_job k row old w.db (ap (λ i. get_job_row i w.db) e ∙ h)
            ∙ ap (λ i. if str_eq i k then some row else get_job_row k w.db) e);
    rows_counted = λ p. count-save_job p row old w.db (ap (λ i. get_job_row i w.db) e ∙ h);
    runs_kept = λ k.
        get_run_row-add_audit_row k entry (save_job row w.db) ∙ get_run_row-save_job k row w.db;
    audited = λ p.
        count-add_audit_row p entry (save_job row w.db)
        ∙ ap (λ n. bit (p entry) + n) (count-audit-save_job p row w.db);
    nothing_sent = refl;
  }

  -- What `update_job_status` changes of a job that exists, in terms of its own `with_status`.
  pub update_job_status-RowChanged :
      (id : String) (status : JobStatus) (worker : Option String) (w : World) (old : JobRow)
      → get_job_row id w.db ≡ some old
      → RowChanged w
          (update_job_status id status worker w).1
          old
          (with_status w.now status worker old)
          (status_entry w status worker old)
        × ((update_job_status id status worker w).0
            ≡ some (
                job_of_row
                  (update_job_status id status worker w).1.db
                  (with_status w.now status worker old)))
  unfolding update_job_status audit with_status
  update_job_status-RowChanged id status worker w old h =
      rw (h, update_job_status)
        (
          RowChanged-save w old (with_status w.now status worker old)
              (status_entry w status worker old) (w.drawn + 1)
              (ap (λ i. get_job_row i w.db) (id-get_job_row id old w.db h) ∙ h) refl,
          refl,
        )

  pub update_job_status-missing :
      (id : String) (status : JobStatus) (worker : Option String) (w : World)
      → get_job_row id w.db ≡ none
      → update_job_status id status worker w ≡ (none, w)
  unfolding update_job_status
  update_job_status-missing id status worker w h = rw (h, update_job_status)

  pub drawn-update_job_status :
      (id : String) (status : JobStatus) (worker : Option String) (w : World) (old : JobRow)
      → get_job_row id w.db ≡ some old
      → (update_job_status id status worker w).1.drawn ≡ w.drawn + 1
  unfolding update_job_status
  drawn-update_job_status id status worker w old h = rw (h, update_job_status)

  -- The changed row stands under its id.
  pub RowChanged-self :
      (k : String) (w w1 : World) (old row : JobRow) (entry : AuditLogRow)
      → RowChanged w w1 old row entry
      → get_job_row k w.db ≡ some old
      → get_job_row k w1.db ≡ some row
  RowChanged-self k w w1 old row entry changed h =
      changed.rows_after k
      ∙ ap (λ b. if b then some row else get_job_row k w.db)
          ((eq_iff old.id k).1 (id-get_job_row k old w.db h))
