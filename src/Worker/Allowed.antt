-- ===== src/Worker/Allowed.antt =====
-- src/orchestrator/worker.py: lemmas on the executors that a started job may use.
use autonomous_ai_job_oreche.Prelude.{
  ℕ, String, Bool, true, false, Option, none, some, ◌≡◌, refl, ap, ◌∙◌,
}
use autonomous_ai_job_oreche.Services.{Env}
use autonomous_ai_job_oreche.Job.{JobStatus, running}
use autonomous_ai_job_oreche.Db.{
  JobRow, RunRow, TenantRow, Db, get_job_row, get_tenant, add_run, check_then, add_audit_row,
  save_job,
}
use autonomous_ai_job_oreche.World.{World}
use autonomous_ai_job_oreche.Policy.{executor_allowlist_for}
use autonomous_ai_job_oreche.Manager.{audit}
use autonomous_ai_job_oreche.Manager.Lifecycle.{update_job_status, with_status}
use autonomous_ai_job_oreche.Manager.Runs.{start_run, started}
use autonomous_ai_job_oreche.Manager.Queries.{get_executor_allowlist_for_job}

module _ ⦃env : Env⦄ where
  pub tenants-update_job_status :
      (id : String) (status : JobStatus) (worker : Option String) (w : World) (old : JobRow)
      → get_job_row id w.db ≡ some old
      → (update_job_status id status worker w).1.db.tenants ≡ w.db.tenants
  unfolding update_job_status audit add_audit_row save_job
  tenants-update_job_status id status worker w old h = rw (h, update_job_status) refl

  tenants-started :
      (w : World) (run : RunRow) (job : JobRow) (o : Option Db)
      → ((db1 : Db) → o ≡ some db1 → db1.tenants ≡ w.db.tenants)
      → (started w run job o).1.db.tenants ≡ w.db.tenants
  unfolding audit add_audit_row
  tenants-started w run job none kept = refl
  tenants-started w run job (some db1) kept = kept db1 refl

  tenants-check_then :
      (b : Bool) (db db1 : Db) → check_then b db ≡ some db1 → db1.tenants ≡ db.tenants
  tenants-check_then true db db1 h = ap (λ (x : Db). x.tenants) (same h)
    where
      same : some db ≡ some db1 → db1 ≡ db
      same h = cc
  tenants-check_then false db db1 h = absurd (cc)

  tenants-add_run :
      (run : RunRow) (db db1 : Db) → add_run run db ≡ some db1 → db1.tenants ≡ db.tenants
  unfolding add_run
  tenants-add_run run db db1 h = tenants-check_then _ _ db1 h

  tenants-start_run :
      (id worker_id : String) (w : World) (job : JobRow)
      → get_job_row id w.db ≡ some job
      → (start_run id worker_id w).1.db.tenants ≡ w.db.tenants
  unfolding start_run
  tenants-start_run id worker_id w job h =
      rw (h, start_run) (tenants-started w _ job _ (λ db1 e. tenants-add_run _ w.db db1 e))

  pub tenant_id-with_status :
      (now : ℕ) (status : JobStatus) (worker : Option String) (row : JobRow)
      → (with_status now status worker row).tenant_id ≡ row.tenant_id
  unfolding with_status
  tenant_id-with_status now status worker row = refl

  -- When the run of a job starts, the job may use the executors that its tenant had before.
  pub allowed-start_run :
      (id worker_id : String) (w : World) (old row : JobRow)
      → get_job_row id w.db ≡ some old
      → get_job_row id (update_job_status id running (some worker_id) w).1.db ≡ some row
      → row.tenant_id ≡ old.tenant_id
      → get_job_row id
          (start_run id worker_id (update_job_status id running (some worker_id) w).1).1.db
        ≡ some row
      → get_executor_allowlist_for_job id
          (start_run id worker_id (update_job_status id running (some worker_id) w).1).1.db
        ≡ executor_allowlist_for (get_tenant old.tenant_id w.db)
  unfolding get_executor_allowlist_for_job get_tenant
  allowed-start_run id worker_id w old row there after same_tenant stored =
      rw (stored, get_executor_allowlist_for_job)
        (ap
            (λ (t : env.Table TenantRow).
              executor_allowlist_for (env.get_row TenantRow (λ x. x.id) row.tenant_id t))
            (tenants-start_run id worker_id (update_job_status id running (some worker_id) w).1 row
                after
              ∙ tenants-update_job_status id running (some worker_id) w old there)
          ∙ ap (λ k. executor_allowlist_for (env.get_row TenantRow (λ x. x.id) k w.db.tenants))
              same_tenant)
