-- ===== src/Manager/Dag/Batch.antt =====
-- src/orchestrator/job_manager.py: proofs on `create_dag`.
use autonomous_ai_job_oreche.Prelude.{◌+◌, ◌≤◌, String, some, List, ◌≡◌, length}
use autonomous_ai_job_oreche.Services.{Env}
use autonomous_ai_job_oreche.Job.{DagJobCreate, Job}
use autonomous_ai_job_oreche.Db.{TenantRow, JobRow, Db}
use autonomous_ai_job_oreche.Policy.{active_jobs, max_jobs_for}
use autonomous_ai_job_oreche.World.{World}
use autonomous_ai_job_oreche.Manager.Dag.Checks.{WellKeyed}

module _ ⦃env : Env⦄ where
  -- What a staged batch owes to a tenant that exists.
  abbrev Staged : World → String → TenantRow → List DagJobCreate → Db × List JobRow → Type 0
  Staged w tid t nodes (db, rows) =
      (active_jobs tid db ≡ active_jobs tid w.db + length nodes)
      × (active_jobs tid w.db + length nodes ≤ max_jobs_for (some t))
      × (length rows ≡ length nodes)

  -- The batch is stored: one more active job for each node, within the quota.
  abbrev pub StoredBatch : String → TenantRow → List DagJobCreate → World → World → Type 0
  StoredBatch tid t nodes w w1 =
      WellKeyed nodes
      × (active_jobs tid w1.db ≡ active_jobs tid w.db + length nodes)
      × (active_jobs tid w1.db ≤ max_jobs_for (some t))
