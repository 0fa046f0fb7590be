-- ===== src/Manager/Create/Quota.antt =====
-- src/orchestrator/job_manager.py: proofs on `create_job` and the quota of a tenant.
use autonomous_ai_job_oreche.Prelude.{
  ℕ, ◌+◌, ◌≤◌, String, true, some, ◌≡◌, refl, arith, truthy, ltb, le_of_not-ltb, bit-le-one,
}
use autonomous_ai_job_oreche.Services.{Env}
use autonomous_ai_job_oreche.Job.{JobCreate, Job, new_job}
use autonomous_ai_job_oreche.Db.{TenantRow, JobRow, Db, get_tenant}
use autonomous_ai_job_oreche.Policy.{active_jobs, max_jobs_for, enforce_job_quota, active_job_of}
use autonomous_ai_job_oreche.World.{World, Result, ok, err, raise_if-eq-ok}
use autonomous_ai_job_oreche.Manager.Create.{
  Staged, existing, inserted, job_row, stage_job, create_job,
}
use autonomous_ai_job_oreche.Manager.Create.Steps.{insert_job-JobAdded}
use autonomous_ai_job_oreche.Manager.Create.Outcome.{
  committed, db-create_job, Admitted, stage_job-Admitted,
}

module _ ⦃env : Env⦄ where
  pub enforce_job_quota-room :
      (db : Db) (tid : String) (t : TenantRow) (additional : ℕ)
      → get_tenant tid db ≡ some t
      → enforce_job_quota db tid additional ≡ ok tt
      → active_jobs tid db + additional ≤ max_jobs_for (some t)
  unfolding enforce_job_quota
  enforce_job_quota-room db tid t additional known h =
      le_of_not-ltb (max_jobs_for (some t)) (active_jobs tid db + additional) (
        rw known at (
          raise_if-eq-ok (ltb (max_jobs_for (get_tenant tid db)) (active_jobs tid db + additional))
            _ tt h))

  Admitted-quota :
      (w : World) (tid : String) (t : TenantRow) (job : Job) (db1 : Db) (row : JobRow)
      → get_tenant tid w.db ≡ some t
      → Admitted w tid job db1 row
      → active_jobs tid db1 ≤ max_jobs_for (some t)
  unfolding active_jobs
  Admitted-quota w tid t job db1 row known a =
      let added = insert_job-JobAdded w tid job w.db db1 a.added in
      let room = enforce_job_quota-room w.db tid t 1 known a.quota in
      omega (
        arith,
        added.counted (active_job_of tid),
        room,
        bit-le-one (active_job_of tid (job_row tid job)),
      )

  committed-quota :
      (w : World) (tid : String) (t : TenantRow) (job : Job) (r : Result Staged)
      → truthy tid ≡ true
      → get_tenant tid w.db ≡ some t
      → active_jobs tid w.db ≤ max_jobs_for (some t)
      → stage_job w tid job ≡ r
      → active_jobs tid (committed w r) ≤ max_jobs_for (some t)
  unfolding committed
  committed-quota w tid t job (ok (inserted db row)) given known room h =
      Admitted-quota w tid t job db row known (stage_job-Admitted w tid t job db row given known h)
  committed-quota w tid t job (ok (existing db row)) given known room h = room
  committed-quota w tid t job (err e) given known room h = room

  -- Whatever `create_job` returns or raises, a tenant that had no more active jobs than its quota
  -- allows has no more afterwards.
  pub create_job-quota :
      (c : JobCreate) (tid : String) (w : World) (t : TenantRow)
      → truthy tid ≡ true
      → get_tenant tid w.db ≡ some t
      → active_jobs tid w.db ≤ max_jobs_for (some t)
      → active_jobs tid (create_job c tid w).1.db ≤ max_jobs_for (some t)
  create_job-quota c tid w t given known room =
      rw (db-create_job c tid w)
        (committed-quota w tid t (new_job (env.uuid w.drawn) w.now c) _ given known room refl)
