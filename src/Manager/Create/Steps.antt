-- ===== src/Manager/Create/Steps.antt =====
-- src/orchestrator/job_manager.py: lemmas on the steps of `create_job`.
use autonomous_ai_job_oreche.Prelude.{
  String, true, some, List, [], ◌∷◌, ◌≡◌, sym, ap, ◌∙◌, truthy, if◌then◌else◌,
}
use autonomous_ai_job_oreche.Services.{Env}
use autonomous_ai_job_oreche.Job.{Job}
use autonomous_ai_job_oreche.Db.{
  TenantRow, DependencyRow, Db, get_tenant, add_job, add_dependency, add_audit_row,
}
use autonomous_ai_job_oreche.Db.Inserts.{
  SameJobs, SameJobs-trans, JobAdded-later, add_dependency-SameJobs, JobAdded, add_job-JobAdded,
}
use autonomous_ai_job_oreche.World.{>>=-eq-ok, or_raise-eq-ok, World, ok, or_raise, integrity_error}
use autonomous_ai_job_oreche.Manager.{audit, ensure_default_tenant}
use autonomous_ai_job_oreche.Manager.Create.{insert_audit, job_row, add_dependencies, insert_job}

module _ ⦃env : Env⦄ where
  -- A tenant that exists is used as it is.
  pub ensure_default_tenant-known :
      (tid : String) (t : TenantRow) (db : Db)
      → truthy tid ≡ true
      → get_tenant tid db ≡ some t
      → ensure_default_tenant tid db ≡ ok db
  unfolding ensure_default_tenant
  ensure_default_tenant-known tid t db given h =
      rw (
        ap (λ b. if b then tid else env.settings.default_tenant_id) given,
        h,
        ensure_default_tenant,
      )

  pub add_dependencies-SameJobs :
      (id : String) (parents : List String) (db db2 : Db)
      → add_dependencies id parents db ≡ ok db2
      → SameJobs db db2
  unfolding add_dependencies
  add_dependencies-SameJobs id [] db db2 h =
      let e : db ≡ db2 = cc in
      record {
        jobs = ap (λ (x : Db). x.jobs) (sym e);
        tenants = ap (λ (x : Db). x.tenants) (sym e);
      }
  add_dependencies-SameJobs id (p ∷ ps) db db2 h =
      let (db1, added, later) =
        >>=-eq-ok (or_raise integrity_error (add_dependency edge db)) (add_dependencies id ps) db2
          h in
      let first =
        add_dependency-SameJobs edge db db1
          (or_raise-eq-ok integrity_error (add_dependency edge db) db1 added) in
      let rest = add_dependencies-SameJobs id ps db1 db2 later in
      record { jobs = rest.jobs ∙ first.jobs; tenants = rest.tenants ∙ first.tenants }
    where
      edge : DependencyRow
      edge = record { job_id = id; depends_on_job_id = p }

  -- The transaction adds the row of the job, and nothing else to the jobs and the tenants.
  pub insert_job-JobAdded :
      (w : World) (tid : String) (job : Job) (db db3 : Db)
      → insert_job w tid job db ≡ ok db3
      → JobAdded (job_row tid job) db db3
  unfolding insert_job insert_audit audit add_audit_row
  insert_job-JobAdded w tid job db db3 h =
      let (db1, added, later) =
        >>=-eq-ok (or_raise integrity_error (add_job (job_row tid job) db)) _ db3 h in
      let (db2, edges, last) =
        >>=-eq-ok (add_dependencies job.id job.dependencies db1) _ db3 later in
      JobAdded-later (job_row tid job) db db1 db3
        (add_job-JobAdded (job_row tid job) db db1 (or_raise-eq-ok integrity_error _ db1 added))
        (SameJobs-trans db1 db2 db3
          (add_dependencies-SameJobs job.id job.dependencies db1 db2 edges) (audited db2 last))
    where
      audited : (db2 : Db) → ok (insert_audit w tid job db2) ≡ ok db3 → SameJobs db2 db3
      audited db2 e =
          let same : insert_audit w tid job db2 ≡ db3 = cc in
          record {
            jobs = ap (λ (x : Db). x.jobs) (sym same);
            tenants = ap (λ (x : Db). x.tenants) (sym same);
          }
