-- ===== src/Db/Inserts.antt =====
-- src/db/models: lemmas on the inserts into the tables.
use autonomous_ai_job_oreche.Prelude.{
  ◌+◌, String, Bool, true, false, ◌&&◌, not, Option, none, some, ◌≡◌, refl, sym, ap, ◌∙◌, arith,
  str_eq, count, bit, ◌==◌, is_some, if◌then◌else◌,
}
use autonomous_ai_job_oreche.Services.{Env}
use autonomous_ai_job_oreche.Db.{
  JobRow, RunRow, DependencyRow, Db, get_tenant, get_job_row, get_run_row, job_rows, run_rows,
  add_run, add_job, add_dependency, check_then, same_idempotency_key,
}

module _ ⦃env : Env⦄ where
  -- A run with an unused id and attempt, of a job that exists, is accepted.
  pub add_run-accepts :
      (r : RunRow) (j : JobRow) (db : Db)
      → get_run_row r.id db ≡ none
      → get_job_row r.job_id db ≡ some j
      → count (λ (x : RunRow). str_eq x.job_id r.job_id && x.attempt == r.attempt) (run_rows db) ≡ 0
      → (db1 : Db) × (add_run r db ≡ some db1)
        × ((k : String) → get_run_row k db1 ≡ (if str_eq r.id k then some r else get_run_row k db))
        × ((k : String) → get_job_row k db1 ≡ get_job_row k db)
  unfolding add_run get_run_row get_job_row run_rows
  add_run-accepts r j db new there fresh = (
    record db { runs = env.insert_row RunRow r db.runs },
    rw (new, there, fresh),
    λ k. env.get_row-insert RunRow (λ x. x.id) k r db.runs new,
    λ k. refl,
  )

  check_then-some : (b : Bool) (db db1 : Db) → check_then b db ≡ some db1 → (b ≡ true) × (db ≡ db1)
  check_then-some true db db1 h = (refl, cc)
  check_then-some false db db1 h = cc

  -- What an accepted row of `jobs` says of the tables before and after.
  pub record JobAdded (r : JobRow) (db db1 : Db) : Type 0 where
    pub unused_id : get_job_row r.id db ≡ none
    pub tenant_there : is_some (get_tenant r.tenant_id db) ≡ true
    pub unused_key : count (same_idempotency_key r.tenant_id r.idempotency_key) (job_rows db) ≡ 0
    pub counted : (p : JobRow → Bool) → count p (job_rows db1) ≡ bit (p r) + count p (job_rows db)
    pub rows_after :
        (k : String) → get_job_row k db1 ≡ (if str_eq r.id k then some r else get_job_row k db)
    pub tenants_kept : db1.tenants ≡ db.tenants

  is_none : {A : Type 0} (o : Option A) → not (is_some o) ≡ true → o ≡ none
  is_none none h = refl
  is_none (some a) h = cc

  and_parts : (a b c : Bool) → (a && b && c) ≡ true → (a ≡ true) × (b ≡ true) × (c ≡ true)
  and_parts a b c h = ground arith

  pub add_job-JobAdded : (r : JobRow) (db db1 : Db) → add_job r db ≡ some db1 → JobAdded r db db1
  unfolding add_job get_job_row get_tenant job_rows
  add_job-JobAdded r db db1 h = record {
    unused_id = unused;
    tenant_there = tests.1;
    unused_key = (ground (arith, tests.2));
    counted = λ p.
        ap (λ (x : Db). count p (env.rows JobRow x.jobs)) (sym checked.1)
        ∙ env.count-insert JobRow p r db.jobs;
    rows_after = λ k.
        ap (λ (x : Db). env.get_row JobRow (λ x. x.id) k x.jobs) (sym checked.1)
        ∙ env.get_row-insert JobRow (λ x. x.id) k r db.jobs unused;
    tenants_kept = ap (λ (x : Db). x.tenants) (sym checked.1);
  }
    where
      added : Db
      added = record db { jobs = env.insert_row JobRow r db.jobs }

      checked :
          ((not (is_some (get_job_row r.id db))
              && is_some (get_tenant r.tenant_id db)
              && count (same_idempotency_key r.tenant_id r.idempotency_key) (job_rows db) == 0)
            ≡ true)
          × (added ≡ db1)
      checked = check_then-some _ added db1 h

      tests :
          (not (is_some (get_job_row r.id db)) ≡ true)
          × (is_some (get_tenant r.tenant_id db) ≡ true)
          × ((count (same_idempotency_key r.tenant_id r.idempotency_key) (job_rows db) == 0) ≡ true)
      tests = and_parts _ _ _ checked.0

      unused : get_job_row r.id db ≡ none
      unused = is_none _ tests.0

  -- A dependency changes neither the tenants nor the jobs.
  pub record SameJobs (a b : Db) : Type 0 where
    pub jobs : b.jobs ≡ a.jobs
    pub tenants : b.tenants ≡ a.tenants

  pub add_dependency-SameJobs :
      (r : DependencyRow) (db db1 : Db) → add_dependency r db ≡ some db1 → SameJobs db db1
  unfolding add_dependency
  add_dependency-SameJobs r db db1 h =
      let e =
        (check_then-some _
          (record db { dependencies = env.insert_row DependencyRow r db.dependencies }) db1 h).1 in
      record {
        jobs = ap (λ (x : Db). x.jobs) (sym e);
        tenants = ap (λ (x : Db). x.tenants) (sym e);
      }

  pub SameJobs-trans : (a b c : Db) → SameJobs a b → SameJobs b c → SameJobs a c
  SameJobs-trans a b c h k = record { jobs = k.jobs ∙ h.jobs; tenants = k.tenants ∙ h.tenants }

  -- Later changes that keep the jobs and the tenants keep what was added.
  pub JobAdded-later :
      (r : JobRow) (db db1 db2 : Db) → JobAdded r db db1 → SameJobs db1 db2 → JobAdded r db db2
  unfolding get_job_row job_rows
  JobAdded-later r db db1 db2 a s = record {
    unused_id = a.unused_id;
    tenant_there = a.tenant_there;
    unused_key = a.unused_key;
    counted = λ p. ap (λ t. count p (env.rows JobRow t)) s.jobs ∙ a.counted p;
    rows_after = λ k. ap (λ t. env.get_row JobRow (λ x. x.id) k t) s.jobs ∙ a.rows_after k;
    tenants_kept = s.tenants ∙ a.tenants_kept;
  }
