-- ===== src/Manager/Visible.antt =====
-- src/orchestrator/job_manager.py: lemmas on `_find_job_row`.
use autonomous_ai_job_oreche.Prelude.{
  String, true, Option, none, some, ◌≡◌, ◌≢◌, arith, eq_iff, truthy,
}
use autonomous_ai_job_oreche.Services.{Env}
use autonomous_ai_job_oreche.Db.{JobRow, Db, get_job_row}
use autonomous_ai_job_oreche.Manager.{find_job_row, get_job, job_of_row}

module _ ⦃env : Env⦄ where
  -- A row that a tenant finds stands in the table under the id, and is its own.
  pub find_job_row-stored :
      (db : Db) (id : String) (tid : Option String) (row : JobRow)
      → find_job_row db id tid ≡ some row
      → get_job_row id db ≡ some row
  unfolding find_job_row
  find_job_row-stored db id none row h = ground arith
  find_job_row-stored db id (some t) row h = ground arith

  pub find_job_row-tenant :
      (db : Db) (id t : String) (row : JobRow)
      → truthy t ≡ true
      → find_job_row db id (some t) ≡ some row
      → row.tenant_id ≡ t
  unfolding find_job_row
  find_job_row-tenant db id t row given h = ground (arith, eq_iff row.tenant_id t)

  -- The job of another tenant is not found.
  pub find_job_row-foreign :
      (db : Db) (id t : String) (row : JobRow)
      → truthy t ≡ true
      → get_job_row id db ≡ some row
      → row.tenant_id ≢ t
      → find_job_row db id (some t) ≡ none
  unfolding find_job_row
  find_job_row-foreign db id t row given h ne = ground (arith, eq_iff row.tenant_id t)

  -- The tenant's own job is found.
  pub find_job_row-own :
      (db : Db) (id t : String) (row : JobRow)
      → get_job_row id db ≡ some row
      → row.tenant_id ≡ t
      → find_job_row db id (some t) ≡ some row
  unfolding find_job_row
  find_job_row-own db id t row h e = ground (arith, eq_iff row.tenant_id t)

  pub get_job-any :
      (db : Db) (id : String) (row : JobRow)
      → get_job_row id db ≡ some row
      → get_job db id none ≡ some (job_of_row db row)
  unfolding get_job find_job_row
  get_job-any db id row h = rw (h, get_job, find_job_row)
