-- ===== src/Db/Laws.antt =====
-- src/db/models: lemmas on reading a table that was written.
use autonomous_ai_job_oreche.Prelude.{
  sym, ◌∙◌, eq_iff, find_passes, ◌+◌, String, Bool, some, ◌≡◌, refl, str_eq, count, bit,
  if◌then◌else◌,
}
use autonomous_ai_job_oreche.Services.{Env}
use autonomous_ai_job_oreche.Db.{
  JobRow, RunRow, AuditLogRow, Db, get_job_row, get_run_row, job_rows, audit_rows, save_job,
  save_run, add_audit_row,
}

module _ ⦃env : Env⦄ where
  -- A row is found under its own id.
  pub id-get_job_row : (k : String) (r : JobRow) (db : Db) → get_job_row k db ≡ some r → r.id ≡ k
  unfolding get_job_row
  id-get_job_row k r db h = (eq_iff r.id k).0 (
      find_passes (λ (x : JobRow). str_eq x.id k) (env.rows JobRow db.jobs) r
        (sym (env.get_row_query JobRow (λ x. x.id) k db.jobs) ∙ h))

  pub id-get_run_row : (k : String) (r : RunRow) (db : Db) → get_run_row k db ≡ some r → r.id ≡ k
  unfolding get_run_row
  id-get_run_row k r db h = (eq_iff r.id k).0 (
      find_passes (λ (x : RunRow). str_eq x.id k) (env.rows RunRow db.runs) r
        (sym (env.get_row_query RunRow (λ x. x.id) k db.runs) ∙ h))

  pub get_job_row-save_job :
      (k : String) (r old : JobRow) (db : Db)
      → get_job_row r.id db ≡ some old
      → get_job_row k (save_job r db) ≡ (if str_eq r.id k then some r else get_job_row k db)
  unfolding get_job_row save_job
  get_job_row-save_job k r old db h = env.get_row-update JobRow (λ x. x.id) k r old db.jobs h

  pub count-save_job :
      (p : JobRow → Bool) (r old : JobRow) (db : Db)
      → get_job_row r.id db ≡ some old
      → count p (job_rows (save_job r db)) + bit (p old) ≡ bit (p r) + count p (job_rows db)
  unfolding get_job_row save_job job_rows
  count-save_job p r old db h = env.count-update JobRow (λ x. x.id) p r old db.jobs h

  pub get_run_row-save_run :
      (k : String) (r old : RunRow) (db : Db)
      → get_run_row r.id db ≡ some old
      → get_run_row k (save_run r db) ≡ (if str_eq r.id k then some r else get_run_row k db)
  unfolding get_run_row save_run
  get_run_row-save_run k r old db h = env.get_row-update RunRow (λ x. x.id) k r old db.runs h

  pub get_job_row-save_run :
      (k : String) (r : RunRow) (db : Db) → get_job_row k (save_run r db) ≡ get_job_row k db
  unfolding get_job_row save_run
  get_job_row-save_run k r db = refl

  pub get_run_row-save_job :
      (k : String) (r : JobRow) (db : Db) → get_run_row k (save_job r db) ≡ get_run_row k db
  unfolding get_run_row save_job
  get_run_row-save_job k r db = refl

  pub get_job_row-add_audit_row :
      (k : String) (r : AuditLogRow) (db : Db)
      → get_job_row k (add_audit_row r db) ≡ get_job_row k db
  unfolding get_job_row add_audit_row
  get_job_row-add_audit_row k r db = refl

  pub get_run_row-add_audit_row :
      (k : String) (r : AuditLogRow) (db : Db)
      → get_run_row k (add_audit_row r db) ≡ get_run_row k db
  unfolding get_run_row add_audit_row
  get_run_row-add_audit_row k r db = refl

  pub count-add_audit_row :
      (p : AuditLogRow → Bool) (r : AuditLogRow) (db : Db)
      → count p (audit_rows (add_audit_row r db)) ≡ bit (p r) + count p (audit_rows db)
  unfolding audit_rows add_audit_row
  count-add_audit_row p r db = env.count-insert AuditLogRow p r db.audits

  pub count-audit-save_job :
      (p : AuditLogRow → Bool) (r : JobRow) (db : Db)
      → count p (audit_rows (save_job r db)) ≡ count p (audit_rows db)
  unfolding audit_rows save_job
  count-audit-save_job p r db = refl
