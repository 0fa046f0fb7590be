-- ===== src/Manager/Audits.antt =====
-- src/orchestrator/job_manager.py: lemmas on `_add_audit`.
use autonomous_ai_job_oreche.Prelude.{ℕ, String, ◌≡◌, refl}
use autonomous_ai_job_oreche.Services.{Env}
use autonomous_ai_job_oreche.Job.{Fields}
use autonomous_ai_job_oreche.Db.{Db, get_job_row, get_run_row, job_rows, run_rows, add_audit_row}
use autonomous_ai_job_oreche.Db.Laws.{get_job_row-add_audit_row, get_run_row-add_audit_row}
use autonomous_ai_job_oreche.World.{World}
use autonomous_ai_job_oreche.Manager.{audit, audit_manual}

module _ ⦃env : Env⦄ (k id tid : String) (now : ℕ) (action target : String) (p : Fields)
    (actor : String) (db : Db) where
  pub get_job_row-audit :
      get_job_row k (audit id tid now action target p actor db) ≡ get_job_row k db
  unfolding audit
  get_job_row-audit = get_job_row-add_audit_row k _ db

  pub get_run_row-audit :
      get_run_row k (audit id tid now action target p actor db) ≡ get_run_row k db
  unfolding audit
  get_run_row-audit = get_run_row-add_audit_row k _ db

module _ ⦃env : Env⦄ (id tid : String) (now : ℕ) (action target : String) (p : Fields)
    (actor : String) (db : Db) where
  pub job_rows-audit : job_rows (audit id tid now action target p actor db) ≡ job_rows db
  unfolding audit job_rows add_audit_row
  job_rows-audit = refl

  pub run_rows-audit : run_rows (audit id tid now action target p actor db) ≡ run_rows db
  unfolding audit run_rows add_audit_row
  run_rows-audit = refl

module _ ⦃env : Env⦄ (k id action actor tid : String) (w : World) where
  pub get_job_row-audit_manual :
      get_job_row k (audit_manual id action actor tid w).db ≡ get_job_row k w.db
  unfolding audit_manual
  get_job_row-audit_manual = get_job_row-audit k _ tid w.now action _ _ actor w.db

  pub get_run_row-audit_manual :
      get_run_row k (audit_manual id action actor tid w).db ≡ get_run_row k w.db
  unfolding audit_manual
  get_run_row-audit_manual = get_run_row-audit k _ tid w.now action _ _ actor w.db

module _ ⦃env : Env⦄ (id action actor tid : String) (w : World) where
  pub sent-audit_manual : (audit_manual id action actor tid w).sent ≡ w.sent
  unfolding audit_manual
  sent-audit_manual = refl
