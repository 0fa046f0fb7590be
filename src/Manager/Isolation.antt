-- ===== src/Manager/Isolation.antt =====
-- src/orchestrator/job_manager.py: proofs on a tenant and the jobs of another.
use autonomous_ai_job_oreche.Prelude.{String, Bool, true, none, some, [], ◌≡◌, ◌≢◌, truthy}
use autonomous_ai_job_oreche.Services.{Env}
use autonomous_ai_job_oreche.Db.{JobRow, get_job_row}
use autonomous_ai_job_oreche.World.{World, ok}
use autonomous_ai_job_oreche.Manager.{get_job}
use autonomous_ai_job_oreche.Manager.Visible.{find_job_row-foreign}
use autonomous_ai_job_oreche.Manager.Lifecycle.{cancel_job, retry_job}
use autonomous_ai_job_oreche.Manager.Runs.{get_runs, get_run, get_run_logs, find_run_row}

module _ ⦃env : Env⦄ where
  -- For a job of another tenant every operation of a tenant (with an id that is not empty) answers as
  -- if the job were not there: it is not read, nor are its runs and their logs, and neither
  -- `cancel_job` nor `retry_job` changes the state.
  pub foreign_job :
      (id t actor run_id : String) (full : Bool) (w : World) (row : JobRow)
      → truthy t ≡ true
      → get_job_row id w.db ≡ some row
      → row.tenant_id ≢ t
      → (get_job w.db id (some t) ≡ none)
        × (cancel_job id t actor w ≡ (ok none, w))
        × (retry_job id t actor w ≡ (ok none, w))
        × (get_runs w.db id t ≡ ([], 0))
        × (get_run w.db id run_id t ≡ none)
        × (get_run_logs id run_id t full w ≡ ok none)
  unfolding get_job cancel_job retry_job get_runs get_run get_run_logs find_run_row
  foreign_job id t actor run_id full w row given h ne =
      let e = find_job_row-foreign w.db id t row given h ne in
      (
        rw (e, get_job),
        rw (e, cancel_job),
        rw (e, retry_job, get_job),
        rw (e, get_runs),
        rw (e, get_run, find_run_row),
        rw (e, get_run_logs, find_run_row),
      )
