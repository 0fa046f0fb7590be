-- ===== src/Manager/Runs/Attempts.antt =====
-- src/orchestrator/job_manager.py: proofs on the numbers of a job's attempts.
use autonomous_ai_job_oreche.Prelude.{
  ℕ, suc, ◌+◌, ◌≤◌, String, ◌&&◌, none, some, List, [], ◌∷◌, ◌≡◌, refl, ap, ◌∙◌, arith, str_eq,
  eq_iff, leb, ◌==◌, count, if◌then◌else◌,
}
use autonomous_ai_job_oreche.Services.{Env}
use autonomous_ai_job_oreche.Job.{running}
use autonomous_ai_job_oreche.Db.{JobRow, RunRow, Db, get_job_row, get_run_row, run_rows, add_run}
use autonomous_ai_job_oreche.Db.Inserts.{add_run-accepts}
use autonomous_ai_job_oreche.World.{World, ok}
use autonomous_ai_job_oreche.Manager.Audits.{get_job_row-audit, get_run_row-audit}
use autonomous_ai_job_oreche.Manager.Runs.{latest_attempt, start_run, new_run}

-- No run of the job has a larger attempt than the latest.
none_above_latest :
    (id : String) (n : ℕ) (rs : List RunRow)
    → suc (latest_attempt id rs) ≤ n
    → count (λ (r : RunRow). str_eq r.job_id id && leb n r.attempt) rs ≡ 0
unfolding latest_attempt
none_above_latest id n [] h = refl
none_above_latest id n (r ∷ rs) h = ground (arith, none_above_latest id n rs)

none_equal :
    (id : String) (n : ℕ) (rs : List RunRow)
    → suc (latest_attempt id rs) ≤ n
    → count (λ (r : RunRow). str_eq r.job_id id && r.attempt == n) rs ≡ 0
unfolding latest_attempt
none_equal id n [] h = refl
none_equal id n (r ∷ rs) h = ground (arith, none_equal id n rs)

module _ ⦃env : Env⦄ where
  open env use {uuid}

  -- Starting a run of a job that exists always succeeds, if the id drawn for it is unused: the run is
  -- RUNNING, belongs to the job, has this id, is stored, and no earlier run of the job has an attempt as large as
  -- its own; the jobs stay as they were.
  pub start_run-fresh :
      (id worker_id : String) (w : World) (job : JobRow)
      → get_job_row id w.db ≡ some job
      → get_run_row (uuid w.drawn) w.db ≡ none
      → (run : RunRow) × ((start_run id worker_id w).0 ≡ ok (some run))
        × (run.status ≡ running)
        × (run.job_id ≡ id)
        × (run.id ≡ uuid w.drawn)
        × (get_run_row run.id (start_run id worker_id w).1.db ≡ some run)
        × (count (λ (r : RunRow). str_eq r.job_id id && leb run.attempt r.attempt) (run_rows w.db)
            ≡ 0)
        × ((k : String) → get_job_row k (start_run id worker_id w).1.db ≡ get_job_row k w.db)
  unfolding start_run
  start_run-fresh id worker_id w job h unused = (
    run,
    rw (h, start_run, accepted.1),
    refl,
    refl,
    refl,
    rw (h, start_run, accepted.1)
        (get_run_row-audit run.id _ _ _ _ _ _ _ _ ∙ (accepted.2 run.id ∙ self)),
    none_above_latest id run.attempt (run_rows w.db) (omega arith),
    λ k. rw (h, start_run, accepted.1) (get_job_row-audit k _ _ _ _ _ _ _ _ ∙ accepted.3 k),
  )
    where
      run : RunRow
      run = new_run (uuid w.drawn) id worker_id (latest_attempt id (run_rows w.db) + 1) w.now

      accepted :
          (db1 : Db) × (add_run run w.db ≡ some db1)
          × ((k : String)
              → get_run_row k db1 ≡ (if str_eq run.id k then some run else get_run_row k w.db))
          × ((k : String) → get_job_row k db1 ≡ get_job_row k w.db)
      accepted =
          add_run-accepts run job w.db unused h
            (none_equal id run.attempt (run_rows w.db) (omega arith))

      self : (if str_eq run.id run.id then some run else get_run_row run.id w.db) ≡ some run
      self =
          ap (λ b. if b then some run else get_run_row run.id w.db) ((eq_iff run.id run.id).1 refl)
