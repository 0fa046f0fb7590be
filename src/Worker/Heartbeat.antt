-- ===== src/Worker/Heartbeat.antt =====
-- src/orchestrator/worker.py: the heartbeat of a lease while its job runs in the child process.
use autonomous_ai_job_oreche.Prelude.{
  ℕ, zero, suc, ◌*◌, ℤ, String, Bool, true, false, some, List, ◌≡◌, refl, ap, ◌∙◌, if◌then◌else◌,
}
use autonomous_ai_job_oreche.Services.{Env}
use autonomous_ai_job_oreche.Job.{Job}
use autonomous_ai_job_oreche.Executor.Runner
use autonomous_ai_job_oreche.Executor.Runner.{Ended, Envelope}
use autonomous_ai_job_oreche.Lease.{renew}
use autonomous_ai_job_oreche.Lease.Effects.{holds_lease, release-own_lease}
use autonomous_ai_job_oreche.World.{World, Result, ok, err}
use autonomous_ai_job_oreche.Db.{get_job_row, get_run_row}
use autonomous_ai_job_oreche.Executor.{ExecutionResult}
use autonomous_ai_job_oreche.Worker.Completion.{Succeeds}
use autonomous_ai_job_oreche.Worker.{JobRunner, sleep}

module _ ⦃env : Env⦄ where
  open env use {settings}

  -- The loop goes on as long as the lease is renewed; an exception ends the thread.
  abbrev beat_on : (World → World) → Result Bool × World → World
  beat_on rest (ok true, w) = rest w
  beat_on rest (ok false, w) = w
  beat_on rest (err e, w) = w

  -- The loop of `_start_heartbeat`, up to that number of waits that end before the job does.
  unfoldable pub heartbeat : ℕ → String → String → World → World
  unfolding renew
  heartbeat zero job_id worker_id w = w
  heartbeat (suc n) job_id worker_id w =
      beat_on (heartbeat n job_id worker_id)
        (renew job_id worker_id (sleep (settings.lease_heartbeat_seconds * 1_000_000) w))

  -- `runner.run` with the heartbeat beside it, in which no other process does anything.
  unfoldable pub isolated_runner : (ℤ → String) → (Envelope → Ended) → ℕ → String → JobRunner
  unfolding heartbeat
  isolated_runner show_number spawn beats worker_id job allowed w =
      (Runner.run show_number spawn job (some allowed), heartbeat beats job.id worker_id w)

  db_of_if : (w x y : World) (b : Bool) → x.db ≡ w.db → y.db ≡ w.db → (if b then x else y).db ≡ w.db
  db_of_if w x y true h k = h
  db_of_if w x y false h k = k

  db-renew : (job_id worker_id : String) (w : World) → (renew job_id worker_id w).1.db ≡ w.db
  db-renew job_id worker_id w =
      ap (λ (v : World). v.db) (release-own_lease job_id worker_id w).1
      ∙ db_of_if w _ _ (holds_lease job_id worker_id w) refl refl

  db-heartbeat :
      (n : ℕ) (job_id worker_id : String) (w : World) → (heartbeat n job_id worker_id w).db ≡ w.db
  unfolding heartbeat
  db-heartbeat zero job_id worker_id w = refl
  db-heartbeat (suc n) job_id worker_id w =
      by_renewal (renew job_id worker_id (sleep (settings.lease_heartbeat_seconds * 1_000_000) w))
        (λ v. db-heartbeat n job_id worker_id v)
      ∙ db-renew job_id worker_id (sleep (settings.lease_heartbeat_seconds * 1_000_000) w)
    where
      by_renewal :
          (r : Result Bool × World)
          → ((v : World) → (heartbeat n job_id worker_id v).db ≡ v.db)
          → (beat_on (heartbeat n job_id worker_id) r).db ≡ r.1.db
      by_renewal (ok true, v) rest = rest v
      by_renewal (ok false, v) rest = refl
      by_renewal (err e, v) rest = refl

  -- Running a job in a child process changes no table.
  pub db-isolated_runner :
      (show_number : ℤ → String) (spawn : Envelope → Ended) (beats : ℕ) (worker_id : String)
      (job : Job) (allowed : List String) (w : World)
      → (isolated_runner show_number spawn beats worker_id job allowed w).1.db ≡ w.db
  unfolding isolated_runner
  db-isolated_runner show_number spawn beats worker_id job allowed w =
      db-heartbeat beats job.id worker_id w

  -- A run in a child process that succeeds is one for the worker.
  pub isolated_runner-Succeeds :
      (show_number : ℤ → String) (spawn : Envelope → Ended) (beats : ℕ) (worker_id : String)
      (job : Job) (allowed : List String) (result : ExecutionResult)
      → Runner.run show_number spawn job (some allowed) ≡ ok result
      → result.success ≡ true
      → Succeeds (isolated_runner show_number spawn beats worker_id) job allowed
  unfolding Succeeds isolated_runner
  isolated_runner-Succeeds show_number spawn beats worker_id job allowed result returned success w =
      (
        result,
        returned,
        success,
        λ k. ap (get_job_row k) (db-heartbeat beats job.id worker_id w),
        λ k. ap (get_run_row k) (db-heartbeat beats job.id worker_id w),
      )
