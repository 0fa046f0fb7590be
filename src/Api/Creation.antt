-- ===== src/Api/Creation.antt =====
-- src/api/routes.py: lemmas on requests that create jobs and are answered with an error.
use autonomous_ai_job_oreche.Prelude.{
  ℕ, ◌+◌, ◌≤◌, ◌<◌, String, Bool, true, false, ◌&&◌, Option, none, some, List, ◌≡◌, refl, ap, ◌⊎◌,
  inl, inr, arith, length, if◌then◌else◌,
}
use autonomous_ai_job_oreche.Services.{Env}
use autonomous_ai_job_oreche.Job.{Job, JobCreate, DagJobCreate, new_job}
use autonomous_ai_job_oreche.Db.{JobRow, Db}
use autonomous_ai_job_oreche.Stream.Effects.{enqueue-redis_error}
use autonomous_ai_job_oreche.World.{
  World, Result, ok, err, Error, integrity_error, validation_error, redis_error,
}
use autonomous_ai_job_oreche.Manager.Models.{to_models-err}
use autonomous_ai_job_oreche.Manager.{
  job_of_row, to_models, are_dependencies_met, dependencies_refused, enqueue_job,
}
use autonomous_ai_job_oreche.Manager.Create.{
  Staged, existing, inserted, find_idempotent, returned, after_commit, or_existing, finish_create,
  stage_job, create_job,
}
use autonomous_ai_job_oreche.Manager.Dag.{finish_dag, create_dag}
use autonomous_ai_job_oreche.Api.{Response, answered, http_error, raised, creation_status}
use autonomous_ai_job_oreche.Api.Jobs.{if_valid, created}

module _ ⦃env : Env⦄ where
  open env use {settings}

  -- Each answer is below 400, and an error that is not one of the server leaves the state as it was,
  -- unless `Job` has refused a row.
  abbrev pub CleanError {ℓ} : {A : Type ℓ} → World → Response A × World → Type 0
  CleanError w (answered code a, v) = code < 400
  CleanError w (http_error code detail, v) =
      (500 ≤ code) ⊎ ((v ≡ w) ⊎ (detail ≡ raised validation_error))

  pub if_valid-CleanError {ℓ} :
      {A : Type ℓ} (b : Bool) (w : World) (r : Response A × World)
      → CleanError w r
      → CleanError w (if_valid b w r)
  if_valid-CleanError true w r h = h
  if_valid-CleanError false w r h = inr (inl refl)

  -- The same of what a creation raises.
  abbrev pub CleanCreation {ℓ} : {A : Type ℓ} → World → Result A × World → Type 0
  CleanCreation w (ok a, v) = Unit {0}
  CleanCreation w (err e, v) = (500 ≤ creation_status e) ⊎ ((v ≡ w) ⊎ (e ≡ validation_error))

  pub created-CleanError {ℓ} :
      {A : Type ℓ} (w : World) (r : Result A × World) → CleanCreation w r → CleanError w (created r)
  created-CleanError w (ok a, v) h = omega arith
  created-CleanError w (err e, v) (inl server) = inl server
  created-CleanError w (err e, v) (inr (inl same)) = inr (inl same)
  created-CleanError w (err e, v) (inr (inr refused)) = inr (inr (ap raised refused))

  redis_status : (e : Error) (s : String) → e ≡ redis_error s → 500 ≤ creation_status e
  redis_status e s h = rw h (omega arith)

  returned-Clean :
      (w : World) (job : Job) (r : Result String × World)
      → ((e : Error) → r.0 ≡ err e → (s : String) × (e ≡ redis_error s))
      → CleanCreation w (returned job r)
  returned-Clean w job (ok m, v) h = tt
  returned-Clean w job (err e, v) h = let (s, same) = h e refl in inl (redis_status e s same)

  pub enqueue_job-redis_error :
      (id : String) (w : World) (e : Error)
      → (enqueue_job id w).0 ≡ err e
      → (s : String) × (e ≡ redis_error s)
  unfolding enqueue_job
  enqueue_job-redis_error id w e h = enqueue-redis_error id w e h

  if-Clean {ℓ} :
      {A : Type ℓ} (w : World) (b : Bool) (x y : Result A × World)
      → CleanCreation w x
      → CleanCreation w y
      → CleanCreation w (if b then x else y)
  if-Clean w true x y h k = h
  if-Clean w false x y h k = k

  after_commit-Clean :
      (w v : World) (enqueue : Bool) (tid : String) (job : Job)
      → CleanCreation w (after_commit enqueue tid job v)
  unfolding after_commit
  after_commit-Clean w v enqueue tid job =
      if-Clean w (enqueue && dependencies_refused v.db job (some tid)) (err validation_error, v) _
        (inr (inr refl))
        (if-Clean w (enqueue && are_dependencies_met v.db job (some tid))
          (returned job (enqueue_job job.id v)) (ok job, v)
          (returned-Clean w job (enqueue_job job.id v) (enqueue_job-redis_error job.id v)) tt)

  or_existing-Clean : (w : World) (o : Option JobRow) → CleanCreation w (or_existing w o)
  or_existing-Clean w none = inr (inl refl)
  or_existing-Clean w (some row) = tt

  finish_create-Clean :
      (c : JobCreate) (tid : String) (w : World) (r : Result Staged)
      → CleanCreation w (finish_create c tid w r)
  finish_create-Clean c tid w (ok (existing db row)) = tt
  finish_create-Clean c tid w (ok (inserted db row)) =
      after_commit-Clean w (record w { db = db; drawn = w.drawn + 2 }) c.enqueue tid
        (job_of_row db row)
  finish_create-Clean c tid w (err integrity_error) =
      or_existing-Clean w (find_idempotent tid c.idempotency_key w.db)
  finish_create-Clean c tid w (err e) = inr (inl refl)

  pub create_job-Clean :
      (c : JobCreate) (tid : String) (w : World) → CleanCreation w (create_job c tid w)
  unfolding create_job
  create_job-Clean c tid w =
      finish_create-Clean c tid w (stage_job w tid (new_job (env.uuid w.drawn) w.now c))

  finish_dag-Clean :
      (w : World) (drawn : ℕ) (r : Result (Db × List JobRow))
      → CleanCreation w (finish_dag w drawn r)
  finish_dag-Clean w drawn (ok (db, rows)) =
      by_models (to_models db rows) (λ e h. to_models-err db rows e h)
    where
      by_models :
          (r : Result (List Job))
          → ((e : Error) → r ≡ err e → e ≡ validation_error)
          → CleanCreation w (r, record w { db = db; drawn = drawn })
      by_models (ok a) h = tt
      by_models (err e) h = inr (inr (h e refl))
  finish_dag-Clean w drawn (err e) = inr (inl refl)

  pub create_dag-Clean :
      (nodes : List DagJobCreate) (tid : String) (w : World)
      → CleanCreation w (create_dag nodes tid w)
  unfolding create_dag
  create_dag-Clean nodes tid w = finish_dag-Clean w (w.drawn + length nodes + 1) _
