-- ===== src/Manager/Create/Outcome.antt =====
-- src/orchestrator/job_manager.py: lemmas on the ways in which `create_job` ends.
use autonomous_ai_job_oreche.Prelude.{
  String, Bool, true, ◌&&◌, Option, none, some, ◌≡◌, ◌≢◌, refl, sym, ap, ◌∙◌, inl, inr, Bool-cases,
  truthy,
}
use autonomous_ai_job_oreche.Services.{Env}
use autonomous_ai_job_oreche.Job.{JobCreate, Job, new_job}
use autonomous_ai_job_oreche.Db.{TenantRow, JobRow, Db, get_tenant}
use autonomous_ai_job_oreche.Policy.{validate_executor_type, enforce_job_quota}
use autonomous_ai_job_oreche.World.{World, Result, ok, err, integrity_error, >>=-eq-ok, ◌>>=◌}
use autonomous_ai_job_oreche.Manager.{
  executor_type, job_of_row, are_dependencies_met, dependencies_refused, enqueue_job,
}
use autonomous_ai_job_oreche.Manager.Lifecycle.Retry.{enqueue_job-after_command}
use autonomous_ai_job_oreche.Manager.Create.{
  Staged, existing, inserted, job_row, find_idempotent, insert_job, check_and_insert, stage_job,
  existing_or_new, after_commit, returned, or_existing, finish_create, create_job,
}
use autonomous_ai_job_oreche.Manager.Create.Steps.{ensure_default_tenant-known}

module _ ⦃env : Env⦄ where
  returned-world : (job : Job) (r : Result String × World) → (returned job r).1 ≡ r.1
  returned-world job (ok m, w) = refl
  returned-world job (err e, w) = refl

  pub db-after_commit :
      (enqueue : Bool) (tid : String) (job : Job) (w : World)
      → (after_commit enqueue tid job w).1.db ≡ w.db
  unfolding after_commit
  db-after_commit enqueue tid job w =
      elim (Bool-cases (enqueue && dependencies_refused w.db job (some tid))) [
        | inl refused ↦ rw (refused, after_commit)
        | inr read ↦ elim (Bool-cases (enqueue && are_dependencies_met w.db job (some tid))) [
          | inl t ↦
              rw (read, t, after_commit)
                (ap (λ (x : World). x.db)
                  (returned-world job (enqueue_job job.id w) ∙ enqueue_job-after_command job.id w))
          | inr f ↦ rw (read, f, after_commit)
        ]
      ]

  or_existing-world : (w : World) (o : Option JobRow) → (or_existing w o).1 ≡ w
  or_existing-world w none = refl
  or_existing-world w (some row) = refl

  -- The committed tables after a creation: those of the transaction, or those from before.
  unfoldable pub committed : World → Result Staged → Db
  committed w (ok (inserted db row)) = db
  committed w _ = w.db

  finish_create-db :
      (c : JobCreate) (tid : String) (w : World) (r : Result Staged)
      → (finish_create c tid w r).1.db ≡ committed w r
  unfolding committed
  finish_create-db c tid w (ok (existing db row)) = refl
  finish_create-db c tid w (ok (inserted db row)) =
      db-after_commit c.enqueue tid (job_of_row db row) _
  finish_create-db c tid w (err integrity_error) =
      ap (λ (x : World). x.db) (or_existing-world w (find_idempotent tid c.idempotency_key w.db))
  finish_create-db c tid w (err e) = refl

  pub db-create_job :
      (c : JobCreate) (tid : String) (w : World)
      → (create_job c tid w).1.db
        ≡ committed w (stage_job w tid (new_job (env.uuid w.drawn) w.now c))
  unfolding create_job
  db-create_job c tid w =
      finish_create-db c tid w (stage_job w tid (new_job (env.uuid w.drawn) w.now c))

  -- The checks that a transaction of a known tenant passed before it added a row.
  pub record Admitted (w : World) (tid : String) (job : Job) (db1 : Db) (row : JobRow)
      : Type 0 where
    pub new_key : find_idempotent tid job.idempotency_key w.db ≡ none
    pub executor : validate_executor_type w.db tid (executor_type job.payload) ≡ ok tt
    pub quota : enforce_job_quota w.db tid 1 ≡ ok tt
    pub added : insert_job w tid job w.db ≡ ok db1
    pub the_row : row ≡ job_row tid job

  check_and_insert-Admitted :
      (w : World) (tid : String) (job : Job) (db1 : Db) (row : JobRow)
      → find_idempotent tid job.idempotency_key w.db ≡ none
      → check_and_insert w tid job w.db ≡ ok (inserted db1 row)
      → Admitted w tid job db1 row
  unfolding check_and_insert
  check_and_insert-Admitted w tid job db1 row fresh h =
      let (u, e, h1) =
        >>=-eq-ok (validate_executor_type w.db tid (executor_type job.payload)) _ _ h in
      let (v, q, h2) = >>=-eq-ok (enforce_job_quota w.db tid 1) _ _ h1 in
      let (db2, i, h3) = >>=-eq-ok (insert_job w tid job w.db) _ _ h2 in
      record { new_key = fresh; executor = e; quota = q; added = cc; the_row = cc }

  pub stage_job-known :
      (w : World) (tid : String) (t : TenantRow) (job : Job)
      → truthy tid ≡ true
      → get_tenant tid w.db ≡ some t
      → stage_job w tid job
        ≡ existing_or_new w tid job w.db (find_idempotent tid job.idempotency_key w.db)
  unfolding stage_job
  stage_job-known w tid t job given known =
      ap
        (λ r. r >>= λ db. existing_or_new w tid job db (find_idempotent tid job.idempotency_key db))
        (ensure_default_tenant-known tid t w.db given known)

  existing_or_new-Admitted :
      (w : World) (tid : String) (job : Job) (db1 : Db) (row : JobRow) (found : Option JobRow)
      → find_idempotent tid job.idempotency_key w.db ≡ found
      → existing_or_new w tid job w.db found ≡ ok (inserted db1 row)
      → Admitted w tid job db1 row
  existing_or_new-Admitted w tid job db1 row none fresh h =
      check_and_insert-Admitted w tid job db1 row fresh h
  existing_or_new-Admitted w tid job db1 row (some old) found h = cc

  pub stage_job-Admitted :
      (w : World) (tid : String) (t : TenantRow) (job : Job) (db1 : Db) (row : JobRow)
      → truthy tid ≡ true
      → get_tenant tid w.db ≡ some t
      → stage_job w tid job ≡ ok (inserted db1 row)
      → Admitted w tid job db1 row
  stage_job-Admitted w tid t job db1 row given known h =
      existing_or_new-Admitted w tid job db1 row _ refl
        (sym (stage_job-known w tid t job given known) ∙ h)

  -- The inserts never end in a job that was there.
  pub check_and_insert-not-existing :
      (w : World) (tid : String) (job : Job) (db db1 : Db) (row : JobRow)
      → check_and_insert w tid job db ≢ ok (existing db1 row)
  unfolding check_and_insert
  check_and_insert-not-existing w tid job db db1 row h =
      let (u, e, h1) =
        >>=-eq-ok (validate_executor_type w.db tid (executor_type job.payload)) _ _ h in
      let (v, q, h2) = >>=-eq-ok (enforce_job_quota db tid 1) _ _ h1 in
      let (db2, i, h3) = >>=-eq-ok (insert_job w tid job db) _ _ h2 in cc

  -- A job that is returned after the commit is the job that was created.
  pub job-after_commit :
      (enqueue : Bool) (tid : String) (job j : Job) (w : World)
      → (after_commit enqueue tid job w).0 ≡ ok j
      → j ≡ job
  unfolding after_commit
  job-after_commit enqueue tid job j w h =
      elim (Bool-cases (enqueue && dependencies_refused w.db job (some tid))) [
        | inl refused ↦ let e = rw (refused, after_commit) at h in cc
        | inr read ↦ elim (Bool-cases (enqueue && are_dependencies_met w.db job (some tid))) [
          | inl t ↦ returned-job job j (enqueue_job job.id w) (rw (read, t, after_commit) at h)
          | inr f ↦ let e = rw (read, f, after_commit) at h in cc
        ]
      ]
    where
      returned-job : (job j : Job) (r : Result String × World) → (returned job r).0 ≡ ok j → j ≡ job
      returned-job job j (ok m, w) e = cc
      returned-job job j (err x, w) e = cc
