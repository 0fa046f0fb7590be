-- ===== src/Manager/Create.antt =====
-- src/orchestrator/job_manager.py: the creation of one job, with or without an idempotency key.
pub mod Steps
pub mod Outcome
pub mod Idempotent
pub mod Quota
use autonomous_ai_job_oreche.Prelude.{
  ◌+◌, String, Bool, ◌&&◌, Option, none, some, List, [], ◌∷◌, find, given, if◌then◌else◌,
}
use autonomous_ai_job_oreche.Services.{Env}
use autonomous_ai_job_oreche.Job.{JobCreate, Job, new_job, Fields, text, array, field, no_fields}
use autonomous_ai_job_oreche.Db.{
  JobRow, Db, job_rows, add_job, add_dependency, same_idempotency_key,
}
use autonomous_ai_job_oreche.Policy.{validate_executor_type, enforce_job_quota}
use autonomous_ai_job_oreche.World.{
  World, Result, ok, err, integrity_error, validation_error, or_raise, ◌>>=◌, ◌>>◌,
}
use autonomous_ai_job_oreche.Manager.{
  executor_type, text_or_null, text_items, job_target, ensure_default_tenant, audit, job_of_row,
  are_dependencies_met, dependencies_refused, enqueue_job,
}

-- The row of a new job.
unfoldable pub job_row : String → Job → JobRow
job_row tenant_id job = record {
  id = job.id;
  tenant_id = tenant_id;
  name = job.name;
  description = job.description;
  priority = job.priority;
  deadline = job.deadline;
  est_duration = job.estimated_duration;
  status = job.status;
  idempotency_key = job.idempotency_key;
  payload = job.payload;
  resource_req = job.resource_req;
  retry_count = job.retry_count;
  worker_id = job.worker_id;
  started_at = job.started_at;
  completed_at = job.completed_at;
  created_at = job.created_at;
}

-- What the transaction of `create_job` ends in: a job that is there, or the tables with a new one.
pub data Staged ⦃env : Env⦄ : Type 0 where
  existing : Db → JobRow → Staged
  inserted : Db → JobRow → Staged

module _ ⦃env : Env⦄ where
  open env use {settings, uuid}

  -- The SELECT by tenant and idempotency key, made only for a key that is not empty.
  unfoldable pub find_idempotent : String → Option String → Db → Option JobRow
  find_idempotent tenant_id key db =
      if given key then find (same_idempotency_key tenant_id key) (job_rows db) else none

  unfoldable pub add_dependencies : String → List String → Db → Result Db
  add_dependencies job_id [] db = ok db
  add_dependencies job_id (parent ∷ parents) db = do
    db1 ←
        or_raise integrity_error
          (add_dependency (record { job_id = job_id; depends_on_job_id = parent }) db)
    add_dependencies job_id parents db1

  abbrev created_payload : Job → Fields
  created_payload job = field "name" (text job.name) (
      field "dependencies" (array (text_items job.dependencies))
        (field "idempotency_key" (text_or_null job.idempotency_key) no_fields))

  unfoldable pub insert_audit : World → String → Job → Db → Db
  insert_audit w tenant_id job db =
      audit (uuid (w.drawn + 1)) tenant_id w.now "job.created" (job_target job.id)
        (created_payload job) "system" db

  -- The inserts of the transaction, after the checks.
  unfoldable pub insert_job : World → String → Job → Db → Result Db
  insert_job w tenant_id job db = do
    db1 ← or_raise integrity_error (add_job (job_row tenant_id job) db)
    db2 ← add_dependencies job.id job.dependencies db1
    ok (insert_audit w tenant_id job db2)

  -- The executor is checked in a session of its own, against what is committed; the quota in this one.
  unfoldable pub check_and_insert : World → String → Job → Db → Result Staged
  check_and_insert w tenant_id job db = do
    validate_executor_type w.db tenant_id (executor_type job.payload)
    enforce_job_quota db tenant_id 1
    db1 ← insert_job w tenant_id job db
    ok (inserted db1 (job_row tenant_id job))

  -- The job that the key names, or a new one.
  abbrev pub existing_or_new : World → String → Job → Db → Option JobRow → Result Staged
  existing_or_new w tenant_id job db (some row) = ok (existing db row)
  existing_or_new w tenant_id job db none = check_and_insert w tenant_id job db

  unfoldable pub stage_job : World → String → Job → Result Staged
  stage_job w tenant_id job = do
    db ← ensure_default_tenant tenant_id w.db
    existing_or_new w tenant_id job db (find_idempotent tenant_id job.idempotency_key db)

  abbrev pub returned : Job → Result String × World → Result Job × World
  returned job (ok message_id, w) = (ok job, w)
  returned job (err e, w) = (err e, w)

  -- The request has passed the validators, so `Job` accepts its row. After the commit: the job is enqueued if the request says so and its parents are completed.
  unfoldable pub after_commit : Bool → String → Job → World → Result Job × World
  after_commit enqueue tenant_id created w =
      if enqueue && dependencies_refused w.db created (some tenant_id)
      then (err validation_error, w)
      else if enqueue && are_dependencies_met w.db created (some tenant_id)
      then returned created (enqueue_job created.id w)
      else (ok created, w)

  -- After the rollback of an IntegrityError the key is looked up once more.
  abbrev pub or_existing : World → Option JobRow → Result Job × World
  or_existing w none = (err integrity_error, w)
  or_existing w (some row) = (ok (job_of_row w.db row), w)

  abbrev pub finish_create : JobCreate → String → World → Result Staged → Result Job × World
  finish_create c tenant_id w (ok (existing db row)) = (ok (job_of_row db row), w)
  finish_create c tenant_id w (ok (inserted db row)) =
      after_commit c.enqueue tenant_id (job_of_row db row)
        (record w { db = db; drawn = w.drawn + 2 })
  finish_create c tenant_id w (err integrity_error) =
      or_existing w (find_idempotent tenant_id c.idempotency_key w.db)
  finish_create c tenant_id w (err e) = (err e, w)

  unfoldable pub create_job : JobCreate → String → World → Result Job × World
  create_job c tenant_id w =
      finish_create c tenant_id w (stage_job w tenant_id (new_job (uuid w.drawn) w.now c))
