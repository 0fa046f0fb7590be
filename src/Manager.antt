-- ===== src/Manager.antt =====
-- src/orchestrator/job_manager.py: what the operations of the JobManager share. The operations are in
-- the modules below. A session starts from the committed tables; what it changes is kept when it
-- commits and dropped when it raises or ends.
pub mod Audits
pub mod Visible
pub mod Models
pub mod Lifecycle
pub mod Runs
pub mod Failure
pub mod Create
pub mod Dag
pub mod Queries
pub mod Isolation
use autonomous_ai_job_oreche.Prelude.{
  ℕ, ◌+◌, ◌*◌, ◌^◌, min, String, Bool, true, false, ◌&&◌, not, Option, none, some, List, [], ◌∷◌,
  map, str_eq, truthy, given, or_else, all, filter, if◌then◌else◌,
}
use autonomous_ai_job_oreche.Services.{Env}
use autonomous_ai_job_oreche.Job.{
  Job, Run, JobStatus, pending, running, completed, failed, retrying, cancelled, status_eq,
  ResourceReq, Json, Fields, Items, null, text, array, no_items, item, no_fields, field, get_field,
  truthy_json,
}
use autonomous_ai_job_oreche.Db.{
  TenantRow, JobRow, RunRow, DependencyRow, AuditLogRow, Db, get_tenant, get_job_row,
  dependency_rows, add_tenant, add_audit_row,
}
use autonomous_ai_job_oreche.Output.Texts.{append_text}
use autonomous_ai_job_oreche.Stream
use autonomous_ai_job_oreche.Job.Validate.{valid_job_base}
use autonomous_ai_job_oreche.World.{
  World, Result, ok, err, integrity_error, validation_error, or_raise, ◌>>=◌,
}

-- `JobStatus.value`
abbrev pub status_text : JobStatus → String
status_text pending = "PENDING"
status_text running = "RUNNING"
status_text completed = "COMPLETED"
status_text failed = "FAILED"
status_text retrying = "RETRYING"
status_text cancelled = "CANCELLED"

abbrev pub text_or_null : Option String → Json
text_or_null none = null
text_or_null (some s) = text s

abbrev pub text_items : List String → Items
text_items [] = no_items
text_items (s ∷ ss) = item (text s) (text_items ss)

abbrev pub job_target : String → String
job_target id = append_text "job:" id

abbrev pub run_target : String → String
run_target id = append_text "run:" id

-- `(job.payload or {}).get("type") or "sleep"`
unfoldable pub executor_type : Fields → Json
unfolding get_field
executor_type payload = elim (get_field "type" payload) [
  | none ↦ text "sleep"
  | some v ↦ if truthy_json v then v else text "sleep"
]

-- `resource_req.model_dump(exclude_none=True)` is kept; one with no field is read back as none.
unfoldable pub load_resource_req : Option ResourceReq → Option ResourceReq
load_resource_req none = none
load_resource_req (some r) = elim r.cpu_seconds [
  | some _ ↦ some r
  | none ↦ elim r.memory_mb [
    | some _ ↦ some r
    | none ↦ elim r.timeout_seconds [ some _ ↦ some r | none ↦ none ]
  ]
]

unfoldable pub run_to_model : RunRow → Run
run_to_model r = record {
  id = r.id;
  job_id = r.job_id;
  attempt = r.attempt;
  worker_id = r.worker_id;
  status = r.status;
  started_at = r.started_at;
  finished_at = r.finished_at;
  exit_code = r.exit_code;
  error = r.error;
  stdout = r.stdout;
  stderr = r.stderr;
  duration = r.metrics;
  log_ref = r.log_ref;
}

module _ ⦃env : Env⦄ where
  open env use {settings, dumps_length, uuid}

  unfoldable pub ensure_default_tenant : String → Db → Result Db
  ensure_default_tenant tenant_id db =
      let tid = or_else (some tenant_id) settings.default_tenant_id in
      elim (get_tenant tid db) [
        | some tenant ↦ ok db
        | none ↦ or_raise integrity_error (
            add_tenant
              (record {
                id = tid;
                name = settings.default_tenant_name;
                rate_limit = none;
                max_jobs = none;
                executor_allowlist = none;
              })
              db)
      ]

  -- `db.add(AuditLogRow(...))`, with the id drawn and the time. The foreign key asks for the tenant:
  -- it is that of a stored row or a known one, and `cancel_job` and `retry_job`, for which it may be
  -- missing, raise `integrity_error` themselves.
  unfoldable pub audit : String → String → ℕ → String → String → Fields → String → Db → Db
  audit id tenant_id now action target payload actor db =
      add_audit_row
        (record {
          id = id;
          tenant_id = tenant_id;
          actor = actor;
          action = action;
          target = target;
          payload = payload;
          ts = now;
        })
        db

  unfoldable pub dependencies_for_job : String → Db → List String
  dependencies_for_job job_id db =
      map (λ (d : DependencyRow). d.depends_on_job_id)
        (filter (λ (d : DependencyRow). str_eq d.job_id job_id) (dependency_rows db))

  -- The arguments of `Job(...)`, before its validators run.
  unfoldable pub job_of_row : Db → JobRow → Job
  unfolding dependencies_for_job load_resource_req
  job_of_row db row = record {
    base = record {
      name = row.name;
      description = row.description;
      priority = row.priority;
      deadline = row.deadline;
      estimated_duration = row.est_duration;
      dependencies = dependencies_for_job row.id db;
      payload = row.payload;
      resource_req = load_resource_req row.resource_req;
    };
    id = row.id;
    status = row.status;
    created_at = row.created_at;
    started_at = row.started_at;
    completed_at = row.completed_at;
    retry_count = row.retry_count;
    worker_id = row.worker_id;
    idempotency_key = row.idempotency_key;
    tenant_id = some row.tenant_id;
  }

  -- The validators that `Job` inherits accept the row and its dependencies. A row of `create_dag` may
  -- have more dependencies or a longer payload than they allow.
  unfoldable pub valid_row : Db → JobRow → Bool
  unfolding job_of_row valid_job_base
  valid_row db row = valid_job_base settings dumps_length (job_of_row db row).base

  unfoldable pub to_model : Db → JobRow → Result Job
  unfolding valid_row
  to_model db row = if valid_row db row then ok (job_of_row db row) else err validation_error

  -- `[self._to_model(db, row) for row in rows]`
  unfoldable pub to_models : Db → List JobRow → Result (List Job)
  unfolding to_model
  to_models db [] = ok []
  to_models db (row ∷ rows) = do job ← to_model db row; jobs ← to_models db rows; ok (job ∷ jobs)

  -- The delay in microseconds; the exponent is never negative.
  unfoldable pub retry_backoff : ℕ → ℕ
  retry_backoff retry_count =
      min (settings.retry_backoff_base * 2 ^ retry_count) settings.retry_backoff_max

  abbrev pub visible_to : Option String → JobRow → Option JobRow
  visible_to none row = some row
  visible_to (some tid) row =
      if truthy tid && not (str_eq row.tenant_id tid) then none else some row

  unfoldable pub find_job_row : Db → String → Option String → Option JobRow
  find_job_row db job_id tenant_id = elim (get_job_row job_id db) [
    | none ↦ none
    | some row ↦ visible_to tenant_id row
  ]

  abbrev pub model_of : Db → Option JobRow → Option Job
  model_of db none = none
  model_of db (some row) = some (job_of_row db row)

  -- For a row that the validators accept, as each has that a worker gets: what enqueues a job has
  -- read it with `to_model`.
  unfoldable pub get_job : Db → String → Option String → Option Job
  get_job db job_id tenant_id = model_of db (find_job_row db job_id tenant_id)

  abbrev pub is_completed : Option Job → Bool
  is_completed none = false
  is_completed (some j) = status_eq j.status completed

  -- `tenant_id or job.tenant_id or settings.DEFAULT_TENANT_ID`
  abbrev pub dependency_tenant : Job → Option String → String
  dependency_tenant job tenant_id =
      or_else tenant_id (or_else job.tenant_id settings.default_tenant_id)

  -- What it returns, where it does not raise.
  unfoldable pub are_dependencies_met : Db → Job → Option String → Bool
  are_dependencies_met db job tenant_id =
      all (λ parent. is_completed (get_job db parent (some (dependency_tenant job tenant_id))))
        job.dependencies

  -- Whether the loop over the parents comes to one whose row `Job` refuses: then reading it raises.
  unfoldable pub parents_refused : Db → String → List String → Bool
  unfolding valid_row find_job_row
  parents_refused db tid [] = false
  parents_refused db tid (parent ∷ parents) =
      let rest = parents_refused db tid parents in
      elim (find_job_row db parent (some tid)) [
        | none ↦ false
        | some row ↦ if valid_row db row then status_eq row.status completed && rest else true
      ]

  -- Whether `are_dependencies_met` raises.
  unfoldable pub dependencies_refused : Db → Job → Option String → Bool
  unfolding parents_refused
  dependencies_refused db job tenant_id =
      parents_refused db (dependency_tenant job tenant_id) job.dependencies

  unfoldable pub enqueue_job : String → World → Result String × World
  enqueue_job job_id w = Stream.enqueue job_id w

  unfoldable pub audit_manual : String → String → String → String → World → World
  unfolding audit
  audit_manual job_id action actor tenant_id w = record w {
    db = audit (uuid w.drawn) tenant_id w.now action (job_target job_id) no_fields actor w.db;
    drawn = w.drawn + 1;
  }
