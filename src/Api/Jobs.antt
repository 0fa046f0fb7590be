-- ===== src/Api/Jobs.antt =====
-- src/api/routes.py: the routes on jobs, runs and dead letters.
use autonomous_ai_job_oreche.Prelude.{
  ℕ, String, Bool, ◌&&◌, Option, none, some, List, length, leb, is_some, if◌then◌else◌,
}
use autonomous_ai_job_oreche.Services.{Env}
use autonomous_ai_job_oreche.Job.{Job, JobStatus, JobCreate, DagJobCreate, Run}
use autonomous_ai_job_oreche.Job.Validate.{valid_job_create, valid_dag_submit}
use autonomous_ai_job_oreche.Principal.{viewer, producer, operator, Principal}
use autonomous_ai_job_oreche.Output.{RunLogs}
use autonomous_ai_job_oreche.Output.Texts.{append_text}
use autonomous_ai_job_oreche.Stream.{DlqEntry}
use autonomous_ai_job_oreche.World.{World, Result, ok, err}
use autonomous_ai_job_oreche.Manager
use autonomous_ai_job_oreche.Manager.Create
use autonomous_ai_job_oreche.Manager.Dag
use autonomous_ai_job_oreche.Manager.Lifecycle
use autonomous_ai_job_oreche.Manager.Runs
use autonomous_ai_job_oreche.Manager.Queries
use autonomous_ai_job_oreche.Api.{
  invalid_request, message, raised, Response, answered, http_error, creation_status,
  change_status_code, Headers, route,
}

pub record JobListResponse : Type 0 where
  pub items : List Job
  pub total : ℕ
  pub limit : ℕ
  pub offset : ℕ

pub record RunListResponse : Type 0 where
  pub items : List Run
  pub total : ℕ

pub record DlqListResponse : Type 0 where
  pub items : List DlqEntry
  pub total : ℕ

-- `raise HTTPException(status_code=404, detail=...)` where there is nothing.
abbrev pub or_not_found {ℓ} : {A : Type ℓ} → String → Option A → Response A
or_not_found detail none = http_error 404 (message detail)
or_not_found detail (some a) = answered 200 a

-- `Query(ge=1, le=1000)`
abbrev pub valid_limit : ℕ → Bool
valid_limit limit = leb 1 limit && leb limit 1000

abbrev pub api_actor : Principal → String
api_actor p = append_text "api:" p.name

module _ ⦃env : Env⦄ where
  open env use {settings, dumps_length}

  -- A parameter or a body that FastAPI refuses does not come to the function.
  abbrev pub if_valid {ℓ} : {A : Type ℓ} → Bool → World → Response A × World → Response A × World
  if_valid valid w response = if valid then response else (http_error 422 invalid_request, w)

  abbrev pub created {ℓ} : {A : Type ℓ} → Result A × World → Response A × World
  created (ok a, w) = (answered 201 a, w)
  created (err e, w) = (http_error (creation_status e) (raised e), w)

  abbrev pub changed : Result (Option Job) × World → Response Job × World
  changed (ok job, w) = (or_not_found "Job not found" job, w)
  changed (err e, w) = (http_error (change_status_code e) (raised e), w)

  unfoldable pub post_job : JobCreate → Principal → World → Response Job × World
  post_job c p w =
      if_valid (valid_job_create settings dumps_length c) w
        (created (Create.create_job c p.tenant_id w))

  unfoldable pub submit_dag : List DagJobCreate → Principal → World → Response (List Job) × World
  submit_dag nodes p w =
      if_valid (valid_dag_submit settings dumps_length nodes) w
        (created (Dag.create_dag nodes p.tenant_id w))

  abbrev page_response : ℕ → ℕ → Result (List Job × ℕ) → Response JobListResponse
  page_response limit offset (ok (items, total)) =
      answered 200 (record { items = items; total = total; limit = limit; offset = offset })
  page_response limit offset (err e) = http_error 500 (raised e)

  unfoldable pub list_jobs :
      Option JobStatus → ℕ → ℕ → Principal → World → Response JobListResponse × World
  list_jobs status limit offset p w = if_valid (valid_limit limit) w (
    page_response limit offset (Queries.list_jobs status limit offset (some p.tenant_id) w.db),
    w,
  )

  unfoldable pub get_job : String → Principal → World → Response Job × World
  get_job job_id p w =
      (or_not_found "Job not found" (Manager.get_job w.db job_id (some p.tenant_id)), w)

  unfoldable pub cancel_job : String → Principal → World → Response Job × World
  cancel_job job_id p w = changed (Lifecycle.cancel_job job_id p.tenant_id (api_actor p) w)

  unfoldable pub retry_job : String → Principal → World → Response Job × World
  retry_job job_id p w = changed (Lifecycle.retry_job job_id p.tenant_id (api_actor p) w)

  unfoldable pub list_runs : String → Principal → World → Response RunListResponse × World
  list_runs job_id p w =
      let (items, total) = Runs.get_runs w.db job_id p.tenant_id in
      if is_some (Manager.get_job w.db job_id (some p.tenant_id))
      then (answered 200 (record { items = items; total = total }), w)
      else (http_error 404 (message "Job not found"), w)

  unfoldable pub get_run : String → String → Principal → World → Response Run × World
  get_run job_id run_id p w =
      (or_not_found "Run not found" (Runs.get_run w.db job_id run_id p.tenant_id), w)

  abbrev pub logs_response :
      Result (Option (String × String × RunLogs)) → Response (String × String × RunLogs)
  logs_response (ok logs) = or_not_found "Run not found" logs
  logs_response (err e) = http_error 500 (raised e)

  unfoldable pub get_run_logs :
      String → String → Bool → Principal → World → Response (String × String × RunLogs) × World
  get_run_logs job_id run_id full p w =
      (logs_response (Runs.get_run_logs job_id run_id p.tenant_id full w), w)

  abbrev dead_letters : Result (List DlqEntry) × World → Response DlqListResponse × World
  dead_letters (ok items, w) = (answered 200 (record { items = items; total = length items }), w)
  dead_letters (err e, w) = (http_error 500 (raised e), w)

  unfoldable pub list_dlq : ℕ → Principal → World → Response DlqListResponse × World
  list_dlq limit p w =
      if_valid (valid_limit limit) w (dead_letters (Queries.list_dlq limit (some p.tenant_id) w))

module _ ⦃env : Env⦄ (sha256 : String → String)
    (validate_access_token : String → World → Result (Option Principal)) where
  -- The routes by their paths, with the roles that they require.
  unfoldable pub post_jobs : JobCreate → Headers → World → Response Job × World
  post_jobs c = route sha256 validate_access_token producer (post_job c)

  unfoldable pub post_jobs_dag : List DagJobCreate → Headers → World → Response (List Job) × World
  post_jobs_dag nodes = route sha256 validate_access_token producer (submit_dag nodes)

  unfoldable pub get_jobs :
      Option JobStatus → ℕ → ℕ → Headers → World → Response JobListResponse × World
  get_jobs status limit offset =
      route sha256 validate_access_token viewer (list_jobs status limit offset)

  unfoldable pub get_jobs_id : String → Headers → World → Response Job × World
  get_jobs_id job_id = route sha256 validate_access_token viewer (get_job job_id)

  unfoldable pub post_cancel : String → Headers → World → Response Job × World
  post_cancel job_id = route sha256 validate_access_token producer (cancel_job job_id)

  unfoldable pub post_retry : String → Headers → World → Response Job × World
  post_retry job_id = route sha256 validate_access_token producer (retry_job job_id)

  unfoldable pub get_runs : String → Headers → World → Response RunListResponse × World
  get_runs job_id = route sha256 validate_access_token viewer (list_runs job_id)

  unfoldable pub get_runs_id : String → String → Headers → World → Response Run × World
  get_runs_id job_id run_id = route sha256 validate_access_token viewer (get_run job_id run_id)

  unfoldable pub get_logs :
      String → String → Bool → Headers → World → Response (String × String × RunLogs) × World
  get_logs job_id run_id full =
      route sha256 validate_access_token viewer (get_run_logs job_id run_id full)

  unfoldable pub get_dlq : ℕ → Headers → World → Response DlqListResponse × World
  get_dlq limit = route sha256 validate_access_token operator (list_dlq limit)
