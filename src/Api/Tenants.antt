-- ===== src/Api/Tenants.antt =====
-- src/api/routes.py: proofs on the requests that ask for one job.
use autonomous_ai_job_oreche.Prelude.{
  ℕ, ◌≤◌, ◌<◌, String, Bool, true, false, not, Option, some, ◌≡◌, ◌≢◌, refl, sym, ap, ◌∙◌, ◌⊎◌, inl,
  inr, arith, str_eq, eq_iff, truthy, Bool-cases,
}
use autonomous_ai_job_oreche.Services.{Env}
use autonomous_ai_job_oreche.Principal.{Role, viewer, producer, role_rank, Principal}
use autonomous_ai_job_oreche.Db.{JobRow, get_job_row}
use autonomous_ai_job_oreche.World.{World, Result}
use autonomous_ai_job_oreche.Manager.Isolation.{foreign_job}
use autonomous_ai_job_oreche.Auth.Access.{
  Refusal, missing_credentials, invalid_credentials, too_many_requests, role_too_low, failed,
  Decision, granted, refused, extract_api_key, authorize,
}
use autonomous_ai_job_oreche.Auth.Access.Granted.{Credential, authorize-Credential}
use autonomous_ai_job_oreche.Auth.Access.Kept.{authorize-SameTables}
use autonomous_ai_job_oreche.Api.{Response, status_of, refusal_status, Headers, guarded, route}
use autonomous_ai_job_oreche.Api.Jobs
use autonomous_ai_job_oreche.Api.Jobs.{
  changed, or_not_found, logs_response, api_actor, get_jobs_id, post_cancel, post_retry, get_runs,
  get_runs_id, get_logs,
}

-- A request for one job, its runs or its logs.
pub data JobRequest : Type 0 where
  read cancel retry list_runs : JobRequest
  read_run : String → JobRequest
  read_logs : String → Bool → JobRequest

abbrev pub role_needed : JobRequest → Role
role_needed cancel = producer
role_needed retry = producer
role_needed _ = viewer

refusal_status-error : (r : Refusal) → 400 ≤ refusal_status r
refusal_status-error missing_credentials = omega arith
refusal_status-error invalid_credentials = omega arith
refusal_status-error too_many_requests = omega arith
refusal_status-error (role_too_low r) = omega arith
refusal_status-error (failed e) = omega arith

module _ ⦃env : Env⦄ where
  -- The status of the function of the route.
  handler_status : JobRequest → String → Principal → World → ℕ
  unfolding Jobs.get_job Jobs.cancel_job Jobs.retry_job Jobs.list_runs Jobs.get_run
      Jobs.get_run_logs
  handler_status read id p w = status_of (Jobs.get_job id p w).0
  handler_status cancel id p w = status_of (Jobs.cancel_job id p w).0
  handler_status retry id p w = status_of (Jobs.retry_job id p w).0
  handler_status list_runs id p w = status_of (Jobs.list_runs id p w).0
  handler_status (read_run run_id) id p w = status_of (Jobs.get_run id run_id p w).0
  handler_status (read_logs run_id full) id p w = status_of (Jobs.get_run_logs id run_id full p w).0

  foreign-not_found :
      (r : JobRequest) (id : String) (p : Principal) (w : World) (row : JobRow)
      → truthy p.tenant_id ≡ true
      → get_job_row id w.db ≡ some row
      → row.tenant_id ≢ p.tenant_id
      → handler_status r id p w ≡ 404
  unfolding handler_status
  foreign-not_found read id p w row given h ne =
      rw ((foreign_job id p.tenant_id "" "" true w row given h ne).0) refl
  foreign-not_found cancel id p w row given h ne =
      rw ((foreign_job id p.tenant_id (api_actor p) "" true w row given h ne).1) refl
  foreign-not_found retry id p w row given h ne =
      rw ((foreign_job id p.tenant_id (api_actor p) "" true w row given h ne).2) refl
  foreign-not_found list_runs id p w row given h ne =
      rw ((foreign_job id p.tenant_id "" "" true w row given h ne).0) refl
  foreign-not_found (read_run run_id) id p w row given h ne =
      rw ((foreign_job id p.tenant_id "" run_id true w row given h ne).4) refl
  foreign-not_found (read_logs run_id full) id p w row given h ne =
      rw ((foreign_job id p.tenant_id "" run_id full w row given h ne).5) refl

  -- The job is the tenant's, or the principal has no tenant.
  abbrev pub OwnJob : Principal → JobRow → Type 0
  OwnJob p row = (row.tenant_id ≡ p.tenant_id) ⊎ (p.tenant_id ≡ "")

  found-OwnJob :
      (r : JobRequest) (id : String) (p : Principal) (w : World) (row : JobRow)
      → get_job_row id w.db ≡ some row
      → handler_status r id p w < 400
      → OwnJob p row
  found-OwnJob r id p w row h low = elim (Bool-cases (str_eq p.tenant_id "")) [
    | inl empty ↦ inr ((eq_iff p.tenant_id "").0 empty)
    | inr given ↦ elim (Bool-cases (str_eq row.tenant_id p.tenant_id)) [
      | inl own ↦ inl ((eq_iff row.tenant_id p.tenant_id).0 own)
      | inr other ↦
          absurd (omega (arith, low, foreign-not_found r id p w row (ap not given) h (apart other)))
    ]
  ]
    where
      apart : str_eq row.tenant_id p.tenant_id ≡ false → row.tenant_id ≢ p.tenant_id
      apart other same = clash (sym ((eq_iff row.tenant_id p.tenant_id).1 same) ∙ other)
        where
          clash : true ≡ false → ⊥
          clash e = cc

module _ ⦃env : Env⦄ (sha256 : String → String)
    (validate_access_token : String → World → Result (Option Principal)) where
  open env use {settings}

  -- The status with which the route of the request answers.
  unfoldable pub route_status : JobRequest → String → Headers → World → ℕ
  unfolding get_jobs_id post_cancel post_retry get_runs get_runs_id get_logs
  route_status read id headers w =
      status_of (get_jobs_id sha256 validate_access_token id headers w).0
  route_status cancel id headers w =
      status_of (post_cancel sha256 validate_access_token id headers w).0
  route_status retry id headers w =
      status_of (post_retry sha256 validate_access_token id headers w).0
  route_status list_runs id headers w =
      status_of (get_runs sha256 validate_access_token id headers w).0
  route_status (read_run run_id) id headers w =
      status_of (get_runs_id sha256 validate_access_token id run_id headers w).0
  route_status (read_logs run_id full) id headers w =
      status_of (get_logs sha256 validate_access_token id run_id full headers w).0

  -- Access was granted, and the function of the route answered.
  abbrev Answered : (Principal → World → ℕ) → Decision Principal × World → Type 0
  Answered status d = (p : Principal) × (d.0 ≡ granted p) × (status p d.1 < 400)

  guarded-Answered {ℓ} :
      {A : Type ℓ} (handler : Principal → World → Response A × World)
      (d : Decision Principal × World)
      → status_of (guarded sha256 validate_access_token handler d).0 < 400
      → Answered (λ p v. status_of (handler p v).0) d
  guarded-Answered handler (granted p, v) low = (p, refl, low)
  guarded-Answered handler (refused x, v) low = absurd (omega (arith, refusal_status-error x, low))

  abbrev access : JobRequest → Headers → World → Decision Principal × World
  access r headers w =
      authorize sha256 validate_access_token (role_needed r) headers.api_key headers.authorization w

  route_status-Answered :
      (r : JobRequest) (id : String) (headers : Headers) (w : World)
      → route_status r id headers w < 400
      → Answered (handler_status r id) (access r headers w)
  unfolding route_status route handler_status
  route_status-Answered read id headers w low =
      guarded-Answered (Jobs.get_job id) (access read headers w) low
  route_status-Answered cancel id headers w low =
      guarded-Answered (Jobs.cancel_job id) (access cancel headers w) low
  route_status-Answered retry id headers w low =
      guarded-Answered (Jobs.retry_job id) (access retry headers w) low
  route_status-Answered list_runs id headers w low =
      guarded-Answered (Jobs.list_runs id) (access list_runs headers w) low
  route_status-Answered (read_run run_id) id headers w low =
      guarded-Answered (Jobs.get_run id run_id) (access (read_run run_id) headers w) low
  route_status-Answered (read_logs run_id full) id headers w low =
      guarded-Answered (Jobs.get_run_logs id run_id full) (access (read_logs run_id full) headers w)
        low

  -- With authentication enabled, if a request for a job that exists, for its runs or its logs, or to
  -- cancel or to retry it, is answered with a status below 400, then it carries a valid credential of
  -- a principal whose role is enough, and whose tenant is that of the job, or is empty.
  pub route_status-OwnJob :
      (r : JobRequest) (id : String) (headers : Headers) (w : World) (row : JobRow)
      → settings.auth_enabled ≡ true
      → get_job_row id w.db ≡ some row
      → route_status r id headers w < 400
      → (p : Principal) × ((raw : String) × (extract_api_key headers.api_key headers.authorization
            ≡ some raw)
          × Credential sha256 validate_access_token raw w p)
        × (role_rank (role_needed r) ≤ role_rank p.role)
        × OwnJob p row
  unfolding get_job_row
  route_status-OwnJob r id headers w row on there low =
      let (p, access_granted, found) = route_status-Answered r id headers w low in
      let kept =
        authorize-SameTables sha256 validate_access_token (role_needed r) headers.api_key
          headers.authorization w in
      let (raw, carried, credential, enough) =
        authorize-Credential sha256 validate_access_token (role_needed r) headers.api_key
          headers.authorization w p on access_granted in
      (
        p,
        (raw, carried, credential),
        enough,
        found-OwnJob r id p (access r headers w).1 row
            (ap (λ t. env.get_row JobRow (λ x. x.id) id t) kept.jobs ∙ there) found,
      )
