-- ===== src/Api/Errors.antt =====
-- src/api/routes.py: proofs on the requests that are answered with an error of the client.
use autonomous_ai_job_oreche.Prelude.{
  ◌≤◌, ◌<◌, String, Option, List, ◌≡◌, refl, ◌⊎◌, inl, inr, arith,
}
use autonomous_ai_job_oreche.Services.{Env}
use autonomous_ai_job_oreche.Job.{JobCreate, DagJobCreate}
use autonomous_ai_job_oreche.Job.Validate.{valid_job_create, valid_dag_submit}
use autonomous_ai_job_oreche.Principal.{producer, Principal}
use autonomous_ai_job_oreche.World.{World, Result, validation_error}
use autonomous_ai_job_oreche.World.Same.{SameTables}
use autonomous_ai_job_oreche.Manager.Create.{create_job}
use autonomous_ai_job_oreche.Manager.Dag.{create_dag}
use autonomous_ai_job_oreche.Auth.Access.{Decision, granted, refused, authorize}
use autonomous_ai_job_oreche.Auth.Access.Kept.{authorize-SameTables}
use autonomous_ai_job_oreche.Api.{
  raised, Response, answered, http_error, status_of, Headers, guarded, route,
}
use autonomous_ai_job_oreche.Api.Jobs
use autonomous_ai_job_oreche.Api.Jobs.{
  if_valid, created, changed, post_jobs, post_jobs_dag, post_cancel, post_retry,
}
use autonomous_ai_job_oreche.Api.Creation.{
  CleanError, if_valid-CleanError, created-CleanError, create_job-Clean, create_dag-Clean,
}
use autonomous_ai_job_oreche.Api.Change.{cancel-CleanError, retry-CleanError}

-- A request that creates or changes jobs.
pub data ChangeRequest : Type 0 where
  create : JobCreate → ChangeRequest
  create_all : List DagJobCreate → ChangeRequest
  cancel : String → ChangeRequest
  retry : String → ChangeRequest

module _ ⦃env : Env⦄ (sha256 : String → String)
    (validate_access_token : String → World → Result (Option Principal)) where
  abbrev without_body {ℓ} : {A : Type ℓ} → Response A × World → Response (Unit {0}) × World
  without_body (answered code a, w) = (answered code tt, w)
  without_body (http_error code detail, w) = (http_error code detail, w)

  -- The answer without its body, and the state after it.
  unfoldable pub respond : ChangeRequest → Headers → World → Response (Unit {0}) × World
  unfolding post_jobs post_jobs_dag post_cancel post_retry
  respond (create c) headers w = without_body (post_jobs sha256 validate_access_token c headers w)
  respond (create_all nodes) headers w =
      without_body (post_jobs_dag sha256 validate_access_token nodes headers w)
  respond (cancel id) headers w =
      without_body (post_cancel sha256 validate_access_token id headers w)
  respond (retry id) headers w = without_body (post_retry sha256 validate_access_token id headers w)

  -- `Job` has refused a row, after the change was committed.
  abbrev pub RefusedRow : Response (Unit {0}) → Type 0
  RefusedRow (answered code a) = ⊥
  RefusedRow (http_error code detail) = detail ≡ raised validation_error

  CleanError-unchanged {ℓ} :
      {A : Type ℓ} (v : World) (x : Response A × World)
      → CleanError v x
      → 400 ≤ status_of (without_body x).0
      → status_of (without_body x).0 < 500
      → ((without_body x).1 ≡ v) ⊎ RefusedRow (without_body x).0
  CleanError-unchanged v (answered code a, u) h l k = absurd (omega arith)
  CleanError-unchanged v (http_error code d, u) (inl server) l k = absurd (omega arith)
  CleanError-unchanged v (http_error code d, u) (inr (inl same)) l k = inl same
  CleanError-unchanged v (http_error code d, u) (inr (inr by_job)) l k = inr by_job

  guarded-unchanged {ℓ} :
      {A : Type ℓ} (handler : Principal → World → Response A × World)
      (r : Decision Principal × World)
      → ((p : Principal) (v : World) → CleanError v (handler p v))
      → 400 ≤ status_of (without_body (guarded sha256 validate_access_token handler r)).0
      → status_of (without_body (guarded sha256 validate_access_token handler r)).0 < 500
      → ((without_body (guarded sha256 validate_access_token handler r)).1 ≡ r.1)
        ⊎ RefusedRow (without_body (guarded sha256 validate_access_token handler r)).0
  guarded-unchanged handler (refused x, v) clean low high = inl refl
  guarded-unchanged handler (granted p, v) clean low high =
      CleanError-unchanged v (handler p v) (clean p v) low high

  -- The state after the decision on the access.
  abbrev pub authorized : Headers → World → World
  authorized headers w =
      (authorize sha256 validate_access_token producer headers.api_key headers.authorization w).1

  route-unchanged {ℓ} :
      {A : Type ℓ} (handler : Principal → World → Response A × World) (headers : Headers)
      (w : World)
      → ((p : Principal) (v : World) → CleanError v (handler p v))
      → 400
        ≤ status_of (without_body (route sha256 validate_access_token producer handler headers w)).0
      → status_of (without_body (route sha256 validate_access_token producer handler headers w)).0
        < 500
      → ((without_body (route sha256 validate_access_token producer handler headers w)).1
          ≡ authorized headers w)
        ⊎ RefusedRow
            (without_body (route sha256 validate_access_token producer handler headers w)).0
  unfolding route
  route-unchanged handler headers w clean low high =
      guarded-unchanged handler
        (authorize sha256 validate_access_token producer headers.api_key headers.authorization w)
        clean low high

  post_job-CleanError :
      (c : JobCreate) (p : Principal) (w : World) → CleanError w (Jobs.post_job c p w)
  unfolding Jobs.post_job
  post_job-CleanError c p w =
      if_valid-CleanError (valid_job_create env.settings env.dumps_length c) w
        (created (create_job c p.tenant_id w))
        (created-CleanError w (create_job c p.tenant_id w) (create_job-Clean c p.tenant_id w))

  submit_dag-CleanError :
      (nodes : List DagJobCreate) (p : Principal) (w : World)
      → CleanError w (Jobs.submit_dag nodes p w)
  unfolding Jobs.submit_dag
  submit_dag-CleanError nodes p w =
      if_valid-CleanError (valid_dag_submit env.settings env.dumps_length nodes) w
        (created (create_dag nodes p.tenant_id w))
        (created-CleanError w (create_dag nodes p.tenant_id w)
          (create_dag-Clean nodes p.tenant_id w))

  respond-unchanged :
      (r : ChangeRequest) (headers : Headers) (w : World)
      → 400 ≤ status_of (respond r headers w).0
      → status_of (respond r headers w).0 < 500
      → ((respond r headers w).1 ≡ authorized headers w) ⊎ RefusedRow (respond r headers w).0
  unfolding respond
  respond-unchanged (create c) headers w low high =
      route-unchanged _ headers w (post_job-CleanError c) low high
  respond-unchanged (create_all nodes) headers w low high =
      route-unchanged _ headers w (submit_dag-CleanError nodes) low high
  respond-unchanged (cancel id) headers w low high =
      route-unchanged _ headers w (cancel-CleanError id) low high
  respond-unchanged (retry id) headers w low high =
      route-unchanged _ headers w (retry-CleanError id) low high

  -- If a request that creates jobs, cancels or retries one is answered with an error of the client, a
  -- status from 400 to 499, then nothing has happened but the decision on its access: the state is
  -- that after `authorize`, in which no table but that of the API keys has changed. The one exception
  -- is an answer that says that `Job` refuses a row, which may come after the change.
  pub respond-client_error :
      (r : ChangeRequest) (headers : Headers) (w : World)
      → 400 ≤ status_of (respond r headers w).0
      → status_of (respond r headers w).0 < 500
      → (((respond r headers w).1 ≡ authorized headers w) × SameTables w (respond r headers w).1)
        ⊎ RefusedRow (respond r headers w).0
  respond-client_error r headers w low high = elim (respond-unchanged r headers w low high) [
    | inl same ↦ inl (
      same,
      rw same (
          authorize-SameTables sha256 validate_access_token producer headers.api_key
            headers.authorization w),
    )
    | inr by_job ↦ inr by_job
  ]
