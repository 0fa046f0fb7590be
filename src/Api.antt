-- ===== src/Api.antt =====
-- src/api: what the routes share. FastAPI calls the dependencies of a route once, before it checks the
-- parameters and the body, and then the function of the route; a request is its two headers and the
-- arguments of that function. An exception that nothing catches is answered with status 500.
pub mod Jobs
pub mod Admin
pub mod Creation
pub mod Change
pub mod Errors
pub mod Tenants
pub mod Server
use autonomous_ai_job_oreche.Prelude.{ℕ, String, Bool, true, false, Option, if◌then◌else◌}
use autonomous_ai_job_oreche.Services.{Env}
use autonomous_ai_job_oreche.Principal.{Role, Principal}
use autonomous_ai_job_oreche.World.{
  World, Result, ok, err, Error, quota_exceeded, executor_not_allowed, duplicate_dag_keys,
  unknown_dag_dependency, cannot_be_cancelled, cannot_be_retried, dependencies_not_met,
  unsupported_log_ref, validation_error,
}
use autonomous_ai_job_oreche.Auth.Access.{
  Refusal, missing_credentials, invalid_credentials, too_many_requests, role_too_low, failed,
  Decision, granted, refused, authorize,
}

-- The detail of an HTTPException: a text, the text of the refusal, or `str(e)`; and the list of errors
-- that FastAPI gives for a parameter or a body that it refuses.
pub data Detail : Type 0 where
  invalid_request : Detail
  message : String → Detail
  refusal : Refusal → Detail
  raised : Error → Detail

pub data Response {ℓ} (A : Type ℓ) : Type ℓ where
  answered : ℕ → A → Response A
  http_error : ℕ → Detail → Response A

abbrev pub status_of {ℓ} : {A : Type ℓ} → Response A → ℕ
status_of (answered code a) = code
status_of (http_error code detail) = code

abbrev pub refusal_status : Refusal → ℕ
refusal_status missing_credentials = 401
refusal_status invalid_credentials = 401
refusal_status too_many_requests = 429
refusal_status (role_too_low r) = 403
refusal_status (failed e) = 500

-- Whether an exception is a ValueError.
abbrev pub is_value_error : Error → Bool
is_value_error (executor_not_allowed j) = true
is_value_error duplicate_dag_keys = true
is_value_error (unknown_dag_dependency k) = true
is_value_error (cannot_be_cancelled s) = true
is_value_error (cannot_be_retried s) = true
is_value_error dependencies_not_met = true
is_value_error (unsupported_log_ref s) = true
is_value_error validation_error = true
is_value_error _ = false

-- The handlers of `create_job` and `submit_dag`, and those of `cancel_job` and `retry_job`.
abbrev pub creation_status : Error → ℕ
creation_status (quota_exceeded active limit) = 429
creation_status e = if is_value_error e then 400 else 500

abbrev pub change_status_code : Error → ℕ
change_status_code e = if is_value_error e then 409 else 500

pub record Headers : Type 0 where
  pub api_key : Option String
  pub authorization : Option String

module _ ⦃env : Env⦄ (sha256 : String → String)
    (validate_access_token : String → World → Result (Option Principal)) where
  abbrev pub guarded {ℓ} :
      {A : Type ℓ}
      → (Principal → World → Response A × World)
      → Decision Principal × World
      → Response A × World
  guarded handler (granted p, w) = handler p w
  guarded handler (refused r, w) = (http_error (refusal_status r) (refusal r), w)

  -- A route that needs a role.
  unfoldable pub route {ℓ} :
      {A : Type ℓ}
      → Role
      → (Principal → World → Response A × World)
      → Headers
      → World
      → Response A × World
  route min_role handler headers w =
      guarded handler
        (authorize sha256 validate_access_token min_role headers.api_key headers.authorization w)
