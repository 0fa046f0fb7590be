-- ===== src/Tests/Api.antt =====
-- Tests on src/api/routes.py.
use autonomous_ai_job_oreche.Prelude.{◌⊎◌, ◌≤◌, String, none, some, ◌≡◌, refl, arith, strip}
use autonomous_ai_job_oreche.Principal.{role_rank, Principal}
use autonomous_ai_job_oreche.Db.{get_tenant, get_job_row}
use autonomous_ai_job_oreche.World.{call}
use autonomous_ai_job_oreche.World.Same.{SameTables}
use autonomous_ai_job_oreche.Policy.{rate_limit_for}
use autonomous_ai_job_oreche.RateLimit.{bucket_key, check, count_request}
use autonomous_ai_job_oreche.Output.Texts.{decimal}
use autonomous_ai_job_oreche.Manager
use autonomous_ai_job_oreche.Manager.{find_job_row}
use autonomous_ai_job_oreche.Manager.Lifecycle
use autonomous_ai_job_oreche.Auth.Access.{
  after_word, extract_api_key, get_current_principal, require_min_role, authorize,
}
use autonomous_ai_job_oreche.Auth.Access.Granted.{Credential}
use autonomous_ai_job_oreche.Api.{Headers, status_of, route}
use autonomous_ai_job_oreche.Api.Jobs
use autonomous_ai_job_oreche.Api.Errors.{
  ChangeRequest, authorized, RefusedRow, respond, respond-client_error,
}
use autonomous_ai_job_oreche.Api.Tenants.{JobRequest, route_status, OwnJob, route_status-OwnJob}
use autonomous_ai_job_oreche.Tests.{test_env, start, waiting}
use autonomous_ai_job_oreche.Tests.Access.{plain, token_of_admin}

abbrev headers : Headers
headers = record { api_key = none; authorization = some "Bearer tok" }

-- The job j2 is FAILED, and cannot be cancelled.
conflict :
    status_of (respond plain token_of_admin (ChangeRequest.cancel "j2") headers start).0 ≡ 409
unfolding respond route authorize get_current_principal extract_api_key after_word require_min_role
    check count_request rate_limit_for get_tenant bucket_key decimal call strip Jobs.cancel_job
    Lifecycle.cancel_job find_job_row get_job_row
conflict = refl

respond-client_error_example :
    (((respond plain token_of_admin (ChangeRequest.cancel "j2") headers start).1
        ≡ authorized plain token_of_admin headers start)
      × SameTables start (respond plain token_of_admin (ChangeRequest.cancel "j2") headers start).1)
    ⊎ RefusedRow plain token_of_admin
        (respond plain token_of_admin (ChangeRequest.cancel "j2") headers start).0
respond-client_error_example =
    respond-client_error plain token_of_admin (ChangeRequest.cancel "j2") headers start
      (omega (arith, conflict)) (omega (arith, conflict))

found : route_status plain token_of_admin JobRequest.read "j1" headers start ≡ 200
unfolding route_status route authorize get_current_principal extract_api_key after_word
    require_min_role check count_request rate_limit_for get_tenant bucket_key decimal call strip
    Jobs.get_job Manager.get_job find_job_row get_job_row
found = refl

job_there : get_job_row "j1" start.db ≡ some waiting
unfolding get_job_row
job_there = refl

route_status-OwnJob_example :
    (p : Principal) × ((raw : String) × (extract_api_key none (some "Bearer tok") ≡ some raw)
      × Credential plain token_of_admin raw start p)
    × (1 ≤ role_rank p.role)
    × OwnJob p waiting
route_status-OwnJob_example =
    route_status-OwnJob plain token_of_admin JobRequest.read "j1" headers start waiting refl
      job_there (omega (arith, found))
