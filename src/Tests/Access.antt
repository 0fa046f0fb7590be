-- ===== src/Tests/Access.antt =====
-- Tests on src/auth and src/tenancy: API keys, the access of requests, and the rate limit.
use autonomous_ai_job_oreche.Prelude.{
  true, ℕ, String, Option, none, some, ◌≡◌, ◌≤◌, refl, arith, str_eq, strip, if◌then◌else◌,
}
use autonomous_ai_job_oreche.Services.{incr, number, failure}
use autonomous_ai_job_oreche.Principal.{viewer, producer, jwt, Principal}
use autonomous_ai_job_oreche.Db.{
  ApiKeyRow, get_tenant, add_tenant, add_api_key, api_key_rows, get_api_key, add_audit_row,
}
use autonomous_ai_job_oreche.World.{World, Result, ok, call}
use autonomous_ai_job_oreche.Manager.{ensure_default_tenant, audit}
use autonomous_ai_job_oreche.Policy.{rate_limit_for}
use autonomous_ai_job_oreche.RateLimit.{bucket_key, check, count_request}
use autonomous_ai_job_oreche.RateLimit.Decision.{Passes, check-Passes}
use autonomous_ai_job_oreche.Auth.{
  stage_key, key_row, hash_api_key, create_key, validate_key, revoke_key,
}
use autonomous_ai_job_oreche.Auth.Keys.{PrincipalOf, create_key-until_revoked}
use autonomous_ai_job_oreche.Auth.Access.{
  extract_api_key, after_word, get_current_principal, require_min_role, authorize, granted,
}
use autonomous_ai_job_oreche.Auth.Access.Granted.{Credential, authorize-Credential}
use autonomous_ai_job_oreche.Output.Texts.{decimal}
use autonomous_ai_job_oreche.Tests.{test_env, start}

abbrev pub plain : String → String
plain s = s

abbrev stored : ApiKeyRow
stored = record {
  id = "a";
  tenant_id = "acme";
  name = "ci";
  key_prefix = "ork_x";
  key_hash = "change-me-in-production:ork_x";
  role = producer;
  enabled = true;
  created_at = 1000;
  last_used_at = none;
}

first_key : (create_key plain "ork_x" "ci" producer (some "acme") "admin" start).0 ≡ ok stored
unfolding create_key stage_key ensure_default_tenant get_tenant add_tenant add_api_key key_row
    hash_api_key audit api_key_rows get_api_key add_audit_row
first_key = refl

create_key-until_revoked_example :
    PrincipalOf plain stored
      (validate_key plain "ork_x"
        (create_key plain "ork_x" "ci" producer (some "acme") "admin" start).1).0
    × ((validate_key plain "ork_x"
          (revoke_key plain "a" none "admin"
            (create_key plain "ork_x" "ci" producer (some "acme") "admin" start).1).1).0
        ≡ none)
create_key-until_revoked_example =
    create_key-until_revoked plain "ork_x" "ci" producer (some "acme") "admin" "admin" start stored
      refl first_key

acme_limit : rate_limit_for (get_tenant "acme" start.db) ≡ 120
unfolding rate_limit_for get_tenant
acme_limit = refl

check-Passes_example :
    ((n : ℕ)
      → test_env.reply (incr (bucket_key "acme" 1000)) start.redis ≡ number n
      → Passes 120 n start (check "acme" start))
    × ((e : String)
        → test_env.reply (incr (bucket_key "acme" 1000)) start.redis ≡ failure e
        → ((check "acme" start).0 ≡ ok tt) × ((check "acme" start).1.db ≡ start.db))
check-Passes_example = check-Passes "acme" start 120 refl (omega arith) acme_limit (omega arith)

abbrev pub admin : Principal
admin = record {
  subject_id = "admin";
  tenant_id = "acme";
  role = producer;
  name = "admin";
  auth_method = jwt;
}

abbrev pub token_of_admin : String → World → Result (Option Principal)
token_of_admin raw w = ok (if str_eq raw "tok" then some admin else none)

admin-authorized :
    (authorize plain token_of_admin viewer none (some "Bearer tok") start).0 ≡ granted admin
unfolding authorize get_current_principal extract_api_key after_word require_min_role check
    count_request rate_limit_for get_tenant bucket_key decimal call strip
admin-authorized = refl

authorize-Credential_example :
    (raw : String) × (extract_api_key none (some "Bearer tok") ≡ some raw)
    × Credential plain token_of_admin raw start admin
    × (1 ≤ 2)
authorize-Credential_example =
    authorize-Credential plain token_of_admin viewer none (some "Bearer tok") start admin refl
      admin-authorized
