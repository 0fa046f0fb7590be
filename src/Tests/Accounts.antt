-- ===== src/Tests/Accounts.antt =====
-- Tests on src/auth: service accounts and tokens.
use autonomous_ai_job_oreche.Prelude.{
  ℕ, ◌*◌, String, true, false, none, some, ◌≡◌, ◌≢◌, refl, sym, ◌∙◌, arith, str_eq, eq_iff,
}
use autonomous_ai_job_oreche.Job.{Json}
use autonomous_ai_job_oreche.Principal.{producer}
use autonomous_ai_job_oreche.Db.{
  ServiceAccountRow, add_service_account, get_service_account, service_account_rows, get_tenant,
  add_audit_row,
}
use autonomous_ai_job_oreche.World.{World, ok}
use autonomous_ai_job_oreche.Manager.{audit}
use autonomous_ai_job_oreche.Auth.{hash_api_key}
use autonomous_ai_job_oreche.Auth.ServiceAccounts.{
  account_row, stage_account, create, account_principal, validate_client_credentials,
}
use autonomous_ai_job_oreche.Auth.ServiceAccounts.Lifetime.{LiveAccount, create-LiveAccount}
use autonomous_ai_job_oreche.Auth.Tokens.{token, issue_token, validate_access_token}
use autonomous_ai_job_oreche.Auth.Tokens.RoundTrip.{issue_token-valid}
use autonomous_ai_job_oreche.Tests.{test_env, start}
use autonomous_ai_job_oreche.Tests.Jwt.{unsigned, unsigned-Signs}

abbrev plain : String → String
plain s = s

unequal_texts : (s t : String) → str_eq s t ≡ false → s ≢ t
unequal_texts s t differ same = absurd (clash (sym differ ∙ (eq_iff s t).1 same))
  where
    clash : false ≡ true → ⊥
    clash e = cc

abbrev account : ServiceAccountRow
account = record {
  id = "a";
  tenant_id = "acme";
  name = "ci";
  client_id = "sa_1";
  secret_hash = "change-me-in-production:ssec_1";
  role = producer;
  enabled = true;
  created_at = 1000;
}

abbrev with_account : World
with_account = (create plain "sa_1" "ssec_1" "ci" producer "acme" "admin" start).1

first_account :
    (create plain "sa_1" "ssec_1" "ci" producer "acme" "admin" start).0 ≡ ok (account, "ssec_1")
unfolding create stage_account account_row add_service_account get_service_account get_tenant
    service_account_rows hash_api_key audit add_audit_row
first_account = refl

other_hash : hash_api_key plain "ssec_2" "change-me-in-production" ≢ account.secret_hash
unfolding hash_api_key
other_hash e =
    unequal_texts (hash_api_key plain "ssec_2" "change-me-in-production") account.secret_hash refl e

other_tenant : account.tenant_id ≢ "globex"
other_tenant e = cc

create-LiveAccount_example :
    LiveAccount plain account "ssec_1" "ssec_2" "globex" "admin" with_account
create-LiveAccount_example =
    create-LiveAccount plain "sa_1" "ssec_1" "ci" producer "acme" "admin" start account "ssec_1"
      "ssec_2" "globex" "admin" refl refl first_account other_hash other_tenant

credentials_known :
    validate_client_credentials plain "sa_1" "ssec_1" with_account.db
    ≡ some (account_principal account)
unfolding validate_client_credentials create stage_account account_row add_service_account
    get_service_account get_tenant service_account_rows hash_api_key audit add_audit_row
credentials_known = refl

abbrev shown : Json → String
shown j = ""

abbrev at : ℕ → World
at now = record start { now = now }

issue_token-valid_example :
    (t : String) × ((issue_token plain shown unsigned "sa_1" "ssec_1" with_account).0
      ≡ token t (60 * 60))
    × (validate_access_token shown unsigned t (at 2_000_000)
        ≡ ok (some (account_principal account)))
    × (validate_access_token shown unsigned t (at 4_000_000_000) ≡ ok none)
unfolding create stage_account account_row add_service_account get_service_account get_tenant
    service_account_rows hash_api_key audit add_audit_row
issue_token-valid_example =
    issue_token-valid plain shown unsigned "sa_1" "ssec_1" (account_principal account) with_account
      (at 2_000_000) (at 4_000_000_000) (unsigned-Signs "dev-only-change-me" "HS256") refl
      credentials_known (omega arith) (omega arith) (omega arith)
