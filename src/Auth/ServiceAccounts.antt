-- ===== src/Auth/ServiceAccounts.antt =====
-- src/auth/service_account_service.py and src/db/audit.py: the service accounts of the tenants. The
-- texts that `secrets.token_urlsafe` draws, with their prefixes, are the arguments `client_id` and
-- `client_secret`.
pub mod Rows
pub mod Credentials
pub mod Lifetime
use autonomous_ai_job_oreche.Prelude.{
  ℕ, ◌+◌, String, Bool, true, false, not, ◌&&◌, ◌||◌, Option, none, some, List, filter, find,
  str_eq, truthy, if◌then◌else◌,
}
use autonomous_ai_job_oreche.Services.{Env}
use autonomous_ai_job_oreche.Job.{Fields, text, field, no_fields}
use autonomous_ai_job_oreche.Principal.{Role, role_text, Principal, client_credentials}
use autonomous_ai_job_oreche.Db.{
  ServiceAccountRow, Db, get_service_account, service_account_rows, add_service_account,
  save_service_account,
}
use autonomous_ai_job_oreche.Output.Texts.{append_text}
use autonomous_ai_job_oreche.World.{World, Result, ok, err, integrity_error, or_raise, ◌>>=◌}
use autonomous_ai_job_oreche.Manager.{audit}
use autonomous_ai_job_oreche.Auth.{sort_newest, hash_of}

abbrev pub account_principal : ServiceAccountRow → Principal
account_principal row = record {
  subject_id = row.id;
  tenant_id = row.tenant_id;
  role = row.role;
  name = row.name;
  auth_method = client_credentials;
}

abbrev pub account_target : String → String
account_target id = append_text "service_account:" id

abbrev pub principal_of_account : Option ServiceAccountRow → Option Principal
principal_of_account none = none
principal_of_account (some row) = some (account_principal row)

module _ ⦃env : Env⦄ (sha256 : String → String) where
  open env use {uuid}

  unfoldable pub account_row : World → String → String → String → Role → String → ServiceAccountRow
  account_row w client_id client_secret name role tenant_id = record {
    id = uuid w.drawn;
    tenant_id = tenant_id;
    name = name;
    client_id = client_id;
    secret_hash = hash_of sha256 client_secret;
    role = role;
    enabled = true;
    created_at = w.now;
  }

  abbrev account_payload : ServiceAccountRow → Fields
  account_payload row =
      field "name" (text row.name) (
        field "role" (text (role_text row.role)) (field "client_id" (text row.client_id) no_fields))

  -- The transaction of `create`: the account and its audit entry, or neither.
  unfoldable pub stage_account : World → String → ServiceAccountRow → Result Db
  stage_account w actor row = do
    db ← or_raise integrity_error (add_service_account row w.db)
    ok (
        audit (uuid (w.drawn + 1)) row.tenant_id w.now "service_account.create"
          (account_target row.id) (account_payload row) actor db)

  abbrev pub stored_account :
      World → ServiceAccountRow → String → Result Db → Result (ServiceAccountRow × String) × World
  stored_account w row client_secret (ok db) =
      (ok (row, client_secret), record w { db = db; drawn = w.drawn + 2 })
  stored_account w row client_secret (err e) = (err e, w)

  -- The caller gets the row, and the secret that is kept nowhere.
  unfoldable pub create :
      String
      → String
      → String
      → Role
      → String
      → String
      → World
      → Result (ServiceAccountRow × String) × World
  create client_id client_secret name role tenant_id actor w =
      let row = account_row w client_id client_secret name role tenant_id in
      stored_account w row client_secret (stage_account w actor row)

  abbrev pub account_accepts : String → String → ServiceAccountRow → Bool
  account_accepts client_id hashed r =
      str_eq r.client_id client_id && str_eq r.secret_hash hashed && r.enabled

  unfoldable pub validate_client_credentials : String → String → Db → Option Principal
  validate_client_credentials client_id client_secret db =
      if not (truthy client_id) || not (truthy client_secret)
      then none
      else principal_of_account (
          find (account_accepts client_id (hash_of sha256 client_secret)) (service_account_rows db))

  unfoldable pub list_accounts : String → Db → List ServiceAccountRow
  list_accounts tenant_id db =
      sort_newest (λ (r : ServiceAccountRow). r.created_at)
        (filter (λ (r : ServiceAccountRow). str_eq r.tenant_id tenant_id) (service_account_rows db))

  abbrev pub account_revoked : World → String → String → ServiceAccountRow → World
  account_revoked w account_id actor row = record w {
    db =
        audit (uuid w.drawn) row.tenant_id w.now "service_account.revoke"
          (account_target account_id)
          (field "name" (text row.name) (field "client_id" (text row.client_id) no_fields)) actor
          (save_service_account (record row { enabled = false }) w.db);
    drawn = w.drawn + 1;
  }

  unfoldable pub revoke : String → String → String → World → Bool × World
  revoke account_id tenant_id actor w = elim (get_service_account account_id w.db) [
    | none ↦ (false, w)
    | some row ↦
        if str_eq row.tenant_id tenant_id
        then (true, account_revoked w account_id actor row)
        else (false, w)
  ]
