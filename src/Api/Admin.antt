-- ===== src/Api/Admin.antt =====
-- src/api/admin_routes.py and the requests and responses of src/models/auth.py: the routes of operators
-- on API keys and service accounts. The texts that are drawn are arguments.
use autonomous_ai_job_oreche.Prelude.{
  ℕ, String, Bool, true, false, ◌&&◌, Option, some, List, map, length, leb, str_length,
}
use autonomous_ai_job_oreche.Services.{Env}
use autonomous_ai_job_oreche.Principal.{Role, operator, Principal}
use autonomous_ai_job_oreche.Db.{ApiKeyRow, ServiceAccountRow}
use autonomous_ai_job_oreche.World.{World, Result, ok, err}
use autonomous_ai_job_oreche.Auth
use autonomous_ai_job_oreche.Auth.ServiceAccounts
use autonomous_ai_job_oreche.Api.{message, raised, Response, answered, http_error, Headers, route}
use autonomous_ai_job_oreche.Api.Jobs.{if_valid, api_actor}

-- `ApiKeyCreateRequest` and `ServiceAccountCreateRequest` have the same fields and limits.
pub record CreateRequest : Type 0 where
  pub name : String
  pub role : Role

abbrev pub valid_create_request : CreateRequest → Bool
valid_create_request body = leb 1 (str_length body.name) && leb (str_length body.name) 128

pub record ApiKeyCreatedResponse : Type 0 where
  pub id : String
  pub name : String
  pub role : Role
  pub key_prefix : String
  pub api_key : String
  pub tenant_id : String
  pub created_at : ℕ

pub record ApiKeySummary : Type 0 where
  pub id : String
  pub name : String
  pub role : Role
  pub key_prefix : String
  pub tenant_id : String
  pub enabled : Bool
  pub created_at : ℕ
  pub last_used_at : Option ℕ

pub record ServiceAccountCreatedResponse : Type 0 where
  pub id : String
  pub name : String
  pub role : Role
  pub client_id : String
  pub client_secret : String
  pub tenant_id : String
  pub created_at : ℕ

pub record ServiceAccountSummary : Type 0 where
  pub id : String
  pub name : String
  pub role : Role
  pub client_id : String
  pub tenant_id : String
  pub enabled : Bool
  pub created_at : ℕ

pub record ListResponse (Summary : Type 0) : Type 0 where
  pub items : List Summary
  pub total : ℕ

abbrev key_created : String → ApiKeyRow → ApiKeyCreatedResponse
key_created raw_key row = record {
  id = row.id;
  name = row.name;
  role = row.role;
  key_prefix = row.key_prefix;
  api_key = raw_key;
  tenant_id = row.tenant_id;
  created_at = row.created_at;
}

-- What is listed of a key: never the key itself, nor its digest.
unfoldable pub key_summary : ApiKeyRow → ApiKeySummary
key_summary row = record {
  id = row.id;
  name = row.name;
  role = row.role;
  key_prefix = row.key_prefix;
  tenant_id = row.tenant_id;
  enabled = row.enabled;
  created_at = row.created_at;
  last_used_at = row.last_used_at;
}

abbrev account_created : ServiceAccountRow × String → ServiceAccountCreatedResponse
account_created (row, client_secret) = record {
  id = row.id;
  name = row.name;
  role = row.role;
  client_id = row.client_id;
  client_secret = client_secret;
  tenant_id = row.tenant_id;
  created_at = row.created_at;
}

unfoldable pub account_summary : ServiceAccountRow → ServiceAccountSummary
account_summary row = record {
  id = row.id;
  name = row.name;
  role = row.role;
  client_id = row.client_id;
  tenant_id = row.tenant_id;
  enabled = row.enabled;
  created_at = row.created_at;
}

abbrev listed :
    {Row Summary : Type 0} → (Row → Summary) → List Row → Response (ListResponse Summary)
listed summary rows = answered 200 (record { items = map summary rows; total = length rows })

module _ ⦃env : Env⦄ (sha256 : String → String) where
  abbrev created_as {ℓ κ} :
      {A : Type ℓ} {B : Type κ} → (A → B) → Result A × World → Response B × World
  created_as f (ok a, w) = (answered 201 (f a), w)
  created_as f (err e, w) = (http_error 500 (raised e), w)

  abbrev removed : String → Bool × World → Response (Unit {0}) × World
  removed detail (true, w) = (answered 204 tt, w)
  removed detail (false, w) = (http_error 404 (message detail), w)

  unfoldable pub create_api_key :
      String → CreateRequest → Principal → World → Response ApiKeyCreatedResponse × World
  create_api_key raw_key body p w = if_valid (valid_create_request body) w (
      created_as (key_created raw_key)
        (Auth.create_key sha256 raw_key body.name body.role (some p.tenant_id) (api_actor p) w))

  unfoldable pub list_api_keys : Principal → World → Response (ListResponse ApiKeySummary) × World
  list_api_keys p w = (listed key_summary (Auth.list_keys sha256 (some p.tenant_id) w.db), w)

  unfoldable pub revoke_api_key : String → Principal → World → Response (Unit {0}) × World
  revoke_api_key key_id p w =
      removed "API key not found" (Auth.revoke_key sha256 key_id (some p.tenant_id) (api_actor p) w)

  unfoldable pub create_service_account :
      String
      → String
      → CreateRequest
      → Principal
      → World
      → Response ServiceAccountCreatedResponse × World
  create_service_account client_id client_secret body p w = if_valid (valid_create_request body) w (
      created_as account_created (
        ServiceAccounts.create sha256 client_id client_secret body.name body.role p.tenant_id
          (api_actor p) w))

  unfoldable pub list_service_accounts :
      Principal → World → Response (ListResponse ServiceAccountSummary) × World
  list_service_accounts p w =
      (listed account_summary (ServiceAccounts.list_accounts sha256 p.tenant_id w.db), w)

  unfoldable pub revoke_service_account : String → Principal → World → Response (Unit {0}) × World
  revoke_service_account account_id p w =
      removed "Service account not found"
        (ServiceAccounts.revoke sha256 account_id p.tenant_id (api_actor p) w)

module _ ⦃env : Env⦄ (sha256 : String → String)
    (validate_access_token : String → World → Result (Option Principal)) where
  -- The routes by their paths; all of them are for operators.
  unfoldable pub post_api_keys :
      String → CreateRequest → Headers → World → Response ApiKeyCreatedResponse × World
  post_api_keys raw_key body =
      route sha256 validate_access_token operator (create_api_key sha256 raw_key body)

  unfoldable pub get_api_keys : Headers → World → Response (ListResponse ApiKeySummary) × World
  get_api_keys = route sha256 validate_access_token operator (list_api_keys sha256)

  unfoldable pub delete_api_key : String → Headers → World → Response (Unit {0}) × World
  delete_api_key key_id = route sha256 validate_access_token operator (revoke_api_key sha256 key_id)

  unfoldable pub post_service_accounts :
      String
      → String
      → CreateRequest
      → Headers
      → World
      → Response ServiceAccountCreatedResponse × World
  post_service_accounts client_id client_secret body =
      route sha256 validate_access_token operator
        (create_service_account sha256 client_id client_secret body)

  unfoldable pub get_service_accounts :
      Headers → World → Response (ListResponse ServiceAccountSummary) × World
  get_service_accounts = route sha256 validate_access_token operator (list_service_accounts sha256)

  unfoldable pub delete_service_account : String → Headers → World → Response (Unit {0}) × World
  delete_service_account account_id =
      route sha256 validate_access_token operator (revoke_service_account sha256 account_id)
