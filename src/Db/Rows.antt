-- ===== src/Db/Rows.antt =====
-- src/db/models: the rows of the tables. Columns that the code neither reads nor writes are left out
-- (`schedule_id`, `updated_at`).
use autonomous_ai_job_oreche.Prelude.{ℕ, ℤ, String, Bool, Option}
use autonomous_ai_job_oreche.Job.{JobStatus, Fields, ResourceReq, LogRef}
use autonomous_ai_job_oreche.Principal.{Role}

pub record TenantRow : Type 0 where
  pub id : String
  pub name : String
  pub rate_limit : Option ℕ
  pub max_jobs : Option ℕ
  pub executor_allowlist : Option String

pub record JobRow : Type 0 where
  pub id : String
  pub tenant_id : String
  pub name : String
  pub description : Option String
  pub priority : ℕ
  pub deadline : Option ℕ
  pub est_duration : ℤ
  pub status : JobStatus
  pub idempotency_key : Option String
  pub payload : Fields
  pub resource_req : Option ResourceReq
  pub retry_count : ℕ
  pub worker_id : Option String
  pub started_at : Option ℕ
  pub completed_at : Option ℕ
  pub created_at : ℕ

pub record RunRow : Type 0 where
  pub id : String
  pub job_id : String
  pub attempt : ℕ
  pub worker_id : Option String
  pub status : JobStatus
  pub started_at : Option ℕ
  pub finished_at : Option ℕ
  pub exit_code : Option ℤ
  pub error : Option String
  pub stdout : Option String
  pub stderr : Option String
  pub log_ref : Option LogRef
  pub metrics : Option ℕ

pub record DependencyRow : Type 0 where
  pub job_id : String
  pub depends_on_job_id : String

pub record AuditLogRow : Type 0 where
  pub id : String
  pub tenant_id : String
  pub actor : String
  pub action : String
  pub target : String
  pub payload : Fields
  pub ts : ℕ

pub record ApiKeyRow : Type 0 where
  pub id : String
  pub tenant_id : String
  pub name : String
  pub key_prefix : String
  pub key_hash : String
  pub role : Role
  pub enabled : Bool
  pub created_at : ℕ
  pub last_used_at : Option ℕ

pub record ServiceAccountRow : Type 0 where
  pub id : String
  pub tenant_id : String
  pub name : String
  pub client_id : String
  pub secret_hash : String
  pub role : Role
  pub enabled : Bool
  pub created_at : ℕ
