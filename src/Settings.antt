-- ===== src/Settings.antt =====
-- src/core/config.py: the settings that the modelled code reads. Times are in microseconds.
pub mod Secrets
use autonomous_ai_job_oreche.Prelude.{
  ℕ, String, Bool, true, false, List, [], ◌∷◌, ◌++◌, ◌||◌, Option, none, some, str_eq, truthy,
  if◌then◌else◌, strip, stripped, split_commas,
}

pub record Settings : Type 0 where
  pub executor_allowlist_text : String
  pub scheduler_mode : String
  pub runner_name : String
  pub default_job_timeout : ℕ
  pub default_job_memory_mb : ℕ
  pub default_job_cpu : ℕ
  pub autoscale_min_workers : ℕ
  pub autoscale_max_workers : ℕ
  pub autoscale_backlog_per_worker : ℕ
  pub autoscale_scale_down_cooldown : ℕ
  pub default_tenant_id : String
  pub default_tenant_name : String
  pub job_stream_key : String
  pub job_stream_group : String
  pub job_stream_block_ms : ℕ
  pub job_stream_maxlen : ℕ
  pub job_stream_claim_min_idle_ms : ℕ
  pub reclaim_every_n_loops : ℕ
  pub job_dlq_stream_key : String
  pub job_dlq_maxlen : ℕ
  pub lease_key_prefix : String
  pub lease_ttl_seconds : ℕ
  pub lease_heartbeat_seconds : ℕ
  pub max_job_retries : ℕ
  pub retry_backoff_base : ℕ
  pub retry_backoff_max : ℕ
  pub max_run_output_chars : ℕ
  pub log_spill_threshold_chars : ℕ
  pub log_inline_preview_chars : ℕ
  pub auth_enabled : Bool
  pub api_key_pepper : String
  pub auth_bootstrap_operator_key : String
  pub max_job_payload_bytes : ℕ
  pub max_job_dependencies : ℕ
  pub max_dag_jobs : ℕ
  pub default_tenant_max_jobs : ℕ
  pub default_tenant_rate_limit : ℕ
  pub rate_limit_enabled : Bool
  pub rate_limit_window_seconds : ℕ
  pub environment : String
  pub jwt_secret_key : String
  pub jwt_enabled : Bool
  pub jwt_algorithm : String
  pub jwt_issuer : String
  pub jwt_audience : String
  pub jwt_access_token_expire_minutes : ℕ
  pub max_request_body_bytes : ℕ
  pub secrets_backend : String
  pub vault_addr : String
  pub vault_token : String
  pub vault_mount : String
  pub vault_path : String

-- The defaults of the class, with no `.env` file.
abbrev pub default_settings : Settings
default_settings = record {
  executor_allowlist_text = "sleep";
  scheduler_mode = "heuristic";
  runner_name = "subprocess";
  default_job_timeout = 300_000_000;
  default_job_memory_mb = 0;
  default_job_cpu = 0;
  autoscale_min_workers = 1;
  autoscale_max_workers = 5;
  autoscale_backlog_per_worker = 5;
  autoscale_scale_down_cooldown = 60_000_000;
  default_tenant_id = "00000000-0000-0000-0000-000000000001";
  default_tenant_name = "default";
  job_stream_key = "stream:jobs";
  job_stream_group = "workers";
  job_stream_block_ms = 5000;
  job_stream_maxlen = 10000;
  job_stream_claim_min_idle_ms = 60000;
  reclaim_every_n_loops = 5;
  job_dlq_stream_key = "stream:jobs:dlq";
  job_dlq_maxlen = 10000;
  lease_key_prefix = "lease:job:";
  lease_ttl_seconds = 30;
  lease_heartbeat_seconds = 10;
  max_job_retries = 3;
  retry_backoff_base = 2_000_000;
  retry_backoff_max = 300_000_000;
  max_run_output_chars = 65536;
  log_spill_threshold_chars = 4096;
  log_inline_preview_chars = 2048;
  auth_enabled = true;
  api_key_pepper = "change-me-in-production";
  auth_bootstrap_operator_key = "";
  max_job_payload_bytes = 65_536;
  max_job_dependencies = 50;
  max_dag_jobs = 100;
  default_tenant_max_jobs = 1000;
  default_tenant_rate_limit = 120;
  rate_limit_enabled = true;
  rate_limit_window_seconds = 60;
  environment = "development";
  jwt_secret_key = "dev-only-change-me";
  jwt_enabled = true;
  jwt_algorithm = "HS256";
  jwt_issuer = "autonomous-ai-job-orchestrator";
  jwt_audience = "orchestrator-api";
  jwt_access_token_expire_minutes = 60;
  max_request_body_bytes = 1_048_576;
  secrets_backend = "env";
  vault_addr = "";
  vault_token = "";
  vault_mount = "secret";
  vault_path = "orchestrator";
}

-- The property `executor_allowlist`: the set that the comma-separated text names.
unfoldable pub executor_allowlist : Settings → List String
executor_allowlist s = stripped (split_commas s.executor_allowlist_text)

-- `insecure.append(name)` under a test.
abbrev note_if : Bool → String → List String
note_if b name = if b then name ∷ [] else []

-- The names that the check finds insecure, in the order of the tests.
unfoldable pub insecure_settings : Settings → List String
insecure_settings s =
    note_if (str_eq s.api_key_pepper "change-me-in-production") "API_KEY_PEPPER"
    ++ (note_if
          (str_eq s.jwt_secret_key ""
            || str_eq s.jwt_secret_key "dev-only-change-me"
            || str_eq s.jwt_secret_key "change-me-in-production")
          "JWT_SECRET_KEY"
        ++ note_if (truthy (strip s.auth_bootstrap_operator_key)) "AUTH_BOOTSTRAP_OPERATOR_KEY")

abbrev pub refuse_if_any : List String → Option (List String)
refuse_if_any [] = none
refuse_if_any (name ∷ names) = some (name ∷ names)

-- `none` lets the program start; otherwise the settings that the RuntimeError names.
unfoldable pub validate_secrets_for_environment : Settings → Option (List String)
unfolding insecure_settings
validate_secrets_for_environment s =
    if str_eq s.environment "production" then refuse_if_any (insecure_settings s) else none
