-- ===== src/Tests.antt =====
-- The code under src/ on a small system: one tenant with two jobs, tables as lists, and a Redis
-- server that grants leases or not. The modules below run it on that system.
mod Jobs
mod Workers
mod Pages
mod Access
mod Runs
mod Jwt
mod Accounts
mod Api
mod Docker
mod Starts
mod Agents
use autonomous_ai_job_oreche.Prelude.{
  ℕ, zero, suc, pos, String, Bool, true, false, Option, none, some, List, [], ◌∷◌,
}
use autonomous_ai_job_oreche.Settings.{Settings, default_settings}
use autonomous_ai_job_oreche.Services.{
  Env, Command, Reply, Entry, set_nx, get, xadd, xrevrange, xautoclaim, nil, string, number,
  entries,
}
use autonomous_ai_job_oreche.Services.Listed.{listed_env}
use autonomous_ai_job_oreche.Job.{
  JobStatus, pending, running, failed, no_fields, JobBase, JobCreate, DagJobCreate, Job,
}
use autonomous_ai_job_oreche.Db.{TenantRow, JobRow, RunRow, Db}
use autonomous_ai_job_oreche.Executor.{ExecutionResult}
use autonomous_ai_job_oreche.World.{World}

abbrev uuid_of : ℕ → String
uuid_of zero = "a"
uuid_of (suc n) = String.◌∷◌ "a" (uuid_of n)

-- Two entries that a worker claims, of which the first names no job.
abbrev stale : List Entry
stale =
    record { message_id = "1-0"; fields = [] }
    ∷ record { message_id = "2-0"; fields = ("job_id", "j1") ∷ [] }
    ∷ []

-- The state of the server says whether a lease is granted.
abbrev answer : Command → Bool → Reply
answer (set_nx k v t) true = string "OK"
answer (set_nx k v t) false = nil
answer (get k) granted = string "worker-1"
answer (xadd k fs n) granted = string "1-0"
answer (xrevrange k n) granted = entries []
answer (xautoclaim s g c i n) granted = entries stale
answer _ granted = number 1

instance abbrev test_env : Env
test_env =
    listed_env default_settings (λ a b. true) (λ payload. 2) uuid_of Bool answer
      (λ c granted. granted)

abbrev acme : TenantRow
acme = record {
  id = "acme";
  name = "Acme";
  rate_limit = none;
  max_jobs = some 3;
  executor_allowlist = none;
}

abbrev row_of : String → String → JobStatus → ℕ → JobRow
row_of id tenant status retries = record {
  id = id;
  tenant_id = tenant;
  name = "job";
  description = none;
  priority = 1;
  deadline = none;
  est_duration = pos 5;
  status = status;
  idempotency_key = none;
  payload = no_fields;
  resource_req = none;
  retry_count = retries;
  worker_id = none;
  started_at = none;
  completed_at = none;
  created_at = 10;
}

abbrev waiting : JobRow
waiting = row_of "j1" "acme" pending 0

abbrev broken : JobRow
broken = row_of "j2" "acme" failed 2

abbrev tables : Db
tables = record {
  tenants = acme ∷ [];
  jobs = waiting ∷ broken ∷ [];
  runs = [];
  dependencies = [];
  audits = [];
  api_keys = [];
  service_accounts = [];
}

abbrev with_lease : Bool → World
with_lease granted = record {
  db = tables;
  redis = granted;
  now = 1000;
  drawn = 0;
  sent = [];
  files = [];
}

abbrev start : World
start = with_lease true

abbrev base : JobBase
base = record {
  name = "job";
  description = none;
  priority = 1;
  deadline = none;
  estimated_duration = pos 5;
  dependencies = [];
  payload = no_fields;
  resource_req = none;
}

abbrev request : JobCreate
request = record { base = base; idempotency_key = some "k"; enqueue = true }

abbrev node : String → List String → DagJobCreate
node key deps = record {
  key = key;
  name = "node";
  description = none;
  priority = 1;
  deadline = none;
  estimated_duration = pos 5;
  payload = no_fields;
  resource_req = none;
  depends_on = deps;
}

abbrev success : ExecutionResult
success = record {
  success = true;
  exit_code = pos 0;
  stdout = "done";
  stderr = "";
  duration_seconds = 5;
  error_message = none;
}

abbrev failure_result : ExecutionResult
failure_result = record {
  success = false;
  exit_code = pos 1;
  stdout = "";
  stderr = "boom";
  duration_seconds = 5;
  error_message = some "boom";
}

abbrev created : Job
created = record {
  base = base;
  id = "a";
  status = pending;
  created_at = 1000;
  started_at = none;
  completed_at = none;
  retry_count = 0;
  worker_id = none;
  idempotency_key = some "k";
  tenant_id = some "acme";
}
