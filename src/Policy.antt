-- ===== src/Policy.antt =====
-- src/tenancy/policy.py: the limits of a tenant, its executors and its job quota.
use autonomous_ai_job_oreche.Prelude.{
  ℕ, ◌+◌, String, Bool, true, false, not, ◌&&◌, Option, none, some, List, str_eq, truthy, ltb,
  count, contains, stripped, split_commas, if◌then◌else◌,
}
use autonomous_ai_job_oreche.Services.{Env}
use autonomous_ai_job_oreche.Settings.{executor_allowlist}
use autonomous_ai_job_oreche.Job.{
  Json, null, bool, number, text, array, object, JobStatus, pending, running, retrying, completed,
  failed, cancelled,
}
use autonomous_ai_job_oreche.Db.{TenantRow, JobRow, Db, get_tenant, job_rows}
use autonomous_ai_job_oreche.World.{
  Result, ok, err, quota_exceeded, executor_not_allowed, type_error, raise_if, ◌>>=◌,
}

-- `ACTIVE_JOB_STATUSES`; its fourth text, QUEUED, is no `JobStatus` and is never written.
abbrev pub is_active : JobStatus → Bool
is_active pending = true
is_active running = true
is_active retrying = true
is_active completed = false
is_active failed = false
is_active cancelled = false

abbrev pub active_job_of : String → JobRow → Bool
active_job_of tenant_id r = str_eq r.tenant_id tenant_id && is_active r.status

-- `value in allowlist` for a set of texts: only a text can be in it, and a list or a dictionary
-- cannot be hashed.
unfoldable pub json_in : Json → List String → Result Bool
json_in (text s) allowed = ok (contains s allowed)
json_in (array xs) allowed = err type_error
json_in (object fs) allowed = err type_error
json_in null allowed = ok false
json_in (bool b) allowed = ok false
json_in (number n) allowed = ok false

module _ ⦃env : Env⦄ where
  open env use {settings}

  unfoldable pub max_jobs_for : Option TenantRow → ℕ
  max_jobs_for none = settings.default_tenant_max_jobs
  max_jobs_for (some tenant) = elim tenant.max_jobs [
    | none ↦ settings.default_tenant_max_jobs
    | some n ↦ n
  ]

  unfoldable pub rate_limit_for : Option TenantRow → ℕ
  rate_limit_for none = settings.default_tenant_rate_limit
  rate_limit_for (some tenant) = elim tenant.rate_limit [
    | none ↦ settings.default_tenant_rate_limit
    | some n ↦ n
  ]

  abbrev allowlist_of_text : Option String → List String
  allowlist_of_text none = executor_allowlist settings
  allowlist_of_text (some raw) =
      if truthy raw then stripped (split_commas raw) else executor_allowlist settings

  unfoldable pub executor_allowlist_for : Option TenantRow → List String
  executor_allowlist_for none = executor_allowlist settings
  executor_allowlist_for (some tenant) = allowlist_of_text tenant.executor_allowlist

  -- The jobs of a tenant that count against its quota.
  unfoldable pub active_jobs : String → Db → ℕ
  active_jobs tenant_id db = count (active_job_of tenant_id) (job_rows db)

  unfoldable pub enforce_job_quota : Db → String → ℕ → Result (Unit {0})
  enforce_job_quota db tenant_id additional =
      let max_jobs = max_jobs_for (get_tenant tenant_id db) in
      let active = active_jobs tenant_id db in
      raise_if (ltb max_jobs (active + additional)) (quota_exceeded active max_jobs)

  -- The tenant is read in a session of its own: `db` is what is committed.
  unfoldable pub validate_executor_type : Db → String → Json → Result (Unit {0})
  validate_executor_type db tenant_id executor_type = do
    allowed ← json_in executor_type (executor_allowlist_for (get_tenant tenant_id db))
    raise_if (not allowed) (executor_not_allowed executor_type)
