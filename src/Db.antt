-- ===== src/Db.antt =====
-- src/db/models: the tables, and the integrity that their keys declare. An insert that breaks a
-- primary key, a foreign key or a unique constraint gives `none`, the IntegrityError.
mod Rows
pub use Rows.*
pub mod Laws
pub mod Inserts
use autonomous_ai_job_oreche.Prelude.{
  ℕ, ℤ, ◌+◌, String, Bool, true, false, not, ◌&&◌, ◌||◌, Option, none, some, List, [], ◌∷◌, str_eq,
  ◌==◌, ltb, find, count, is_some, if◌then◌else◌,
}
use autonomous_ai_job_oreche.Services.{Env}

abbrev pub opt_text_eq : Option String → Option String → Bool
opt_text_eq (some a) (some b) = str_eq a b
opt_text_eq _ _ = false

-- a row that `uq_jobs_tenant_idempotency_key` keeps from being added; NULL keys never clash
abbrev pub same_idempotency_key : String → Option String → JobRow → Bool
same_idempotency_key tenant k r = str_eq r.tenant_id tenant && opt_text_eq r.idempotency_key k

abbrev pub same_edge : DependencyRow → DependencyRow → Bool
same_edge r x = str_eq x.job_id r.job_id && str_eq x.depends_on_job_id r.depends_on_job_id

module _ ⦃env : Env⦄ where
  open env use {Table, rows, get_row, insert_row, update_row}

  pub record Db : Type 0 where
    pub tenants : Table TenantRow
    pub jobs : Table JobRow
    pub runs : Table RunRow
    pub dependencies : Table DependencyRow
    pub audits : Table AuditLogRow
    pub api_keys : Table ApiKeyRow
    pub service_accounts : Table ServiceAccountRow

  -- `db.get(TenantRow, id)`, `db.get(JobRow, id)`, `db.get(RunRow, id)`
  unfoldable pub get_tenant : String → Db → Option TenantRow
  get_tenant k db = get_row TenantRow (λ r. r.id) k db.tenants

  unfoldable pub get_job_row : String → Db → Option JobRow
  get_job_row k db = get_row JobRow (λ r. r.id) k db.jobs

  unfoldable pub get_run_row : String → Db → Option RunRow
  get_run_row k db = get_row RunRow (λ r. r.id) k db.runs

  -- the rows that `select(...)` starts from
  unfoldable pub job_rows : Db → List JobRow
  job_rows db = rows JobRow db.jobs

  unfoldable pub run_rows : Db → List RunRow
  run_rows db = rows RunRow db.runs

  unfoldable pub dependency_rows : Db → List DependencyRow
  dependency_rows db = rows DependencyRow db.dependencies

  unfoldable pub audit_rows : Db → List AuditLogRow
  audit_rows db = rows AuditLogRow db.audits

  -- UPDATE of a loaded row
  unfoldable pub save_job : JobRow → Db → Db
  save_job r db = record db { jobs = update_row JobRow (λ x. x.id) r db.jobs }

  unfoldable pub save_run : RunRow → Db → Db
  save_run r db = record db { runs = update_row RunRow (λ x. x.id) r db.runs }

  unfoldable pub add_audit_row : AuditLogRow → Db → Db
  add_audit_row r db = record db { audits = insert_row AuditLogRow r db.audits }

  abbrev pub check_then : Bool → Db → Option Db
  check_then b db = if b then some db else none

  -- primary key `id`, unique `name`
  unfoldable pub add_tenant : TenantRow → Db → Option Db
  unfolding get_tenant
  add_tenant r db =
      check_then
        (not (is_some (get_tenant r.id db))
          && count (λ (x : TenantRow). str_eq x.name r.name) (rows TenantRow db.tenants) == 0)
        (record db { tenants = insert_row TenantRow r db.tenants })

  -- primary key `id`, foreign key `tenant_id`, unique (`tenant_id`, `idempotency_key`)
  unfoldable pub add_job : JobRow → Db → Option Db
  unfolding get_job_row get_tenant job_rows
  add_job r db =
      check_then
        (not (is_some (get_job_row r.id db))
          && is_some (get_tenant r.tenant_id db)
          && count (same_idempotency_key r.tenant_id r.idempotency_key) (job_rows db) == 0)
        (record db { jobs = insert_row JobRow r db.jobs })

  -- primary key `id`, foreign key `job_id`, unique (`job_id`, `attempt`)
  unfoldable pub add_run : RunRow → Db → Option Db
  unfolding get_run_row get_job_row run_rows
  add_run r db =
      check_then
        (not (is_some (get_run_row r.id db))
          && is_some (get_job_row r.job_id db)
          && count (λ (x : RunRow). str_eq x.job_id r.job_id && x.attempt == r.attempt)
              (run_rows db)
            == 0)
        (record db { runs = insert_row RunRow r db.runs })

  -- primary key (`job_id`, `depends_on_job_id`), both foreign keys to `jobs`
  unfoldable pub add_dependency : DependencyRow → Db → Option Db
  unfolding get_job_row dependency_rows
  add_dependency r db =
      check_then
        (is_some (get_job_row r.job_id db)
          && is_some (get_job_row r.depends_on_job_id db)
          && count (same_edge r) (dependency_rows db) == 0)
        (record db { dependencies = insert_row DependencyRow r db.dependencies })

  unfoldable pub get_api_key : String → Db → Option ApiKeyRow
  get_api_key k db = get_row ApiKeyRow (λ r. r.id) k db.api_keys

  unfoldable pub api_key_rows : Db → List ApiKeyRow
  api_key_rows db = rows ApiKeyRow db.api_keys

  unfoldable pub save_api_key : ApiKeyRow → Db → Db
  save_api_key r db = record db { api_keys = update_row ApiKeyRow (λ x. x.id) r db.api_keys }

  -- primary key `id`, foreign key `tenant_id`, unique `key_hash`
  unfoldable pub add_api_key : ApiKeyRow → Db → Option Db
  unfolding get_api_key get_tenant api_key_rows
  add_api_key r db =
      check_then
        (not (is_some (get_api_key r.id db))
          && is_some (get_tenant r.tenant_id db)
          && count (λ (x : ApiKeyRow). str_eq x.key_hash r.key_hash) (api_key_rows db) == 0)
        (record db { api_keys = insert_row ApiKeyRow r db.api_keys })

  unfoldable pub get_service_account : String → Db → Option ServiceAccountRow
  get_service_account k db = get_row ServiceAccountRow (λ r. r.id) k db.service_accounts

  unfoldable pub service_account_rows : Db → List ServiceAccountRow
  service_account_rows db = rows ServiceAccountRow db.service_accounts

  unfoldable pub save_service_account : ServiceAccountRow → Db → Db
  save_service_account r db = record db {
    service_accounts = update_row ServiceAccountRow (λ x. x.id) r db.service_accounts;
  }

  -- primary key `id`, foreign key `tenant_id`, unique `client_id`, unique `secret_hash`
  unfoldable pub add_service_account : ServiceAccountRow → Db → Option Db
  unfolding get_service_account get_tenant service_account_rows
  add_service_account r db =
      check_then
        (not (is_some (get_service_account r.id db))
          && is_some (get_tenant r.tenant_id db)
          && count (λ (x : ServiceAccountRow). str_eq x.client_id r.client_id)
              (service_account_rows db)
            == 0
          && count (λ (x : ServiceAccountRow). str_eq x.secret_hash r.secret_hash)
              (service_account_rows db)
            == 0)
        (record db { service_accounts = insert_row ServiceAccountRow r db.service_accounts })
