-- ===== src/Manager/Dag.antt =====
-- src/orchestrator/job_manager.py: the creation of a batch of jobs that depend on one another by keys.
pub mod Checks
pub mod Batch
use autonomous_ai_job_oreche.Prelude.{
  ℕ, suc, ◌+◌, String, Bool, false, ◌||◌, Option, none, some, List, [], ◌∷◌, map, length, str_eq,
  contains, if◌then◌else◌,
}
use autonomous_ai_job_oreche.Services.{Env}
use autonomous_ai_job_oreche.Job.{DagJobCreate, Job, pending, array, field, no_fields}
use autonomous_ai_job_oreche.Db.{JobRow, Db, add_job, add_dependency}
use autonomous_ai_job_oreche.Policy.{validate_executor_type, enforce_job_quota}
use autonomous_ai_job_oreche.World.{
  World, Result, ok, err, duplicate_dag_keys, unknown_dag_dependency, integrity_error, or_raise,
  raise_if, ◌>>=◌, ◌>>◌,
}
use autonomous_ai_job_oreche.Manager.{
  executor_type, text_items, ensure_default_tenant, audit, to_models,
}

abbrev pub keys_of : List DagJobCreate → List String
keys_of nodes = map (λ (n : DagJobCreate). n.key) nodes

-- `len(keys) != len(set(keys))`
unfoldable pub has_duplicates : List String → Bool
unfolding contains
has_duplicates [] = false
has_duplicates (k ∷ ks) = contains k ks || has_duplicates ks

unfoldable pub check_known : List String → List String → Result (Unit {0})
unfolding contains
check_known keys [] = ok tt
check_known keys (dep ∷ deps) =
    let rest = check_known keys deps in
    if contains dep keys then rest else err (unknown_dag_dependency dep)

unfoldable pub check_dependencies : List String → List DagJobCreate → Result (Unit {0})
unfolding check_known
check_dependencies keys [] = ok tt
check_dependencies keys (n ∷ ns) =
    let rest = check_dependencies keys ns in check_known keys n.depends_on >> rest

-- The checks that come before the session: keys are unique, and name every dependency.
unfoldable pub check_dag : List DagJobCreate → Result (Unit {0})
unfolding has_duplicates check_dependencies
check_dag nodes =
    let rest = check_dependencies (keys_of nodes) nodes in
    raise_if (has_duplicates (keys_of nodes)) duplicate_dag_keys >> rest

unfoldable pub dag_row : String → ℕ → String → DagJobCreate → JobRow
dag_row tenant_id now id n = record {
  id = id;
  tenant_id = tenant_id;
  name = n.name;
  description = n.description;
  priority = n.priority;
  deadline = n.deadline;
  est_duration = n.estimated_duration;
  status = pending;
  idempotency_key = none;
  payload = n.payload;
  resource_req = n.resource_req;
  retry_count = 0;
  worker_id = none;
  started_at = none;
  completed_at = none;
  created_at = now;
}

-- `key_to_id[key]`; the keys are unique when it is read.
unfoldable pub id_of_key : String → List (DagJobCreate × JobRow) → Option String
id_of_key key [] = none
id_of_key key ((n, row) ∷ rows) = if str_eq n.key key then some row.id else id_of_key key rows

module _ ⦃env : Env⦄ where
  open env use {settings, uuid}

  unfoldable pub validate_executors : Db → String → List DagJobCreate → Result (Unit {0})
  validate_executors db tenant_id [] = ok tt
  validate_executors db tenant_id (n ∷ ns) =
      let rest = validate_executors db tenant_id ns in
      validate_executor_type db tenant_id (executor_type n.payload) >> rest

  -- The rows of the nodes, each with the next id drawn.
  unfoldable pub dag_rows : String → ℕ → ℕ → List DagJobCreate → List (DagJobCreate × JobRow)
  unfolding dag_row
  dag_rows tenant_id now drawn [] = []
  dag_rows tenant_id now drawn (n ∷ ns) =
      (n, dag_row tenant_id now (uuid drawn) n) ∷ dag_rows tenant_id now (suc drawn) ns

  unfoldable pub add_jobs : List (DagJobCreate × JobRow) → Db → Result Db
  add_jobs [] db = ok db
  add_jobs ((n, row) ∷ rows) db = do
    db1 ← or_raise integrity_error (add_job row db)
    add_jobs rows db1

  unfoldable pub add_edges : List (DagJobCreate × JobRow) → String → List String → Db → Result Db
  unfolding id_of_key
  add_edges rows id [] db = ok db
  add_edges rows id (key ∷ keys) db = do
    parent ← or_raise (unknown_dag_dependency key) (id_of_key key rows)
    db1 ←
        or_raise integrity_error
          (add_dependency (record { job_id = id; depends_on_job_id = parent }) db)
    add_edges rows id keys db1

  unfoldable pub add_all_edges :
      List (DagJobCreate × JobRow) → List (DagJobCreate × JobRow) → Db → Result Db
  unfolding add_edges
  add_all_edges rows [] db = ok db
  add_all_edges rows ((n, row) ∷ rest) db = do
    db1 ← add_edges rows row.id n.depends_on db
    add_all_edges rows rest db1

  unfoldable pub stage_dag : World → String → List DagJobCreate → Result (Db × List JobRow)
  stage_dag w tenant_id nodes = do
    let rows = dag_rows tenant_id w.now w.drawn nodes
    db ← ensure_default_tenant tenant_id w.db
    validate_executors w.db tenant_id nodes
    enforce_job_quota db tenant_id (length nodes)
    db1 ← add_jobs rows db
    db2 ← add_all_edges rows rows db1
    ok (
      audit (uuid (w.drawn + length nodes)) tenant_id w.now "dag.created" "dag:batch"
          (field "job_keys" (array (text_items (keys_of nodes))) no_fields) "system" db2,
      map (λ (p : DagJobCreate × JobRow). p.1) rows,
    )

  -- The rows are committed when the jobs are made of them: if a node exceeds what `Job` allows, that
  -- raises, and the rows stay.
  abbrev pub finish_dag : World → ℕ → Result (Db × List JobRow) → Result (List Job) × World
  finish_dag w drawn (ok (db, rows)) = (to_models db rows, record w { db = db; drawn = drawn })
  finish_dag w drawn (err e) = (err e, w)

  unfoldable pub create_dag : List DagJobCreate → String → World → Result (List Job) × World
  create_dag nodes tenant_id w =
      finish_dag w (w.drawn + length nodes + 1) (check_dag nodes >> stage_dag w tenant_id nodes)
