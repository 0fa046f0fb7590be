-- ===== src/Job/Validate.antt =====
-- The validators of src/models/job.py, which run when a request is parsed. The length of
-- `json.dumps` is an argument.
use autonomous_ai_job_oreche.Prelude.{
  ℕ, String, Bool, true, not, ◌&&◌, Option, none, some, List, ltb, leb, length, str_length, all,
}
use autonomous_ai_job_oreche.Settings.{Settings}
use autonomous_ai_job_oreche.Job.{ResourceReq, JobBase, JobCreate, DagJobCreate, Fields}

-- `Field(ge=1, le=10)`.
abbrev valid_priority : ℕ → Bool
valid_priority p = leb 1 p && leb p 10

-- `Field(default=None, gt=0)`.
abbrev positive_if_given : Option ℕ → Bool
positive_if_given none = true
positive_if_given (some n) = ltb 0 n

abbrev valid_resource_req : Option ResourceReq → Bool
valid_resource_req none = true
valid_resource_req (some r) =
    positive_if_given r.cpu_seconds
    && positive_if_given r.memory_mb
    && positive_if_given r.timeout_seconds

abbrev at_most : ℕ → Option String → Bool
at_most n none = true
at_most n (some s) = leb (str_length s) n

module _ (s : Settings) (dumps_length : Fields → ℕ) where
  unfoldable pub valid_dependency_count : List String → Bool
  valid_dependency_count value = not (ltb s.max_job_dependencies (length value))

  unfoldable pub valid_payload_size : Fields → Bool
  valid_payload_size value = not (ltb s.max_job_payload_bytes (dumps_length value))

  unfoldable pub valid_job_base : JobBase → Bool
  unfolding valid_dependency_count valid_payload_size
  valid_job_base b =
      valid_priority b.priority
      && valid_dependency_count b.dependencies
      && valid_payload_size b.payload
      && valid_resource_req b.resource_req

  unfoldable pub valid_job_create : JobCreate → Bool
  unfolding valid_job_base
  valid_job_create c = valid_job_base c.base && at_most 255 c.idempotency_key

  unfoldable pub valid_dag_size : List DagJobCreate → Bool
  valid_dag_size value = not (ltb s.max_dag_jobs (length value))

abbrev valid_dag_node : DagJobCreate → Bool
valid_dag_node n =
    leb 1 (str_length n.key)
    && leb (str_length n.key) 64
    && valid_priority n.priority
    && valid_resource_req n.resource_req

module _ (s : Settings) (dumps_length : Fields → ℕ) where
  -- `DagSubmit`: `min_length=1`, the size and each node.
  unfoldable pub valid_dag_submit : List DagJobCreate → Bool
  unfolding valid_dag_size
  valid_dag_submit jobs =
      leb 1 (length jobs) && valid_dag_size s dumps_length jobs && all valid_dag_node jobs
