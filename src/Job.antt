-- ===== src/Job.antt =====
-- src/models/job.py: jobs, runs and the requests that create them. A duration is a signed number of
-- microseconds, a moment a number of microseconds; JSON numbers are in millionths.
pub mod Validate
use autonomous_ai_job_oreche.Prelude.{
  ◌≡◌, refl, arith, ℕ, ℤ, is_zero, String, Bool, true, false, not, ◌&&◌, Option, none, some, List,
  [], ◌∷◌, str_eq, truthy, if◌then◌else◌,
}

-- A value of `Dict[str, Any]`, as JSON has them.
mutual
  pub data Json : Type 0 where
    null : Json
    bool : Bool → Json
    number : ℤ → Json
    text : String → Json
    array : Items → Json
    object : Fields → Json

  pub data Items : Type 0 where
    no_items : Items
    item : Json → Items → Items

  pub data Fields : Type 0 where
    no_fields : Fields
    field : String → Json → Fields → Fields

-- `payload.get(key)`; a dictionary has each key once.
unfoldable pub get_field : String → Fields → Option Json
get_field k no_fields = none
get_field k (field j v rest) = if str_eq j k then some v else get_field k rest

-- `bool(value)`.
abbrev pub truthy_json : Json → Bool
truthy_json null = false
truthy_json (bool b) = b
truthy_json (number n) = not (is_zero n)
truthy_json (text s) = truthy s
truthy_json (array no_items) = false
truthy_json (array (item j r)) = true
truthy_json (object no_fields) = false
truthy_json (object (field k j r)) = true

pub data JobStatus : Type 0 where
  pending running completed failed retrying cancelled : JobStatus

abbrev pub status_eq : JobStatus → JobStatus → Bool
status_eq pending pending = true
status_eq running running = true
status_eq completed completed = true
status_eq failed failed = true
status_eq retrying retrying = true
status_eq cancelled cancelled = true
status_eq _ _ = false

pub status_eq-eq : (a b : JobStatus) → status_eq a b ≡ true → a ≡ b
status_eq-eq pending b h = ground arith
status_eq-eq running b h = ground arith
status_eq-eq completed b h = ground arith
status_eq-eq failed b h = ground arith
status_eq-eq retrying b h = ground arith
status_eq-eq cancelled b h = ground arith

pub record ResourceReq : Type 0 where
  pub cpu_seconds : Option ℕ
  pub memory_mb : Option ℕ
  pub timeout_seconds : Option ℕ

pub record JobBase : Type 0 where
  pub name : String
  pub description : Option String
  pub priority : ℕ
  pub deadline : Option ℕ
  pub estimated_duration : ℤ
  pub dependencies : List String
  pub payload : Fields
  pub resource_req : Option ResourceReq

pub record JobCreate : Type 0 where
  pub base : JobBase
  pub open base use *
  pub idempotency_key : Option String
  pub enqueue : Bool

pub record Job : Type 0 where
  pub base : JobBase
  pub open base use *
  pub id : String
  pub status : JobStatus
  pub created_at : ℕ
  pub started_at : Option ℕ
  pub completed_at : Option ℕ
  pub retry_count : ℕ
  pub worker_id : Option String
  pub idempotency_key : Option String
  pub tenant_id : Option String

-- `Job(**job_create.model_dump())`: the defaults of the other fields, an id and the time drawn.
unfoldable pub new_job : String → ℕ → JobCreate → Job
new_job id now c = record {
  base = c.base;
  id = id;
  status = pending;
  created_at = now;
  started_at = none;
  completed_at = none;
  retry_count = 0;
  worker_id = none;
  idempotency_key = c.idempotency_key;
  tenant_id = none;
}

-- A text of the column `log_ref`: the JSON of a dictionary of texts, or what `json.loads` refuses.
pub data LogRef : Type 0 where
  encoded : List (String × String) → LogRef
  malformed : String → LogRef

pub record Run : Type 0 where
  pub id : String
  pub job_id : String
  pub attempt : ℕ
  pub worker_id : Option String
  pub status : JobStatus
  pub started_at : Option ℕ
  pub finished_at : Option ℕ
  pub exit_code : Option ℤ
  pub error : Option String
  pub stdout : Option String
  pub stderr : Option String
  pub duration : Option ℕ
  pub log_ref : Option LogRef

pub record DagJobCreate : Type 0 where
  pub key : String
  pub name : String
  pub description : Option String
  pub priority : ℕ
  pub deadline : Option ℕ
  pub estimated_duration : ℤ
  pub payload : Fields
  pub resource_req : Option ResourceReq
  pub depends_on : List String
