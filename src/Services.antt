-- ===== src/Services.antt =====
-- What the program calls and does not implement: the tables behind SQLAlchemy, the Redis server,
-- `uuid.uuid4`, and the collation of the database. An `Env` is an argument of all that use them.
-- `World` is the state that one call of the program starts from: the committed tables, the Redis
-- server, the time, and the commands that this process has sent.
pub mod Listed
use autonomous_ai_job_oreche.Prelude.{
  ℕ, ◌+◌, String, Bool, true, Option, none, some, List, [], ◌∷◌, ◌≡◌, str_eq, find, count, bit,
  if◌then◌else◌,
}
use autonomous_ai_job_oreche.Settings.{Settings}
use autonomous_ai_job_oreche.Job.{Fields}

-- One entry of a stream, as redis-py returns it.
pub record Entry : Type 0 where
  pub message_id : String
  pub fields : List (String × String)

pub data Command : Type 0 where
  xadd : String → List (String × String) → ℕ → Command
  xgroup_create : String → String → Command
  xreadgroup : String → String → String → ℕ → ℕ → Command
  xautoclaim : String → String → String → ℕ → ℕ → Command
  xack : String → String → String → Command
  xrevrange : String → ℕ → Command
  xpending : String → String → Command
  xinfo_groups : String → Command
  set_nx : String → String → ℕ → Command
  get : String → Command
  expire : String → ℕ → Command
  delete : String → Command
  incr : String → Command

-- `failure` is a `redis.RedisError` that the client raises, with its text; `response_error` the
-- case of a `redis.ResponseError`.
pub data Reply : Type 0 where
  nil : Reply
  string : String → Reply
  number : ℕ → Reply
  entries : List Entry → Reply
  groups : List (String × ℕ) → Reply
  response_error : String → Reply
  failure : String → Reply

pub record Env : Type 1 where
  pub settings : Settings
  -- a mapped table, the rows that a SELECT sees, `session.get`, INSERT and UPDATE by key
  pub Table : Type 0 → Type 0
  pub rows : (Row : Type 0) → Table Row → List Row
  pub get_row : (Row : Type 0) → (Row → String) → String → Table Row → Option Row
  pub insert_row : (Row : Type 0) → Row → Table Row → Table Row
  pub update_row : (Row : Type 0) → (Row → String) → Row → Table Row → Table Row
  pub get_row_query :
      (Row : Type 0) (key : Row → String) (k : String) (t : Table Row)
      → get_row Row key k t ≡ find (λ r. str_eq (key r) k) (rows Row t)
  pub get_row-insert :
      (Row : Type 0) (key : Row → String) (k : String) (r : Row) (t : Table Row)
      → get_row Row key (key r) t ≡ none
      → get_row Row key k (insert_row Row r t)
        ≡ (if str_eq (key r) k then some r else get_row Row key k t)
  pub get_row-update :
      (Row : Type 0) (key : Row → String) (k : String) (r old : Row) (t : Table Row)
      → get_row Row key (key r) t ≡ some old
      → get_row Row key k (update_row Row key r t)
        ≡ (if str_eq (key r) k then some r else get_row Row key k t)
  pub count-insert :
      (Row : Type 0) (p : Row → Bool) (r : Row) (t : Table Row)
      → count p (rows Row (insert_row Row r t)) ≡ bit (p r) + count p (rows Row t)
  pub count-update :
      (Row : Type 0) (key : Row → String) (p : Row → Bool) (r old : Row) (t : Table Row)
      → get_row Row key (key r) t ≡ some old
      → count p (rows Row (update_row Row key r t)) + bit (p old) ≡ bit (p r) + count p (rows Row t)
  -- `ORDER BY` on a text column
  pub text_le : String → String → Bool
  -- the length of `json.dumps(payload, default=str)`
  pub dumps_length : Fields → ℕ
  -- the n-th text that `uuid4` draws
  pub uuid : ℕ → String
  -- the Redis server: its reply to a command, and its state after one
  pub Redis : Type 0
  pub reply : Command → Redis → Reply
  pub after : Command → Redis → Redis
