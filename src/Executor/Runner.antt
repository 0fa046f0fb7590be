-- ===== src/Executor/Runner.antt =====
-- src/orchestrator/executors/registry.py and src/orchestrator/runners/subprocess_runner.py: which jobs
-- are run, and what the runner makes of the end of the child process. The child is the argument
-- `spawn`; `show_number` is Python's text of a JSON number.
pub mod Success
use autonomous_ai_job_oreche.Prelude.{
  ℕ, ℤ, pos, is_zero, zero, suc, ◌+◌, ◌-◌, ◌/◌, ◌%◌, String, Bool, true, false, ◌&&◌, ◌||◌, Option,
  none, some, List, [], ◌∷◌, ltb, ◌==◌, truthy, str_length, if◌then◌else◌,
}
use autonomous_ai_job_oreche.Services.{Env}
use autonomous_ai_job_oreche.Settings.{executor_allowlist}
use autonomous_ai_job_oreche.Job.{Json, null, bool, number, text, array, object, Job, ResourceReq}
use autonomous_ai_job_oreche.Executor.{ExecutionResult}
use autonomous_ai_job_oreche.Output.Texts.{append_text, decimal}
use autonomous_ai_job_oreche.Policy.{json_in}
use autonomous_ai_job_oreche.World.{Result, ok, err, ◌>>=◌}
use autonomous_ai_job_oreche.Manager.{executor_type}
use autonomous_ai_job_oreche.Manager.Failure.{signed_decimal}

-- An `ExecutionResult` that says why nothing was run, with the defaults of the class.
abbrev pub refused_run : String → ExecutionResult
refused_run message = record {
  success = false;
  exit_code = pos 1;
  stdout = "";
  stderr = "";
  duration_seconds = 0;
  error_message = some message;
}

-- `None` and an empty set both fall back to the settings.
abbrev pub allowlist_or : Option (List String) → List String → List String
allowlist_or none global = global
allowlist_or (some []) global = global
allowlist_or (some (e ∷ es)) global = e ∷ es

-- The part of a text from its n-th character on, and its last n characters: `s[-n:]`.
abbrev drop_text : ℕ → String → String
drop_text zero s = s
drop_text (suc n) String.[] = ""
drop_text (suc n) (String.◌∷◌ c s) = drop_text n s

unfoldable pub last_text : ℕ → String → String
last_text n s = drop_text (str_length s - n) s

-- `f"{t:.0f}"` for a time in microseconds: halves go to the even number.
unfoldable pub rounded_seconds : ℕ → ℕ
rounded_seconds t =
    let q = t / 1_000_000 in
    let r = t % 1_000_000 in if ltb 500_000 r || (r == 500_000 && q % 2 == 1) then q + 1 else q

-- How the child ended: it was killed at the timeout, or it exited, with the result that it wrote.
pub data Ended : Type 0 where
  timed_out : ℕ → Ended
  exited : ℤ → String → ℕ → Option ExecutionResult → Ended

-- `_read_result`
unfoldable pub read_result : ℤ → String → ℕ → Option ExecutionResult → ExecutionResult
unfolding last_text
read_result exit_code stderr duration (some result) = result
read_result exit_code stderr duration none = record {
  success = false;
  exit_code = if is_zero exit_code then pos 1 else exit_code;
  stdout = "";
  stderr = last_text 4096 stderr;
  duration_seconds = duration;
  error_message = some (
      append_text "Runner child exited without a result (exit_code="
        (append_text (signed_decimal exit_code) ")"));
}

unfoldable pub result_of : ℕ → Ended → ExecutionResult
unfolding rounded_seconds
result_of timeout (exited exit_code stderr duration result) =
    read_result exit_code stderr duration result
result_of timeout (timed_out duration) = record {
  success = false;
  exit_code = pos 124;
  stdout = "";
  stderr = "";
  duration_seconds = duration;
  error_message = some (
      append_text "Job exceeded wall-clock timeout of "
        (append_text (decimal (rounded_seconds timeout)) "s"));
}

-- What the child is given.
pub record Envelope : Type 0 where
  pub job : Job
  pub allowed : Option (List String)
  pub cpu_seconds : ℕ
  pub memory_mb : ℕ
  pub timeout : ℕ

abbrev positive_or : Option ℕ → ℕ → ℕ
positive_or none d = d
positive_or (some zero) d = d
positive_or (some (suc n)) d = suc n

abbrev limit_of : (ResourceReq → Option ℕ) → Option ResourceReq → ℕ → ℕ
limit_of f none d = d
limit_of f (some r) d = positive_or (f r) d

module _ ⦃env : Env⦄ (show_number : ℤ → String) where
  open env use {settings}

  -- `str(job_type)` for a job type that is not a text; lists and dictionaries never come here.
  abbrev shown : Json → String
  shown null = "None"
  shown (bool true) = "True"
  shown (bool false) = "False"
  shown (number n) = show_number n
  shown (text s) = s
  shown (array xs) = ""
  shown (object fs) = ""

  abbrev pub disabled_unless : Json → Bool → Option ExecutionResult
  disabled_unless job_type true = none
  disabled_unless job_type false = some (
      refused_run
        (append_text "Executor '" (append_text (shown job_type) "' is disabled by tenant policy")))

  unfoldable pub executor_error_if_disallowed :
      Job → Option (List String) → Result (Option ExecutionResult)
  executor_error_if_disallowed job allowed =
      json_in (executor_type job.payload) (allowlist_or allowed (executor_allowlist settings))
      >>= λ permitted. ok (disabled_unless (executor_type job.payload) permitted)

  unfoldable pub timeout_seconds : Job → ℕ
  timeout_seconds job =
      limit_of (λ r. r.timeout_seconds) job.resource_req settings.default_job_timeout

  unfoldable pub envelope : Job → Option (List String) → Envelope
  envelope job allowed = record {
    job = job;
    allowed = allowed;
    cpu_seconds = limit_of (λ r. r.cpu_seconds) job.resource_req settings.default_job_cpu;
    memory_mb = limit_of (λ r. r.memory_mb) job.resource_req settings.default_job_memory_mb;
    timeout = timeout_seconds job;
  }

  module _ (spawn : Envelope → Ended) where
    abbrev pub unless_disallowed :
        Job → Option (List String) → Option ExecutionResult → Result ExecutionResult
    unless_disallowed job allowed (some refusal) = ok refusal
    unless_disallowed job allowed none =
        ok (result_of (timeout_seconds job) (spawn (envelope job allowed)))

    -- A disallowed executor is refused without a child process.
    unfoldable pub run : Job → Option (List String) → Result ExecutionResult
    run job allowed = executor_error_if_disallowed job allowed >>= unless_disallowed job allowed
