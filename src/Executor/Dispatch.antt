-- ===== src/Executor/Dispatch.antt =====
-- src/orchestrator/executors: the executors and execute_job, which picks one. What the operating
-- system and the job's own Python code do is the argument `machine`; `show` is Python's text of a
-- value, and `show_seconds` that of a duration.
pub mod Results
use autonomous_ai_job_oreche.Prelude.{
  ℕ, ℤ, pos, negsuc, is_zero, is_positive, ◌*◌, max, String, Bool, true, false, ◌||◌, not, Option,
  none, some, List, str_eq, if◌then◌else◌,
}
use autonomous_ai_job_oreche.Services.{Env}
use autonomous_ai_job_oreche.Job.{
  Json, null, bool, number, text, array, object, no_fields, Fields, get_field, truthy_json, Job,
}
use autonomous_ai_job_oreche.Executor.{ExecutionResult}
use autonomous_ai_job_oreche.Executor.Runner.{refused_run, executor_error_if_disallowed}
use autonomous_ai_job_oreche.Output.{cut_at}
use autonomous_ai_job_oreche.Output.Texts.{append_text}
use autonomous_ai_job_oreche.World.{Result, ok, err}
use autonomous_ai_job_oreche.Manager.{executor_type}

-- `str(e)` and `traceback.format_exc()` of what was raised.
pub record Fault : Type 0 where
  pub message : String
  pub trace : String

-- A MemoryError, another Exception, or a BaseException that is none, like SystemExit.
pub data Raise : Type 0 where
  memory_error : Fault → Raise
  exception : Fault → Raise
  base_exception : Fault → Raise

-- What a call ended with, and the microseconds that it took.
pub data Outcome (A : Type 0) : Type 0 where
  finished : A → ℕ → Outcome A
  raised : Raise → ℕ → Outcome A

-- `subprocess.run` completed, or raised a TimeoutExpired of that text.
pub data ShellEnd : Type 0 where
  completed : ℤ → String → String → ShellEnd
  timeout_expired : String → ShellEnd

-- `subprocess.run(command, shell=True, timeout=timeout, ...)`; importing a module, calling its
-- function with the arguments and taking `str` of what is not None; `time.sleep(duration)`; and
-- looking up a value that has no hash in a set.
pub record Machine : Type 0 where
  pub shell : Json → Json → Outcome ShellEnd
  pub call : Json → Json → Json → Outcome (Option String)
  pub sleep : ℤ → Outcome (Unit {0})
  pub unhashable : Json → Raise

-- How `execute_job` ends: with a result, or raising.
pub data Executed : Type 0 where
  done : ExecutionResult → Executed
  raises : Raise → Executed

abbrev pub succeeded : String → ℕ → ExecutionResult
succeeded stdout duration = record {
  success = true;
  exit_code = pos 0;
  stdout = stdout;
  stderr = "";
  duration_seconds = duration;
  error_message = none;
}

abbrev pub failed_with : String → ℕ → String → ExecutionResult
failed_with stderr duration message = record {
  success = false;
  exit_code = pos 1;
  stdout = "";
  stderr = stderr;
  duration_seconds = duration;
  error_message = some message;
}

-- `payload.get(key)`, where a missing key gives None.
abbrev or_null : Option Json → Json
or_null none = null
or_null (some v) = v

abbrev pub get_or_null : String → Fields → Json
get_or_null key payload = or_null (get_field key payload)

-- `payload.get("args", {})`
abbrev or_no_args : Option Json → Json
or_no_args none = object no_fields
or_no_args (some v) = v

-- `_truncate`
unfoldable pub truncate : String → String
truncate s = cut_at 65_536 s

-- `max(job.estimated_duration * 2, 10)` in millionths.
abbrev default_timeout : ℤ → Json
default_timeout (pos n) = number (pos (max (n * 2) 10_000_000))
default_timeout (negsuc n) = number (pos 10_000_000)

unfoldable pub shell_timeout : Job → Json
shell_timeout job =
    let given = get_or_null "timeout" job.payload in
    if truthy_json given then given else default_timeout job.estimated_duration

-- `job.estimated_duration if job.estimated_duration > 0 else 1.0`
abbrev pub sleep_duration : ℤ → ℤ
sleep_duration d = if is_positive d then d else pos 1_000_000

module _ (show : Json → String) (show_seconds : ℤ → String) (machine : Machine) where
  abbrev shell_result : Json → Outcome ShellEnd → Executed
  shell_result timeout (finished (completed code stdout stderr) duration) = done (record {
    success = is_zero code;
    exit_code = code;
    stdout = truncate stdout;
    stderr = truncate stderr;
    duration_seconds = duration;
    error_message = none;
  })
  shell_result timeout (finished (timeout_expired message) duration) = done (
      failed_with (truncate message) duration
        (append_text "Command timed out after " (append_text (show timeout) " seconds")))
  shell_result timeout (raised e duration) = raises e

  -- ShellExecutor.execute
  unfoldable pub execute_shell : Job → Executed
  execute_shell job =
      let command = get_or_null "command" job.payload in
      if not (truthy_json command)
      then done (refused_run "missing payload.command")
      else shell_result (shell_timeout job) (machine.shell command (shell_timeout job))

  abbrev call_failed : Json → Json → Fault → ℕ → ExecutionResult
  call_failed m f e duration = failed_with e.trace duration (
      append_text "Error executing " (
        append_text (show m) (append_text "." (append_text (show f) (append_text ": " e.message)))))

  -- A MemoryError is an Exception too.
  abbrev call_result : Json → Json → Outcome (Option String) → Executed
  call_result m f (finished none duration) = done (succeeded "" duration)
  call_result m f (finished (some s) duration) = done (succeeded s duration)
  call_result m f (raised (base_exception e) duration) = raises (base_exception e)
  call_result m f (raised (exception e) duration) = done (call_failed m f e duration)
  call_result m f (raised (memory_error e) duration) = done (call_failed m f e duration)

  -- PythonModuleExecutor.execute
  unfoldable pub execute_python : Job → Executed
  execute_python job =
      let m = get_or_null "module" job.payload in
      let f = get_or_null "function" job.payload in
      if not (truthy_json m) || not (truthy_json f)
      then done (refused_run "missing payload.module or payload.function")
      else call_result m f (machine.call m f (or_no_args (get_field "args" job.payload)))

  abbrev sleep_result : ℤ → Outcome (Unit {0}) → Executed
  sleep_result d (finished _ duration) =
      done (succeeded (append_text "Slept for " (append_text (show_seconds d) " seconds")) duration)
  sleep_result d (raised e duration) = raises e

  -- SleepExecutor.execute
  unfoldable pub execute_sleep : Job → Executed
  execute_sleep job =
      let d = sleep_duration job.estimated_duration in sleep_result d (machine.sleep d)

  -- `_EXECUTORS.get(job_type)`, and its `execute` if there is one.
  unfoldable pub execute_as : Json → Job → Executed
  unfolding execute_shell execute_python execute_sleep
  execute_as (text t) job =
      if str_eq t "shell"
      then execute_shell job
      else if str_eq t "python"
      then execute_python job
      else if str_eq t "sleep"
      then execute_sleep job
      else done (refused_run (append_text "Unknown payload.type: " t))
  execute_as other job = done (refused_run (append_text "Unknown payload.type: " (show other)))

  module _ ⦃env : Env⦄ where
    abbrev pub unless_refused : Job → Result (Option ExecutionResult) → Executed
    unless_refused job (err e) = raises (machine.unhashable (executor_type job.payload))
    unless_refused job (ok (some refusal)) = done refusal
    unless_refused job (ok none) = execute_as (executor_type job.payload) job

    unfoldable pub execute_job : Job → Option (List String) → Executed
    unfolding execute_as
    execute_job job allowed =
        unless_refused job (executor_error_if_disallowed (λ n. show (number n)) job allowed)
